-- ===== src/Tests/Agent.antt =====
-- Generators that end in different orders, and a short run of the ticker (agent/generator.go,
-- agent/agent.go).
use mathlib.Core.List.{Permᴰ}
use mackerel_agent.Prelude.{true, ℕ, ◌≤◌, ◌*◌, ◌≡◌, refl, none, some, List, [], ◌∷◌, arith, lookup}
use mackerel_agent.Metrics.{same_identifier}
use mackerel_agent.Metrics.Merge.{lookup_metric}
use mackerel_agent.Agent.{Job, generated, failed, arrivals, generate_values}
use mackerel_agent.Agent.Collect.{HoldMaps, providers, generate_values-order}
use mackerel_agent.Agent.Watch.{
  Watch, WatchEvent, tick, start, finish, begin_watch, watch_run, second,
}
use mackerel_agent.Agent.Watch.Bounds.{WatchInv, watch_bounds}

abbrev cpu_job : Job ℕ
cpu_job = record { result = generated (("cpu", 5) ∷ []); plugin = none }

abbrev plugin_job : Job ℕ
plugin_job = record { result = generated (("dice", 3) ∷ []); plugin = some none }

abbrev broken_job : Job ℕ
broken_job = record { result = failed; plugin = some none }

abbrev jobs : List (Job ℕ)
jobs = cpu_job ∷ plugin_job ∷ broken_job ∷ []

abbrev others : List (Job ℕ)
others = plugin_job ∷ cpu_job ∷ broken_job ∷ []

jobs_maps : HoldMaps (arrivals jobs)
unfolding arrivals lookup
jobs_maps = ((refl, tt), ((refl, tt), tt))

others_maps : HoldMaps (arrivals others)
unfolding arrivals lookup
others_maps = ((refl, tt), ((refl, tt), tt))

one_dice : providers none "dice" (arrivals jobs) ≤ 1
unfolding arrivals lookup same_identifier
one_dice = omega arith

generate_values-order_example :
    lookup_metric none "dice" (generate_values jobs)
    ≡ lookup_metric none "dice" (generate_values others)
generate_values-order_example =
    generate_values-order none "dice" jobs others (Permᴰ.swap refl refl) one_dice jobs_maps
      others_maps

abbrev ran : Watch
ran = record {
  last = 60 * second;
  clock = 60 * second;
  held = none;
  workers = 1;
  started = 60 * second ∷ 5 * second ∷ [];
  finished = 1;
}

abbrev schedule : List WatchEvent
schedule = start ∷ tick (6 * second) true ∷ finish ∷ tick (60 * second) true ∷ start ∷ []

ran-schedule : watch_run schedule (begin_watch (5 * second)) ≡ some ran
unfolding watch_run begin_watch
ran-schedule = refl

watch_bounds_example : WatchInv ran
watch_bounds_example = watch_bounds (5 * second) schedule ran ran-schedule
