-- ===== src/Tests/Enqueue.antt =====
-- The values that are enqueued (command/command.go), for a result with one value that is no number.
use mackerel_agent.Prelude.{ℕ, ◌≡◌, refl, lookup, none, some, [], ◌∷◌, total, ◌==◌}
use mackerel_agent.Agent.{MetricsResult}
use mackerel_agent.Command.Enqueue.{Float, enqueue_result}
use mackerel_agent.Command.Enqueue.Sent.{known_total, enqueue_result_lem}

-- Numbers, of which 0 stands for NaN and 1 for infinity.
abbrev floats : Float ℕ
floats = record { is_nan = λ n. n == 0; is_inf = λ n. n == 1 }

abbrev result : MetricsResult ℕ
result = record {
  created = 60;
  values =
      record { values = ("cpu", 5) ∷ ("load", 0) ∷ []; custom_identifier = none }
      ∷ record { values = ("queries", 9) ∷ []; custom_identifier = some "db" }
      ∷ [];
}

enqueue_result_lem_example :
    total (λ v. v.value) (enqueue_result floats "h1" (("db", "h2") ∷ []) result)
    ≡ known_total floats (λ v. v.value) "h1" (("db", "h2") ∷ []) result.created result.values
unfolding lookup
enqueue_result_lem_example =
    enqueue_result_lem floats (λ v. v.value) "h1" (("db", "h2") ∷ []) result (refl, tt)
