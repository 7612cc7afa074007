-- ===== src/Supervisor/Restarts.antt =====
-- When the child of supervisor/supervisor.go is started again, and how often.
use mackerel_agent.Prelude.{
  ℕ, ◌+◌, ◌*◌, ◌≤◌, Bool, true, false, none, some, List, [], ◌∷◌, ◌≡◌, arith, inl, inr,
  Option-cases, ◌⊎◌, is_some, if◌then◌else◌,
}
use mackerel_agent.Supervisor.{
  Supervisor, SupervisorEvent, hup, stop_signal, child_exit, starts, child_ended, spawn_interval,
  supervisor_step, supervised, supervisor_run,
}

-- Whether an event is a reload with a good configuration.
abbrev if_reload : SupervisorEvent → ℕ
if_reload (hup true) = 1
if_reload _ = 0

-- How many reloads were asked for with a good configuration.
abbrev pub reloads : List (ℕ × SupervisorEvent) → ℕ
reloads [] = 0
reloads ((now, e) ∷ es) = if_reload e + reloads es

abbrev if_hupped : Bool → ℕ
if_hupped true = spawn_interval
if_hupped false = 0

abbrev if_restarting : Bool → ℕ
if_restarting true = spawn_interval
if_restarting false = 0

-- Every start after the first is paid for by a reload, or by thirty seconds that the child lived.
record Paid (t0 k : ℕ) (sv : Supervisor) : Type 0 where
  began : t0 ≤ sv.start_at
  past : sv.start_at ≤ sv.clock
  paid :
      spawn_interval * sv.spawns + if_hupped sv.hupped + t0 ≤ spawn_interval * (k + 1) + sv.start_at
  decided :
      spawn_interval * sv.spawns + if_restarting sv.restarting + t0
      ≤ spawn_interval * (k + 1) + sv.clock

step-Paid :
    (t0 k now : ℕ) (e : SupervisorEvent) (sv sv' : Supervisor)
    → Paid t0 k sv
    → supervisor_step now e sv ≡ some sv'
    → Paid t0 (k + if_reload e) sv'
unfolding supervisor_step
step-Paid t0 k now (hup true) sv sv' p h = ground arith
step-Paid t0 k now (hup false) sv sv' p h = ground arith
step-Paid t0 k now stop_signal sv sv' p h = ground arith
step-Paid t0 k now (child_exit failed) sv sv' p h = ground arith
step-Paid t0 k now (starts started) sv sv' p h = ground arith

run-Paid :
    (t0 k : ℕ) (es : List (ℕ × SupervisorEvent)) (sv sv' : Supervisor)
    → Paid t0 k sv
    → supervisor_run es sv ≡ some sv'
    → Paid t0 (k + reloads es) sv'
unfolding supervisor_run
run-Paid t0 k [] sv sv' p h = ground arith
run-Paid t0 k ((now, e) ∷ es) sv sv' p h = elim (Option-cases (supervisor_step now e sv)) [
  | inl n ↦ grind arith
  | inr (sv1, q) ↦
      let rest : Paid t0 (k + if_reload e + reloads es) sv' =
        run-Paid t0 (k + if_reload e) es sv1 sv' (step-Paid t0 k now e sv sv1 p q) (grind arith) in
      grind arith
]

-- Under every schedule of signals and exits, a supervisor that started its first child at `t0` and
-- runs until `sv.clock` has started at most one further child for each reload with a good
-- configuration, and one for every thirty seconds that have gone by.
pub restarts_paced :
    (t0 : ℕ) (es : List (ℕ × SupervisorEvent)) (sv : Supervisor)
    → supervisor_run es (supervised t0) ≡ some sv
    → spawn_interval * sv.spawns + t0 ≤ spawn_interval * (reloads es + 1) + sv.clock
unfolding supervised
restarts_paced t0 es sv h =
    let p : Paid t0 (0 + reloads es) sv =
      run-Paid t0 0 es (supervised t0) sv
        (record {
          began = omega arith;
          past = omega arith;
          paid = omega arith;
          decided = omega arith;
        })
        h in
    grind arith

-- The child that is about to be started.
abbrev pub next_child : Supervisor → ℕ
next_child sv = if sv.restarting then 1 else 0

-- `signaled` is set, and of the children that are started or about to be, none is new.
abbrev Stopping : Supervisor → Supervisor → Type 0
Stopping sv sv' =
    (sv'.signaled ≡ true)
    × ((sv'.spawns + next_child sv' ≡ sv.spawns + next_child sv) ⊎ (is_some sv'.outcome ≡ true))

step-stop :
    (now : ℕ) (sv sv' : Supervisor)
    → supervisor_step now stop_signal sv ≡ some sv'
    → (sv'.signaled ≡ true) × (sv'.spawns + next_child sv' ≡ sv.spawns + next_child sv)
unfolding supervisor_step
step-stop now sv sv' h = ground arith

step-signaled :
    (now : ℕ) (e : SupervisorEvent) (sv sv' : Supervisor)
    → sv.signaled ≡ true
    → supervisor_step now e sv ≡ some sv'
    → sv'.signaled ≡ true
unfolding supervisor_step
step-signaled now (hup true) sv sv' p h = ground arith
step-signaled now (hup false) sv sv' p h = ground arith
step-signaled now stop_signal sv sv' p h = ground arith
step-signaled now (child_exit failed) sv sv' p h = ground arith
step-signaled now (starts started) sv sv' p h = ground arith

step-children :
    (now : ℕ) (e : SupervisorEvent) (sv sv' : Supervisor)
    → sv.signaled ≡ true
    → supervisor_step now e sv ≡ some sv'
    → (sv'.spawns + next_child sv' ≡ sv.spawns + next_child sv) ⊎ (is_some sv'.outcome ≡ true)
unfolding supervisor_step
step-children now (hup true) sv sv' p h = inl (ground arith)
step-children now (hup false) sv sv' p h = inl (ground arith)
step-children now stop_signal sv sv' p h = inl (ground arith)
step-children now (child_exit failed) sv sv' p h = inr (ground arith)
step-children now (starts true) sv sv' p h = inl (ground arith)
step-children now (starts false) sv sv' p h = inr (ground arith)

exit-stopped :
    (later : ℕ) (failed : Bool) (sv : Supervisor)
    → sv.signaled ≡ true
    → sv.restarting ≡ false
    → sv.outcome ≡ none
    → sv.clock ≤ later
    → supervisor_step later (child_exit failed) sv
      ≡ some (record sv { clock = later; outcome = some (child_ended failed) })
unfolding supervisor_step
exit-stopped later failed sv s r o l = ground arith

-- After the end nothing is handled.
run-ended :
    (es : List (ℕ × SupervisorEvent)) (sv sv' : Supervisor)
    → is_some sv.outcome ≡ true
    → supervisor_run es sv ≡ some sv'
    → is_some sv'.outcome ≡ true
unfolding supervisor_run supervisor_step
run-ended [] sv sv' p h = grind arith
run-ended ((now, e) ∷ es) sv sv' p h = ground arith

run-Stopping :
    (es : List (ℕ × SupervisorEvent)) (sv sv' : Supervisor)
    → sv.signaled ≡ true
    → supervisor_run es sv ≡ some sv'
    → Stopping sv sv'
unfolding supervisor_run
run-Stopping [] sv sv' p h = (grind arith, inl (grind arith))
run-Stopping ((now, e) ∷ es) sv sv' p h = elim (Option-cases (supervisor_step now e sv)) [
  | inl n ↦ absurd (grind arith)
  | inr (sv1, q) ↦
      let (s, o) = run-Stopping es sv1 sv' (step-signaled now e sv sv1 p q) (grind arith) in
      (
        s,
        elim o [
          | inr ended ↦ inr ended
          | inl same ↦ elim (step-children now e sv sv1 p q) [
            | inl same1 ↦ inl (omega (arith, same, same1))
            | inr ended1 ↦ inr (run-ended es sv1 sv' ended1 (grind arith))
          ]
        ],
      )
]

stopped-spawns :
    (sv sv1 sv' : Supervisor)
    → sv1.spawns + next_child sv1 ≡ sv.spawns + next_child sv
    → Stopping sv1 sv'
    → sv'.outcome ≡ none
    → sv'.restarting ≡ false
    → sv'.spawns ≡ sv.spawns + next_child sv
stopped-spawns sv sv1 sv' k s o r = ground arith

-- If a stop signal arrives and further events `es` leave the supervisor running with a child: one
-- child was started since the signal if the signal came when the child before had ended and the next
-- one was not started yet, and none if it came at any other time. The next exit of the child ends the
-- supervisor, with an error if the child ended with one.
pub stopped_for_good :
    (now later : ℕ) (es : List (ℕ × SupervisorEvent)) (failed : Bool) (sv sv' : Supervisor)
    → supervisor_run ((now, stop_signal) ∷ es) sv ≡ some sv'
    → sv'.outcome ≡ none
    → sv'.restarting ≡ false
    → sv'.clock ≤ later
    → (sv'.spawns ≡ sv.spawns + (if sv.restarting then 1 else 0))
      × (supervisor_step later (child_exit failed) sv'
          ≡ some (record sv' { clock = later; outcome = some (child_ended failed) }))
unfolding supervisor_run
stopped_for_good now later es failed sv sv' h o r l =
    elim (Option-cases (supervisor_step now stop_signal sv)) [
      | inl n ↦ absurd (grind arith)
      | inr (sv1, q) ↦
          let k = step-stop now sv sv1 q in
          let s = run-Stopping es sv1 sv' (k.0) (grind arith) in
          (stopped-spawns sv sv1 sv' k.1 s o r, exit-stopped later failed sv' (s.0) r o l)
    ]
