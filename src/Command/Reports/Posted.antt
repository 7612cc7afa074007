-- ===== src/Command/Reports/Posted.antt =====
-- What becomes of the reports that the checkers send: the calls of `reportCheckMonitors` that the loop
-- of `runCheckersLoop` (command/command.go) makes.
use mackerel_agent.Prelude.{
  String, ℕ, suc, ◌+◌, ◌≡◌, refl, ap, ◌∙◌, sym, true, some, List, [], ◌∷◌, ◌++◌, append_assoc,
  append-nil, length, is_empty, All, All-append, arith, Option-cases, Bool-cases, inl, inr,
}
use mackerel_agent.Prelude.Orders.{IsOrder}
use mackerel_agent.Checks.{Report}
use mackerel_agent.Command.Reports.{Batch, report_batches}
use mackerel_agent.Command.Reports.Batches.{
  reports_for, batched_for, batched_for-append, RightSize, report_batches_lem,
}
use mackerel_agent.Command.Reports.Loop.{
  CheckersLoop, CheckersEvent, reported, asked, minute, terminated, immediate, returns,
  drain_reports, on_returns, checkers_step, checkers_run, start_checkers, reports_of, concat,
  concat-rounds,
}

reports_for-append :
    (c : String) (rs more : List Report)
    → reports_for c (rs ++ more) ≡ reports_for c rs ++ reports_for c more
reports_for-append c [] more = refl
reports_for-append c (r ∷ rs) more = ground (arith, reports_for-append c rs more)

module _ (visit : ℕ → List Batch → List Batch) where
  -- The calls of some rounds, from round `i` on, one round after another.
  unfoldable calls_of : ℕ → List (List Report) → List Batch
  calls_of i [] = []
  calls_of i (reports ∷ rounds) = report_batches (visit i) reports ++ calls_of (suc i) rounds

  calls_of-append :
      (i : ℕ) (rounds : List (List Report)) (reports : List Report)
      → calls_of i (rounds ++ reports ∷ [])
        ≡ calls_of i rounds ++ report_batches (visit (i + length rounds)) reports
  unfolding calls_of
  calls_of-append i [] reports = grind (arith, append-nil (report_batches (visit i) reports))
  calls_of-append i (first ∷ rounds) reports = grind (
    arith,
    calls_of-append (suc i) rounds reports,
    append_assoc (report_batches (visit i) first) (calls_of (suc i) rounds)
        (report_batches (visit (suc i + length rounds)) reports),
  )

  -- The calls that have returned and those that have not are those of the rounds.
  abbrev HasCalls : CheckersLoop → Type 0
  HasCalls s = s.calls ++ s.waiting ≡ calls_of 0 s.rounds

  drain_reports-HasCalls :
      (s : CheckersLoop) → is_empty s.waiting ≡ true → HasCalls s → HasCalls (drain_reports visit s)
  unfolding drain_reports
  drain_reports-HasCalls s e h = elim (Bool-cases (is_empty s.queue)) [
    | inl none_there ↦ ground arith
    | inr some_there ↦ grind (arith, calls_of-append 0 s.rounds s.queue, append-nil s.calls)
  ]

  on_returns-HasCalls :
      (waiting : List Batch) (s t : CheckersLoop)
      → s.waiting ≡ waiting
      → HasCalls s
      → on_returns waiting s ≡ some t
      → HasCalls t
  on_returns-HasCalls [] s t e h r = cc
  on_returns-HasCalls (call ∷ waiting) s t e h r =
      grind (arith, append_assoc s.calls (call ∷ []) waiting)

  step-HasCalls :
      (checkers : ℕ) (e : CheckersEvent) (s t : CheckersLoop)
      → HasCalls s
      → checkers_step visit checkers e s ≡ some t
      → HasCalls t
  unfolding checkers_step
  step-HasCalls checkers (reported report) s t h r = ground arith
  step-HasCalls checkers asked s t h r = ground arith
  step-HasCalls checkers minute s t h r = ground (arith, drain_reports-HasCalls s)
  step-HasCalls checkers terminated s t h r =
      ground (arith, drain_reports-HasCalls (record s { exit = true }))
  step-HasCalls checkers immediate s t h r = ground (arith, drain_reports-HasCalls s)
  step-HasCalls checkers returns s t h r = on_returns-HasCalls s.waiting s t refl h r

  run-HasCalls :
      (checkers : ℕ) (es : List CheckersEvent) (s t : CheckersLoop)
      → HasCalls s
      → checkers_run visit checkers es s ≡ some t
      → HasCalls t
  unfolding checkers_run
  run-HasCalls checkers [] s t h r = ground arith
  run-HasCalls checkers (e ∷ es) s t h r = elim (Option-cases (checkers_step visit checkers e s)) [
    | inl n ↦ ground arith
    | inr (u, n) ↦ run-HasCalls checkers es u t (step-HasCalls checkers e s u h n) (ground arith)
  ]

  start-HasCalls : HasCalls start_checkers
  unfolding calls_of
  start-HasCalls = refl

  module _ (orders : (i : ℕ) → IsOrder (visit i)) where
    batched_for-calls_of :
        (c : String) (i : ℕ) (rounds : List (List Report))
        → All RightSize (calls_of i rounds)
          × (batched_for c (calls_of i rounds) ≡ reports_for c (concat rounds))
    unfolding calls_of
    batched_for-calls_of c i [] = (tt, refl)
    batched_for-calls_of c i (reports ∷ rounds) =
        let (sized, same) = report_batches_lem (visit i) reports c (orders i) in
        let (sized', same') = batched_for-calls_of c (suc i) rounds in
        (
          All-append RightSize (report_batches (visit i) reports) (calls_of (suc i) rounds) sized
              sized',
          ground (
            arith,
            batched_for-append c (report_batches (visit i) reports) (calls_of (suc i) rounds),
            reports_for-append c reports (concat rounds),
            same,
            same',
          ),
        )

    -- On every schedule of the checkers and of the loop that gathers their reports, and in whichever
    -- order a `range` visits the batches: each call of `reportCheckMonitors` has one to ten reports,
    -- and for each custom identifier the reports that the checkers have sent are, in order, those of
    -- the calls that have returned, those of the calls of this round that have not, and those in the
    -- channel. (How a call ends, and whether it has posted its reports, is not said here.)
    pub calls-reports :
        (checkers : ℕ) (es : List CheckersEvent) (t : CheckersLoop) (c : String)
        → checkers_run visit checkers es start_checkers ≡ some t
        → All RightSize (t.calls ++ t.waiting)
          × (batched_for c t.calls ++ batched_for c t.waiting ++ reports_for c t.queue
              ≡ reports_for c (reports_of es))
    calls-reports checkers es t c h =
        let made = run-HasCalls checkers es start_checkers t start-HasCalls h in
        let (sized, same) = batched_for-calls_of c 0 t.rounds in
        (
          rw made sized,
          ap (λ rs. rs ++ reports_for c t.queue)
                (sym (batched_for-append c t.calls t.waiting) ∙ ap (batched_for c) made ∙ same)
              ∙ sym (reports_for-append c (concat t.rounds) t.queue)
              ∙ ap (λ rs. reports_for c rs) (concat-rounds visit checkers es t h),
        )
