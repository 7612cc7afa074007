-- ===== src/Command/Reports/Loop.antt =====
-- The loop that gathers check reports: the select of `runCheckersLoop` in command/command.go, and the
-- two channels on which the checkers send.
use mackerel_agent.Prelude.{
  ℕ, ◌+◌, ◌*◌, ◌≡◌, refl, Bool, true, false, not, ◌&&◌, Option, none, some, List, [], ◌∷◌, ◌++◌,
  length, ltb, is_empty, if◌then◌else◌, arith, append_assoc, append-nil, ◌∙◌, ap, sym, inl, inr,
  Option-cases, Bool-cases,
}
use mackerel_agent.Checks.{Report}
use mackerel_agent.Command.Reports.{Batch, report_batches}

abbrev pub report_check_buffer_size : ℕ
report_check_buffer_size = 360

-- `queue` is `checkReportCh` and `immediates` counts what is in `reportImmediateCh`. `rounds` holds the
-- reports of each round that had some, and `exit` is set by the last round. `waiting` are the calls of
-- `reportCheckMonitors` of the current round that have not returned yet, and `calls` all that have.
pub record CheckersLoop : Type 0 where
  pub queue : List Report
  pub immediates : ℕ
  pub exit : Bool
  pub rounds : List (List Report)
  pub waiting : List Batch
  pub calls : List Batch

-- A checker sends a report, or asks for the reports to be sent at once. The select of the loop is
-- left after a minute, by the terminate instruction, or by such a request. `returns`: a call of
-- `reportCheckMonitors` returns, after its sleeps and its retries.
pub data CheckersEvent : Type 0 where
  reported : Report → CheckersEvent
  asked minute terminated immediate returns : CheckersEvent

-- The select is reached again when the calls of the round have returned.
abbrev pub is_selecting : CheckersLoop → Bool
is_selecting s = not s.exit && is_empty s.waiting

abbrev pub on_returns : List Batch → CheckersLoop → Option CheckersLoop
on_returns [] s = none
on_returns (call ∷ waiting) s = some (record s { waiting = waiting; calls = s.calls ++ call ∷ [] })

-- `visit i` is the order in which the `range` of round `i` visits the batches that are left.
module _ (visit : ℕ → List Batch → List Batch) where
  -- DrainCheckReport, and the calls of the round where there are some reports.
  unfoldable pub drain_reports : CheckersLoop → CheckersLoop
  unfolding report_batches
  drain_reports s = if is_empty s.queue then record s { immediates = 0 } else record s {
    queue = [];
    immediates = 0;
    rounds = s.rounds ++ s.queue ∷ [];
    waiting = report_batches (visit (length s.rounds)) s.queue;
  }

  -- One event, for a number of checkers. A send to a full channel waits.
  unfoldable pub checkers_step : ℕ → CheckersEvent → CheckersLoop → Option CheckersLoop
  unfolding drain_reports
  checkers_step checkers (reported report) s =
      if ltb (length s.queue) (report_check_buffer_size * checkers)
      then some (record s { queue = s.queue ++ report ∷ [] })
      else none
  checkers_step checkers asked s =
      if ltb s.immediates (report_check_buffer_size * checkers)
      then some (record s { immediates = s.immediates + 1 })
      else none
  checkers_step checkers minute s = if is_selecting s then some (drain_reports s) else none
  checkers_step checkers terminated s =
      if is_selecting s then some (drain_reports (record s { exit = true })) else none
  checkers_step checkers immediate s =
      if is_selecting s && ltb 0 s.immediates then some (drain_reports s) else none
  checkers_step checkers returns s = on_returns s.waiting s

  unfoldable pub checkers_run : ℕ → List CheckersEvent → CheckersLoop → Option CheckersLoop
  unfolding checkers_step
  checkers_run checkers [] s = some s
  checkers_run checkers (e ∷ es) s = elim (checkers_step checkers e s) [
    | none ↦ none
    | some t ↦ checkers_run checkers es t
  ]

abbrev pub start_checkers : CheckersLoop
start_checkers = record {
  queue = [];
  immediates = 0;
  exit = false;
  rounds = [];
  waiting = [];
  calls = [];
}

-- The reports of a schedule, in order.
abbrev pub reports_of : List CheckersEvent → List Report
reports_of [] = []
reports_of (reported report ∷ es) = report ∷ reports_of es
reports_of (_ ∷ es) = reports_of es

abbrev pub concat : List (List Report) → List Report
concat [] = []
concat (round ∷ rounds) = round ++ concat rounds

concat-append :
    (rounds more : List (List Report)) → concat (rounds ++ more) ≡ concat rounds ++ concat more
concat-append [] more = refl
concat-append (round ∷ rounds) more =
    grind (arith, append_assoc round (concat rounds) (concat more), concat-append rounds more)

abbrev so_far : CheckersLoop → List Report
so_far s = concat s.rounds ++ s.queue

reports_of-cons :
    (e : CheckersEvent) (es : List CheckersEvent)
    → reports_of (e ∷ es) ≡ reports_of (e ∷ []) ++ reports_of es
reports_of-cons (reported report) es = refl
reports_of-cons asked es = refl
reports_of-cons minute es = refl
reports_of-cons terminated es = refl
reports_of-cons immediate es = refl
reports_of-cons returns es = refl

module _ (visit : ℕ → List Batch → List Batch) where
  so_far-drain_reports : (s : CheckersLoop) → so_far (drain_reports visit s) ≡ so_far s
  unfolding drain_reports
  so_far-drain_reports s = elim (Bool-cases (is_empty s.queue)) [
    | inl e ↦ ground arith
    | inr e ↦ grind (
      arith,
      concat-append s.rounds (s.queue ∷ []),
      append-nil s.queue,
      append-nil (concat s.rounds ++ s.queue),
    )
  ]

  returns-so_far :
      (calls : List Batch) (s t : CheckersLoop)
      → on_returns calls s ≡ some t
      → so_far t ≡ so_far s ++ []
  returns-so_far [] s t h = cc
  returns-so_far (call ∷ calls) s t h = grind (arith, append-nil (so_far s))

  so_far-step :
      (checkers : ℕ) (e : CheckersEvent) (s t : CheckersLoop)
      → checkers_step visit checkers e s ≡ some t
      → so_far t ≡ so_far s ++ reports_of (e ∷ [])
  unfolding checkers_step
  so_far-step checkers (reported report) s t h =
      grind (arith, append_assoc (concat s.rounds) s.queue (report ∷ []))
  so_far-step checkers asked s t h = grind (arith, append-nil (so_far s))
  so_far-step checkers minute s t h = grind (arith, append-nil (so_far s), so_far-drain_reports s)
  so_far-step checkers terminated s t h =
      grind (arith, append-nil (so_far s), so_far-drain_reports (record s { exit = true }))
  so_far-step checkers returns s t h = returns-so_far s.waiting s t h
  so_far-step checkers immediate s t h =
      grind (arith, append-nil (so_far s), so_far-drain_reports s)

  so_far-checkers_run :
      (checkers : ℕ) (es : List CheckersEvent) (s t : CheckersLoop)
      → checkers_run visit checkers es s ≡ some t
      → so_far t ≡ so_far s ++ reports_of es
  unfolding checkers_run
  so_far-checkers_run checkers [] s t h = grind (arith, append-nil (so_far s))
  so_far-checkers_run checkers (e ∷ es) s t h =
      elim (Option-cases (checkers_step visit checkers e s)) [
        | inl n ↦ ground arith
        | inr (u, n) ↦
            so_far-checkers_run checkers es u t (ground arith)
            ∙ ap (λ r. r ++ reports_of es) (so_far-step checkers e s u n)
            ∙ append_assoc (so_far s) (reports_of (e ∷ [])) (reports_of es)
            ∙ ap (λ r. so_far s ++ r) (sym (reports_of-cons e es))
      ]

  -- On every schedule, the reports that the checkers have sent are those of the rounds and those
  -- still in the channel, in the order in which they were sent: none is lost or doubled.
  pub concat-rounds :
      (checkers : ℕ) (es : List CheckersEvent) (t : CheckersLoop)
      → checkers_run visit checkers es start_checkers ≡ some t
      → concat t.rounds ++ t.queue ≡ reports_of es
  concat-rounds checkers es t h = so_far-checkers_run checkers es start_checkers t h

  -- When the loop takes the terminate instruction, the reports that wait are those of its last round,
  -- and no round follows.
  pub terminated_lem :
      (checkers : ℕ) (s t u : CheckersLoop) (e : CheckersEvent)
      → checkers_step visit checkers terminated s ≡ some t
      → checkers_step visit checkers e t ≡ some u
      → (t.queue ≡ []) × (concat t.rounds ≡ concat s.rounds ++ s.queue) × (u.rounds ≡ t.rounds)
  unfolding checkers_step drain_reports
  terminated_lem checkers s t u e h k = (
    ground arith,
    grind (arith, so_far-drain_reports (record s { exit = true }), append-nil (concat t.rounds)),
    ground arith,
  )
