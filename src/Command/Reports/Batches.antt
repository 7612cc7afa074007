-- ===== src/Command/Reports/Batches.antt =====
-- Each drained report is in one batch, in order (command/command.go).
use mackerel_agent.Prelude.{
  String, ◌≤◌, ◌<◌, true, false, none, List, [], ◌∷◌, ◌++◌, append_assoc, append-nil, Dict, lookup,
  insert, erase, IsMap, IsMap-insert, IsMap-erase, lookup-insert, lookup-erase, lookup-nil, leb,
  length, length-append, All, All-append, str_eq, eq_iff, if◌then◌else◌, ◌≡◌, refl, arith,
  Bool-cases, inl, inr, ap,
}
use mackerel_agent.Prelude.Orders.{IsOrder, All-perm, lookup-perm}
use mackerel_agent.Checks.{Report}
use mackerel_agent.Command.Reports.{
  Batch, Batching, identifier, or_empty, add_report, add_reports, report_batches,
  check_report_max_size,
}

-- The reports for one custom identifier, and those in the batches for it.
abbrev pub reports_for : String → List Report → List Report
reports_for c [] = []
reports_for c (r ∷ rs) =
    let rest = reports_for c rs in
    if str_eq (identifier r.custom_identifier) c then r ∷ rest else rest

abbrev pub batched_for : String → List Batch → List Report
batched_for c [] = []
batched_for c ((d, batch) ∷ bs) =
    let rest = batched_for c bs in if str_eq d c then batch ++ rest else rest

abbrev pub RightSize : Batch → Type 0
RightSize b = (0 < length b.1) × (length b.1 ≤ check_report_max_size)

pub batched_for-append :
    (c : String) (xs bs : List Batch)
    → batched_for c (xs ++ bs) ≡ batched_for c xs ++ batched_for c bs
batched_for-append c [] bs = refl
batched_for-append c ((d, b) ∷ xs) bs =
    ground (arith, batched_for-append c xs bs, append_assoc b (batched_for c xs) (batched_for c bs))

batched_for-none : (c : String) (m : Dict (List Report)) → lookup c m ≡ none → batched_for c m ≡ []
unfolding lookup
batched_for-none c [] h = refl
batched_for-none c ((d, b) ∷ m) h = ground (arith, batched_for-none c m)

-- In a map each identifier has one batch.
batched_for-map :
    (c : String) (m : Dict (List Report)) → IsMap m → batched_for c m ≡ or_empty (lookup c m)
unfolding lookup
batched_for-map c [] w = refl
batched_for-map c ((d, b) ∷ m) w =
    ground (arith, batched_for-map c m w.1, batched_for-none c m, eq_iff d c, append-nil b)

reports_for-append :
    (c : String) (rs : List Report) (r : Report)
    → reports_for c (rs ++ r ∷ [])
      ≡ reports_for c rs ++ (if str_eq (identifier r.custom_identifier) c then r ∷ [] else [])
reports_for-append c [] r = ground arith
reports_for-append c (s ∷ rs) r = ground (arith, reports_for-append c rs r)

-- A batch that still waits for more reports.
abbrev IsPartial : Batch → Type 0
IsPartial b = (0 < length b.1) × (length b.1 < check_report_max_size)

All-insert :
    (c : String) (b : List Report) (m : Dict (List Report))
    → IsPartial (c, b)
    → All IsPartial m
    → All IsPartial (insert c b m)
unfolding insert
All-insert c b [] p a = (p, tt)
All-insert c b ((d, x) ∷ m) p a = ground (arith, All-insert c b m p a.1)

All-erase : (c : String) (m : Dict (List Report)) → All IsPartial m → All IsPartial (erase c m)
unfolding erase
All-erase c [] a = tt
All-erase c ((d, x) ∷ m) a = ground (arith, All-erase c m a.1)

All-lookup :
    (c : String) (m : Dict (List Report))
    → All IsPartial m
    → length (or_empty (lookup c m)) < check_report_max_size
unfolding lookup
All-lookup c [] a = omega arith
All-lookup c ((d, x) ∷ m) a = ground (arith, All-lookup c m a.1)

partial-RightSize : (m : List Batch) → All IsPartial m → All RightSize m
partial-RightSize [] a = tt
partial-RightSize (b ∷ m) a = (omega arith, partial-RightSize m a.1)

pub record BatchingInv (done : List Report) (s : Batching) : Type 0 where
  pub is_map : IsMap s.pending
  pub partial : All IsPartial s.pending
  pub calls_sized : All RightSize s.calls
  pub kept :
      (c : String) → batched_for c s.calls ++ or_empty (lookup c s.pending) ≡ reports_for c done

module _ (done : List Report) (s : Batching) (r : Report) (inv : BatchingInv done s) where
  abbrev key : String
  key = identifier r.custom_identifier

  abbrev batch : List Report
  batch = or_empty (lookup key s.pending) ++ r ∷ []

  full-BatchingInv :
      leb check_report_max_size (length batch) ≡ true
      → BatchingInv
          (done ++ r ∷ [])
          (record { pending = erase key s.pending; calls = s.calls ++ (key, batch) ∷ [] })
  full-BatchingInv full = record {
    is_map = IsMap-erase key s.pending inv.is_map;
    partial = All-erase key s.pending inv.partial;
    calls_sized = All-append RightSize s.calls ((key, batch) ∷ []) inv.calls_sized (
        ground (
          arith,
          All-lookup key s.pending inv.partial,
          length-append (or_empty (lookup key s.pending)) (r ∷ []),
        ));
    kept = λ c. ground (
      arith,
      inv.kept c,
      lookup-erase key c s.pending,
      batched_for-append c s.calls ((key, batch) ∷ []),
      reports_for-append c done r,
      eq_iff key c,
      append-nil (reports_for c done),
      append-nil batch,
      append-nil (batched_for c s.calls),
      append-nil (batched_for c s.calls ++ batch),
      append_assoc (batched_for c s.calls) (or_empty (lookup key s.pending)) (r ∷ []),
    );
  }

  part-BatchingInv :
      leb check_report_max_size (length batch) ≡ false
      → BatchingInv (done ++ r ∷ []) (record s { pending = insert key batch s.pending })
  part-BatchingInv part = record {
    is_map = IsMap-insert key batch s.pending inv.is_map;
    partial =
        All-insert key batch s.pending
          (ground (arith, length-append (or_empty (lookup key s.pending)) (r ∷ []))) inv.partial;
    calls_sized = inv.calls_sized;
    kept = λ c. ground (
      arith,
      inv.kept c,
      lookup-insert key c batch s.pending,
      reports_for-append c done r,
      eq_iff key c,
      append-nil (reports_for c done),
      append_assoc (batched_for c s.calls) (or_empty (lookup key s.pending)) (r ∷ []),
    );
  }

add_report-BatchingInv :
    (done : List Report) (s : Batching) (r : Report)
    → BatchingInv done s
    → BatchingInv (done ++ r ∷ []) (add_report s r)
unfolding add_report
add_report-BatchingInv done s r inv =
    elim (Bool-cases (leb check_report_max_size (length (batch done s r inv)))) [
      | inl full ↦ rw full (full-BatchingInv done s r inv full)
      | inr part ↦ rw part (part-BatchingInv done s r inv part)
    ]

add_reports-BatchingInv :
    (done : List Report) (s : Batching) (rs : List Report)
    → BatchingInv done s
    → BatchingInv (done ++ rs) (add_reports s rs)
unfolding add_reports
add_reports-BatchingInv done s [] inv = rw append-nil inv
add_reports-BatchingInv done s (r ∷ rs) inv = rw (append_assoc done (r ∷ []) rs) at (
    add_reports-BatchingInv (done ++ r ∷ []) (add_report s r) rs
      (add_report-BatchingInv done s r inv))

-- However many reports are drained, and in whichever order the `range` visits the batches that are
-- left: each call has one to ten reports, and for each custom identifier the calls have exactly its
-- reports, each once, in the order in which they were drained.
pub report_batches_lem :
    (visit : List Batch → List Batch) (reports : List Report) (c : String)
    → IsOrder visit
    → All RightSize (report_batches visit reports)
      × (batched_for c (report_batches visit reports) ≡ reports_for c reports)
unfolding report_batches
report_batches_lem visit reports c order =
    let s = add_reports (record { pending = []; calls = [] }) reports in
    let inv : BatchingInv reports s =
      add_reports-BatchingInv [] (record { pending = []; calls = [] }) reports
        (record {
          is_map = tt;
          partial = tt;
          calls_sized = tt;
          kept = λ c. ap or_empty (lookup-nil c);
        }) in
    let (same, map) = lookup-perm (order s.pending) inv.is_map in
    (
      All-append RightSize s.calls (visit s.pending) inv.calls_sized
          (All-perm RightSize (order s.pending) (partial-RightSize s.pending inv.partial)),
      ground (
        arith,
        batched_for-append c s.calls (visit s.pending),
        batched_for-map c (visit s.pending) map,
        same c,
        inv.kept c,
      ),
    )
