-- ===== src/Spec/Cloud/Suggested.antt =====
-- The identifier that is suggested for a host in a cloud (spec/cloud.go).
use mackerel_agent.Prelude.{
  ℕ, zero, suc, ◌≡◌, Option, none, some, String, append, is_nil, true, false, ◌⊎◌, ap, refl,
  or_else, arith, inl, inr, Option-cases,
}
use mackerel_agent.Prelude.Retrier.{Retrier}
use mackerel_agent.Spec.Cloud.{
  Answer, no_answer, status, attempt_with, until_read, read_identifier, suggest_custom_identifier,
  ec2_generator, azure_vm_generator,
}

-- What the first of some attempts finds that finds something, from attempt `i` on.
abbrev pub first_read : {A : Type 0} → (Answer → Option A) → (ℕ → Answer) → ℕ → ℕ → Option A
first_read read answers zero i = none
first_read read answers (suc n) i = or_else (read (answers i)) (first_read read answers n (suc i))

module _ (retrier : Retrier) {A : Type 0} (read : Answer → Option A) (answers : ℕ → Answer) where
  retry-first_read :
      (n i : ℕ)
      → (retrier.retry (Option A × ℕ) (suc n) (attempt_with read answers) (none, i)).0
        ≡ first_read read answers (suc n) i
  retry-first_read zero i =
      rw (retrier.retry_once (Option A × ℕ) (attempt_with read answers) (none, i))
        (elim (Option-cases (read (answers i))) [
          | inl e ↦ ground arith
          | inr (a, e) ↦ ground arith
        ])
  retry-first_read (suc n) i =
      rw (retrier.retry_more (Option A × ℕ) n (attempt_with read answers) (none, i))
        (elim (Option-cases (read (answers i))) [
          | inl e ↦ ground (arith, retry-first_read n (suc i))
          | inr (a, e) ↦ ground arith
        ])

  until_read-first_read :
      (n : ℕ) → until_read retrier (suc n) read answers ≡ first_read read answers (suc n) 0
  unfolding until_read
  until_read-first_read n = retry-first_read n 0

-- An answer that suggests nothing: it has not the status 200, or no body, or an empty one.
abbrev pub IsUnusable : Answer → Type 0
IsUnusable a = (body : String) → a ≡ status 200 (some body) → is_nil body ≡ true

-- What is suggested by the first of `n` answers, from the answer `i` on, that is not unusable.
abbrev pub Suggests : String → (ℕ → Answer) → ℕ → ℕ → Option String → Type 0
Suggests suffix answers zero i r = r ≡ none
Suggests suffix answers (suc n) i r =
    ((body : String) × (answers i ≡ status 200 (some body))
      × (is_nil body ≡ false)
      × (r ≡ some (append body suffix)))
    ⊎ (IsUnusable (answers i) × Suggests suffix answers n (suc i) r)

read_identifier-none :
    (suffix : String) (a : Answer) → read_identifier suffix a ≡ none → IsUnusable a
unfolding read_identifier
read_identifier-none suffix a h body e = ground arith

read_identifier-some :
    (suffix id : String) (a : Answer)
    → read_identifier suffix a ≡ some id
    → (body : String) × (a ≡ status 200 (some body))
      × (is_nil body ≡ false)
      × (id ≡ append body suffix)
unfolding read_identifier
read_identifier-some suffix id no_answer h = ground arith
read_identifier-some suffix id (status code none) h = ground arith
read_identifier-some suffix id (status code (some body)) h =
    (body, ground arith, ground arith, ground arith)

first_read-Suggests :
    (suffix : String) (answers : ℕ → Answer) (n i : ℕ)
    → Suggests suffix answers n i (first_read (read_identifier suffix) answers n i)
first_read-Suggests suffix answers zero i = refl
first_read-Suggests suffix answers (suc n) i =
    elim (Option-cases (read_identifier suffix (answers i))) [
      | inl e ↦ rw e (
          inr (
            read_identifier-none suffix (answers i) e,
            first_read-Suggests suffix answers n (suc i),
          ))
      | inr (id, e) ↦
          let (body, a, full, eq) = read_identifier-some suffix id (answers i) e in
          rw e (inl (body, a, full, ap some eq))
    ]

-- On EC2 and on Azure the identifier is suggested by the first of three attempts that is answered
-- with status 200 and a body that is not empty: the body, and the suffix of the cloud. Where there
-- is none, an error is returned.
pub suggest_custom_identifier_lem :
    (retrier : Retrier) (answers : ℕ → Answer)
    → Suggests ".ec2.amazonaws.com" answers 3 0
        (suggest_custom_identifier retrier ec2_generator answers)
      × Suggests ".virtual_machine.azure.microsoft.com" answers 3 0
          (suggest_custom_identifier retrier azure_vm_generator answers)
unfolding suggest_custom_identifier
suggest_custom_identifier_lem retrier answers =
    let ec2 : String = ".ec2.amazonaws.com" in
    let azure : String = ".virtual_machine.azure.microsoft.com" in
    (
      rw (until_read-first_read retrier (read_identifier ec2) answers 2)
          (first_read-Suggests ec2 answers 3 0),
      rw (until_read-first_read retrier (read_identifier azure) answers 2)
          (first_read-Suggests azure answers 3 0),
    )
