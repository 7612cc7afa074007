-- ===== src/Command/Reports/Settled.antt =====
-- How posting a batch of check reports ends (command/command.go).
use mackerel_agent.Prelude.{
  String, ℕ, suc, ◌+◌, false, Option, none, some, List, [], ◌∷◌, ◌++◌, Dict, lookup, length, is_nil,
  All, ◌≡◌, inl, inr, ap, refl, arith, if◌then◌else◌, Bool-cases,
}
use mackerel_agent.Mackerel.{ApiError, is_client_error, Host}
use mackerel_agent.Command.Reports.{
  Delivery, no_host, accepted, rejected, unsettled, batch_host, post_until_settled,
  report_check_monitors,
}

-- A reply after which the batch is posted again.
abbrev pub IsRetried : Option ApiError → Type 0
IsRetried none = ⊥
IsRetried (some e) = is_client_error e ≡ false

-- How a batch ends, by the reply that follows those after which it was posted again.
abbrev pub settle : ℕ → Option ApiError → Delivery
settle posts none = accepted posts
settle posts (some e) = if is_client_error e then rejected posts else unsettled posts

retried-post_until_settled :
    (posts : ℕ) (before replies : List (Option ApiError))
    → All IsRetried before
    → post_until_settled posts (before ++ replies)
      ≡ post_until_settled (posts + length before) replies
unfolding post_until_settled
retried-post_until_settled posts [] replies a = let e : posts + 0 ≡ posts = omega arith in rw e refl
retried-post_until_settled posts (none ∷ before) replies a = absurd a.0
retried-post_until_settled posts (some e ∷ before) replies a =
    let sum : posts + suc (length before) ≡ posts + 1 + length before = omega arith in
    rw (sum, a.0) (retried-post_until_settled (posts + 1) before replies a.1)

settled_by :
    (posts : ℕ) (after : List (Option ApiError)) (reply : Option ApiError)
    → ¬ IsRetried reply
    → post_until_settled posts (reply ∷ after) ≡ settle (posts + 1) reply
unfolding post_until_settled
settled_by posts after none n = refl
settled_by posts after (some e) n = elim (Bool-cases (is_client_error e)) [
  | inl client ↦ rw client refl
  | inr other ↦ absurd (n other)
]

-- A batch for a host that the agent knows is posted until the API accepts it or answers with a
-- client error, however often it fails otherwise, and not once more; the errors before are retried.
pub report_check_monitors_lem :
    (host : Host) (hosts : Dict Host) (c id : String) (before after : List (Option ApiError))
    (reply : Option ApiError)
    → batch_host host hosts c ≡ some id
    → All IsRetried before
    → ¬ IsRetried reply
    → report_check_monitors host hosts c (before ++ reply ∷ after)
      ≡ settle (length before + 1) reply
unfolding report_check_monitors
report_check_monitors_lem host hosts c id before after reply h a n =
    let first = retried-post_until_settled 0 before (reply ∷ after) a in
    let last = settled_by (length before) after reply n in
    let sum : 0 + length before ≡ length before = omega arith in
    ground (arith, first, last, ap (λ k. post_until_settled k (reply ∷ after)) sum)

-- A batch for a custom identifier of no known host is never posted.
pub report_check_monitors_unknown :
    (host : Host) (hosts : Dict Host) (c : String) (replies : List (Option ApiError))
    → is_nil c ≡ false
    → lookup c hosts ≡ none
    → report_check_monitors host hosts c replies ≡ no_host
unfolding report_check_monitors
report_check_monitors_unknown host hosts c replies n h = ground arith
