-- ===== src/Shutdown/Blocked.antt =====
-- The fan-out of `loop` in command/command.go while the checkers loop does not take the terminate
-- instruction.
use mackerel_agent.Prelude.{
  ℕ, ◌≡◌, ◌≢◌, refl, Bool, true, false, ◌||◌, Option, none, some, List, [], ◌∷◌, arith, inl, inr,
  Option-cases,
}
use mackerel_agent.Command.Post.{
  Loop, Phase, returned, Event, term, wake, recv, reply, enqueue, resend, step, on_wake, on_recv,
  on_reply, on_enqueue, on_resend, pick,
}
use mackerel_agent.Shutdown.{
  to_checker, System, Act, arrives, handles, times_out, receives, receives_late, tells_metrics,
  tells_checker, tells_metadata, goes, act, on_receive, on_tells_metrics, on_tells_metadata,
  on_goes, start_fan_out, with_loop,
}

module _ {V : Type 0} where
  -- The loop has returned its error.
  abbrev pub is_forced : Phase V → Bool
  is_forced (returned (some e) orig) = true
  is_forced _ = false

  abbrev pub is_tells_checker : Act V → Bool
  is_tells_checker tells_checker = true
  is_tells_checker _ = false

  abbrev pub checker_told : List (Act V) → Bool
  checker_told [] = false
  checker_told (a ∷ acts) = is_tells_checker a || checker_told acts

  is_forced-step :
      (slot : ℕ) (e : Event V) (l m : Loop V)
      → e ≢ term
      → is_forced l.phase ≡ false
      → step slot e l ≡ some m
      → is_forced m.phase ≡ false
  unfolding step on_wake on_recv on_reply on_enqueue on_resend
  is_forced-step slot term l m n f h = absurd (n refl)
  is_forced-step slot wake l m n f h = ground arith
  is_forced-step slot (recv now) l m n f h = ground arith
  is_forced-step slot (reply b) l m n f h = ground arith
  is_forced-step slot (enqueue vs) l m n f h = ground arith
  is_forced-step slot (resend i) l m n f h = elim (Option-cases (pick i l.resenders)) [
    | inl e ↦ ground arith
    | inr (p, e) ↦ ground arith
  ]

  -- The fan-out waits for the checkers loop, and the loop has not been forced to return.
  abbrev pub IsBlocked : System V → Type 0
  IsBlocked s = (s.fan_out ≡ to_checker) × (is_forced s.loop.phase ≡ false)

  with_loop-IsBlocked :
      (slot : ℕ) (e : Event V) (s t : System V) (o : Option (Loop V))
      → IsBlocked s
      → e ≢ term
      → step slot e s.loop ≡ o
      → with_loop s o ≡ some t
      → IsBlocked t
  unfolding with_loop start_fan_out
  with_loop-IsBlocked slot e s t none b n h r = cc
  with_loop-IsBlocked slot e s t (some l) b n h r =
      ground (arith, is_forced-step slot e s.loop l n b.1 h)

  act-IsBlocked :
      (has_checks has_metadata : Bool) (slot : ℕ) (a : Act V) (s t : System V)
      → is_tells_checker a ≡ false
      → IsBlocked s
      → act has_checks has_metadata slot a s ≡ some t
      → IsBlocked t
  unfolding act on_receive on_tells_metrics on_tells_metadata on_goes
  act-IsBlocked hc hm slot (arrives sig) s t n b r = ground arith
  act-IsBlocked hc hm slot handles s t n b r = ground arith
  act-IsBlocked hc hm slot times_out s t n b r = ground arith
  act-IsBlocked hc hm slot receives s t n b r = ground arith
  act-IsBlocked hc hm slot receives_late s t n b r = ground arith
  act-IsBlocked hc hm slot tells_metrics s t n b r = ground arith
  act-IsBlocked hc hm slot tells_checker s t n b r = cc
  act-IsBlocked hc hm slot tells_metadata s t n b r = ground arith
  act-IsBlocked hc hm slot (goes term) s t n b r = cc
  act-IsBlocked hc hm slot (goes wake) s t n b r =
      with_loop-IsBlocked slot wake s t (step slot wake s.loop) b (λ e. cc) refl r
  act-IsBlocked hc hm slot (goes (recv now)) s t n b r =
      with_loop-IsBlocked slot (recv now) s t (step slot (recv now) s.loop) b (λ e. cc) refl r
  act-IsBlocked hc hm slot (goes (reply k)) s t n b r =
      with_loop-IsBlocked slot (reply k) s t (step slot (reply k) s.loop) b (λ e. cc) refl r
  act-IsBlocked hc hm slot (goes (enqueue vs)) s t n b r =
      with_loop-IsBlocked slot (enqueue vs) s t (step slot (enqueue vs) s.loop) b (λ e. cc) refl r
  act-IsBlocked hc hm slot (goes (resend i)) s t n b r =
      with_loop-IsBlocked slot (resend i) s t (step slot (resend i) s.loop) b (λ e. cc) refl r

  -- The acts of a schedule, the first one first.
  unfoldable pub act_run : Bool → Bool → ℕ → List (Act V) → System V → Option (System V)
  act_run hc hm slot [] s = some s
  act_run hc hm slot (a ∷ acts) s = elim (act hc hm slot a s) [
    | none ↦ none
    | some t ↦ act_run hc hm slot acts t
  ]

  -- While the checkers loop does not take the terminate instruction that the fan-out has for it,
  -- no signal and no time limit forces the posting loop to return: whatever arrives and whatever is
  -- sent, the loop does not return its error.
  pub act_run-IsBlocked :
      (has_checks has_metadata : Bool) (slot : ℕ) (acts : List (Act V)) (s t : System V)
      → s.fan_out ≡ to_checker
      → is_forced s.loop.phase ≡ false
      → checker_told acts ≡ false
      → act_run has_checks has_metadata slot acts s ≡ some t
      → (t.fan_out ≡ to_checker) × (is_forced t.loop.phase ≡ false)
  unfolding act_run
  act_run-IsBlocked hc hm slot [] s t w f n r = ground arith
  act_run-IsBlocked hc hm slot (a ∷ acts) s t w f n r = elim (Option-cases (act hc hm slot a s)) [
    | inl e ↦ ground arith
    | inr (u, e) ↦
        let (w', f') = act-IsBlocked hc hm slot a s u (ground arith) (w, f) e in
        act_run-IsBlocked hc hm slot acts u t w' f' (ground arith) (ground arith)
  ]
