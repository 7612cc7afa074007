-- ===== src/Command/Post/Delay.antt =====
-- How long the posting loop of command/command.go sleeps before a post.
use mackerel_agent.Prelude.{
  String, ℕ, ◌+◌, ◌%◌, ◌≤◌, ◌<◌, ◌≡◌, ◌⊎◌, refl, false, some, List, [], ◌∷◌, arith, ltb,
  if◌then◌else◌,
}
use mackerel_agent.Command.Post.{
  Loop, LoopState, default, had_error, terminating, Phase, sleeping, recv, reply, enqueue, resend,
  step, on_recv, on_reply, on_enqueue, delay_seconds, is_terminating,
  post_metrics_retry_delay_seconds, post_metrics_interval_seconds,
}
use mackerel_agent.Command.Post.Return.{resend-phase}

-- The last byte of the digest of the host id, reduced to the posting interval. `sha1` is the
-- library's; its digest has twenty bytes.
abbrev last_byte : List ℕ → ℕ
last_byte [] = 0
last_byte (b ∷ []) = b
last_byte (b ∷ c ∷ bs) = last_byte (c ∷ bs)

pub delay_by_host : (String → List ℕ) → String → ℕ
delay_by_host sha1 host_id = last_byte (sha1 host_id) % post_metrics_interval_seconds

-- In the default state a host whose slot is still to come in this minute posts in its slot, at
-- `slot` seconds past the minute; any other posts at once.
pub default_delay_slot :
    (slot now : ℕ)
    → slot < 60
    → (now + delay_seconds default slot now) % 60 ≡ (if ltb (now % 60) slot then slot else now % 60)
unfolding delay_seconds
default_delay_slot slot now h = ground arith

-- No post waits for more than a minute, and only one after an error waits for a whole minute.
pub delay_seconds_bounds :
    (l : LoopState) (slot now : ℕ)
    → slot < 60
    → (delay_seconds l slot now ≤ 60) × ((delay_seconds l slot now < 60) ⊎ (l ≡ had_error))
unfolding delay_seconds
delay_seconds_bounds l slot now h = ground arith

module _ {V : Type 0} where
  -- Steps of the goroutines beside the loop: values are enqueued, and sent again.
  pub data Background (slot : ℕ) : Loop V → Loop V → Type 0 where
    quiet : (s : Loop V) → Background slot s s
    then_enqueue :
        {s t u : Loop V} (vs : List V)
        → Background slot s t
        → step slot (enqueue vs) t ≡ some u
        → Background slot s u
    then_resend :
        {s t u : Loop V} (i : ℕ)
        → Background slot s t
        → step slot (resend i) t ≡ some u
        → Background slot s u

  enqueue-state : (vs : List V) (s t : Loop V) → on_enqueue vs s ≡ some t → t.l_state ≡ s.l_state
  unfolding on_enqueue
  enqueue-state vs s t h = ground arith

  Background-state : (slot : ℕ) (s t : Loop V) → Background slot s t → t.l_state ≡ s.l_state
  unfolding step
  Background-state slot s _ (quiet _) = refl
  Background-state slot s u (then_enqueue {t = t} vs b h) =
      cc (Background-state slot s t b, enqueue-state vs t u h)
  Background-state slot s u (then_resend {t = t} i b h) =
      cc (Background-state slot s t b, (resend-phase i t u h).1)

  abbrev pub Sleeps : Phase V → ℕ → Type 0
  Sleeps (sleeping d orig) k = d ≡ k
  Sleeps _ k = ⊥

  reply-state :
      (s t : Loop V)
      → on_reply false s.phase s ≡ some t
      → t.l_state ≡ (if is_terminating s.l_state then terminating else had_error)
  unfolding on_reply
  reply-state s t h = ground arith

  recv-Sleeps :
      (slot now : ℕ) (s t : Loop V)
      → on_recv slot now s.phase s ≡ some t
      → Sleeps t.phase (delay_seconds s.l_state slot now)
  unfolding on_recv
  recv-Sleeps slot now s t h = ground arith

  -- After a post has failed, whatever is enqueued or sent again meanwhile, the loop sleeps for a
  -- minute before the next post, or for a second if it is terminating.
  pub retry_paced :
      (slot now : ℕ) (s t u v : Loop V)
      → step slot (reply false) s ≡ some t
      → Background slot t u
      → step slot (recv now) u ≡ some v
      → Sleeps v.phase (if is_terminating s.l_state then 1 else post_metrics_retry_delay_seconds)
  unfolding step
  retry_paced slot now s t u v failed background received = ground (
    arith,
    recv-Sleeps slot now u v received,
    Background-state slot t u background,
    reply-state s t failed,
  )
