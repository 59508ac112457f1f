-- ===== src/Discovery/Heartbeat.antt =====
-- heartBeat of adapter/kratos/discovery/etcd/registry.go, step by step against what the client of etcd
-- answers.
use opendevops_codo_golang_s.Common.{
  ◌∷◌, Bool, ℕ, List, if◌then◌else◌, true, ◌+◌, ◌-◌, All, [], false, ltb, ◌≡◌, refl, ◌≤◌, length,
  arith, Bool-cases, ◌<◌, inl, inr,
}

-- What one round of the retry loop meets behind its test of the context: no answer in three seconds, an
-- error of registerWithKV, a lease without and with an error of KeepAlive.
pub data Attempt : Type 0 where
  timed_out register_failed kept_alive keep_alive_failed : Attempt

-- What the loop meets at one moment: whether its context is cancelled, whether the select takes the case of
-- the context of the registry, what an attempt would give, and whether the channel of KeepAlive gives a
-- response or is closed.
pub record Moment : Type 0 where
  pub cancelled : Bool
  pub registry_done : Bool
  pub attempt : Attempt
  pub received : Bool

-- Where heartBeat stands: in the retry loop with the attempts made, at the receive behind it, at the
-- select, or at its end; `leased` tells whether curLeaseID is not 0.
pub data Phase : Type 0 where
  retrying : ℕ → (leased : Bool) → Phase
  checking : (leased : Bool) → Phase
  listening : (leased : Bool) → Phase
  returned : Phase

-- The first lines: KeepAlive with an error makes the lease 0.
unfoldable pub begin : (failed : Bool) → Phase
begin true = retrying 0 false
begin false = listening true

-- An attempt behind its test of the context.
abbrev attempted : ℕ → Bool → Attempt → Phase
attempted n leased timed_out = retrying (n + 1) leased
attempted n leased register_failed = retrying (n + 1) leased
attempted n leased kept_alive = checking true
attempted n leased keep_alive_failed = retrying (n + 1) true

-- The head of the outer loop.
abbrev again : (leased : Bool) → Phase
again true = listening true
again false = retrying 0 false

-- The next phase, and how often registerWithKV was called.
unfoldable pub beat : (max_retry : ℕ) → Moment → Phase → Phase × ℕ
beat max_retry m (retrying n leased) =
    if ltb n max_retry
    then (if m.cancelled then (returned, 0) else (attempted n leased m.attempt, 1))
    else (checking leased, 0)
beat max_retry m (checking leased) = if m.received then (listening leased, 0) else (returned, 0)
beat max_retry m (listening leased) =
    if m.registry_done
    then (returned, 0)
    else if m.received
    then (again leased, 0)
    else if m.cancelled
    then (returned, 0)
    else (retrying 0 false, 0)
beat max_retry m returned = (returned, 0)

unfoldable pub beats : (max_retry : ℕ) → List Moment → Phase → Phase × ℕ
unfolding beat
beats max_retry [] p = (p, 0)
beats max_retry (m ∷ ms) p =
    let (p', n) = beat max_retry m p in let (q, k) = beats max_retry ms p' in (q, n + k)

returned_stays : (max_retry : ℕ) (ms : List Moment) → beats max_retry ms returned ≡ (returned, 0)
unfolding beats
returned_stays max_retry [] = refl
returned_stays max_retry (m ∷ ms) = ground (arith, returned_stays max_retry ms)

-- One step with a cancelled context registers nothing.
pub beat_cancelled :
    (max_retry : ℕ) (m : Moment) (p : Phase) → m.cancelled ≡ true → (beat max_retry m p).1 ≡ 0
unfolding beat
beat_cancelled max_retry m (retrying n leased) h = ground (arith, h)
beat_cancelled max_retry m (checking leased) h = ground (arith, h)
beat_cancelled max_retry m (listening leased) h = ground (arith, h)
beat_cancelled max_retry m returned h = refl

-- Once the context of the heartbeat is cancelled, as Deregister does, it never registers the service
-- again, wherever it stood.
beats_cancelled :
    (max_retry : ℕ) (ms : List Moment) (p : Phase)
    → All (λ m. m.cancelled ≡ true) ms
    → (beats max_retry ms p).1 ≡ 0
unfolding beats
beats_cancelled max_retry [] p h = refl
beats_cancelled max_retry (m ∷ ms) p (hm, h) =
    let now = beat_cancelled max_retry m p hm in
    let later = beats_cancelled max_retry ms (beat max_retry m p).0 h in omega (arith, now, later)

-- How many moments a heartbeat on a closed channel has left, at most.
abbrev left : ℕ → Phase → ℕ
left max_retry (retrying n leased) = max_retry - n + 2
left max_retry (checking leased) = 1
left max_retry (listening leased) = max_retry + 3
left max_retry returned = 0

-- How often it can still try to register.
abbrev tries : ℕ → Phase → ℕ
tries max_retry (retrying n leased) = max_retry - n
tries max_retry (checking leased) = 0
tries max_retry (listening leased) = max_retry
tries max_retry returned = 0

-- A phase but the last has a moment left.
left-zero : (max_retry : ℕ) (p : Phase) → left max_retry p ≤ 0 → p ≡ returned
left-zero max_retry (retrying n leased) h = absurd (omega arith)
left-zero max_retry (checking leased) h = absurd (omega arith)
left-zero max_retry (listening leased) h = absurd (omega arith)
left-zero max_retry returned h = refl

attempted_closed :
    (max_retry k n : ℕ) (leased : Bool) (a : Attempt)
    → n < max_retry
    → max_retry - n + 2 ≤ k + 1
    → (left max_retry (attempted n leased a) ≤ k)
      × (1 + tries max_retry (attempted n leased a) ≤ max_retry - n)
attempted_closed max_retry k n leased timed_out h l = (omega arith, omega arith)
attempted_closed max_retry k n leased register_failed h l = (omega arith, omega arith)
attempted_closed max_retry k n leased kept_alive h l = (omega arith, omega arith)
attempted_closed max_retry k n leased keep_alive_failed h l = (omega arith, omega arith)

-- On a closed channel each step uses up one of the moments, and a call of registerWithKV one of the tries.
beat_closed :
    (max_retry k : ℕ) (m : Moment) (p : Phase)
    → m.received ≡ false
    → left max_retry p ≤ k + 1
    → (left max_retry (beat max_retry m p).0 ≤ k)
      × ((beat max_retry m p).1 + tries max_retry (beat max_retry m p).0 ≤ tries max_retry p)
unfolding beat
beat_closed max_retry k m (retrying n leased) h l = elim (Bool-cases (ltb n max_retry)) [
  | inl e ↦ rw e (ground (arith, attempted_closed max_retry k n leased m.attempt))
  | inr e ↦ rw e (ground arith)
]
beat_closed max_retry k m (checking leased) h l = ground (arith, h)
beat_closed max_retry k m (listening leased) h l = ground (arith, h)
beat_closed max_retry k m returned h l = (omega arith, omega arith)

-- Where the channel of KeepAlive stays closed, heartBeat returns: within max_retry + 3 moments, and after at
-- most max_retry attempts to register, whatever the attempts give.
pub beats_closed :
    (max_retry : ℕ) (ms : List Moment) (p : Phase)
    → All (λ m. m.received ≡ false) ms
    → left max_retry p ≤ length ms
    → ((beats max_retry ms p).0 ≡ returned) × ((beats max_retry ms p).1 ≤ tries max_retry p)
unfolding beats
beats_closed max_retry [] p h n = (left-zero max_retry p n, omega arith)
beats_closed max_retry (m ∷ ms) p (hm, h) n =
    let (l, t) = beat_closed max_retry (length ms) m p hm (omega (arith, n)) in
    let (r, k) = beats_closed max_retry ms (beat max_retry m p).0 h l in (r, omega (arith, t, k))
