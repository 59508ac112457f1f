-- ===== src/Cas/Clients.antt =====
-- Clients that use a CAS of tools/cascmd as a lock on one key, the way it is made for: each has a value of
-- its own, takes the lock by CAS from the empty value to it, and gives the lock back by CAS to the empty
-- value. A step is one call of one client, in any order.
use opendevops_codo_golang_s.Cas.Command.{CasCommand}
use opendevops_codo_golang_s.Common.{
  Bytes, Bool, ◌≡◌, ◌≢◌, [], true, false, ℕ, if◌then◌else◌, not, ◌⊎◌, ◌==◌, arith, same_iff,
  same_refl, Bool-cases, inl, same, inr, ◌∙◌, sym,
}

-- The store, and which clients believe that they have the lock.
pub record Clients (S : Type 0) : Type 0 where
  pub store : S
  pub holds : ℕ → Bool

abbrev set_at : ℕ → Bool → (ℕ → Bool) → ℕ → Bool
set_at i b f j = if i == j then b else f j

module _ (c : CasCommand) (key : Bytes) (own : ℕ → Bytes) where
  open c use {State, swap, value_of, swap-value_of, swap_answer}

  -- Client i takes the lock where the answer is true.
  unfoldable pub acquired : ℕ → Clients State → Clients State
  acquired i s =
      let (store, answer) = swap s.store key [] (own i) in
      record { store = store; holds = set_at i answer s.holds }

  -- Client i has given the lock back where the answer is true.
  unfoldable pub released : ℕ → Clients State → Clients State
  released i s =
      let (store, answer) = swap s.store key (own i) [] in
      record { store = store; holds = set_at i (not answer) s.holds }

  pub data Step : Clients State → Clients State → Type 0 where
    acquire : (s : Clients State) (i : ℕ) → s.holds i ≡ false → Step s (acquired i s)
    release : (s : Clients State) (i : ℕ) → s.holds i ≡ true → Step s (released i s)
    elsewhere :
        (s : Clients State) (other src dst : Bytes)
        → other ≢ key
        → Step s (record s { store = (swap s.store other src dst).0 })

  -- From a store where the lock is free, and nobody believes to have it.
  pub data Reach : Clients State → Type 0 where
    free : (s : State) → value_of s key ≡ [] → Reach (record { store = s; holds = λ i. false })
    next : {s t : Clients State} → Reach s → Step s t → Reach t

  -- Who believes to have the lock has it, and a lock that is taken is somebody's.
  pub record Kept (s : Clients State) : Type 0 where
    held : (i : ℕ) → s.holds i ≡ true → value_of s.store key ≡ own i
    taken :
        (value_of s.store key ≡ [])
        ⊎ ((i : ℕ) × (s.holds i ≡ true) × (value_of s.store key ≡ own i))

  module _ (distinct : (i j : ℕ) → own i ≡ own j → i ≡ j) (filled : (i : ℕ) → own i ≢ []) where
    free-key :
        (s : State) (i : ℕ)
        → value_of s key ≡ []
        → (value_of (swap s key [] (own i)).0 key ≡ own i) × ((swap s key [] (own i)).1 ≡ true)
    free-key s i e = ground (
      arith,
      swap-value_of s key [] (own i) key,
      swap_answer s key [] (own i),
      same_refl key,
      same_refl [],
    )

    taken-key :
        (s : State) (i : ℕ)
        → value_of s key ≢ []
        → (value_of (swap s key [] (own i)).0 key ≡ value_of s key)
          × ((swap s key [] (own i)).1 ≡ false)
    taken-key s i e = ground (
      arith,
      swap-value_of s key [] (own i) key,
      swap_answer s key [] (own i),
      same_iff (value_of s key) [],
    )

    own-key :
        (s : State) (i : ℕ)
        → value_of s key ≡ own i
        → (value_of (swap s key (own i) []).0 key ≡ []) × ((swap s key (own i) []).1 ≡ true)
    own-key s i e = ground (
      arith,
      swap-value_of s key (own i) [] key,
      swap_answer s key (own i) [],
      same_refl key,
      same_iff (value_of s key) (own i),
    )

    other-key :
        (s : State) (other src dst : Bytes)
        → other ≢ key
        → value_of (swap s other src dst).0 key ≡ value_of s key
    other-key s other src dst h =
        ground (arith, swap-value_of s other src dst key, same_iff other key)

    acquired-Kept : (s : Clients State) (i : ℕ) → s.holds i ≡ false → Kept s → Kept (acquired i s)
    unfolding acquired
    acquired-Kept s i idle k = elim (Bool-cases (same (value_of s.store key) [])) [
      | inl e ↦
          let e' : value_of s.store key ≡ [] = ground (arith, same_iff (value_of s.store key) []) in
          let (now, answer) = free-key s.store i e' in
          record {
            held = λ j h. ground (arith, k.held j, filled j, now, e', answer);
            taken = inr (i, ground (arith, answer), now);
          }
      | inr e ↦
          let e' : value_of s.store key ≢ [] = ground (arith, same_iff (value_of s.store key) []) in
          let (now, answer) = taken-key s.store i e' in
          record {
            held = λ j h. now ∙ k.held j (ground (arith, answer));
            taken = elim k.taken [
              | inl gone ↦ absurd (e' gone)
              | inr (j, hj, ej) ↦ inr (j, ground (arith, idle, hj), now ∙ ej)
            ];
          }
    ]

    released-Kept : (s : Clients State) (i : ℕ) → s.holds i ≡ true → Kept s → Kept (released i s)
    unfolding released
    released-Kept s i h k =
        let (now, answer) = own-key s.store i (k.held i h) in
        record {
          held = λ j hj. ground (arith, k.held j, k.held i h, distinct i j, answer);
          taken = inl now;
        }

    Reach-Kept : {s : Clients State} → Reach s → Kept s
    Reach-Kept (free s e) = record { held = λ i h. absurd (cc); taken = inl e }
    Reach-Kept (next r (acquire s i h)) = acquired-Kept s i h (Reach-Kept r)
    Reach-Kept (next r (release s i h)) = released-Kept s i h (Reach-Kept r)
    Reach-Kept (next r (elsewhere s other src dst h)) =
        let k = Reach-Kept r in
        let same_value = other-key s.store other src dst h in
        record {
          held = λ i hi. same_value ∙ k.held i hi;
          taken = elim k.taken [
            | inl e ↦ inl (same_value ∙ e)
            | inr (j, hj, ej) ↦ inr (j, hj, same_value ∙ ej)
          ];
        }

    -- No two clients believe to have the lock at the same time.
    pub mutual_exclusion :
        {s : Clients State} → Reach s → (i j : ℕ) → s.holds i ≡ true → s.holds j ≡ true → i ≡ j
    mutual_exclusion r i j hi hj =
        let k = Reach-Kept r in distinct i j (sym (k.held i hi) ∙ k.held j hj)

    -- The next to act can: where nobody believes to have the lock, whoever asks gets it, and whoever has it
    -- can give it back.
    pub no_deadlock :
        {s : Clients State} (i : ℕ)
        → Reach s
        → ((s.holds i ≡ true)
            → ((released i s).holds i ≡ false) × (value_of (released i s).store key ≡ []))
          × (((j : ℕ) → s.holds j ≡ false) → (acquired i s).holds i ≡ true)
    unfolding acquired released
    no_deadlock {s} i r =
        let k = Reach-Kept r in
        (
          (λ h.
              let (now, answer) = own-key s.store i (k.held i h) in (ground (arith, answer), now)),
          (λ quiet. elim k.taken [
            | inl e ↦ let (now, answer) = free-key s.store i e in ground (arith, answer)
            | inr (j, hj, ej) ↦ absurd (ground (arith, quiet j, hj))
          ]),
        )
