-- ===== src/Discovery/Registry.antt =====
-- Register and Deregister of adapter/kratos/discovery/etcd/registry.go. A *ServiceInstance is a number,
-- its address; a heartbeat that was started is known by its number, and so is a lease.
use opendevops_codo_golang_s.Go.Dict.{
  insert, lookup, bytes_eq, lookup-insert, remove, nat_eq, nat_beq_iff, lookup-remove,
}
use opendevops_codo_golang_s.Discovery.{marshal, ServiceInstance}
use opendevops_codo_golang_s.Common.{
  ◌∷◌, All, Bytes, Option, none, ℕ, List, [], some, ◌<◌, ◌≡◌, arith, if◌then◌else◌, ◌+◌, ◌∙◌, refl,
  ◌==◌, subst, sym, ap, ◌⊎◌, inr, inl, ◌≢◌, Option-cases,
}

pub record Registry : Type 0 where
  -- r.lease
  pub lease : Option ℕ
  -- r.ctxMap: the heartbeat whose context the stored function cancels.
  pub ctx_map : List (ℕ × ℕ)
  -- The heartbeats that were started and not cancelled, the last one first.
  pub live : List ℕ
  -- The leases that were closed, the last one first.
  pub closed : List ℕ
  -- How many leases and heartbeats there were.
  pub leases : ℕ
  pub started : ℕ

-- New
abbrev pub new_registry : Registry
new_registry = record {
  lease = none;
  ctx_map = [];
  live = [];
  closed = [];
  leases = 0;
  started = 0;
}

-- What registerWithKV returns: a lease, or the error of Grant or of Put.
pub data Granted : Type 0 where
  granted : ℕ → Granted
  refused : Bytes → Granted

-- registerWithKV, over what Grant returns and the error of Put.
unfoldable pub register_with_kv : (grant : ℕ ⊎ Bytes) → (put_error : Option Bytes) → Granted
register_with_kv (inr e) put_error = refused e
register_with_kv (inl id) (some e) = refused e
register_with_kv (inl id) none = granted id

pub data Outcome : Type 0 where
  done : Outcome
  failed : Bytes → Outcome
  panicked : Outcome

abbrev pub cancel : ℕ → List ℕ → List ℕ
cancel h [] = []
cancel h (g ∷ gs) = let rest = cancel h gs in if g == h then rest else g ∷ rest

-- r.lease.Close() where there is one.
abbrev close_lease : Registry → List ℕ
close_lease r = elim r.lease [ none ↦ r.closed | some l ↦ l ∷ r.closed ]

-- Register behind marshal: a new lease, and a heartbeat where registerWithKV made no error.
unfoldable register_value : ℕ → Granted → Registry → Registry × Outcome
register_value p (refused e) r =
    (record r { lease = some r.leases; closed = close_lease r; leases = r.leases + 1 }, failed e)
register_value p (granted id) r = (
  record r {
    lease = some r.leases;
    closed = close_lease r;
    leases = r.leases + 1;
    ctx_map = insert p r.started r.ctx_map;
    live = r.started ∷ r.live;
    started = r.started + 1;
  },
  done,
)

-- Register
unfoldable pub register : ℕ → ServiceInstance → Granted → Registry → Registry × Outcome
unfolding register_value marshal
register p service answer r = elim (marshal service) [
  | none ↦ (r, panicked)
  | some value ↦ register_value p answer r
]

-- Deregister: `error` is what Delete returned.
unfoldable pub deregister : ℕ → Option Bytes → Registry → Registry × Outcome
deregister p error r = (
  elim (lookup p r.ctx_map) [
    | none ↦ record r { closed = close_lease r }
    | some h ↦ record r {
      ctx_map = remove p r.ctx_map;
      live = cancel h r.live;
      closed = close_lease r;
    }
  ],
  elim error [ none ↦ done | some e ↦ failed e ],
)

-- Every heartbeat that was started has a number below the counter.
abbrev IsNumbered : Registry → Type 0
IsNumbered r = All (λ h. h < r.started) r.live

cancel-numbered : (h : ℕ) (gs : List ℕ) → All (λ g. g < h) gs → cancel h gs ≡ gs
cancel-numbered h [] n = refl
cancel-numbered h (g ∷ gs) (hg, n) = ground (arith, cancel-numbered h gs n)

pub register-live :
    (p : ℕ) (service : ServiceInstance) (answer : Granted) (r : Registry)
    → (register p service answer r).1 ≡ done
    → ((register p service answer r).0.live ≡ r.started ∷ r.live)
      × ((register p service answer r).0.ctx_map ≡ insert p r.started r.ctx_map)
      × ((register p service answer r).0.started ≡ r.started + 1)
unfolding register
register-live p service answer r h = ground arith

-- A Register that makes an error, or panics, starts nothing.
pub register_not_done :
    (p : ℕ) (service : ServiceInstance) (answer : Granted) (r : Registry)
    → (register p service answer r).1 ≢ done
    → ((register p service answer r).0.live ≡ r.live)
      × ((register p service answer r).0.ctx_map ≡ r.ctx_map)
      × ((register p service answer r).0.started ≡ r.started)
unfolding register
register_not_done p service answer r h = ground arith

All-below : (h : ℕ) (gs : List ℕ) → All (λ g. g < h) gs → All (λ g. g < h + 1) gs
All-below h [] n = tt
All-below h (g ∷ gs) (hg, n) = (omega (arith, hg), All-below h gs n)

-- Register keeps the numbers below the counter.
register-IsNumbered :
    (p : ℕ) (service : ServiceInstance) (answer : Granted) (r : Registry)
    → IsNumbered r
    → (register p service answer r).1 ≡ done
    → IsNumbered (register p service answer r).0
register-IsNumbered p service answer r n h =
    let (live, map', count) = register-live p service answer r h in
    subst (λ l. All (λ g. g < (register p service answer r).0.started) l) (sym live)
      (subst (λ c. All (λ g. g < c) (r.started ∷ r.live)) (sym count)
        (omega arith, All-below r.started r.live n))

deregister-live :
    (p h : ℕ) (error : Option Bytes) (r : Registry)
    → lookup p r.ctx_map ≡ some h
    → (deregister p error r).0.live ≡ cancel h r.live
unfolding deregister
deregister-live p h error r e = ground (arith, e)

-- Deregister stops the heartbeat that the last Register of the service started, and no other: the
-- heartbeats that ran before Register run on.
deregister-register :
    (p : ℕ) (service : ServiceInstance) (answer : Granted) (error : Option Bytes) (r : Registry)
    → IsNumbered r
    → (register p service answer r).1 ≡ done
    → (deregister p error (register p service answer r).0).0.live ≡ r.live
deregister-register p service answer error r n h =
    let (live, map', count) = register-live p service answer r h in
    let found : lookup p (register p service answer r).0.ctx_map ≡ some r.started =
      ap (lookup p) map'
      ∙ lookup-insert r.ctx_map p p r.started
      ∙ rw ((nat_beq_iff p p).1 refl) refl in
    deregister-live p r.started error (register p service answer r).0 found
    ∙ rw live (ground (arith, cancel-numbered r.started r.live n))

-- Behind Deregister the map does not know the service.
deregister-ctx_map :
    (p : ℕ) (error : Option Bytes) (r : Registry) → lookup p (deregister p error r).0.ctx_map ≡ none
unfolding deregister
deregister-ctx_map p error r = elim (Option-cases (lookup p r.ctx_map)) [
  | inl e ↦ ground (arith, e)
  | inr (h, e) ↦ ground (arith, e, lookup-remove r.ctx_map p p)
]

-- Deregister of a service that the map does not know cancels no heartbeat.
deregister_unknown :
    (p : ℕ) (error : Option Bytes) (r : Registry)
    → lookup p r.ctx_map ≡ none
    → (deregister p error r).0.live ≡ r.live
unfolding deregister
deregister_unknown p error r e = ground (arith, e)

-- Where both of two Registers in a row of one service make no error, the heartbeat that the first one started
-- runs on behind Deregister, the map does not know the service any more, and a second Deregister cancels no
-- heartbeat either.
pub deregister-register_twice :
    (p : ℕ) (service : ServiceInstance) (first second : Granted) (error again : Option Bytes)
    (r : Registry)
    → IsNumbered r
    → (register p service first r).1 ≡ done
    → (register p service second (register p service first r).0).1 ≡ done
    → let after =
        (deregister p error (register p service second (register p service first r).0).0).0 in
      (after.live ≡ r.started ∷ r.live)
      × (lookup p after.ctx_map ≡ none)
      × ((deregister p again after).0.live ≡ r.started ∷ r.live)
deregister-register_twice p service first second error again r n h k =
    let r1 = (register p service first r).0 in
    let r2 = (register p service second r1).0 in
    let (live, map', count) = register-live p service first r h in
    let left : (deregister p error r2).0.live ≡ r.started ∷ r.live =
      deregister-register p service second error r1 (register-IsNumbered p service first r n h) k
      ∙ live in
    (
      left,
      deregister-ctx_map p error r2,
      deregister_unknown p again (deregister p error r2).0 (deregister-ctx_map p error r2) ∙ left,
    )
