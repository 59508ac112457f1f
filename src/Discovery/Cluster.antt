-- ===== src/Discovery/Cluster.antt =====
-- One Registry of adapter/kratos/discovery/etcd beside the heartbeats that it started and the store of etcd,
-- as a step relation: calls of Register and Deregister, moments of the heartbeats, and what the server and
-- other clients do, in any order.
mod Tracked
pub mod Gone
pub mod Present
use opendevops_codo_golang_s.Go.Dict.{lookup, remove, bytes_eq, insert, nat_eq, bytes_eq}
use opendevops_codo_golang_s.Common.{
  ◌∷◌, ℕ, Bool, Bytes, List, Option, if◌then◌else◌, [], false, ◌==◌, none, ◌||◌, ◌≡◌, some, true,
  ◌≢◌, ◌⊎◌, inr, inl,
}
use opendevops_codo_golang_s.Discovery.Registry.{
  Registry, new_registry, Granted, Outcome, deregister, register, failed, done, panicked,
  register_with_kv,
}
use opendevops_codo_golang_s.Discovery.Heartbeat.{Phase, Moment, returned, beat, begin}
use opendevops_codo_golang_s.Discovery.{ServiceInstance, marshal, service_key}

pub record Cluster : Type 0 where
  pub registry : Registry
  -- Where each heartbeat stands, and the address of the service that it keeps.
  pub phases : ℕ → Phase
  pub owner : ℕ → ℕ
  -- What etcd holds.
  pub store : List (Bytes × Bytes)
  -- The services whose pair was sent in a call of Put that the server may still carry out.
  pub in_flight : List ℕ

abbrev update {ℓ} : {A : Type ℓ} → ℕ → A → (ℕ → A) → ℕ → A
update i a f j = if i == j then a else f j

abbrev pub member : ℕ → List ℕ → Bool
member n [] = false
member n (m ∷ ms) = m == n || member n ms

abbrev pub drop_one : ℕ → List ℕ → List ℕ
drop_one n [] = []
drop_one n (m ∷ ms) = let rest = drop_one n ms in if m == n then ms else m ∷ rest

abbrev pub initially : Cluster
initially = record {
  registry = new_registry;
  phases = λ h. returned;
  owner = λ h. 0;
  store = [];
  in_flight = [];
}

-- The services by their addresses, and maxRetry of the options.
module _ (service : ℕ → ServiceInstance) (max_retry : ℕ) where
  abbrev pub key_of : ℕ → Bytes
  key_of p = service_key (service p)

  -- client.Put with the key and the value of the service.
  unfoldable pub put : ℕ → List (Bytes × Bytes) → List (Bytes × Bytes)
  put p store = elim (marshal (service p)) [ none ↦ store | some v ↦ insert (key_of p) v store ]

  -- What the Put of registerWithKV does at the server, by the results of Grant and Put: without a lease it is
  -- not called, and where it made an error the server may still carry it out.
  abbrev pub sent : ℕ → (grant : ℕ ⊎ Bytes) → (put_error : Option Bytes) → Cluster → Cluster
  sent p (inr e) put_error c = c
  sent p (inl id) none c = record c { store = put p c.store }
  sent p (inl id) (some e) c = record c { in_flight = p ∷ c.in_flight }

  -- The same of Register: marshal panics before.
  abbrev pub reaches :
      ℕ
      → (value : Option Bytes) → (grant : ℕ ⊎ Bytes) → (put_error : Option Bytes) → Cluster
      → Cluster
  reaches p none grant put_error c = c
  reaches p (some v) grant put_error c = sent p grant put_error c

  -- The heartbeat that Register starts, if it makes no error, on its first KeepAlive.
  abbrev pub beating : ℕ → (keep_alive_failed : Bool) → Cluster → Registry × Outcome → Cluster
  beating p keep_alive c (r, done) = record c {
    registry = r;
    phases = update c.registry.started (begin keep_alive) c.phases;
    owner = update c.registry.started p c.owner;
  }
  beating p keep_alive c (r, failed e) = record c { registry = r }
  beating p keep_alive c (r, panicked) = record c { registry = r }

  -- Register, by the results of Grant, of Put and of the first KeepAlive.
  unfoldable pub registered :
      ℕ
      → (grant : ℕ ⊎ Bytes) → (put_error : Option Bytes) → (keep_alive_failed : Bool) → Cluster
      → Cluster
  unfolding register_with_kv
  registered p grant put_error keep_alive c =
      beating p keep_alive (reaches p (marshal (service p)) grant put_error c)
        (register p (service p) (register_with_kv grant put_error) c.registry)

  -- Deregister: where Delete made an error, the server may or may not have carried it out.
  unfoldable pub deregistered : ℕ → Option Bytes → (carried_out : Bool) → Cluster → Cluster
  deregistered p error carried_out c = record c {
    registry = (deregister p error c.registry).0;
    store = elim error [
      | none ↦ remove (key_of p) c.store
      | some e ↦ if carried_out then remove (key_of p) c.store else c.store
    ];
  }

  -- One moment of heartbeat h; a call of registerWithKV sends the pair.
  unfoldable pub beaten : ℕ → Moment → Cluster → Cluster
  beaten h m c =
      let (phase, calls) = beat max_retry m (c.phases h) in
      record c {
        phases = update h phase c.phases;
        in_flight = if calls == 0 then c.in_flight else c.owner h ∷ c.in_flight;
      }

  pub data Step : Cluster → Cluster → Type 0 where
    -- Register of a service that is not registered.
    registers :
        (c : Cluster) (p : ℕ) (grant : ℕ ⊎ Bytes) (put_error : Option Bytes)
        (keep_alive_failed : Bool)
        → lookup p c.registry.ctx_map ≡ none
        → Step c (registered p grant put_error keep_alive_failed c)
    deregisters :
        (c : Cluster) (p : ℕ) (error : Option Bytes) (carried_out : Bool)
        → Step c (deregistered p error carried_out c)
    -- The context of a heartbeat that is not live is cancelled.
    beats :
        (c : Cluster) (h : ℕ) (m : Moment)
        → (member h c.registry.live ≡ false → m.cancelled ≡ true)
        → Step c (beaten h m c)
    -- The server carries out a Put that was sent.
    lands :
        (c : Cluster) (p : ℕ)
        → member p c.in_flight ≡ true
        → Step c (record c { store = put p c.store })
    -- A Put is answered, or will not be carried out.
    settles : (c : Cluster) (p : ℕ) → Step c (record c { in_flight = drop_one p c.in_flight })
    -- A lease ends, or another client deletes.
    expires : (c : Cluster) (k : Bytes) → Step c (record c { store = remove k c.store })
    -- Another client writes under a key that is none of these services'.
    others :
        (c : Cluster) (k v : Bytes)
        → ((p : ℕ) → k ≢ key_of p)
        → Step c (record c { store = insert k v c.store })

  pub data Reach : Cluster → Type 0 where
    start : Reach initially
    next : {c d : Cluster} → Reach c → Step c d → Reach d
