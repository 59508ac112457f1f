-- ===== src/Discovery/Cluster/Present.antt =====
-- What Register leaves behind: the endpoint of the service in etcd, as long as nothing deletes it.
use opendevops_codo_golang_s.Discovery.Registry.{
  Registry, Outcome, register, done, failed, panicked, register_with_kv,
}
use opendevops_codo_golang_s.Go.Dict.{lookup, remove, bytes_eq, lookup-insert, lookup-remove}
use opendevops_codo_golang_s.Discovery.Cluster.{
  Cluster, key_of, Step, registers, deregisters, beats, put, registered, deregistered, lands,
  beaten, settles, beating, expires, others, reaches,
}
use opendevops_codo_golang_s.Discovery.{ServiceInstance, marshal}
use opendevops_codo_golang_s.Common.{
  ℕ, ◌≡◌, Bytes, some, ◌≢◌, Bool, List, Bool-cases, arith, ◌==◌, inl, same_iff, same_refl, subst,
  none, sym, ==_iff, true, false, inr, ◌∙◌, Option, ◌⊎◌,
}
use opendevops_codo_golang_s.Discovery.Cluster.Gone.{lookup-put}

module _ (service : ℕ → ServiceInstance) (max_retry : ℕ) where
  -- A step that is no Deregister of p, and no end of the lease of its key.
  abbrev Keeps : ℕ → {c d : Cluster} → Step service max_retry c d → Type 0
  Keeps p (registers c q grant put_error failing fresh) = Unit
  Keeps p (deregisters c q error carried_out) = q ≢ p
  Keeps p (beats c h m e) = Unit
  Keeps p (lands c q e) = Unit
  Keeps p (settles c q) = Unit
  Keeps p (expires c k) = k ≢ key_of service max_retry p
  Keeps p (others c k v e) = Unit

  pub data Kept (p : ℕ) (c : Cluster) : Cluster → Type 0 where
    at_once : Kept p c c
    further :
        {d e : Cluster} → Kept p c d → (s : Step service max_retry d e) → Keeps p s → Kept p c e

  module _ (distinct : (p q : ℕ) → key_of service max_retry p ≡ key_of service max_retry q → p ≡ q)
      (p : ℕ) (v : Bytes) (endpoint : marshal (service p) ≡ some v) where
    abbrev At : List (Bytes × Bytes) → Type 0
    At store = lookup (key_of service max_retry p) store ≡ some v

    put_self : (store : List (Bytes × Bytes)) → At (put service max_retry p store)
    unfolding put
    put_self store = ground (
      arith,
      endpoint,
      lookup-insert store (key_of service max_retry p) (key_of service max_retry p) v,
      same_refl (key_of service max_retry p),
    )

    put-At : (q : ℕ) (store : List (Bytes × Bytes)) → At store → At (put service max_retry q store)
    put-At q store h = elim (Bool-cases (q == p)) [
      | inl e ↦
          subst (λ r. At (put service max_retry r store)) (sym ((==_iff q p).0 e)) (put_self store)
      | inr e ↦
          lookup-put service max_retry distinct p q store (λ e'. ground (arith, (==_iff q p).1 e'))
          ∙ h
    ]

    remove-At :
        (k : Bytes) (store : List (Bytes × Bytes))
        → k ≢ key_of service max_retry p
        → At store
        → At (remove k store)
    remove-At k store other h = ground (
      arith,
      h,
      lookup-remove store k (key_of service max_retry p),
      same_iff k (key_of service max_retry p),
    )

    reaches-At :
        (q : ℕ) (value : Option Bytes) (grant : ℕ ⊎ Bytes) (put_error : Option Bytes) (c : Cluster)
        → At c.store
        → At (reaches service max_retry q value grant put_error c).store
    reaches-At q none grant put_error c h = h
    reaches-At q (some w) (inr e) put_error c h = h
    reaches-At q (some w) (inl id) none c h = put-At q c.store h
    reaches-At q (some w) (inl id) (some e) c h = h

    -- What follows the Put leaves the store alone.
    beating-At :
        (q : ℕ) (c : Cluster) (failing : Bool) (r : Registry × Outcome)
        → At c.store
        → At (beating service max_retry q failing c r).store
    beating-At q c failing (r, done) h = h
    beating-At q c failing (r, failed e) h = h
    beating-At q c failing (r, panicked) h = h

    -- Where registerWithKV made no error, neither did Grant and Put.
    register_with_kv-At :
        (grant : ℕ ⊎ Bytes) (put_error : Option Bytes) (c : Cluster)
        → (register p (service p) (register_with_kv grant put_error) c.registry).1 ≡ done
        → At (reaches service max_retry p (some v) grant put_error c).store
    unfolding register_with_kv register
    register_with_kv-At (inr e) put_error c h = absurd (ground (arith, endpoint, h))
    register_with_kv-At (inl id) (some e) c h = absurd (ground (arith, endpoint, h))
    register_with_kv-At (inl id) none c h = put_self c.store

    registered-At :
        (grant : ℕ ⊎ Bytes) (put_error : Option Bytes) (failing : Bool) (c : Cluster)
        → (register p (service p) (register_with_kv grant put_error) c.registry).1 ≡ done
        → At (registered service max_retry p grant put_error failing c).store
    unfolding registered
    registered-At grant put_error failing c h =
        beating-At p (reaches service max_retry p (marshal (service p)) grant put_error c) failing
          (register p (service p) (register_with_kv grant put_error) c.registry)
          (subst (λ w. At (reaches service max_retry p w grant put_error c).store) (sym endpoint)
            (register_with_kv-At grant put_error c h))

    Step-At : {c d : Cluster} (s : Step service max_retry c d) → Keeps p s → At c.store → At d.store
    unfolding registered deregistered beaten
    Step-At (registers c q grant put_error failing fresh) k h =
        beating-At q (reaches service max_retry q (marshal (service q)) grant put_error c) failing
          (register q (service q) (register_with_kv grant put_error) c.registry)
          (reaches-At q (marshal (service q)) grant put_error c h)
    Step-At (deregisters c q none carried_out) k h = remove-At _ c.store (λ e. k (distinct q p e)) h
    Step-At (deregisters c q (some e) true) k h = remove-At _ c.store (λ e. k (distinct q p e)) h
    Step-At (deregisters c q (some e) false) k h = h
    Step-At (beats c n m e) k h = h
    Step-At (lands c q e) k h = put-At q c.store h
    Step-At (settles c q) k h = h
    Step-At (expires c key) k h = remove-At key c.store k h
    Step-At (others c key w e) k h = ground (
      arith,
      h,
      lookup-insert c.store key (key_of service max_retry p) w,
      same_iff key (key_of service max_retry p),
      e p,
    )

    Kept-At : {c d : Cluster} → Kept p c d → At c.store → At d.store
    Kept-At at_once h = h
    Kept-At (further w s k) h = Step-At s k (Kept-At w h)

    -- Where no two services share a key and the service has an endpoint: once Register of it made no error, whatever
    -- Grant and Put returned, etcd has the first endpoint of the service under its key, until Deregister of that
    -- service is called or the key is deleted otherwise, whatever the heartbeats, the other services, the server
    -- and other clients, which write under other keys, do.
    pub present-register :
        {d : Cluster} (c : Cluster) (grant : ℕ ⊎ Bytes) (put_error : Option Bytes) (failing : Bool)
        → (register p (service p) (register_with_kv grant put_error) c.registry).1 ≡ done
        → Kept p (registered service max_retry p grant put_error failing c) d
        → lookup (key_of service max_retry p) d.store ≡ some v
    present-register c grant put_error failing ok w =
        Kept-At w (registered-At grant put_error failing c ok)
