-- ===== src/Discovery/Cluster/Tracked.antt =====
-- Which heartbeats run: in every state that is reached, the map of Registry knows each of them by its service.
use opendevops_codo_golang_s.Go.Dict.{
  lookup, bytes_eq, lookup-remove, nat_eq, insert, lookup-insert,
}
use opendevops_codo_golang_s.Discovery.Registry.{
  cancel, deregister, register, Registry, Outcome, done, failed, register-live, register_not_done,
  panicked, register_with_kv,
}
use opendevops_codo_golang_s.Discovery.{ServiceInstance, marshal}
use opendevops_codo_golang_s.Discovery.Cluster.{
  Cluster, member, deregistered, registered, beating, Reach, beaten, Step, next, registers, start,
  deregisters, beats, lands, settles, expires, others, reaches,
}
use opendevops_codo_golang_s.Common.{
  ◌∷◌, ℕ, List, ◌≡◌, if◌then◌else◌, true, Option, ◌<◌, ◌==◌, Bool, Bytes, false, Option-cases,
  arith, none, some, [], inl, inr, ◌+◌, ◌≢◌, refl, ◌⊎◌, subst, sym,
}

pub record IsTracked (c : Cluster) : Type 0 where
  pub numbered : (h : ℕ) → member h c.registry.live ≡ true → h < c.registry.started
  pub known :
      (h : ℕ) → member h c.registry.live ≡ true → lookup (c.owner h) c.registry.ctx_map ≡ some h

member-cancel :
    (h g : ℕ) (gs : List ℕ) → member g (cancel h gs) ≡ (if h == g then false else member g gs)
member-cancel h g [] = ground arith
member-cancel h g (x ∷ gs) = ground (arith, member-cancel h g gs)

module _ (service : ℕ → ServiceInstance) (max_retry : ℕ) where
  beating-IsTracked :
      (c : Cluster) (p : ℕ) (failing : Bool) (r : Registry) (o : Outcome)
      → (o ≡ done
          → (r.live ≡ c.registry.started ∷ c.registry.live)
            × (r.ctx_map ≡ insert p c.registry.started c.registry.ctx_map)
            × (r.started ≡ c.registry.started + 1))
      → (o ≢ done
          → (r.live ≡ c.registry.live)
            × (r.ctx_map ≡ c.registry.ctx_map)
            × (r.started ≡ c.registry.started))
      → lookup p c.registry.ctx_map ≡ none
      → IsTracked c
      → IsTracked (beating service max_retry p failing c (r, o))
  beating-IsTracked c p failing r done made _ fresh t =
      let (live, map', count) = made refl in
      record {
        numbered = λ h m. ground (arith, live, count, t.numbered h);
        known = λ h m. ground (
          arith,
          live,
          map',
          fresh,
          t.known h,
          t.numbered h,
          lookup-insert c.registry.ctx_map p (c.owner h) c.registry.started,
          lookup-insert c.registry.ctx_map p p c.registry.started,
        );
      }
  beating-IsTracked c p failing r (failed e) _ kept fresh t =
      let (live, map', count) = kept (λ e. absurd (cc)) in
      record {
        numbered = λ h m. ground (arith, live, count, t.numbered h);
        known = λ h m. ground (arith, live, map', t.known h);
      }
  beating-IsTracked c p failing r panicked _ kept fresh t =
      let (live, map', count) = kept (λ e. absurd (cc)) in
      record {
        numbered = λ h m. ground (arith, live, count, t.numbered h);
        known = λ h m. ground (arith, live, map', t.known h);
      }

  deregistered-IsTracked :
      (c : Cluster) (p : ℕ) (error : Option Bytes) (carried_out : Bool)
      → IsTracked c
      → IsTracked (deregistered service max_retry p error carried_out c)
  unfolding deregistered deregister
  deregistered-IsTracked c p error carried_out t =
      elim (Option-cases (lookup p c.registry.ctx_map)) [
        | inl e ↦ record {
          numbered = λ h m. ground (arith, e, t.numbered h);
          known = λ h m. ground (arith, e, t.known h);
        }
        | inr (g, e) ↦ record {
          numbered = λ h m. ground (arith, e, t.numbered h, member-cancel g h c.registry.live);
          known = λ h m. ground (
            arith,
            e,
            t.known h,
            member-cancel g h c.registry.live,
            lookup-remove c.registry.ctx_map p (c.owner h),
          );
        }
      ]

  -- What the Put does leaves the Registry and its heartbeats alone.
  reaches-IsTracked :
      (c : Cluster) (p : ℕ) (value : Option Bytes) (grant : ℕ ⊎ Bytes) (put_error : Option Bytes)
      → IsTracked c
      → ((reaches service max_retry p value grant put_error c).registry ≡ c.registry)
        × IsTracked (reaches service max_retry p value grant put_error c)
  reaches-IsTracked c p none grant put_error t = (refl, t)
  reaches-IsTracked c p (some v) (inr e) put_error t = (refl, t)
  reaches-IsTracked c p (some v) (inl id) none t =
      (refl, record { numbered = t.numbered; known = t.known })
  reaches-IsTracked c p (some v) (inl id) (some e) t =
      (refl, record { numbered = t.numbered; known = t.known })

  registered-IsTracked :
      (c : Cluster) (p : ℕ) (grant : ℕ ⊎ Bytes) (put_error : Option Bytes) (failing : Bool)
      → lookup p c.registry.ctx_map ≡ none
      → IsTracked c
      → IsTracked (registered service max_retry p grant put_error failing c)
  unfolding registered
  registered-IsTracked c p grant put_error failing fresh t =
      let answer = register_with_kv grant put_error in
      let d = reaches service max_retry p (marshal (service p)) grant put_error c in
      let (same_registry, tracked) =
        reaches-IsTracked c p (marshal (service p)) grant put_error t in
      subst
        (λ r. IsTracked (beating service max_retry p failing d (register p (service p) answer r)))
        same_registry
        (beating-IsTracked d p failing (register p (service p) answer d.registry).0
          (register p (service p) answer d.registry).1
          (register-live p (service p) answer d.registry)
          (register_not_done p (service p) answer d.registry)
          (subst (λ r. lookup p r.ctx_map ≡ none) (sym same_registry) fresh) tracked)

  Step-IsTracked : {c d : Cluster} → Step service max_retry c d → IsTracked c → IsTracked d
  unfolding beaten
  Step-IsTracked (registers c p grant put_error failing fresh) t =
      registered-IsTracked c p grant put_error failing fresh t
  Step-IsTracked (deregisters c p error carried_out) t =
      deregistered-IsTracked c p error carried_out t
  Step-IsTracked (beats c h m h') t = record { numbered = t.numbered; known = t.known }
  Step-IsTracked (lands c p h) t = record { numbered = t.numbered; known = t.known }
  Step-IsTracked (settles c p) t = record { numbered = t.numbered; known = t.known }
  Step-IsTracked (expires c k) t = record { numbered = t.numbered; known = t.known }
  Step-IsTracked (others c k v h) t = record { numbered = t.numbered; known = t.known }

  -- From the start on, whatever happens, each running heartbeat is the one that the map has for its service.
  pub Reach-IsTracked : {c : Cluster} → Reach service max_retry c → IsTracked c
  Reach-IsTracked start = record { numbered = λ h m. absurd (cc); known = λ h m. absurd (cc) }
  Reach-IsTracked (next r s) = Step-IsTracked s (Reach-IsTracked r)
