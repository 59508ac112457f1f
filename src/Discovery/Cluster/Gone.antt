-- ===== src/Discovery/Cluster/Gone.antt =====
-- What Deregister leaves behind: the service is gone from etcd, and stays so.
use opendevops_codo_golang_s.Discovery.Registry.{
  register, Granted, Registry, deregister, Outcome, failed, done, panicked, register_with_kv,
}
use opendevops_codo_golang_s.Discovery.Heartbeat.{Moment, beat_cancelled}
use opendevops_codo_golang_s.Go.Dict.{lookup, nat_eq, bytes_eq, lookup-insert, lookup-remove}
use opendevops_codo_golang_s.Discovery.Cluster.{
  Cluster, beaten, key_of, Step, member, put, registers, drop_one, deregisters, beats, lands,
  settles, expires, others, Reach, deregistered, registered, next, beating, reaches,
}
use opendevops_codo_golang_s.Discovery.{ServiceInstance, marshal}
use opendevops_codo_golang_s.Common.{
  ◌∷◌, ℕ, List, ◌≡◌, false, none, Bytes, true, ◌≢◌, Bool-cases, Option-cases, arith, [], inl, inr,
  refl, same_iff, Bool, ◌∙◌, Option, same_refl, ◌⊎◌, some,
}
use opendevops_codo_golang_s.Discovery.Cluster.Tracked.{IsTracked, Reach-IsTracked}

module _ (service : ℕ → ServiceInstance) (max_retry : ℕ) where
  -- A step that is no Register of p.
  abbrev Spares : ℕ → {c d : Cluster} → Step service max_retry c d → Type 0
  Spares p (registers c q grant put_error failing fresh) = q ≢ p
  Spares p (deregisters c q error carried_out) = Unit
  Spares p (beats c h m e) = Unit
  Spares p (lands c q e) = Unit
  Spares p (settles c q) = Unit
  Spares p (expires c k) = Unit
  Spares p (others c k v e) = Unit

  pub data Onward (p : ℕ) (c : Cluster) : Cluster → Type 0 where
    stay : Onward p c c
    on :
        {d e : Cluster}
        → Onward p c d
        → (s : Step service max_retry d e) → Spares p s
        → Onward p c e

  -- Unknown to the Registry and to etcd, with no Put under way.
  record IsGone (p : ℕ) (c : Cluster) : Type 0 where
    unregistered : lookup p c.registry.ctx_map ≡ none
    unsent : member p c.in_flight ≡ false
    absent : lookup (key_of service max_retry p) c.store ≡ none

  member-drop_one : (p q : ℕ) (ps : List ℕ) → member p ps ≡ false → member p (drop_one q ps) ≡ false
  member-drop_one p q [] h = refl
  member-drop_one p q (x ∷ ps) h = ground (arith, member-drop_one p q ps)

  beaten-IsGone :
      (p : ℕ) (c : Cluster) (h : ℕ) (m : Moment)
      → (member h c.registry.live ≡ false → m.cancelled ≡ true)
      → IsTracked c
      → IsGone p c
      → IsGone p (beaten service max_retry h m c)
  unfolding beaten
  beaten-IsGone p c h m parent t g = record {
    unregistered = g.unregistered;
    unsent = elim (Bool-cases (member h c.registry.live)) [
      | inl e ↦ let known = t.known h e in ground (arith, g.unsent, g.unregistered)
      | inr e ↦ ground (arith, beat_cancelled max_retry m (c.phases h) (parent e), g.unsent)
    ];
    absent = g.absent;
  }

  module _
      (distinct : (p q : ℕ) → key_of service max_retry p ≡ key_of service max_retry q → p ≡ q) where
    pub lookup-put :
        (p q : ℕ) (store : List (Bytes × Bytes))
        → q ≢ p
        → lookup (key_of service max_retry p) (put service max_retry q store)
          ≡ lookup (key_of service max_retry p) store
    unfolding put
    lookup-put p q store h = elim (Option-cases (marshal (service q))) [
      | inl e ↦ ground (arith, e)
      | inr (v, e) ↦ ground (
        arith,
        e,
        lookup-insert store (key_of service max_retry q) (key_of service max_retry p) v,
        same_iff (key_of service max_retry q) (key_of service max_retry p),
        distinct p q,
      )
    ]

    reaches-IsGone :
        (p q : ℕ) (c : Cluster) (value : Option Bytes) (grant : ℕ ⊎ Bytes)
        (put_error : Option Bytes)
        → q ≢ p
        → IsGone p c
        → IsGone p (reaches service max_retry q value grant put_error c)
    reaches-IsGone p q c none grant put_error h g = g
    reaches-IsGone p q c (some v) (inr e) put_error h g = g
    reaches-IsGone p q c (some v) (inl id) none h g = record {
      unregistered = g.unregistered;
      unsent = g.unsent;
      absent = lookup-put p q c.store h ∙ g.absent;
    }
    reaches-IsGone p q c (some v) (inl id) (some e) h g = record {
      unregistered = g.unregistered;
      unsent = ground (arith, g.unsent);
      absent = g.absent;
    }

    beating-IsGone :
        (p q : ℕ) (c : Cluster) (failing : Bool) (r : Registry) (o : Outcome)
        → lookup p r.ctx_map ≡ none
        → IsGone p c
        → IsGone p (beating service max_retry q failing c (r, o))
    beating-IsGone p q c failing r done fresh g = record {
      unregistered = fresh;
      unsent = g.unsent;
      absent = g.absent;
    }
    beating-IsGone p q c failing r (failed e) fresh g = record {
      unregistered = fresh;
      unsent = g.unsent;
      absent = g.absent;
    }
    beating-IsGone p q c failing r panicked fresh g = record {
      unregistered = fresh;
      unsent = g.unsent;
      absent = g.absent;
    }

    register_other :
        (p q : ℕ) (answer : Granted) (r : Registry)
        → q ≢ p
        → lookup p (register q (service q) answer r).0.ctx_map ≡ lookup p r.ctx_map
    unfolding register
    register_other p q answer r h = ground (arith, lookup-insert r.ctx_map q p r.started)

    deregistered-IsGone :
        (p q : ℕ) (c : Cluster) (error : Option Bytes) (carried_out : Bool)
        → IsGone p c
        → IsGone p (deregistered service max_retry q error carried_out c)
    unfolding deregistered deregister
    deregistered-IsGone p q c error carried_out g = record {
      unregistered = ground (arith, g.unregistered, lookup-remove c.registry.ctx_map q p);
      unsent = g.unsent;
      absent = ground (
        arith,
        g.absent,
        lookup-remove c.store (key_of service max_retry q) (key_of service max_retry p),
      );
    }

    Step-IsGone :
        {p : ℕ} {c d : Cluster} (s : Step service max_retry c d)
        → Spares p s
        → IsTracked c
        → IsGone p c
        → IsGone p d
    unfolding registered
    Step-IsGone {p} (registers c q grant put_error failing fresh) h t g =
        let answer = register_with_kv grant put_error in
        beating-IsGone p q (reaches service max_retry q (marshal (service q)) grant put_error c)
          failing (register q (service q) answer c.registry).0
          (register q (service q) answer c.registry).1
          (register_other p q answer c.registry h ∙ g.unregistered)
          (reaches-IsGone p q c (marshal (service q)) grant put_error h g)
    Step-IsGone {p} (deregisters c q error carried_out) h t g =
        deregistered-IsGone p q c error carried_out g
    Step-IsGone {p} (beats c n m e) h t g = beaten-IsGone p c n m e t g
    Step-IsGone {p} (lands c q e) h t g =
        let other : q ≢ p = λ same_one. absurd (ground (arith, g.unsent)) in
        record {
          unregistered = g.unregistered;
          unsent = g.unsent;
          absent = lookup-put p q c.store other ∙ g.absent;
        }
    Step-IsGone {p} (settles c q) h t g = record {
      unregistered = g.unregistered;
      unsent = member-drop_one p q c.in_flight g.unsent;
      absent = g.absent;
    }
    Step-IsGone {p} (expires c k) h t g = record {
      unregistered = g.unregistered;
      unsent = g.unsent;
      absent = ground (arith, g.absent, lookup-remove c.store k (key_of service max_retry p));
    }
    Step-IsGone {p} (others c k v e) h t g = record {
      unregistered = g.unregistered;
      unsent = g.unsent;
      absent = ground (
        arith,
        g.absent,
        lookup-insert c.store k (key_of service max_retry p) v,
        same_iff k (key_of service max_retry p),
        e p,
      );
    }

    Onward-IsGone :
        {p : ℕ} {c d : Cluster}
        → Onward p c d
        → Reach service max_retry c
        → IsGone p c
        → (Reach service max_retry d) × IsGone p d
    Onward-IsGone stay r g = (r, g)
    Onward-IsGone (on w s h) r g =
        let (r', g') = Onward-IsGone w r g in
        (next r' s, Step-IsGone s h (Reach-IsTracked service max_retry r') g')

    -- Where no two services share a key and no service is registered anew before it is deregistered: once
    -- Deregister of a service made no error, with no Put of its pair under way, etcd has nothing under its key
    -- until Register of that service is called again, whatever its heartbeats, the other services, the server
    -- and other clients, which write under other keys, do.
    pub gone-deregister :
        {c d : Cluster} (p : ℕ)
        → Reach service max_retry c
        → member p c.in_flight ≡ false
        → Onward p (deregistered service max_retry p none true c) d
        → lookup (key_of service max_retry p) d.store ≡ none
    unfolding deregistered deregister
    gone-deregister {c} p r unsent w =
        let g : IsGone p (deregistered service max_retry p none true c) = record {
          unregistered = ground (arith, lookup-remove c.registry.ctx_map p p);
          unsent = unsent;
          absent =
              lookup-remove c.store (key_of service max_retry p) (key_of service max_retry p)
              ∙ rw (same_refl (key_of service max_retry p)) refl;
        } in
        (Onward-IsGone w (next r (deregisters c p none true)) g).1.absent
