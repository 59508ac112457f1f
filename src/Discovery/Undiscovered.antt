-- ===== src/Discovery/Undiscovered.antt =====
-- What becomes of the value that Register of adapter/kratos/discovery/etcd/registry.go writes, in GetService there
-- and in Next of watcher.go.
use opendevops_codo_golang_s.Discovery.Watcher.{Watched, Watcher, next, next_same}
use opendevops_codo_golang_s.Discovery.Registry.{
  Registry, Outcome, register, register_with_kv, failed, done, panicked,
}
use opendevops_codo_golang_s.Discovery.Prefix.{under}
use opendevops_codo_golang_s.Go.Dict.{lookup, insert, bytes_eq}
use opendevops_codo_golang_s.Discovery.{
  decode_all, collect, get_service, ServiceInstance, items_of, marshal,
}
use opendevops_codo_golang_s.Common.{
  ◌∷◌, Bytes, Option, List, ◌≡◌, none, Bool-cases, inl, inr, same, arith, ap, [], refl, ℕ, Bool,
  ◌⊎◌, some, ◌∙◌,
}
use opendevops_codo_golang_s.Go.Text.{has_prefix}
use opendevops_codo_golang_s.Discovery.Cluster.{Cluster, registered, put, key_of, reaches, beating}

-- A pair under a new key whose value JSON rejects leaves no trace.
decode_all-insert :
    {I : Type 0} (unmarshal : Bytes → Option I) (key v prefix : Bytes)
    (store : List (Bytes × Bytes))
    → lookup key store ≡ none
    → unmarshal v ≡ none
    → decode_all unmarshal (under prefix (insert key v store))
      ≡ decode_all unmarshal (under prefix store)
unfolding decode_all lookup insert
decode_all-insert unmarshal key v prefix [] fresh h = elim (Bool-cases (has_prefix key prefix)) [
  | inl e ↦ rw (e, h) refl
  | inr e ↦ rw e refl
]
decode_all-insert unmarshal key v prefix ((j, w) ∷ store) fresh h = elim (Bool-cases (same j key)) [
  | inl e ↦ absurd (ground (arith, e, fresh))
  | inr e ↦
      let rest = decode_all-insert unmarshal key v prefix store (ground (arith, e, fresh)) h in
      elim (Bool-cases (has_prefix j prefix)) [
        | inl p ↦ rw (e, p) (ap (collect (unmarshal w)) rest)
        | inr p ↦ rw (e, p) rest
      ]
]

module _ (service : ℕ → ServiceInstance) (max_retry : ℕ) where
  beating_store :
      (p : ℕ) (failing : Bool) (c : Cluster) (r : Registry × Outcome)
      → (beating service max_retry p failing c r).store ≡ c.store
  beating_store p failing c (r, done) = refl
  beating_store p failing c (r, failed e) = refl
  beating_store p failing c (r, panicked) = refl

  module _ {I : Type 0} (unmarshal : Bytes → Option I) (p : ℕ) (e : Bytes) (es : List Bytes)
      (endpoints : (service p).endpoints ≡ e ∷ es) (no_json : unmarshal e ≡ none) where
    abbrev visible : Bytes → Cluster → List I
    visible prefix c = decode_all unmarshal (under prefix c.store)

    value : marshal (service p) ≡ some e
    unfolding marshal
    value = rw endpoints refl

    put_value :
        (store : List (Bytes × Bytes))
        → put service max_retry p store ≡ insert (key_of service max_retry p) e store
    unfolding put
    put_value store =
        ap (λ v. elim v [ none ↦ store | some w ↦ insert (key_of service max_retry p) w store ])
          value

    visible-reaches :
        (prefix : Bytes) (grant : ℕ ⊎ Bytes) (put_error : Option Bytes) (c : Cluster)
        → lookup (key_of service max_retry p) c.store ≡ none
        → visible prefix (reaches service max_retry p (some e) grant put_error c) ≡ visible prefix c
    visible-reaches prefix (inr x) put_error c fresh = refl
    visible-reaches prefix (inl id) (some x) c fresh = refl
    visible-reaches prefix (inl id) none c fresh =
        ap (λ s. decode_all unmarshal (under prefix s)) (put_value c.store)
        ∙ (decode_all-insert unmarshal (key_of service max_retry p) e prefix c.store fresh no_json)

    visible-registered :
        (prefix : Bytes) (grant : ℕ ⊎ Bytes) (put_error : Option Bytes) (failing : Bool)
        (c : Cluster)
        → lookup (key_of service max_retry p) c.store ≡ none
        → visible prefix (registered service max_retry p grant put_error failing c)
          ≡ visible prefix c
    unfolding registered
    visible-registered prefix grant put_error failing c fresh =
        ap (λ s. decode_all unmarshal (under prefix s))
          (beating_store p failing
            (reaches service max_retry p (marshal (service p)) grant put_error c)
            (register p (service p) (register_with_kv grant put_error) c.registry))
        ∙ ap (λ v. visible prefix (reaches service max_retry p v grant put_error c)) value
        ∙ visible-reaches prefix grant put_error c fresh

-- Where etcd answers Get with all pairs of the store whose key has the prefix that it is asked for, and had nothing
-- under the key of a service whose first endpoint JSON rejects: behind Register of that service, whatever
-- Grant, Put and KeepAlive return, GetService of any name and Next of any watcher, whatever it meets, return
-- what they return without that Register.
pub never_discovered :
    {I : Type 0} (unmarshal : Bytes → Option I) (service : ℕ → ServiceInstance) (max_retry p : ℕ)
    (e : Bytes) (es : List Bytes) (grant : ℕ ⊎ Bytes) (put_error : Option Bytes) (failing : Bool)
    (c : Cluster) (name : Bytes) (meets : Watched) (w : Watcher)
    → (service p).endpoints ≡ e ∷ es
    → unmarshal e ≡ none
    → lookup (key_of service max_retry p) c.store ≡ none
    → let before : Bytes → List (Bytes × Bytes) ⊎ Bytes = λ key. inl (under key c.store) in
      let after : Bytes → List (Bytes × Bytes) ⊎ Bytes =
        λ key. inl (under key (registered service max_retry p grant put_error failing c).store) in
      (get_service unmarshal after name ≡ get_service unmarshal before name)
      × (next unmarshal after meets w ≡ next unmarshal before meets w)
unfolding get_service items_of
never_discovered unmarshal service max_retry p e es grant put_error failing c name meets w endpoints
      no_json fresh =
    let same_items : (prefix : Bytes)
        → decode_all unmarshal
            (under prefix (registered service max_retry p grant put_error failing c).store)
          ≡ decode_all unmarshal (under prefix c.store) =
      λ prefix.
        visible-registered service max_retry unmarshal p e es endpoints no_json prefix grant
          put_error failing c fresh in
    (
      ap inl (same_items name),
      next_same unmarshal (λ key. inl (under key c.store))
          (λ key. inl (under key (registered service max_retry p grant put_error failing c).store))
          meets w (ap inl (same_items w.key)),
    )
