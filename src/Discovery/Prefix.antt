-- ===== src/Discovery/Prefix.antt =====
-- Whom GetService finds (adapter/kratos/discovery/etcd/registry.go), where etcd answers Get with the option
-- WithPrefix as documented.
use opendevops_codo_golang_s.Discovery.Watcher.{
  watch, new_watcher, next, get_instance, Watched, Watcher,
}
use opendevops_codo_golang_s.Discovery.{
  decode_all, get_service, ServiceInstance, collect, service_key, items_of,
}
use opendevops_codo_golang_s.Go.Text.{has_prefix}
use opendevops_codo_golang_s.Common.{
  ◌∷◌, Bytes, Option, List, ◌++◌, if◌then◌else◌, ◌≡◌, Bool-cases, [], ap, some, true, arith, inl,
  none, ◌∙◌, inr, refl, append_assoc, utf8, ◌⊎◌,
}

-- The pairs whose key has the prefix, in the order of the store.
abbrev pub under : Bytes → List (Bytes × Bytes) → List (Bytes × Bytes)
under prefix [] = []
under prefix ((k, v) ∷ kvs) =
    let rest = under prefix kvs in if has_prefix k prefix then (k, v) ∷ rest else rest

under-append :
    (prefix : Bytes) (xs ys : List (Bytes × Bytes))
    → under prefix (xs ++ ys) ≡ under prefix xs ++ under prefix ys
under-append prefix [] ys = refl
under-append prefix ((k, v) ∷ xs) ys = elim (Bool-cases (has_prefix k prefix)) [
  | inl e ↦ rw e (ap (λ t. (k, v) ∷ t) (under-append prefix xs ys))
  | inr e ↦ rw e (under-append prefix xs ys)
]

has_prefix-append : (p s : Bytes) → has_prefix (p ++ s) p ≡ true
unfolding has_prefix
has_prefix-append [] [] = refl
has_prefix-append [] (c ∷ s) = refl
has_prefix-append (c ∷ p) s = ground (arith, has_prefix-append p s)

collect-append :
    {I : Type 0} (o : Option I) (xs ys : List I) → collect o (xs ++ ys) ≡ collect o xs ++ ys
collect-append none xs ys = refl
collect-append (some i) xs ys = refl

decode_all-append :
    {I : Type 0} (unmarshal : Bytes → Option I) (xs ys : List (Bytes × Bytes))
    → decode_all unmarshal (xs ++ ys) ≡ decode_all unmarshal xs ++ decode_all unmarshal ys
unfolding decode_all
decode_all-append unmarshal [] ys = refl
decode_all-append unmarshal ((k, v) ∷ xs) ys =
    ap (collect (unmarshal v)) (decode_all-append unmarshal xs ys)
    ∙ collect-append (unmarshal v) (decode_all unmarshal xs) (decode_all unmarshal ys)

service_key-prefix :
    (service : ServiceInstance) (name more : Bytes)
    → service.name ≡ name ++ more
    → has_prefix (service_key service) name ≡ true
unfolding service_key
service_key-prefix service name more named =
    rw (named, append_assoc name more (utf8 "/" ++ service.id))
      (has_prefix-append name (more ++ (utf8 "/" ++ service.id)))

first_found :
    {I : Type 0} (unmarshal : Bytes → Option I) (k name v : Bytes) (i : I)
    (after : List (Bytes × Bytes))
    → has_prefix k name ≡ true
    → unmarshal v ≡ some i
    → decode_all unmarshal (under name ((k, v) ∷ after))
      ≡ i ∷ decode_all unmarshal (under name after)
unfolding decode_all
first_found unmarshal k name v i after prefixed decodes = rw (prefixed, decodes) refl

items_of-under :
    {I : Type 0} (unmarshal : Bytes → Option I) (service : ServiceInstance) (name more v : Bytes)
    (i : I) (before after : List (Bytes × Bytes))
    → service.name ≡ name ++ more
    → unmarshal v ≡ some i
    → decode_all unmarshal (under name (before ++ (service_key service, v) ∷ after))
      ≡ decode_all unmarshal (under name before) ++ i ∷ decode_all unmarshal (under name after)
items_of-under unmarshal service name more v i before after named decodes =
    ap (decode_all unmarshal) (under-append name before ((service_key service, v) ∷ after))
    ∙ decode_all-append unmarshal (under name before)
        (under name ((service_key service, v) ∷ after))
    ∙ ap (λ t. decode_all unmarshal (under name before) ++ t)
        (first_found unmarshal (service_key service) name v i after
          (service_key-prefix service name more named) decodes)

-- Where etcd answers Get with all pairs of the store whose key has the prefix that it is asked for: GetService of
-- a name, and the first Next of a watcher that Watch made for it, whatever is passed to its select, both
-- return each instance in the store whose service has a name that starts with that name, also where the
-- service's name goes on.
pub get_service-under :
    {I : Type 0} (unmarshal : Bytes → Option I) (service : ServiceInstance) (name more v : Bytes)
    (i : I) (before after : List (Bytes × Bytes)) (e : Watched) (w : Watcher)
    → service.name ≡ name ++ more
    → unmarshal v ≡ some i
    → watch name none ≡ inl w
    → let get : Bytes → List (Bytes × Bytes) ⊎ Bytes =
        λ key. inl (under key (before ++ (service_key service, v) ∷ after)) in
      (xs ys : List I) × (get_service unmarshal get name ≡ inl (xs ++ i ∷ ys))
      × ((next unmarshal get e w).1 ≡ inl (xs ++ i ∷ ys))
unfolding get_service items_of watch new_watcher next get_instance
get_service-under unmarshal service name more v i before after e w named decodes made =
    let found = items_of-under unmarshal service name more v i before after named decodes in
    let first : w.first ≡ true = ground (arith, made) in
    let key : w.key ≡ name = ground (arith, made) in
    (
      decode_all unmarshal (under name before),
      decode_all unmarshal (under name after),
      ap inl found,
      rw (first, key) (ap inl found),
    )
