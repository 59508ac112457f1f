-- ===== src/Discovery.antt =====
-- adapter/kratos/discovery/etcd: the registry, its heartbeat and the watcher. The client of etcd and the
-- JSON library are parameters: what they answer is an argument.
pub mod Registry
pub mod Cluster
pub mod Heartbeat
pub mod Watcher
pub mod Prefix
pub mod Undiscovered
pub mod Options
pub mod Dummy
use opendevops_codo_golang_s.Common.{
  ◌∷◌, Bytes, Option, List, [], ◌++◌, none, some, utf8, ◌⊎◌, inl, inr, ◌≡◌, ap, refl,
}

-- registry.ServiceInstance: the fields that this package reads.
pub record ServiceInstance : Type 0 where
  pub id : Bytes
  pub name : Bytes
  pub endpoints : List Bytes

-- marshal of service.go: `none` where it panics.
unfoldable pub marshal : ServiceInstance → Option Bytes
marshal si = elim si.endpoints [ [] ↦ none | e ∷ _ ↦ some e ]

-- fmt.Sprintf("%s/%s", service.Name, service.ID)
unfoldable pub service_key : ServiceInstance → Bytes
service_key si = si.name ++ (utf8 "/" ++ si.id)

-- One pair of the answer of etcd, decoded: an error is logged, and the pair left out.
abbrev pub collect : {I : Type 0} → Option I → List I → List I
collect none items = items
collect (some i) items = i ∷ items

-- The loop of GetService and of getInstance over the pairs that etcd returned; I is what JSON decodes to.
unfoldable pub decode_all : {I : Type 0} → (Bytes → Option I) → List (Bytes × Bytes) → List I
decode_all unmarshal [] = []
decode_all unmarshal ((k, v) ∷ kvs) = collect (unmarshal v) (decode_all unmarshal kvs)

-- GetService and getInstance behind Get: `inr` is its error.
unfoldable pub items_of :
    {I E : Type 0} → (Bytes → Option I) → List (Bytes × Bytes) ⊎ E → List I ⊎ E
unfolding decode_all
items_of unmarshal (inl kvs) = inl (decode_all unmarshal kvs)
items_of unmarshal (inr e) = inr e

-- GetService: `get` is kv.Get with the option WithPrefix, on the key that it is given.
unfoldable pub get_service :
    {I E : Type 0}
    → (Bytes → Option I)
    → (get : Bytes → List (Bytes × Bytes) ⊎ E) → (name : Bytes) → List I ⊎ E
unfolding items_of
get_service unmarshal get name = items_of unmarshal (get name)
