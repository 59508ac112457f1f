-- ===== src/Cas/Laws.antt =====
-- MemoryImpl.CAS of tools/cascmd/memory.go against compare-and-swap on a total function.
use opendevops_codo_golang_s.Cas.{MemoryImpl, cas}
use opendevops_codo_golang_s.Go.Dict.{index, insert, remove, lookup-insert, lookup-remove, bytes_eq}
use opendevops_codo_golang_s.Common.{
  Bytes, Bool, List, ◌≡◌, [], arith, if◌then◌else◌, ◌∷◌, ◌≢◌, All, same, same_iff, true, false,
  same_refl, sym, ◌∙◌, refl,
}

-- Compare-and-swap where every key has a value.
abbrev pub cas_on : (Bytes → Bytes) → (key src dst : Bytes) → (Bytes → Bytes) × Bool
cas_on f key src dst =
    if same (f key) src then ((λ k. if same key k then dst else f k), true) else (f, false)

index-insert :
    (m : List (Bytes × Bytes)) (key at v : Bytes)
    → index (insert key v m) at ≡ (if same key at then v else index m at)
unfolding index
index-insert m key at v = ground (arith, lookup-insert m key at v)

index-remove :
    (m : List (Bytes × Bytes)) (key at : Bytes)
    → index (remove key m) at ≡ (if same key at then [] else index m at)
unfolding index
index-remove m key at = ground (arith, lookup-remove m key at)

-- Read as a function that gives the empty string for a missing key, the map of MemoryImpl changes under
-- CAS as that function does under compare-and-swap, and the answers are the same.
pub cas-index :
    (x : MemoryImpl) (key src dst at : Bytes)
    → (index (cas x key src dst).0.m at ≡ (cas_on (index x.m) key src dst).0 at)
      × ((cas x key src dst).1 ≡ (cas_on (index x.m) key src dst).1)
unfolding cas
cas-index x key src dst at =
    ground (arith, index-insert x.m key at dst, index-remove x.m key at, same_iff dst [])

-- The answers to calls of CAS by clients that want to take the key, each with a value of its own.
unfoldable take_lock : MemoryImpl → (key : Bytes) → List Bytes → List Bool
take_lock x key [] = []
take_lock x key (d ∷ ds) = (cas x key [] d).1 ∷ take_lock (cas x key [] d).0 key ds

held :
    (x : MemoryImpl) (key : Bytes) (ds : List Bytes)
    → index x.m key ≢ []
    → All (λ b. b ≡ false) (take_lock x key ds)
unfolding take_lock cas
held x key [] h = tt
held x key (d ∷ ds) h =
    let closed : same (index x.m key) [] ≡ false = ground (arith, same_iff (index x.m key) []) in
    rw closed (refl, held x key ds h)

-- Of the clients that try to take a free key, each with a value of its own, the first one gets it,
-- if its value is not empty, and no later one does.
take_lock-free :
    (x : MemoryImpl) (key d : Bytes) (ds : List Bytes)
    → index x.m key ≡ []
    → d ≢ []
    → ((cas x key [] d).1 ≡ true) × All (λ b. b ≡ false) (take_lock (cas x key [] d).0 key ds)
take_lock-free x key d ds free h =
    let (stored, answer) = cas-index x key [] d key in
    let now : index (cas x key [] d).0.m key ≡ d =
      ground (arith, stored, free, same_refl key, same_refl []) in
    (
      ground (arith, answer, free, same_refl []),
      held (cas x key [] d).0 key ds (λ e. h (sym now ∙ e)),
    )
