-- ===== src/Go/Query/Assigned.antt =====
-- A series of Set, and what Get finds after it.
use opendevops_codo_golang_s.Go.Query.{Values, get, parse_query, set, encode}
use opendevops_codo_golang_s.Common.{
  ◌∷◌, Bytes, List, All, if◌then◌else◌, same, ◌≡◌, [], ◌∙◌, ap, Bool-cases, inl, same_iff, inr,
  refl,
}
use opendevops_codo_golang_s.Go.Query.Keys.{get-set_self, get-set_other}
use opendevops_codo_golang_s.Go.Query.RoundTrip.{parse_query-encode}
use opendevops_codo_golang_s.Go.Query.Parsed.{parse_query-IsCanonical}
use opendevops_codo_golang_s.Go.Query.Canonical.{IsText, IsCanonical, set-IsCanonical}

-- One Set after the other.
unfoldable pub set_all : List (Bytes × Bytes) → Values → Values
set_all [] v = v
set_all ((k, w) ∷ kvs) v = set_all kvs (set k w v)

-- The last value that the series gives a key, or else d.
abbrev pub assigned : Bytes → List (Bytes × Bytes) → Bytes → Bytes
assigned k [] d = d
assigned k ((j, w) ∷ kvs) d = assigned k kvs (if same j k then w else d)

get-set_all :
    (k : Bytes) (kvs : List (Bytes × Bytes)) (v : Values)
    → get k (set_all kvs v) ≡ assigned k kvs (get k v)
unfolding set_all
get-set_all k [] v = refl
get-set_all k ((j, w) ∷ kvs) v =
    get-set_all k kvs (set j w v)
    ∙ ap (assigned k kvs) (elim (Bool-cases (same j k)) [
      | inl e ↦ rw (e, (same_iff j k).0 e) (get-set_self k w v)
      | inr e ↦ rw e (get-set_other k j w v e)
    ])

abbrev pub AreTexts : List (Bytes × Bytes) → Type 0
AreTexts = All (λ (p : Bytes × Bytes). IsText p.0 × IsText p.1)

set_all-IsCanonical :
    (kvs : List (Bytes × Bytes)) (v : Values)
    → AreTexts kvs
    → IsCanonical v
    → IsCanonical (set_all kvs v)
unfolding set_all
set_all-IsCanonical [] v h c = c
set_all-IsCanonical ((k, w) ∷ kvs) v ((hk, hw), h) c =
    set_all-IsCanonical kvs (set k w v) h (set-IsCanonical k w v hk hw c)

-- What a server reads under a key of a query to which the series was added.
pub get-parse_query-encode :
    (k q : Bytes) (kvs : List (Bytes × Bytes))
    → IsText q
    → AreTexts kvs
    → get k (parse_query (encode (set_all kvs (parse_query q))))
      ≡ assigned k kvs (get k (parse_query q))
get-parse_query-encode k q kvs hq h =
    ap (get k) (
      parse_query-encode (set_all kvs (parse_query q))
        (set_all-IsCanonical kvs (parse_query q) h (parse_query-IsCanonical q hq)))
    ∙ get-set_all k kvs (parse_query q)
