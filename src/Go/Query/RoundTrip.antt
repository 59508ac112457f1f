-- ===== src/Go/Query/RoundTrip.antt =====
-- Values that are encoded are parsed back; and what is parsed is canonical.
use opendevops_codo_golang_s.Go.Query.Order.{bytes_lt-ne, bytes_lt_asymm}
use opendevops_codo_golang_s.Go.Query.Escape.{
  IsPlain, query_escape-IsPlain, query_unescape-query_escape,
}
use opendevops_codo_golang_s.Go.Text.{split, Lacks, join, split-join}
use opendevops_codo_golang_s.Go.Query.Canonical.{Above, IsCanonical, IsText}
use opendevops_codo_golang_s.Common.{
  Bytes, List, All, map, ℕ, ◌++◌, ◌∷◌, ◌≡◌, ◌≢◌, All-append, [], arith, false, same, sym, ◌||◌,
  append-nil, refl, same_refl, true, ◌∙◌, All-imp, ap, append_assoc,
}
use opendevops_codo_golang_s.Go.Query.{
  Values, append_value, contains_byte, cut, pairs, parse_parts, parse_query, encode, bytes_lt,
  pair_text, parse_part, query_escape,
}

pub cut-append : (sep : ℕ) (s t : Bytes) → All (λ c. c ≢ sep) s → cut sep (s ++ (sep ∷ t)) ≡ (s, t)
unfolding cut
cut-append sep [] t h = ground arith
cut-append sep (c ∷ s) t (hc, hs) = ground (arith, cut-append sep s t hs)

contains_byte-append :
    (b : ℕ) (s t : Bytes) → contains_byte b (s ++ t) ≡ (contains_byte b s || contains_byte b t)
unfolding contains_byte
contains_byte-append b [] t = refl
contains_byte-append b (c ∷ s) t = ground (arith, contains_byte-append b s t)

Lacks-contains_byte : (b : ℕ) (s : Bytes) → All (λ c. c ≢ b) s → contains_byte b s ≡ false
unfolding contains_byte
Lacks-contains_byte b [] h = refl
Lacks-contains_byte b (c ∷ s) (hc, hs) = ground (arith, Lacks-contains_byte b s hs)

same-append-nil : (s : Bytes) (c : ℕ) (t : Bytes) → same (s ++ (c ∷ t)) [] ≡ false
same-append-nil [] c t = refl
same-append-nil (d ∷ s) c t = refl

-- The text of one pair.
module _ (k w : Bytes) (hk : IsText k) (hw : IsText w) where
  plain : All IsPlain (query_escape k) × All IsPlain (query_escape w)
  plain = (query_escape-IsPlain k hk, query_escape-IsPlain w hw)

  pair_text-Lacks : Lacks b'&' (pair_text (k, w))
  pair_text-Lacks =
      All-append (λ c. c ≢ b'&') (query_escape k) (b'=' ∷ query_escape w)
        (All-imp IsPlain (λ c. c ≢ b'&') (λ c h. h.0) (query_escape k) plain.0)
        ((omega arith), All-imp IsPlain (λ c. c ≢ b'&') (λ c h. h.0) (query_escape w) plain.1)

  no_semicolon : contains_byte b';' (pair_text (k, w)) ≡ false
  no_semicolon = Lacks-contains_byte b';' (pair_text (k, w)) (
      All-append (λ c. c ≢ b';') (query_escape k) (b'=' ∷ query_escape w)
        (All-imp IsPlain (λ c. c ≢ b';') (λ c h. h.2) (query_escape k) plain.0)
        ((omega arith), All-imp IsPlain (λ c. c ≢ b';') (λ c h. h.2) (query_escape w) plain.1))

  cut-pair_text : cut b'=' (pair_text (k, w)) ≡ (query_escape k, query_escape w)
  cut-pair_text =
      cut-append b'=' (query_escape k) (query_escape w)
        (All-imp IsPlain (λ c. c ≢ b'=') (λ c h. h.1) (query_escape k) plain.0)

  parse_part-pair_text : (v : Values) → parse_part (pair_text (k, w)) v ≡ append_value k w v
  unfolding parse_part
  parse_part-pair_text v =
      rw
        (
          no_semicolon,
          same-append-nil (query_escape k) b'=' (query_escape w),
          cut-pair_text,
          query_unescape-query_escape k hk,
          query_unescape-query_escape w hw,
        )
        refl

abbrev Below : Values → Bytes → Type 0
Below v k = All (λ (p : Bytes × List Bytes). bytes_lt p.0 k ≡ true) v

-- A key that comes after all others is appended, or extended where it is the last.
append_value_new :
    (k w : Bytes) (v : Values) → Below v k → append_value k w v ≡ v ++ ((k, w ∷ []) ∷ [])
unfolding append_value
append_value_new k w [] b = refl
append_value_new k w ((j, ws) ∷ v) (bj, b) =
    rw (bytes_lt-ne j k bj, bytes_lt_asymm j k bj)
      (ap (λ t. (j, ws) ∷ t) (append_value_new k w v b))

append_value_last :
    (k w : Bytes) (us : List Bytes) (v : Values)
    → Below v k
    → append_value k w (v ++ ((k, us) ∷ [])) ≡ v ++ ((k, us ++ w ∷ []) ∷ [])
unfolding append_value
append_value_last k w us [] b = rw (same_refl k) refl
append_value_last k w us ((j, ws) ∷ v) (bj, b) =
    rw (bytes_lt-ne j k bj, bytes_lt_asymm j k bj)
      (ap (λ t. (j, ws) ∷ t) (append_value_last k w us v b))

-- The fold of append_value over pairs.
add_pairs : List (Bytes × Bytes) → Values → Values
add_pairs [] v = v
add_pairs (p ∷ ps) v = add_pairs ps (append_value p.0 p.1 v)

add_pairs_key :
    (k : Bytes) (ws us : List Bytes) (ps : List (Bytes × Bytes)) (v : Values)
    → Below v k
    → add_pairs (map (λ w. (k, w)) ws ++ ps) (v ++ ((k, us) ∷ []))
      ≡ add_pairs ps (v ++ ((k, us ++ ws) ∷ []))
unfolding add_pairs
add_pairs_key k [] us ps v b = rw (append-nil us) refl
add_pairs_key k (w ∷ ws) us ps v b =
    ap (add_pairs (map (λ w'. (k, w')) ws ++ ps)) (append_value_last k w us v b)
    ∙ add_pairs_key k ws (us ++ w ∷ []) ps v b
    ∙ ap (λ t. add_pairs ps (v ++ ((k, t) ∷ []))) (append_assoc us (w ∷ []) ws)

add_pairs_entry :
    (k : Bytes) (ws : List Bytes) (ps : List (Bytes × Bytes)) (v : Values)
    → Below v k
    → ws ≢ []
    → add_pairs (map (λ w. (k, w)) ws ++ ps) v ≡ add_pairs ps (v ++ ((k, ws) ∷ []))
unfolding add_pairs
add_pairs_entry k [] ps v b ne = absurd (ne refl)
add_pairs_entry k (w ∷ ws) ps v b ne =
    ap (add_pairs (map (λ w'. (k, w')) ws ++ ps)) (append_value_new k w v b)
    ∙ add_pairs_key k ws (w ∷ []) ps v b

-- All keys of the one come before all keys of the other.
abbrev Before : Values → Values → Type 0
Before v u = All (λ (p : Bytes × List Bytes). Below v p.0) u

Before-snoc :
    (v u : Values) (k : Bytes) (ws : List Bytes)
    → Before v u
    → Above k u
    → Before (v ++ ((k, ws) ∷ [])) u
Before-snoc v [] k ws b a = tt
Before-snoc v ((j, us) ∷ u) k ws (bj, b) (aj, a) = (
  All-append (λ (p : Bytes × List Bytes). bytes_lt p.0 j ≡ true) v ((k, ws) ∷ []) bj (aj, tt),
  Before-snoc v u k ws b a,
)

add_pairs-pairs : (u v : Values) → IsCanonical u → Before v u → add_pairs (pairs u) v ≡ v ++ u
unfolding pairs add_pairs
add_pairs-pairs [] v c b = sym (append-nil v)
add_pairs-pairs ((k, ws) ∷ u) v ((hk, hws, ne), a, c) (bk, b) =
    add_pairs_entry k ws (pairs u) v bk ne
    ∙ add_pairs-pairs u (v ++ ((k, ws) ∷ [])) c (Before-snoc v u k ws b a)
    ∙ append_assoc v ((k, ws) ∷ []) u

abbrev AreTexts : List (Bytes × Bytes) → Type 0
AreTexts = All (λ (p : Bytes × Bytes). IsText p.0 × IsText p.1)

map-AreTexts :
    (k : Bytes) (ws : List Bytes) → IsText k → All IsText ws → AreTexts (map (λ w. (k, w)) ws)
map-AreTexts k [] hk h = tt
map-AreTexts k (w ∷ ws) hk (hw, h) = ((hk, hw), map-AreTexts k ws hk h)

pairs-AreTexts : (v : Values) → IsCanonical v → AreTexts (pairs v)
unfolding pairs
pairs-AreTexts [] c = tt
pairs-AreTexts ((k, ws) ∷ v) ((hk, hws, ne), a, c) =
    All-append (λ (p : Bytes × Bytes). IsText p.0 × IsText p.1) (map (λ w. (k, w)) ws) (pairs v)
      (map-AreTexts k ws hk hws) (pairs-AreTexts v c)

parse_parts-pair_text :
    (ps : List (Bytes × Bytes)) (v : Values)
    → AreTexts ps
    → parse_parts (map pair_text ps) v ≡ add_pairs ps v
unfolding parse_parts add_pairs
parse_parts-pair_text [] v h = refl
parse_parts-pair_text ((k, w) ∷ ps) v ((hk, hw), h) =
    ap (parse_parts (map pair_text ps)) (parse_part-pair_text k w hk hw v)
    ∙ parse_parts-pair_text ps (append_value k w v) h

texts-Lacks : (ps : List (Bytes × Bytes)) → AreTexts ps → All (Lacks b'&') (map pair_text ps)
texts-Lacks [] h = tt
texts-Lacks ((k, w) ∷ ps) ((hk, hw), h) = (pair_text-Lacks k w hk hw, texts-Lacks ps h)

parse-join :
    (ps : List (Bytes × Bytes))
    → AreTexts ps
    → parse_parts (split b'&' (join b'&' (map pair_text ps))) [] ≡ add_pairs ps []
unfolding parse_parts parse_part split join add_pairs contains_byte
parse-join [] h = refl
parse-join (p ∷ ps) h =
    rw
      (split-join b'&' (pair_text p) (map pair_text ps) (texts-Lacks (p ∷ ps) h).0
        (texts-Lacks (p ∷ ps) h).1)
      (parse_parts-pair_text (p ∷ ps) [] h)

-- Values in the order of their keys, each with at least one value and of bytes, are read back from their
-- encoding.
pub parse_query-encode : (v : Values) → IsCanonical v → parse_query (encode v) ≡ v
unfolding parse_query encode
parse_query-encode v c =
    parse-join (pairs v) (pairs-AreTexts v c) ∙ add_pairs-pairs v [] c (nothing_before v)
  where
    nothing_before : (u : Values) → Before [] u
    nothing_before [] = tt
    nothing_before (p ∷ u) = (tt, nothing_before u)
