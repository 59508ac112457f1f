-- ===== src/Go/Query.antt =====
-- Package net/url: QueryEscape, QueryUnescape, ParseQuery and Values. A map of values is an association
-- list in the order of its keys, which is the order in which Encode writes them.
pub mod Escape
pub mod Order
pub mod Canonical
pub mod RoundTrip
pub mod Parsed
pub mod Keys
pub mod Assigned
pub mod Digits
use mathlib.Core.Option
use opendevops_codo_golang_s.Go.Text.{join, split}
use opendevops_codo_golang_s.Common.{
  Bytes, List, Option, ℕ, Bool, [], if◌then◌else◌, map, some, ◌++◌, ◌∷◌, false, leb, ltb, none,
  same, ◌==◌, true, ◌&&◌, ◌+◌, ◌-◌, ◌/◌, ◌||◌, ◌%◌, ◌*◌,
}

abbrev pub unreserved : ℕ → Bool
unreserved c =
    (leb b'a' c && leb c b'z')
    || (leb b'A' c && leb c b'Z')
    || (leb b'0' c && leb c b'9')
    || c == b'-'
    || c == b'_'
    || c == b'.'
    || c == b'~'

abbrev pub upper_hex : ℕ → ℕ
upper_hex n = if ltb n 10 then b'0' + n else b'A' + (n - 10)

abbrev pub escape_byte : ℕ → Bytes
escape_byte c =
    if unreserved c
    then c ∷ []
    else if c == b' '
    then b'+' ∷ []
    else b'%' ∷ upper_hex (c / 16) ∷ upper_hex (c % 16) ∷ []

-- url.QueryEscape
unfoldable pub query_escape : Bytes → Bytes
query_escape [] = []
query_escape (c ∷ s) = escape_byte c ++ query_escape s

abbrev pub is_hex : ℕ → Bool
is_hex c = (leb b'0' c && leb c b'9') || (leb b'a' c && leb c b'f') || (leb b'A' c && leb c b'F')

abbrev pub unhex : ℕ → ℕ
unhex c = if leb c b'9' then c - b'0' else if leb b'a' c then c - b'a' + 10 else c - b'A' + 10

-- Where the reader of an escaped text stands: between bytes, behind a %, or behind its first digit.
pub data Pending : Type 0 where
  between : Pending
  percent : Pending
  digit : ℕ → Pending

unfoldable pub unescape_from : Pending → Bytes → Option Bytes
unescape_from between [] = some []
unescape_from percent [] = none
unescape_from (digit h) [] = none
unescape_from between (c ∷ s) =
    let coded = unescape_from percent s in
    let plain = Option.map (λ t. (if c == b'+' then b' ' else c) ∷ t) (unescape_from between s) in
    if c == b'%' then coded else plain
unescape_from percent (c ∷ s) =
    let rest = unescape_from (digit (unhex c)) s in if is_hex c then rest else none
unescape_from (digit h) (c ∷ s) =
    let rest = Option.map (λ t. (h * 16 + unhex c) ∷ t) (unescape_from between s) in
    if is_hex c then rest else none

-- url.QueryUnescape: `none` is its error.
unfoldable pub query_unescape : Bytes → Option Bytes
unfolding unescape_from
query_unescape s = unescape_from between s

-- strings.Cut(s, sep) for a separator of one byte: what is before it, and what is behind it.
unfoldable pub cut : ℕ → Bytes → Bytes × Bytes
cut sep [] = ([], [])
cut sep (c ∷ s) = if c == sep then ([], s) else (c ∷ (cut sep s).0, (cut sep s).1)

unfoldable pub contains_byte : ℕ → Bytes → Bool
contains_byte b [] = false
contains_byte b (c ∷ s) = c == b || contains_byte b s

-- The order of strings.
unfoldable pub bytes_lt : Bytes → Bytes → Bool
bytes_lt s [] = false
bytes_lt [] (b ∷ t) = true
bytes_lt (a ∷ s) (b ∷ t) = ltb a b || (a == b && bytes_lt s t)

-- url.Values: map[string][]string
abbrev pub Values : Type 0
Values = List (Bytes × List Bytes)

-- m[k] = append(m[k], w)
unfoldable pub append_value : Bytes → Bytes → Values → Values
append_value k w [] = (k, w ∷ []) ∷ []
append_value k w ((j, ws) ∷ v) =
    if same j k
    then (j, ws ++ w ∷ []) ∷ v
    else if bytes_lt k j
    then (k, w ∷ []) ∷ (j, ws) ∷ v
    else (j, ws) ∷ append_value k w v

-- Values.Set
unfoldable pub set : Bytes → Bytes → Values → Values
set k w [] = (k, w ∷ []) ∷ []
set k w ((j, ws) ∷ v) =
    if same j k
    then (k, w ∷ []) ∷ v
    else if bytes_lt k j
    then (k, w ∷ []) ∷ (j, ws) ∷ v
    else (j, ws) ∷ set k w v

-- Values.Del
unfoldable pub del : Bytes → Values → Values
del k [] = []
del k ((j, ws) ∷ v) = if same j k then v else (j, ws) ∷ del k v

-- Values.Get: the first value of the key, or the empty string.
unfoldable pub get : Bytes → Values → Bytes
get k [] = []
get k ((j, ws) ∷ v) = if same j k then elim ws [ [] ↦ [] | w ∷ _ ↦ w ] else get k v

-- What parseQuery does with one key and value, of which an escape may be malformed.
abbrev pub add_pair : Option Bytes → Option Bytes → Values → Values
add_pair none w v = v
add_pair (some k) none v = v
add_pair (some k) (some w) v = append_value k w v

-- One round of parseQuery. Its error is dropped, as URL.Query drops it.
unfoldable pub parse_part : Bytes → Values → Values
unfolding contains_byte cut
parse_part p v =
    if contains_byte b';' p
    then v
    else if same p []
    then v
    else (add_pair (query_unescape (cut b'=' p).0) (query_unescape (cut b'=' p).1) v)

unfoldable pub parse_parts : List Bytes → Values → Values
parse_parts [] v = v
parse_parts (p ∷ ps) v = parse_parts ps (parse_part p v)

-- URL.Query on RawQuery
unfoldable pub parse_query : Bytes → Values
unfolding parse_parts parse_part split
parse_query q = parse_parts (split b'&' q) []

-- The keys with their values, one by one.
unfoldable pub pairs : Values → List (Bytes × Bytes)
pairs [] = []
pairs ((k, ws) ∷ v) = map (λ w. (k, w)) ws ++ pairs v

abbrev pub pair_text : Bytes × Bytes → Bytes
pair_text p = query_escape p.0 ++ (b'=' ∷ query_escape p.1)

-- Values.Encode: a text is never empty, so `&` stands between the texts of the pairs.
unfoldable pub encode : Values → Bytes
unfolding pairs query_escape join
encode v = join b'&' (map pair_text (pairs v))
