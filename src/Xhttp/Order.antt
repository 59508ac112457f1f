-- ===== src/Xhttp/Order.antt =====
-- headerToMap of client/xhttp/client.go as a function of the header, not of the order in which `range`
-- visits its keys.
use opendevops_codo_golang_s.Common.{Bytes, List, Option, some, ◌≡◌, ◌≢◌, none, ◌∙◌, ap, refl, sym}
use mathlib.Core.Quot
use mathlib.Core.Quot.{Quot-set}
use opendevops_codo_golang_s.Common.Option
use opendevops_codo_golang_s.Go.Order.{GoMap, Swap, here, there, range_of, push}
use opendevops_codo_golang_s.Xhttp.{HeaderValue, header_value, header_to_map, keep}

-- What headerToMap returns, as a map.
abbrev as_map : Option (List (Bytes × HeaderValue)) → Option (GoMap HeaderValue)
as_map none = none
as_map (some m) = some (range_of m)

-- One more round of the loop.
abbrev kept : Bytes → Option HeaderValue → Option (GoMap HeaderValue) → Option (GoMap HeaderValue)
kept k none o = none
kept k (some v) none = none
kept k (some v) (some m) = some (push (k, v) m)

as_map-keep :
    (k : Bytes) (v : Option HeaderValue) (o : Option (List (Bytes × HeaderValue)))
    → as_map (keep k v o) ≡ kept k v (as_map o)
unfolding push
as_map-keep k none o = refl
as_map-keep k (some v) none = refl
as_map-keep k (some v) (some m) = refl

keep_comm :
    (k j : Bytes) (v w : Option HeaderValue) (o : Option (List (Bytes × HeaderValue)))
    → k ≢ j
    → as_map (keep k v (keep j w o)) ≡ as_map (keep j w (keep k v o))
keep_comm k j none none o h = refl
keep_comm k j none (some w) none h = refl
keep_comm k j none (some w) (some m) h = refl
keep_comm k j (some v) none none h = refl
keep_comm k j (some v) none (some m) h = refl
keep_comm k j (some v) (some w) none h = refl
keep_comm k j (some v) (some w) (some m) h = ap some (Quot.sound (here k j v w m h))

header_to_map-Swap :
    {m n : List (Bytes × List Bytes)}
    → Swap m n
    → as_map (header_to_map m) ≡ as_map (header_to_map n)
unfolding header_to_map
header_to_map-Swap (here k j v w m h) =
    keep_comm k j (header_value v) (header_value w) (header_to_map m) h
header_to_map-Swap (there (k, v) {m} {n} s) =
    as_map-keep k (header_value v) (header_to_map m)
    ∙ ap (kept k (header_value v)) (header_to_map-Swap s)
    ∙ sym (as_map-keep k (header_value v) (header_to_map n))

mapped : GoMap (List Bytes) → Option (GoMap HeaderValue)
mapped =
    Quot.lift (Option.is_set Quot-set) (λ m. as_map (header_to_map m))
      (λ m n s. header_to_map-Swap s)

-- headerToMap makes the same map of the same header, and panics on the same headers, in whatever order
-- `range` visits the keys.
header_to_map-order :
    (m n : List (Bytes × List Bytes))
    → range_of m ≡ range_of n
    → as_map (header_to_map m) ≡ as_map (header_to_map n)
unfolding mapped
header_to_map-order m n h = ap mapped h
