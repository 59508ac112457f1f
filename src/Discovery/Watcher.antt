-- ===== src/Discovery/Watcher.antt =====
-- adapter/kratos/discovery/etcd/watcher.go.
use opendevops_codo_golang_s.Discovery.{items_of}
use opendevops_codo_golang_s.Common.{
  ◌∷◌, Bool, Bytes, true, Option, ℕ, List, ◌⊎◌, if◌then◌else◌, inr, false, some, ◌+◌, none, ◌≡◌,
  inl, ap, refl, arith, [],
}

-- What Next meets at its select: the context is done, or the watch channel gives a response, or is closed
-- or gives an error, and then what RequestProgress returns when the watch is made anew.
pub data Watched : Type 0 where
  context_done : Bytes → Watched
  changed : Watched
  broken : (rewatch : Option Bytes) → Watched

pub record Watcher : Type 0 where
  pub key : Bytes
  pub first : Bool
  -- How often a clientv3.Watcher was made, and how often one was closed.
  pub watches : ℕ
  pub closed : ℕ
  -- Whether the context is cancelled.
  pub cancelled : Bool

-- newWatcher: `error` is what RequestProgress returns.
unfoldable pub new_watcher : (key : Bytes) → (error : Option Bytes) → Watcher ⊎ Bytes
new_watcher key (some e) = inr e
new_watcher key none =
    inl (record { key = key; first = true; watches = 1; closed = 0; cancelled = false })

-- Watch of registry.go
unfoldable pub watch : (name : Bytes) → (error : Option Bytes) → Watcher ⊎ Bytes
unfolding new_watcher
watch name error = new_watcher name error

-- reWatch, its error aside.
unfoldable re_watch : Watcher → Watcher
re_watch w = record w { watches = w.watches + 1; closed = w.closed + 1 }

-- Stop
unfoldable pub stop : Watcher → Watcher
stop w = record w { closed = w.closed + 1; cancelled = true }

-- `get` is kv.Get with the option WithPrefix, on the key that it is given.
module _ {I : Type 0} (unmarshal : Bytes → Option I)
    (get : Bytes → List (Bytes × Bytes) ⊎ Bytes) where
  -- getInstance
  unfoldable pub get_instance : Watcher → List I ⊎ Bytes
  get_instance w = items_of unmarshal (get w.key)

  -- Next behind its select.
  unfoldable on_watched : Watched → Watcher → Watcher × (List I ⊎ Bytes)
  unfolding re_watch get_instance
  on_watched (context_done e) w = (w, inr e)
  on_watched changed w = (w, get_instance w)
  on_watched (broken (some e)) w = (re_watch w, inr e)
  on_watched (broken none) w = (re_watch w, get_instance (re_watch w))

  -- Next
  unfoldable pub next : Watched → Watcher → Watcher × (List I ⊎ Bytes)
  unfolding on_watched get_instance
  next e w = if w.first then (record w { first = false }, get_instance w) else on_watched e w

-- Next depends on the answer to its key alone, and on the values that are decoded from it.
on_watched_same :
    {I : Type 0} (unmarshal : Bytes → Option I)
    (before after : Bytes → List (Bytes × Bytes) ⊎ Bytes) (e : Watched) (w : Watcher)
    → items_of unmarshal (after w.key) ≡ items_of unmarshal (before w.key)
    → on_watched unmarshal after e w ≡ on_watched unmarshal before e w
unfolding on_watched get_instance re_watch
on_watched_same unmarshal before after (context_done e) w h = refl
on_watched_same unmarshal before after changed w h = ap (λ r. (w, r)) h
on_watched_same unmarshal before after (broken (some e)) w h = refl
on_watched_same unmarshal before after (broken none) w h = ap (λ r. (re_watch w, r)) h

pub next_same :
    {I : Type 0} (unmarshal : Bytes → Option I)
    (before after : Bytes → List (Bytes × Bytes) ⊎ Bytes) (e : Watched) (w : Watcher)
    → items_of unmarshal (after w.key) ≡ items_of unmarshal (before w.key)
    → next unmarshal after e w ≡ next unmarshal before e w
unfolding next get_instance
next_same unmarshal before after e w h =
    ground (arith, h, on_watched_same unmarshal before after e w h)

-- Next again and again, each time with what it meets and what Get answers.
unfoldable pub watched :
    {I : Type 0}
    → (Bytes → Option I)
    → List (Watched × (Bytes → List (Bytes × Bytes) ⊎ Bytes))
    → Watcher
    → Watcher
unfolding next
watched unmarshal [] w = w
watched unmarshal ((e, get) ∷ rest) w = watched unmarshal rest (next unmarshal get e w).0

-- One watch is open.
abbrev pub IsSingle : Watcher → Type 0
IsSingle w = w.watches ≡ w.closed + 1

module _ {I : Type 0} (unmarshal : Bytes → Option I) where
  on_watched-IsSingle :
      (get : Bytes → List (Bytes × Bytes) ⊎ Bytes) (e : Watched) (w : Watcher)
      → IsSingle w
      → IsSingle (on_watched unmarshal get e w).0
  unfolding on_watched re_watch
  on_watched-IsSingle get (context_done e) w h = h
  on_watched-IsSingle get changed w h = h
  on_watched-IsSingle get (broken (some e)) w h = omega (arith, h)
  on_watched-IsSingle get (broken none) w h = omega (arith, h)

  next-IsSingle :
      (get : Bytes → List (Bytes × Bytes) ⊎ Bytes) (e : Watched) (w : Watcher)
      → IsSingle w
      → IsSingle (next unmarshal get e w).0
  unfolding next
  next-IsSingle get e w h = ground (arith, h, on_watched-IsSingle get e w h)

  watched-IsSingle :
      (es : List (Watched × (Bytes → List (Bytes × Bytes) ⊎ Bytes))) (w : Watcher)
      → IsSingle w
      → IsSingle (watched unmarshal es w)
  unfolding watched
  watched-IsSingle [] w h = h
  watched-IsSingle ((e, get) ∷ es) w h =
      watched-IsSingle es (next unmarshal get e w).0 (next-IsSingle get e w h)

-- However often Next is called on a new watcher, and whatever it meets, exactly one watch is open, and none is
-- after a Stop.
pub stop-watched :
    {I : Type 0} (unmarshal : Bytes → Option I)
    (es : List (Watched × (Bytes → List (Bytes × Bytes) ⊎ Bytes))) (key : Bytes) (w : Watcher)
    → new_watcher key none ≡ inl w
    → IsSingle (watched unmarshal es w)
      × ((stop (watched unmarshal es w)).watches ≡ (stop (watched unmarshal es w)).closed)
unfolding new_watcher stop
stop-watched unmarshal es key w h =
    let first : IsSingle w = ground (arith, h) in
    let single = watched-IsSingle unmarshal es w first in (single, single)
