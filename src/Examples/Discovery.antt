-- ===== src/Examples/Discovery.antt =====
-- Tests of the model of the etcd registry.
use opendevops_codo_golang_s.Discovery.Undiscovered.{never_discovered}
use opendevops_codo_golang_s.Discovery.Cluster.{Cluster, key_of, initially, registered}
use opendevops_codo_golang_s.Go.Dict.{lookup, nat_eq, bytes_eq}
use opendevops_codo_golang_s.Discovery.Prefix.{under, get_service-under}
use opendevops_codo_golang_s.Discovery.Heartbeat.{
  Attempt, beats, Moment, listening, timed_out, keep_alive_failed, returned, beats_closed,
}
use opendevops_codo_golang_s.Discovery.Registry.{
  deregister, register, granted, new_registry, deregister-register_twice, done, Registry,
}
use opendevops_codo_golang_s.Discovery.{ServiceInstance, get_service, service_key}
use opendevops_codo_golang_s.Common.{
  ◌∷◌, Bytes, List, Option, inl, none, utf8, ◌≡◌, [], false, if◌then◌else◌, some, true, refl, ◌++◌,
  ◌==◌, ◌≤◌, arith, ℕ, ◌⊎◌,
}
use opendevops_codo_golang_s.Discovery.Watcher.{
  Watcher, changed, next, IsSingle, new_watcher, watched, broken, stop, stop-watched, watch,
}

abbrev billing : ServiceInstance
billing = record {
  id = utf8 "1";
  name = utf8 "billing";
  endpoints = utf8 "grpc://10.0.0.1:90" ∷ [];
}

-- A decoder of values that takes objects only.
abbrev unmarshal_object : Bytes → Option Bytes
unmarshal_object [] = none
unmarshal_object (c ∷ s) = if c == 123 then some s else none

abbrev first_watcher : Watcher
first_watcher = record {
  key = utf8 "billing";
  first = true;
  watches = 1;
  closed = 0;
  cancelled = false;
}

abbrev stored : List (Bytes × Bytes)
stored = (utf8 "billing/2", utf8 "{}") ∷ []

-- Every service is this one.
abbrev billings : ℕ → ServiceInstance
billings p = billing

abbrev one_stored : Cluster
one_stored = record initially { store = stored }

billing_unknown : lookup (key_of billings 5 7) one_stored.store ≡ none
unfolding lookup service_key
billing_unknown = refl

abbrev answers : Cluster → Bytes → List (Bytes × Bytes) ⊎ Bytes
answers c key = inl (under key c.store)

never_discovered_example :
    (get_service unmarshal_object
        (answers (registered billings 5 7 (inl 1) none false one_stored))
        (utf8 "billing")
      ≡ get_service unmarshal_object (answers one_stored) (utf8 "billing"))
    × (next unmarshal_object
          (answers (registered billings 5 7 (inl 1) none false one_stored))
          changed
          first_watcher
        ≡ next unmarshal_object (answers one_stored) changed first_watcher)
never_discovered_example =
    never_discovered unmarshal_object billings 5 7 (utf8 "grpc://10.0.0.1:90") [] (inl 1) none false
      one_stored (utf8 "billing") changed first_watcher refl refl billing_unknown

registers : (register 7 billing (granted 1) new_registry).1 ≡ done
unfolding register
registers = refl

registers_again :
    (register 7 billing (granted 2) (register 7 billing (granted 1) new_registry).0).1 ≡ done
unfolding register
registers_again = refl

abbrev behind_two : Registry
behind_two =
    (deregister 7 none
      (register 7 billing (granted 2) (register 7 billing (granted 1) new_registry).0).0).0

deregister-register_twice_example :
    (behind_two.live ≡ 0 ∷ [])
    × (lookup 7 behind_two.ctx_map ≡ none)
    × ((deregister 7 none behind_two).0.live ≡ 0 ∷ [])
deregister-register_twice_example =
    deregister-register_twice 7 billing (granted 1) (granted 2) none none new_registry tt registers
      registers_again

abbrev cancelled_at : Attempt → Moment
cancelled_at a = record { cancelled = true; registry_done = false; attempt = a; received = false }

abbrev closed_at : Attempt → Moment
closed_at a = record { cancelled = false; registry_done = false; attempt = a; received = false }

abbrev four_failures : List Moment
four_failures =
    closed_at timed_out
    ∷ closed_at timed_out
    ∷ closed_at keep_alive_failed
    ∷ closed_at timed_out
    ∷ []

beats_closed_example :
    ((beats 1 four_failures (listening true)).0 ≡ returned)
    × ((beats 1 four_failures (listening true)).1 ≤ 1)
beats_closed_example =
    beats_closed 1 four_failures (listening true) (refl, (refl, (refl, (refl, tt)))) (omega arith)

abbrev billing_admin : ServiceInstance
billing_admin = record { id = utf8 "7"; name = utf8 "billing-admin"; endpoints = [] }

abbrev two_stored : Bytes → List (Bytes × Bytes) ⊎ Bytes
two_stored key = inl (under key (stored ++ (service_key billing_admin, utf8 "{}") ∷ []))

is_watched : watch (utf8 "billing") none ≡ inl first_watcher
unfolding watch
is_watched = refl

get_service-under_example :
    (xs ys : List Bytes) × (get_service unmarshal_object two_stored (utf8 "billing")
      ≡ inl (xs ++ utf8 "}" ∷ ys))
    × ((next unmarshal_object two_stored changed first_watcher).1 ≡ inl (xs ++ utf8 "}" ∷ ys))
get_service-under_example =
    get_service-under unmarshal_object billing_admin (utf8 "billing") (utf8 "-admin") (utf8 "{}")
      (utf8 "}") stored [] changed first_watcher refl refl is_watched

abbrev empty : Bytes → List (Bytes × Bytes) ⊎ Bytes
empty key = inl []

is_new : new_watcher (utf8 "billing") none ≡ inl first_watcher
unfolding new_watcher
is_new = refl

stop-watched_example :
    IsSingle (watched unmarshal_object ((changed, empty) ∷ (broken none, empty) ∷ []) first_watcher)
    × ((stop (
          watched unmarshal_object
            ((changed, empty) ∷ (broken none, empty) ∷ [])
            first_watcher)).watches
        ≡ (stop (
            watched unmarshal_object
              ((changed, empty) ∷ (broken none, empty) ∷ [])
              first_watcher)).closed)
stop-watched_example =
    stop-watched unmarshal_object ((changed, empty) ∷ (broken none, empty) ∷ []) (utf8 "billing")
      first_watcher is_new
