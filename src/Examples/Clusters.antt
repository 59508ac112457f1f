-- ===== src/Examples/Clusters.antt =====
-- The theorem on a Registry with its heartbeats at two services.
use opendevops_codo_golang_s.Discovery.Cluster.Present.{present-register, further, at_once}
use opendevops_codo_golang_s.Go.Dict.{lookup, insert, bytes_eq, remove, nat_eq}
use opendevops_codo_golang_s.Discovery.Registry.{register, deregister, done, register_with_kv}
use opendevops_codo_golang_s.Discovery.{service_key, ServiceInstance, marshal}
use opendevops_codo_golang_s.Common.{
  ◌∷◌, none, true, ℕ, false, ◌≡◌, [], arith, some, utf8, refl, ◌≢◌, inl,
}
use opendevops_codo_golang_s.Discovery.Cluster.{
  Cluster, Reach, initially, start, next, registers, registered, deregistered, beats, beaten,
  member, key_of, put, expires,
}
use opendevops_codo_golang_s.Discovery.Cluster.Gone.{gone-deregister, stay, on}
use opendevops_codo_golang_s.Discovery.Heartbeat.{Moment, timed_out}

abbrev worker : ℕ → ServiceInstance
worker p = record { id = p ∷ []; name = utf8 "w"; endpoints = utf8 "grpc://10.0.0.1:90" ∷ [] }

workers_apart : (p q : ℕ) → key_of worker 5 p ≡ key_of worker 5 q → p ≡ q
unfolding service_key
workers_apart p q e = ground arith

-- Service 7 is registered, and its KeepAlive fails.
abbrev one_worker : Cluster
one_worker = registered worker 5 7 (inl 1) none true initially

one_worker-reach : Reach worker 5 one_worker
unfolding lookup
one_worker-reach = next start (registers initially 7 (inl 1) none true refl)

one_worker_stored : lookup (key_of worker 5 7) one_worker.store ≡ some (utf8 "grpc://10.0.0.1:90")
unfolding registered register put service_key marshal lookup insert
one_worker_stored = refl

-- The heartbeat of a service that is deregistered has a cancelled context.
abbrev late : Moment
late = record { cancelled = true; registry_done = false; attempt = timed_out; received = false }

abbrev without : Cluster
without = deregistered worker 5 7 none true one_worker

abbrev afterwards : Cluster
afterwards = registered worker 5 8 (inl 2) none false (beaten worker 5 0 late without)

nothing_sent : member 7 one_worker.in_flight ≡ false
unfolding registered register
nothing_sent = refl

eight_is_new : lookup 8 (beaten worker 5 0 late without).registry.ctx_map ≡ none
unfolding registered register deregistered deregister beaten lookup insert remove
eight_is_new = refl

gone-deregister_example : lookup (key_of worker 5 7) afterwards.store ≡ none
gone-deregister_example = gone-deregister worker 5 workers_apart 7 one_worker-reach nothing_sent (
    on (on stay (beats without 0 late (λ e. refl)) tt)
      (registers (beaten worker 5 0 late without) 8 (inl 2) none false eight_is_new) (omega arith))

worker_endpoint : marshal (worker 7) ≡ some (utf8 "grpc://10.0.0.1:90")
unfolding marshal
worker_endpoint = refl

registers_worker :
    (register 7 (worker 7) (register_with_kv (inl 1) none) initially.registry).1 ≡ done
unfolding register register_with_kv
registers_worker = refl

-- Another key is deleted, and the heartbeat registers anew.
abbrev retrying_now : Moment
retrying_now = record {
  cancelled = false;
  registry_done = false;
  attempt = timed_out;
  received = false;
}

abbrev renewed : Cluster
renewed =
    beaten worker 5 0 retrying_now
      (record one_worker { store = remove (utf8 "x") one_worker.store })

not_its_key : utf8 "x" ≢ key_of worker 5 7
unfolding service_key
not_its_key e = absurd (cc)

still_live : member 0 one_worker.registry.live ≡ false → retrying_now.cancelled ≡ true
unfolding registered register
still_live e = absurd (cc)

present-register_example :
    lookup (key_of worker 5 7) renewed.store ≡ some (utf8 "grpc://10.0.0.1:90")
present-register_example =
    present-register worker 5 workers_apart 7 (utf8 "grpc://10.0.0.1:90") worker_endpoint initially
      (inl 1) none true registers_worker
      (further (further at_once (expires one_worker (utf8 "x")) not_its_key)
        (beats (record one_worker { store = remove (utf8 "x") one_worker.store }) 0 retrying_now
          still_live)
        tt)
