-- ===== src/Discovery/Options.antt =====
-- The options of adapter/kratos/discovery/etcd/registry.go; X is context.Context.
use opendevops_codo_golang_s.Common.{List, ℕ, foldl}

record Options (X : Type 0) : Type 0 where
  pub ctx : X
  -- In nanoseconds.
  pub ttl : ℕ
  pub max_retry : ℕ

-- The options with which New starts; `background` is context.Background().
unfoldable default_options : {X : Type 0} → X → Options X
default_options background = record { ctx = background; ttl = 15_000_000_000; max_retry = 5 }

-- Context
unfoldable with_context : {X : Type 0} → X → Options X → Options X
with_context x o = record o { ctx = x }

-- RegisterTTL
unfoldable register_ttl : {X : Type 0} → ℕ → Options X → Options X
register_ttl t o = record o { ttl = t }

-- MaxRetry
unfoldable with_max_retry : {X : Type 0} → ℕ → Options X → Options X
with_max_retry n o = record o { max_retry = n }

-- The loop of New.
unfoldable new_options : {X : Type 0} → X → List (Options X → Options X) → Options X
unfolding default_options
new_options background opts = foldl (λ o f. f o) (default_options background) opts
