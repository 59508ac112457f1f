-- ===== src/Cas/Race.antt =====
-- Two calls of RedisImpl.CAS (tools/cascmd/cas_cmd.go).
use opendevops_codo_golang_s.Cas.{
  Request, interleave, redis_step, write, Phase, current_value, watching, finished,
}
use opendevops_codo_golang_s.Common.{
  Bytes, Option, ◌≡◌, some, List, Bool, [], ◌≢◌, true, ◌∷◌, false, arith, same_iff,
}

module _ {S : Type 0} (get : S → Bytes → Option Bytes) (set : Bytes → Bytes → S → S)
    (del : Bytes → S → S) (get-set : (s : S) (k v : Bytes) → get (set k v s) k ≡ some v) where
  abbrev pub both : Request → Request → List Bool → S → S × Phase × Phase
  both p q turns s = interleave get set del p q turns (s, watching, watching)

  -- Where each of two calls ends before the other's first command, at most one client takes a free key:
  -- of two calls from the empty value to values that are not empty, the second answers false.
  interleave_apart :
      (s : S) (key d e : Bytes)
      → current_value (get s key) ≡ []
      → d ≢ []
      → both
          (record { key = key; src = []; dst = d })
          (record { key = key; src = []; dst = e })
          (true ∷ true ∷ false ∷ false ∷ [])
          s
        ≡ (set key d s, finished true, finished false)
  unfolding interleave redis_step write current_value
  interleave_apart s key d e free h =
      ground (arith, get-set s key d, same_iff d [], same_iff (current_value (get s key)) [])

  -- Where both clients read a free key before either writes, both calls answer true, and the value is that
  -- of the client that wrote last.
  pub interleave_crossed :
      (s : S) (key d e : Bytes)
      → current_value (get s key) ≡ []
      → d ≢ []
      → e ≢ []
      → both
          (record { key = key; src = []; dst = d })
          (record { key = key; src = []; dst = e })
          (true ∷ false ∷ true ∷ false ∷ [])
          s
        ≡ (set key e (set key d s), finished true, finished true)
  unfolding interleave redis_step write current_value
  interleave_crossed s key d e free hd he =
      ground (arith, same_iff d [], same_iff e [], same_iff (current_value (get s key)) [])
