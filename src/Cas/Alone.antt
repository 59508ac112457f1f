-- ===== src/Cas/Alone.antt =====
-- A call of RedisImpl.CAS (tools/cascmd/cas_cmd.go) that no other client disturbs, beside MemoryImpl.CAS.
use opendevops_codo_golang_s.Cas.Laws.{cas_on, cas-index}
use opendevops_codo_golang_s.Go.Dict.{index}
use opendevops_codo_golang_s.Cas.{
  MemoryImpl, Request, redis_step, write, Phase, current_value, finished, cas, watching,
}
use opendevops_codo_golang_s.Common.{
  Bytes, Option, ◌≡◌, if◌then◌else◌, same, some, none, arith, Bool-cases, same_iff, ◌∙◌, [], ap,
  inl, inr, sym, true, false, refl,
}

module _ {S : Type 0} (get : S → Bytes → Option Bytes) (set : Bytes → Bytes → S → S)
    (del : Bytes → S → S)
    (get-set : (s : S) (k v at : Bytes)
      → get (set k v s) at ≡ (if same k at then some v else get s at))
    (get-del : (s : S) (k at : Bytes)
      → get (del k s) at ≡ (if same k at then none else get s at)) where
  -- The store holds what the map holds: a missing key reads as the empty string in both.
  abbrev pub Holds : S → MemoryImpl → Type 0
  Holds s x = (at : Bytes) → current_value (get s at) ≡ index x.m at

  -- The call from its first command to its last.
  abbrev pub alone : Request → S → S × Phase
  alone q s = redis_step get set del q (redis_step get set del q (s, watching))

  write-current_value :
      (q : Request) (s : S) (at : Bytes)
      → current_value (get (write get set del q s) at)
        ≡ (if same q.key at then q.dst else current_value (get s at))
  unfolding write current_value
  write-current_value q s at =
      ground (arith, get-set s q.key q.dst at, get-del s q.key at, same_iff q.dst [])

  pub alone-cas_on :
      (q : Request) (s : S) (f : Bytes → Bytes) (at : Bytes)
      → ((k : Bytes) → current_value (get s k) ≡ f k)
      → ((alone q s).1 ≡ finished (cas_on f q.key q.src q.dst).1)
        × (current_value (get (alone q s).0 at) ≡ (cas_on f q.key q.src q.dst).0 at)
  unfolding redis_step
  alone-cas_on q s f at h = elim (Bool-cases (same (current_value (get s q.key)) q.src)) [
    | inl e ↦
        let e' : same (f q.key) q.src ≡ true = ap (λ v. same v q.src) (sym (h q.key)) ∙ e in
        rw (e, e')
          (refl, write-current_value q s at ∙ ap (λ v. if same q.key at then q.dst else v) (h at))
    | inr e ↦
        let e' : same (f q.key) q.src ≡ false = ap (λ v. same v q.src) (sym (h q.key)) ∙ e in
        rw (e, e') (refl, h at)
  ]

  -- Where the server keeps its keys apart, as GET, SET and DEL are documented, no command fails and nothing
  -- expires, a call of RedisImpl.CAS that runs alone gives the answer of MemoryImpl.CAS on a map with the same
  -- values, and leaves the same values behind.
  pub alone-cas :
      (q : Request) (s : S) (x : MemoryImpl)
      → Holds s x
      → ((alone q s).1 ≡ finished (cas x q.key q.src q.dst).1)
        × Holds (alone q s).0 (cas x q.key q.src q.dst).0
  alone-cas q s x h = (
    (alone-cas_on q s (index x.m) q.key h).0
        ∙ ap finished (sym (cas-index x q.key q.src q.dst q.key).1),
    (λ at. (alone-cas_on q s (index x.m) at h).1 ∙ sym (cas-index x q.key q.src q.dst at).0),
  )
