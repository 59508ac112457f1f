-- ===== src/Websocket/Chain.antt =====
-- The middleware of handleConnections (adapter/kratos/transport/websocket/websocket.go).
use opendevops_codo_golang_s.Common.{
  List, Option, Bytes, ◌∷◌, [], length, ℕ, ◌++◌, get_elem?, ◌≡◌, ap, none, refl, some, ◌∙◌,
}

-- A handler is run on a state W, and may fail with a text; a middleware wraps one.
abbrev pub Handler : Type 0 → Type 0
Handler W = W → W × Option Bytes

-- The loop over the middlewares below an index, from the last to the first.
unfoldable wrap_below : {W : Type 0} → List (Handler W → Handler W) → ℕ → Handler W → Handler W
wrap_below ms ℕ.zero h = h
wrap_below ms (ℕ.suc i) h = wrap_below ms i (elim (get_elem? ms i) [ none ↦ h | some m ↦ m h ])

-- handleFn when the loop has ended.
unfoldable pub chained : {W : Type 0} → List (Handler W → Handler W) → Handler W → Handler W
unfolding wrap_below
chained ms h = wrap_below ms (length ms) h

wrap_below-cons :
    {W : Type 0} (m : Handler W → Handler W) (ms : List (Handler W → Handler W)) (i : ℕ)
    (h : Handler W)
    → wrap_below (m ∷ ms) (ℕ.suc i) h ≡ m (wrap_below ms i h)
unfolding wrap_below
wrap_below-cons m ms ℕ.zero h = refl
wrap_below-cons m ms (ℕ.suc i) h =
    wrap_below-cons m ms i (elim (get_elem? ms i) [ none ↦ h | some n ↦ n h ])

pub chained-cons :
    {W : Type 0} (m : Handler W → Handler W) (ms : List (Handler W → Handler W)) (h : Handler W)
    → chained (m ∷ ms) h ≡ m (chained ms h)
unfolding chained
chained-cons m ms h = wrap_below-cons m ms (length ms) h

chained-append :
    {W : Type 0} (ms ns : List (Handler W → Handler W)) (h : Handler W)
    → chained (ms ++ ns) h ≡ chained ms (chained ns h)
unfolding chained
chained-append [] ns h = refl
chained-append (m ∷ ms) ns h =
    rw
      (
        wrap_below-cons m (ms ++ ns) (length (ms ++ ns)) h,
        wrap_below-cons m ms (length ms) (chained ns h),
      )
      (ap m (chained-append ms ns h))

-- The middlewares run in the order in which they are listed, each with the rest of the chain as what comes
-- next: one that does not call what comes next decides the answer alone, whatever is listed after it and
-- whatever the connection handler does.
chained-stop :
    {W : Type 0} (before after : List (Handler W → Handler W)) (stop h : Handler W)
    → chained (before ++ (λ next. stop) ∷ after) h ≡ chained before stop
unfolding chained wrap_below
chained-stop {W = W} before after stop h =
    chained-append before ((λ next. stop) ∷ after) h ∙ ap (chained before) (stops after)
  where
    stops : (ms : List (Handler W → Handler W)) → chained ((λ next. stop) ∷ ms) h ≡ stop
    stops ms = wrap_below-cons (λ next. stop) ms (length ms) h
