-- ===== src/Websocket/Server.antt =====
-- adapter/kratos/transport/websocket/server.go and the options of websocket.go. net.Listen, the patterns of
-- http.ServeMux and the builders of handlers are parameters.
use mathlib.Core.Option
use opendevops_codo_golang_s.Websocket.Write.{Envelope, encode_error}
use opendevops_codo_golang_s.Common.{
  ◌∷◌, Bytes, List, [], ◌⊎◌, Bool, Option, inl, ◌++◌, All, inr, some, ◌≡◌, ap, false, foldl,
  if◌then◌else◌, none, refl, sym, append-nil, ◌∙◌, append_assoc, map,
}

-- ServerOptions: a builder is a path with what Build answers to a request of type Q, a handler of type H or an
-- error; an encoder of errors is known by its output.
pub record Builder (Q H : Type 0) : Type 0 where
  pub path : Bytes
  pub build : Q → H ⊎ Bytes

pub record ServerOptions (Q H M : Type 0) : Type 0 where
  pub handler_builders : List (Builder Q H)
  pub error_encode : Bytes → M

abbrev ErrorEnvelope : Type 0
ErrorEnvelope = Envelope Unit

-- defaultServerOptions
unfoldable default_server_options : {Q H : Type 0} → ServerOptions Q H ErrorEnvelope
default_server_options = record { handler_builders = []; error_encode = encode_error }

-- WithHandlerBuilders
unfoldable with_handler_builders :
    {Q H M : Type 0} → List (Builder Q H) → ServerOptions Q H M → ServerOptions Q H M
with_handler_builders bs o = record o { handler_builders = o.handler_builders ++ bs }

-- WithServerOptionErrorEncodeFunc
unfoldable with_error_encode :
    {Q H M : Type 0} → (Bytes → M) → ServerOptions Q H M → ServerOptions Q H M
with_error_encode fn o = record o { error_encode = fn }

-- One HandleFunc on the routes so far: `none` where it panics, since a pattern conflicts with one of them.
abbrev handle_func :
    {Q H : Type 0}
    → (conflicts : Bytes → Bytes → Bool) → Builder Q H
    → List (Builder Q H)
    → Option (List (Builder Q H))
handle_func conflicts b [] = some (b ∷ [])
handle_func conflicts b (r ∷ routes) =
    let rest = handle_func conflicts b routes in
    if conflicts b.path r.path then none else Option.map (λ rs. r ∷ rs) rest

abbrev continued :
    {Q H : Type 0}
    → (List (Builder Q H) → Option (List (Builder Q H)))
    → Option (List (Builder Q H))
    → Option (List (Builder Q H))
continued next none = none
continued next (some routes) = next routes

-- The loop over the builders.
unfoldable register_all :
    {Q H : Type 0}
    → (conflicts : Bytes → Bytes → Bool) → List (Builder Q H)
    → List (Builder Q H)
    → Option (List (Builder Q H))
register_all conflicts [] routes = some routes
register_all conflicts (b ∷ bs) routes =
    continued (register_all conflicts bs) (handle_func conflicts b routes)

record Server (Q H M : Type 0) : Type 0 where
  pub routes : List (Builder Q H)
  pub options : ServerOptions Q H M

-- NewServer: the error of net.Listen, or the server; `none` where HandleFunc panics.
unfoldable new_server :
    {Q H M : Type 0}
    → (conflicts : Bytes → Bytes → Bool) → ServerOptions Q H M
    → (listen_error : Option Bytes) → List (ServerOptions Q H M → ServerOptions Q H M)
    → Option (Server Q H M ⊎ Bytes)
unfolding register_all
new_server conflicts default (some e) opts = some (inr e)
new_server conflicts default none opts =
    let o = foldl (λ o f. f o) default opts in
    Option.map (λ routes. inl (record { routes = routes; options = o }))
      (register_all conflicts o.handler_builders [])

-- The function that NewServer gives HandleFunc: the error that is written, or the handler that goes on.
unfoldable serve : {Q H M : Type 0} → ServerOptions Q H M → Builder Q H → Q → H ⊎ M
serve o b q = elim (b.build q) [ inl h ↦ inl h | inr e ↦ inr (o.error_encode e) ]

-- No path conflicts with a path before it.
abbrev Fits :
    {Q H : Type 0} → (Bytes → Bytes → Bool) → List (Builder Q H) → List (Builder Q H) → Type 0
Fits {Q} {H} conflicts routes [] = Unit
Fits {Q} {H} conflicts routes (b ∷ bs) =
    All (λ (r : Builder Q H). conflicts b.path r.path ≡ false) routes
    × Fits conflicts (routes ++ b ∷ []) bs

handle_func-append :
    {Q H : Type 0} (conflicts : Bytes → Bytes → Bool) (b : Builder Q H)
    (routes : List (Builder Q H))
    → All (λ (r : Builder Q H). conflicts b.path r.path ≡ false) routes
    → handle_func conflicts b routes ≡ some (routes ++ b ∷ [])
handle_func-append conflicts b [] h = refl
handle_func-append conflicts b (r ∷ routes) (hr, h) =
    rw (hr, handle_func-append conflicts b routes h) refl

register_all-append :
    {Q H : Type 0} (conflicts : Bytes → Bytes → Bool) (bs routes : List (Builder Q H))
    → Fits conflicts routes bs
    → register_all conflicts bs routes ≡ some (routes ++ bs)
unfolding register_all
register_all-append conflicts [] routes h = ap some (sym (append-nil routes))
register_all-append conflicts (b ∷ bs) routes (hb, h) =
    ap (continued (register_all conflicts bs)) (handle_func-append conflicts b routes hb)
    ∙ register_all-append conflicts bs (routes ++ b ∷ []) h
    ∙ ap some (append_assoc routes (b ∷ []) bs)

abbrev flatten : {A : Type 0} → List (List A) → List A
flatten [] = []
flatten (xs ∷ xss) = xs ++ flatten xss

handler_builders-foldl :
    {Q H M : Type 0} (bss : List (List (Builder Q H))) (o : ServerOptions Q H M)
    → (foldl (λ o f. f o) o (map with_handler_builders bss)).handler_builders
      ≡ o.handler_builders ++ flatten bss
unfolding with_handler_builders
handler_builders-foldl [] o = sym (append-nil o.handler_builders)
handler_builders-foldl (bs ∷ bss) o =
    handler_builders-foldl bss (with_handler_builders bs o)
    ∙ append_assoc o.handler_builders bs (flatten bss)

-- Where the default has no builders and no path conflicts with an earlier one, NewServer does not panic, and
-- the server has the builders of all options WithHandlerBuilders, in their order.
new_server-routes :
    {Q H M : Type 0} (conflicts : Bytes → Bytes → Bool) (default : ServerOptions Q H M)
    (bss : List (List (Builder Q H)))
    → default.handler_builders ≡ []
    → Fits conflicts [] (flatten bss)
    → (s : Server Q H M) × (new_server conflicts default none (map with_handler_builders bss)
        ≡ some (inl s))
      × (s.routes ≡ flatten bss)
unfolding new_server
new_server-routes conflicts default bss none_yet h =
    let o = foldl (λ o f. f o) default (map with_handler_builders bss) in
    let all : o.handler_builders ≡ flatten bss =
      handler_builders-foldl bss default ∙ ap (λ hs. hs ++ flatten bss) none_yet in
    let routes : register_all conflicts o.handler_builders [] ≡ some (flatten bss) =
      ap (λ bs. register_all conflicts bs []) all
      ∙ register_all-append conflicts (flatten bss) [] h in
    (
      record { routes = flatten bss; options = o },
      ap (Option.map (λ rs. inl (record { routes = rs; options = o }))) routes,
      refl,
    )
