-- ===== src/Examples/Sockets.antt =====
-- Tests of the write loop, the connections and the server of the websocket transport.
use opendevops_codo_golang_s.Websocket.Server.{ServerOptions, Builder}
use opendevops_codo_golang_s.Websocket.Connection.{
  handle_connections, guard, handle_connections_guards, accepted, canceled, replier_closed,
  connection_closed, loops_ran,
}
use opendevops_codo_golang_s.Websocket.Write.{write_loop, encode_reply, write_round, failed}
use opendevops_codo_golang_s.Common.{
  ◌∷◌, Bytes, List, [], map, some, false, inl, utf8, none, true, ◌≡◌, refl, ℕ,
}

sent_as_ok :
    write_loop {T = ℕ} encode_reply ((false, failed (utf8 "gone") 0) ∷ [])
    ≡ (record { code = 200; msg = utf8 "ok"; content = some 0 } ∷ [], false)
unfolding write_loop write_round encode_reply
sent_as_ok = refl

handle_connections_guards_example :
    handle_connections (map guard (none ∷ none ∷ [])) (accepted true none)
    ≡ canceled ∷ replier_closed ∷ connection_closed ∷ loops_ran ∷ replier_closed ∷ connection_closed
      ∷ []
handle_connections_guards_example =
    handle_connections_guards (none ∷ none ∷ []) (accepted true none)

-- Builders whose handlers are the requests themselves.
abbrev echo : Bytes → Builder Bytes Bytes
echo path = record { path = path; build = λ q. inl q }

abbrev chat : List (List (Builder Bytes Bytes))
chat = (echo (utf8 "/a") ∷ []) ∷ (echo (utf8 "/b") ∷ echo (utf8 "/c") ∷ []) ∷ []

abbrev starting : ServerOptions Bytes Bytes Bytes
starting = record { handler_builders = []; error_encode = λ e. e }
