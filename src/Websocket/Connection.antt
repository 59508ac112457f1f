-- ===== src/Websocket/Connection.antt =====
-- handleConnections of adapter/kratos/transport/websocket/websocket.go around its two loops.
use opendevops_codo_golang_s.Websocket.Chain.{Handler, chained, chained-cons}
use opendevops_codo_golang_s.Common.{
  ◌∷◌, Bool, Bytes, List, Option, [], map, some, ◌++◌, none, true, ◌≡◌, false, refl,
}

-- What it does that others see: both loops run to their ends, the context is cancelled by the close handler, the
-- replier or the connection is closed, or an error is written as the HTTP response.
pub data Happened : Type 0 where
  loops_ran canceled replier_closed connection_closed : Happened
  error_encoded : Bytes → Happened

-- Closing in the order of the deferred calls.
abbrev closing : List Happened
closing = replier_closed ∷ connection_closed ∷ []

-- What the close handler does where the peer sends a close frame: it runs while the loops run.
abbrev on_close : (peer_closes : Bool) → List Happened
on_close true = canceled ∷ closing
on_close false = []

-- What Upgrade and, where it succeeds, Wait of the group of the two loops return.
pub data Upgrade : Type 0 where
  refused : Bytes → Upgrade
  accepted : (peer_closes : Bool) → (waited : Option Bytes) → Upgrade

-- What happens behind an upgrade.
abbrev connected : (peer_closes : Bool) → List Happened
connected peer_closes = on_close peer_closes ++ loops_ran ∷ closing

-- The innermost handler.
unfoldable upgraded : Upgrade → Handler (List Happened)
upgraded (refused e) w = (w, some e)
upgraded (accepted peer_closes waited) w = (w ++ connected peer_closes, waited)

abbrev with_error : List Happened × Option Bytes → List Happened
with_error (w, none) = w
with_error (w, some e) = w ++ error_encoded e ∷ []

-- handleConnections
unfoldable pub handle_connections :
    List (Handler (List Happened) → Handler (List Happened)) → Upgrade → List Happened
unfolding upgraded
handle_connections ms u = with_error (chained ms (upgraded u) [])

-- A middleware that lets a request pass or answers with an error.
abbrev pub guard : Option Bytes → Handler (List Happened) → Handler (List Happened)
guard none next = next
guard (some e) next = λ w. (w, some e)

-- What is to happen behind an upgrade, in order.
abbrev events_of : (peer_closes : Bool) → List Happened
events_of false = loops_ran ∷ replier_closed ∷ connection_closed ∷ []
events_of true =
    canceled ∷ replier_closed ∷ connection_closed ∷ loops_ran ∷ replier_closed ∷ connection_closed
    ∷ []

-- What is to happen under such middlewares.
abbrev all_events : List (Option Bytes) → Upgrade → List Happened
all_events [] (refused e) = error_encoded e ∷ []
all_events [] (accepted peer_closes none) = events_of peer_closes
all_events [] (accepted peer_closes (some e)) = events_of peer_closes ++ error_encoded e ∷ []
all_events (none ∷ checks) u = all_events checks u
all_events (some e ∷ checks) u = error_encoded e ∷ []

-- With middlewares that let a request pass or answer it with an error: where one of them or the upgrade fails,
-- the first error is written as the response and nothing else happens, in particular no loop runs; else, where
-- the wait for the loops returns, both loops have run, and then the replier and then the connection are closed;
-- where the peer sends a close frame, the context is cancelled and the two are closed in that order also before the
-- loops end; and an error is written as the response last, only where the wait returns one.
pub handle_connections_guards :
    (checks : List (Option Bytes)) (u : Upgrade)
    → handle_connections (map guard checks) u ≡ all_events checks u
unfolding handle_connections upgraded chained
handle_connections_guards [] (refused e) = refl
handle_connections_guards [] (accepted true none) = refl
handle_connections_guards [] (accepted false none) = refl
handle_connections_guards [] (accepted true (some e)) = refl
handle_connections_guards [] (accepted false (some e)) = refl
handle_connections_guards (none ∷ checks) u =
    rw (chained-cons (guard none) (map guard checks) (upgraded u))
      (handle_connections_guards checks u)
handle_connections_guards (some e ∷ checks) u =
    rw (chained-cons (guard (some e)) (map guard checks) (upgraded u)) refl
