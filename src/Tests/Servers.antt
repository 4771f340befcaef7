-- ===== src/Tests/Servers.antt =====
-- Runs of the servers.
use distributed_apps_platfor.Base.{
  ◌≡◌, refl, ℕ, String, true, false, List, [], ◌∷◌, ◌++◌, map, none, ok, err, connection_error,
  value_error,
}
use distributed_apps_platfor.Traffic.Server.{
  Turn, stop_set, raised, request, Setup, Server, start, Conn, echo_handler, close,
}
use distributed_apps_platfor.Traffic.Server.Echo.{start-closes, start-answers}

-- a connection that says this, and takes what is sent
abbrev saying : String → Conn String
saying s = record { received = ok s; sent = λ d. ok tt; closed = ok tt }

abbrev broken : Conn String
broken = record { received = err connection_error; sent = λ d. ok tt; closed = ok tt }

abbrev setup : Setup ℕ
setup = record { created = ok 7; bound = ok tt; listening = ok tt }

abbrev new_server : Server ℕ String
new_server = record { stopped = true; socket = none; closed = []; answered = [] }

abbrev over_server : Server ℕ String
over_server = record { stopped = true; socket = none; closed = 7 ∷ []; answered = "a" ∷ [] }

abbrev turns : List (Turn (Conn String))
turns = request (saying "a") ∷ request broken ∷ request (saying "b") ∷ []

over-run : start echo_handler setup turns new_server ≡ (true, over_server)
unfolding start echo_handler close
over-run = refl

start-closes_example :
    (over_server.stopped ≡ true) × (over_server.socket ≡ none) × (over_server.closed ≡ 7 ∷ [])
start-closes_example = start-closes echo_handler setup turns new_server over_server refl over-run

says : echo_handler (saying "a") ≡ ok "a"
unfolding echo_handler
says = refl

breaks : echo_handler broken ≡ err connection_error
unfolding echo_handler
breaks = refl

start-answers_example :
    let run = λ (ts : List (Turn (Conn String))).
      start echo_handler setup (map request (saying "a" ∷ []) ++ ts) new_server in
    (((run []).0 ≡ false) × ((run []).1.answered ≡ "a" ∷ []))
    × (((run (stop_set ∷ [])).0 ≡ true) × ((run (stop_set ∷ [])).1.answered ≡ "a" ∷ []))
    × (((run (raised value_error ∷ [])).0 ≡ true)
        × ((run (raised value_error ∷ [])).1.answered ≡ "a" ∷ []))
    × (((run (request broken ∷ [])).0 ≡ true) × ((run (request broken ∷ [])).1.answered ≡ "a" ∷ []))
start-answers_example =
    start-answers echo_handler setup 7 (saying "a" ∷ []) ("a" ∷ []) broken connection_error
      value_error [] new_server refl refl refl (says, tt) breaks
