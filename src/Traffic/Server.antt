-- ===== src/Traffic/Server.antt =====
-- LYDIAN/lydian/traffic/server.py: the servers that echo what a client sends. What a server meets
-- is a sequence of turns of its loop.
pub mod Echo
use distributed_apps_platfor.Base.{
  ◌≡◌, ℕ, String, Bool, true, false, not, List, [], ◌∷◌, ◌++◌, Option, none, some, get_or, Result,
  ok, err, Error, type_error, index_error, if◌then◌else◌, ◌==◌, string_eq, has_text, drop_first,
}

abbrev default_tcp_server_port : ℕ
default_tcp_server_port = 5649

-- `Server.__init__`: the port, and whether the socket is one of IPv6
unfoldable pub server_port : Option ℕ → ℕ
server_port port = get_or port default_tcp_server_port

-- One turn of the loop of a server for requests `C`: the stop event is found set, waiting for a
-- request raises, or a request comes.
pub data Turn (C : Type 0) : Type 0 where
  stop_set : Turn C
  raised : Error → Turn C
  request : C → Turn C

-- The socket of a server: what making it, binding it and listening on it come to.
pub record Setup (Socket : Type 0) : Type 0 where
  pub created : Result Socket
  pub bound : Result (Unit {0})
  pub listening : Result (Unit {0})

-- A server; `closed` holds the sockets it has closed, and `answered` what it has sent back.
pub record Server (Socket R : Type 0) : Type 0 where
  pub stopped : Bool
  pub socket : Option Socket
  pub closed : List Socket
  pub answered : List R

module _ {Socket R : Type 0} where
  -- `close`: the stop event is set, and the socket closed where there is one
  unfoldable pub close : Server Socket R → Server Socket R
  close server = record server {
    stopped = true;
    socket = none;
    closed = elim server.socket [ none ↦ server.closed | some s ↦ server.closed ++ s ∷ [] ];
  }

module _ {C R : Type 0} (handler : C → Result R) where
  -- The loop: whether it has ended, and what was sent back. Without a turn left it still waits.
  serve : List (Turn C) → List R → Bool × List R
  serve [] answered = (false, answered)
  serve (stop_set ∷ turns) answered = (true, answered)
  serve (raised e ∷ turns) answered = (true, answered)
  serve (request c ∷ turns) answered = elim (handler c) [
    | err e ↦ (true, answered)
    | ok r ↦ serve turns (answered ++ r ∷ [])
  ]

  module _ {Socket : Type 0} where
    -- the body of the `try` of `start` once there is a socket: whether it is over
    serve_on : Setup Socket → List (Turn C) → Server Socket R → Bool × Server Socket R
    serve_on setup turns server = elim setup.bound [
      | err e ↦ (true, server)
      | ok _ ↦ elim setup.listening [
        | err e ↦ (true, server)
        | ok _ ↦
            let (over, answered) = serve turns server.answered in
            (over, record server { answered = answered })
      ]
    ]

    -- `start` of a TCP server, or of a UDP server, which does not listen: `close` comes when it is over
    unfoldable pub start : Setup Socket → List (Turn C) → Server Socket R → Bool × Server Socket R
    unfolding serve_on serve
    start setup turns server =
        let cleared : Server Socket R = record server { stopped = false } in
        elim setup.created [
          | err e ↦ (true, close cleared)
          | ok s ↦
              let (over, server') = serve_on setup turns (record cleared { socket = some s }) in
              (over, if over then close server' else server')
        ]

-- A connection, by what receiving from it, sending to it and closing it come to.
pub record Conn (D : Type 0) : Type 0 where
  pub received : Result D
  pub sent : D → Result (Unit {0})
  pub closed : Result (Unit {0})

-- `TCPServer.echo_handler`
unfoldable pub echo_handler : {D : Type 0} → Conn D → Result D
echo_handler conn = elim conn.received [
  | err e ↦ err e
  | ok payload ↦ elim (conn.sent payload) [
    | err e ↦ err e
    | ok _ ↦ elim conn.closed [ err e ↦ err e | ok _ ↦ ok payload ]
  ]
]

-- A packet: its data and what sending to its address comes to.
pub record Packet (D : Type 0) : Type 0 where
  pub payload : D
  pub sent : D → Result (Unit {0})

-- `UDPServer.echo_handler`: nothing is sent for an empty packet
unfoldable pub echo_packet : {D : Type 0} → (D → Bool) → Packet D → Result (Option D)
echo_packet is_empty packet =
    if is_empty packet.payload
    then ok none
    else elim (packet.sent packet.payload) [ err e ↦ err e | ok _ ↦ ok (some packet.payload) ]

-- An HTTP server: its stop event, the `httpd` and the thread that serves it.
pub record HttpServer (H : Type 0) : Type 0 where
  pub stop_event : Bool
  pub httpd : Option H
  pub thread : Bool

abbrev pub new_http_server : {H : Type 0} → HttpServer H
new_http_server = record { stop_event = false; httpd = none; thread = false }

unfoldable pub http_start :
    {H : Type 0} → Result H → HttpServer H → Result (Unit {0}) × HttpServer H
http_start httpd server = elim httpd [
  | err e ↦ (err e, server)
  | ok h ↦ (ok tt, record server { httpd = some h; thread = true })
]

unfoldable pub http_stop : {H : Type 0} → HttpServer H → HttpServer H
http_stop server = record { stop_event = true; httpd = none; thread = false }

-- `_HTTPRequestHandler.do_GET`: the lines of the response, for `json.dumps` of the payload and the
-- header lines
unfoldable pub do_get : (String → String) → List String → String → List String
do_get dumps headers path = "HTTP/1.0 200 OK" ∷ headers ++ dumps (drop_first path) ∷ []

abbrev last_line : String → List String → String
last_line line [] = line
last_line line (next ∷ lines) = last_line next lines

-- `HTTPClient.fetch` of LYDIAN/lydian/traffic/client.py, on the lines received: None where the status
-- is another, and an error where there is no line
unfoldable pub fetch : (String → Result String) → List String → Result (Option String)
fetch loads [] = err index_error
fetch loads (line ∷ lines) =
    if has_text "200 OK" line
    then (elim (loads (last_line line lines)) [ err e ↦ err e | ok payload ↦ ok (some payload) ])
    else ok none
