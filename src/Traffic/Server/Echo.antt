-- ===== src/Traffic/Server/Echo.antt =====
-- That a server closes its socket when it is over, and what it answers until then.
use distributed_apps_platfor.Base.{
  ◌≡◌, ◌∙◌, refl, sym, ap, String, Bool, true, false, List, [], ◌∷◌, ◌++◌, map, none, some, Result,
  ok, err, Error, arith, Bool-cases, Result-cases, inl, inr, append_assoc, append-nil, has_text,
  string_eq, drop_first,
}
use distributed_apps_platfor.Traffic.Server.{
  Turn, stop_set, raised, request, Setup, Server, serve, serve_on, close, start, new_http_server,
  http_start, http_stop, do_get, fetch, last_line,
}

module _ {C R : Type 0} (handler : C → Result R) where
  -- every request of the list is answered with the reply beside it
  abbrev pub Replies : List C → List R → Type 0
  Replies [] [] = Unit
  Replies (c ∷ cs) (r ∷ rs) = (handler c ≡ ok r) × Replies cs rs
  Replies _ _ = ⊥

  serve-Replies :
      (cs : List C) (rs answered : List R) (turns : List (Turn C))
      → Replies cs rs
      → serve handler (map request cs ++ turns) answered ≡ serve handler turns (answered ++ rs)
  unfolding serve
  serve-Replies [] [] answered turns h = ap (serve handler turns) (sym (append-nil answered))
  serve-Replies (c ∷ cs) (r ∷ rs) answered turns (h, rest) = ground (
    arith,
    h,
    serve-Replies cs rs (answered ++ r ∷ []) turns rest,
    append_assoc answered (r ∷ []) rs,
  )
  serve-Replies [] (r ∷ rs) answered turns h = absurd h
  serve-Replies (c ∷ cs) [] answered turns h = absurd h

  module _ {Socket : Type 0} where
    serve_on-keeps :
        (setup : Setup Socket) (turns : List (Turn C)) (server : Server Socket R)
        → let server' = (serve_on handler setup turns server).1 in
          (server'.socket ≡ server.socket) × (server'.closed ≡ server.closed)
    unfolding serve_on
    serve_on-keeps setup turns server = ground arith

    -- A server whose `start` is over is stopped, has no socket, and has closed the one that it made, if
    -- it made one, whatever ended it.
    pub start-closes :
        (setup : Setup Socket) (turns : List (Turn C)) (server server' : Server Socket R)
        → server.socket ≡ none
        → start handler setup turns server ≡ (true, server')
        → (server'.stopped ≡ true)
          × (server'.socket ≡ none)
          × (server'.closed
              ≡ (elim setup.created [ err e ↦ server.closed | ok s ↦ server.closed ++ s ∷ [] ]))
    unfolding start close
    start-closes setup turns server server' free h = elim (Result-cases setup.created) [
      | inr (e, q) ↦ ground (arith, q)
      | inl (s, q) ↦
          let setting : Server Socket R = record server { stopped = false; socket = some s } in
          let (socket, closed) = serve_on-keeps setup turns setting in
          elim (Bool-cases (serve_on handler setup turns setting).0) [
            | inl over ↦ ground (arith, q, over, socket, closed)
            | inr waits ↦ absurd (ground (arith, q, waits))
          ]
    ]

    start-serves :
        (setup : Setup Socket) (s : Socket) (turns : List (Turn C)) (server : Server Socket R)
        → setup.created ≡ ok s
        → setup.bound ≡ ok tt
        → setup.listening ≡ ok tt
        → let (over, server') = start handler setup turns server in
          (over ≡ (serve handler turns server.answered).0)
          × (server'.answered ≡ (serve handler turns server.answered).1)
    unfolding start close serve_on
    start-serves setup s turns server made bound listening =
        elim (Bool-cases (serve handler turns server.answered).0) [
          | inl over ↦ ground (arith, made, bound, listening, over)
          | inr waits ↦ ground (arith, made, bound, listening, waits)
        ]

    -- A server that gets its socket answers the requests in order, each as its handler does, until its
    -- stop event is set, waiting for a request raises or the handler raises on one; then it is over, and
    -- what comes after is not answered. Without such an end it still waits.
    pub start-answers :
        (setup : Setup Socket) (s : Socket) (cs : List C) (rs : List R) (c : C) (e x : Error)
        (turns : List (Turn C)) (server : Server Socket R)
        → setup.created ≡ ok s
        → setup.bound ≡ ok tt
        → setup.listening ≡ ok tt
        → Replies cs rs
        → handler c ≡ err e
        → let run = λ (ts : List (Turn C)). start handler setup (map request cs ++ ts) server in
          let all = server.answered ++ rs in
          (((run []).0 ≡ false) × ((run []).1.answered ≡ all))
          × (((run (stop_set ∷ turns)).0 ≡ true) × ((run (stop_set ∷ turns)).1.answered ≡ all))
          × (((run (raised x ∷ turns)).0 ≡ true) × ((run (raised x ∷ turns)).1.answered ≡ all))
          × (((run (request c ∷ turns)).0 ≡ true) × ((run (request c ∷ turns)).1.answered ≡ all))
    unfolding serve
    start-answers setup s cs rs c e x turns server made bound listening h fails = (
      run [] false refl,
      run (stop_set ∷ turns) true refl,
      run (raised x ∷ turns) true refl,
      run (request c ∷ turns) true (ground (arith, fails)),
    )
      where
        answered :
            (ts : List (Turn C))
            → serve handler (map request cs ++ ts) server.answered
              ≡ serve handler ts (server.answered ++ rs)
        answered ts = serve-Replies cs rs server.answered ts h

        first : Bool × List R → Bool
        first p = p.0

        second : Bool × List R → List R
        second p = p.1

        run :
            (ts : List (Turn C)) (over : Bool)
            → serve handler ts (server.answered ++ rs) ≡ (over, server.answered ++ rs)
            → let (ended, server') = start handler setup (map request cs ++ ts) server in
              (ended ≡ over) × (server'.answered ≡ server.answered ++ rs)
        run ts over done =
            let (ended, out) =
              start-serves setup s (map request cs ++ ts) server made bound listening in
            (ended ∙ ap first (answered ts ∙ done), out ∙ ap second (answered ts ∙ done))

last_line-append :
    (line last : String) (lines : List String) → last_line line (lines ++ last ∷ []) ≡ last
last_line-append line last [] = refl
last_line-append line last (next ∷ lines) = last_line-append next last lines

-- What an HTTP server is asked for comes back as the payload: with `json.loads` inverse to `json.dumps`
-- on a payload, the client finds the payload in the response to `/` and the payload, however many
-- header lines come between.
pub fetch-do_get :
    (dumps : String → String) (loads : String → Result String) (headers : List String)
    (path payload : String)
    → loads (dumps payload) ≡ ok payload
    → drop_first path ≡ payload
    → fetch loads (do_get dumps headers path) ≡ ok (some payload)
unfolding fetch do_get has_text
fetch-do_get dumps loads headers path payload inverse same =
    let found = last_line-append "HTTP/1.0 200 OK" (dumps (drop_first path)) headers in
    ground (arith, found, inverse, same)

-- Stopping an HTTP server sets its stop event, which starting it again does not clear: it then serves
-- and counts as stopped, unlike a server that is started for the first time.
pub http_start-http_stop :
    {H : Type 0} (h h' : H)
    → let first = (http_start (ok h) new_http_server).1 in
      let again = (http_start (ok h') (http_stop first)).1 in
      (first.stop_event ≡ false)
      × (first.httpd ≡ some h)
      × (again.stop_event ≡ true)
      × (again.httpd ≡ some h')
unfolding http_start http_stop
http_start-http_stop h h' = (refl, refl, refl, refl)
