-- ===== src/Apps/Capture/Runs.antt =====
-- What becomes of the captures that are started and stopped.
use Prim.Native.String.{◌++◌}
use mathlib.Core.Path.{subst}
use text.Mathlib.Text.{starts_with}
use text.Mathlib.TextLemmas.{append_assoc}
use text.Mathlib.TextPositions.{starts_with-append}
use distributed_apps_platfor.Base.{
  ◌≡◌, ◌∙◌, refl, sym, ap, String, true, false, List, [], ◌∷◌, Option, none, some, Dict, insert,
  remove, values, Result, ok, err, Error, rerun_error, if◌then◌else◌, ◌==◌, string_eq, join, arith,
  lookup-insert_self, lookup-remove, ==_refl, Bool-cases, Result-cases, inl, inr,
}
use distributed_apps_platfor.Apps.Capture.{
  Console, TcpDump, get_identifier, get_pcap_handle, on_console, start_pcap, stop_pcap, is_running,
  stop, kill_all, command,
}

tmp_absolute : (x : String) → starts_with ("/tmp" ++ x) "/" ≡ true
tmp_absolute x =
    subst (λ (y : String). starts_with y "/" ≡ true) (sym (append_assoc "/" "tmp" x))
      (starts_with-append "/" ("tmp" ++ x))

identifier_absolute : (f : String) → starts_with (get_identifier f) "/" ≡ true
unfolding get_identifier join
identifier_absolute f = elim (Bool-cases (starts_with f "/")) [
  | inl e ↦ rw e e
  | inr e ↦ rw e (tmp_absolute ("/" ++ f))
]

join-absolute : (a b : String) → starts_with b "/" ≡ true → join a b ≡ b
unfolding join
join-absolute a b h = rw h refl

-- The identifier of an identifier is itself, so that `stop_pcap` and `is_running`, which take it twice,
-- look where `start_pcap` put the process.
pub identifier-identifier : (f : String) → get_identifier (get_identifier f) ≡ get_identifier f
unfolding get_identifier
identifier-identifier f = join-absolute "/tmp" (join "/tmp" f) (identifier_absolute f)

module _ {S P : Type 0} (console : Console S P) where
  handle-identifier :
      (f : String) (app : TcpDump console)
      → get_pcap_handle console (get_identifier f) app ≡ get_pcap_handle console f app
  unfolding get_pcap_handle
  handle-identifier f app = rw (identifier-identifier f) refl

  kill_all-keeps :
      (ps : List P) (app : TcpDump console)
      → (kill_all console ps app).1.pcap_handles ≡ app.pcap_handles
  unfolding kill_all on_console
  kill_all-keeps [] app = refl
  kill_all-keeps (p ∷ ps) app = elim (Result-cases (console.kill_subprocess p app.env).0) [
    | inl (u, e) ↦
        ground
          (arith, e, kill_all-keeps ps (record app { env = (console.kill_subprocess p app.env).1 }))
    | inr (x, e) ↦ ground (arith, e)
  ]

  stop-keeps : (app : TcpDump console) → (stop console app).1.pcap_handles ≡ app.pcap_handles
  unfolding stop
  stop-keeps app = kill_all-keeps (values app.pcap_handles) app

  start-again :
      (f i a : String) (tool : Option String) (app : TcpDump console) (p : P)
      → get_pcap_handle console f app ≡ some p
      → start_pcap console f i a tool app ≡ (err rerun_error, app)
  unfolding start_pcap
  start-again f i a tool app p h = ground (arith, h)

  start-new :
      (f i a : String) (tool : Option String) (app : TcpDump console) (p : P) (s : S)
      → get_pcap_handle console f app ≡ none
      → console.start_subprocess (command console i a tool (get_identifier f)) app.env ≡ (ok p, s)
      → start_pcap console f i a tool app
        ≡ (ok true, record { pcap_handles = insert (get_identifier f) p app.pcap_handles; env = s })
  unfolding start_pcap on_console
  start-new f i a tool app p s free made = ground (arith, free, made)

  handle-new :
      (f : String) (app : TcpDump console) (p : P) (handles : Dict String P)
      → app.pcap_handles ≡ insert (get_identifier f) p handles
      → get_pcap_handle console f app ≡ some p
  unfolding get_pcap_handle
  handle-new f app p handles h = rw h (lookup-insert_self (get_identifier f) p handles)

  handle-same :
      (f : String) (app app' : TcpDump console)
      → app.pcap_handles ≡ app'.pcap_handles
      → get_pcap_handle console f app ≡ get_pcap_handle console f app'
  unfolding get_pcap_handle
  handle-same f app app' h = rw h refl

  running :
      (f : String) (app : TcpDump console) (p : P)
      → get_pcap_handle console f app ≡ some p
      → is_running console f app ≡ ok (console.is_alive p app.env)
  unfolding is_running
  running f app p h = ground (arith, h, handle-identifier f app)

  stop-done :
      (f : String) (app : TcpDump console) (p : P) (s1 s2 : S)
      → get_pcap_handle console f app ≡ some p
      → console.ctrl_c p app.env ≡ (ok tt, s1)
      → console.kill_subprocess p s1 ≡ (ok tt, s2)
      → stop_pcap console f app
        ≡ (ok true, record { pcap_handles = remove (get_identifier f) app.pcap_handles; env = s2 })
  unfolding stop_pcap on_console
  stop-done f app p s1 s2 h c k = ground (arith, h, handle-identifier f app, c, k)

  stop-raises :
      (f : String) (app : TcpDump console) (p : P) (s1 : S) (e : Error)
      → get_pcap_handle console f app ≡ some p
      → console.ctrl_c p app.env ≡ (err e, s1)
      → stop_pcap console f app ≡ (err e, record app { env = s1 })
  unfolding stop_pcap on_console
  stop-raises f app p s1 e h c = ground (arith, h, handle-identifier f app, c)

  handle-removed :
      (f g : String) (app app' : TcpDump console)
      → app'.pcap_handles ≡ remove (get_identifier f) app.pcap_handles
      → get_pcap_handle console g app'
        ≡ (if get_identifier f == get_identifier g then none else get_pcap_handle console g app)
  unfolding get_pcap_handle
  handle-removed f g app app' h =
      rw h (lookup-remove (get_identifier f) (get_identifier g) app.pcap_handles)

  -- the state after each of these processes is killed, where `gone` is what a kill leaves
  abbrev pub all_gone : (P → S → S) → List P → S → S
  all_gone gone [] s = s
  all_gone gone (p ∷ ps) s = all_gone gone ps (gone p s)

  kill_all-step :
      (p : P) (ps : List P) (app : TcpDump console) (s : S)
      → console.kill_subprocess p app.env ≡ (ok tt, s)
      → kill_all console (p ∷ ps) app ≡ kill_all console ps (record app { env = s })
  unfolding kill_all on_console
  kill_all-step p ps app s h = ap go h
    where
      go : Result (Unit {0}) × S → Result (Unit {0}) × TcpDump console
      go r = elim r.0 [
        | err e ↦ (err e, record app { env = r.1 })
        | ok _ ↦ kill_all console ps (record app { env = r.1 })
      ]

  kill_all-gone :
      (gone : P → S → S)
      → ((p : P) (s : S) → console.kill_subprocess p s ≡ (ok tt, gone p s))
      → (ps : List P) (app : TcpDump console)
      → kill_all console ps app ≡ (ok tt, record app { env = all_gone gone ps app.env })
  unfolding kill_all on_console
  kill_all-gone gone kills [] app = refl
  kill_all-gone gone kills (p ∷ ps) app =
      kill_all-step p ps app (gone p app.env) (kills p app.env)
      ∙ kill_all-gone gone kills ps (record app { env = gone p app.env })

  -- A capture to a file for which there is no process, whose process can be started: it runs as long
  -- as the process lives, a second capture to the file raises, and it raises as well after `stop`, which,
  -- where a process can always be killed, kills every process that is kept, in order, and forgets none of them.
  pub start_pcap_lem :
      (gone : P → S → S)
      → ((q : P) (t : S) → console.kill_subprocess q t ≡ (ok tt, gone q t))
      → (f i a : String) (tool : Option String) (app : TcpDump console) (p : P) (s : S)
      → get_pcap_handle console f app ≡ none
      → console.start_subprocess (command console i a tool (get_identifier f)) app.env ≡ (ok p, s)
      → let (result, app') = start_pcap console f i a tool app in
        let (told, stopped) = stop console app' in
        (result ≡ ok true)
        × (is_running console f app' ≡ ok (console.is_alive p s))
        × (start_pcap console f i a tool app' ≡ (err rerun_error, app'))
        × (told ≡ ok tt)
        × (stopped.env ≡ all_gone gone (values app'.pcap_handles) s)
        × (stopped.pcap_handles ≡ app'.pcap_handles)
        × (start_pcap console f i a tool stopped ≡ (err rerun_error, stopped))
  unfolding stop
  start_pcap_lem gone kills f i a tool app p s free made =
      let app' : TcpDump console = record {
        pcap_handles = insert (get_identifier f) p app.pcap_handles;
        env = s;
      } in
      let there = handle-new f app' p app.pcap_handles refl in
      let kept = handle-same f (stop console app').1 app' (stop-keeps app') ∙ there in
      let killed = kill_all-gone gone kills (values app'.pcap_handles) app' in
      rw (start-new f i a tool app p s free made) (
        refl,
        running f app' p there,
        start-again f i a tool app' p there,
        ap (λ r. r.0) killed,
        ap (λ r. r.1.env) killed,
        stop-keeps app',
        start-again f i a tool (stop console app').1 p kept,
      )

  -- Stopping the capture of a file whose process obeys: the process is forgotten, so that a capture to
  -- the file can start again, and no other is. Where waiting for the process raises, that is raised
  -- and nothing is forgotten.
  pub stop_pcap_lem :
      (f : String) (app : TcpDump console) (p : P) (s1 s2 : S)
      → get_pcap_handle console f app ≡ some p
      → let (result, app') = stop_pcap console f app in
        (console.ctrl_c p app.env ≡ (ok tt, s1)
          → console.kill_subprocess p s1 ≡ (ok tt, s2)
          → (result ≡ ok true)
            × (get_pcap_handle console f app' ≡ none)
            × ((g : String)
                → (get_identifier f == get_identifier g) ≡ false
                → get_pcap_handle console g app' ≡ get_pcap_handle console g app))
        × ((e : Error)
            → console.ctrl_c p app.env ≡ (err e, s1)
            → (result ≡ err e) × (app'.pcap_handles ≡ app.pcap_handles))
  stop_pcap_lem f app p s1 s2 there = (
    λ c k.
        let app' : TcpDump console = record {
          pcap_handles = remove (get_identifier f) app.pcap_handles;
          env = s2;
        } in
        rw (stop-done f app p s1 s2 there c k) (
          refl,
          handle-removed f f app app' refl ∙ rw (==_refl (get_identifier f)) refl,
          λ g n. handle-removed f g app app' refl ∙ rw n refl,
        ),
    λ e c. rw (stop-raises f app p s1 e there c) (refl, refl),
  )
