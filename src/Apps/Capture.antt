-- ===== src/Apps/Capture.antt =====
-- `TCPDump` of LYDIAN/lydian/apps/tcpdump.py, on the processes of LYDIAN/lydian/apps/console.py.
pub mod Runs
use Prim.Native.String.{◌++◌}
use distributed_apps_platfor.Base.{
  ◌≡◌, String, Bool, true, false, not, List, [], ◌∷◌, Option, none, some, Dict, lookup, insert,
  remove, values, Result, ok, err, Error, attribute_error, rerun_error, if◌then◌else◌, ◌==◌,
  string_eq, join,
}
use distributed_apps_platfor.Base.Exec.{Exec, pure, raise, lift, gets, modify, skip, ◌>>=◌, ◌>>◌}

-- The processes `P` of a node on a state `S`: starting one from a command, interrupting one and waiting
-- for it, killing one, and whether one is alive.
pub record Console (S P : Type 0) : Type 0 where
  pub start_subprocess : String → Exec S P
  pub ctrl_c : P → Exec S (Unit {0})
  pub kill_subprocess : P → Exec S (Unit {0})
  pub is_alive : P → S → Bool

-- `_get_identifier`
unfoldable pub get_identifier : String → String
get_identifier dst_file = join "/tmp" dst_file

module _ {S P : Type 0} (console : Console S P) where
  pub record TcpDump : Type 0 where
    pub pcap_handles : Dict String P
    pub env : S

  -- a call of the console
  unfoldable pub on_console {ℓ} : {A : Type ℓ} → Exec S A → Exec TcpDump A
  on_console m app = let (r, s) = m app.env in (r, record app { env = s })

  unfoldable pub get_pcap_handle : String → TcpDump → Option P
  get_pcap_handle dst_file app = lookup (get_identifier dst_file) app.pcap_handles

  abbrev pub command : String → String → Option String → String → String
  command interface args tool_path dst =
      (elim tool_path [ none ↦ "tcpdump" | some path ↦ if path == "" then "tcpdump" else path ])
      ++ " -i "
      ++ interface
      ++ " "
      ++ args
      ++ " -w "
      ++ dst

  unfoldable pub start_pcap : String → String → String → Option String → Exec TcpDump Bool
  start_pcap dst_file interface args tool_path = do
    handle ← gets (get_pcap_handle dst_file)
    elim handle [
      | some p ↦ raise rerun_error
      | none ↦ (do
        p ←
            on_console (
              console.start_subprocess (command interface args tool_path (get_identifier dst_file)))
        modify (λ app. record app {
          pcap_handles = insert (get_identifier dst_file) p app.pcap_handles;
        })
        pure true)
    ]

  -- True where a capture was stopped, for the two messages
  unfoldable pub stop_pcap : String → Exec TcpDump Bool
  stop_pcap dst_file = do
    let ident = get_identifier dst_file
    handle ← gets (get_pcap_handle ident)
    elim handle [
      | none ↦ pure false
      | some p ↦ (do
        on_console (console.ctrl_c p)
        on_console (console.kill_subprocess p)
        modify (λ app. record app { pcap_handles = remove ident app.pcap_handles })
        pure true)
    ]

  -- None has no `poll`
  unfoldable pub is_running : String → TcpDump → Result Bool
  is_running dst_file app = elim (get_pcap_handle (get_identifier dst_file) app) [
    | none ↦ err attribute_error
    | some p ↦ ok (console.is_alive p app.env)
  ]

  kill_all : List P → Exec TcpDump (Unit {0})
  kill_all [] app = (ok tt, app)
  kill_all (p ∷ ps) app =
      let (r, app') = on_console (console.kill_subprocess p) app in
      elim r [ err e ↦ (err e, app') | ok _ ↦ kill_all ps app' ]

  -- `stop` of the app: the processes are killed
  unfoldable pub stop : Exec TcpDump (Unit {0})
  unfolding kill_all
  stop app = kill_all (values app.pcap_handles) app
