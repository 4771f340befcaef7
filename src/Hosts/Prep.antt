-- ===== src/Hosts/Prep.antt =====
-- LYDIAN/lydian/utils/prep.py: how the node at an endpoint is prepared and cleaned up.
pub mod Ubuntu
pub mod Firewall
pub mod Esx
pub mod Node
pub mod Cleanup
use Prim.Native.String.{◌++◌}
use distributed_apps_platfor.Base.{
  ◌≡◌, ℕ, String, Bool, true, false, not, List, [], ◌∷◌, Option, none, some, Result, ok, err, Error,
  attribute_error, value_error, type_error, assertion_error, not_implemented, if◌then◌else◌, ◌==◌,
  string_eq, has_text, join,
}
use text.Mathlib.Text.{starts_with}
use distributed_apps_platfor.Base.Exec.{
  Exec, pure, raise, lift, gets, modify, skip, for_each, assert, ◌>>=◌, ◌>>◌,
}

-- What the preparation of a node uses: a host to run commands on and to put files on, the file system
-- of this machine, and the configuration, on a state `S`. `put_lines` puts a temporary file with
-- these lines on the host, and `percent` is the `%` of a format and one value.
pub record Place (S : Type 0) : Type 0 where
  pub enter : S → S
  pub leave : S → S
  pub req_call : String → Option ℕ → Exec S (Option String)
  pub put_file : String → String → Exec S (Unit {0})
  pub put_lines : List String → String → Exec S (Unit {0})
  pub exists : String → S → Bool
  pub read_lines : String → Exec S (List String)
  pub install_egg : Exec S (Unit {0})
  pub get_param : String → Option String
  pub data_dir : String
  pub percent : String → String → Result String

pub data HostKind : Type 0 where
  esx ubuntu windows : HostKind

unfoldable pub identify_text : String → Option HostKind
identify_text result =
    if has_text "VMkernel" result
    then some esx
    else if has_text "Ubuntu" result
    then some ubuntu
    else if has_text "kali" result
    then some ubuntu
    else if has_text "windows" result
    then some windows
    else none

-- `'VMkernel' in None` raises
unfoldable pub identify_host : Option String → Result (Option HostKind)
identify_host none = err type_error
identify_host (some result) = ok (identify_text result)

-- a text is true unless it is empty, and None is false
abbrev pub given : Option String → Bool
given none = false
given (some s) = not (s == "")

-- `a or b`
abbrev pub either : Option String → Option String → Option String
either a b = if given a then a else b

abbrev pub db_files : List String
db_files = "params.db" ∷ "rules.db" ∷ "setup.db" ∷ "traffic.db" ∷ []

abbrev pub db_commands : List String
db_commands = "rm params.db*" ∷ "rm rules.db*" ∷ "rm setup.db*" ∷ "rm traffic.db*" ∷ []

abbrev pub is_value_error : Error → Bool
is_value_error value_error = true
is_value_error _ = false

module _ {S : Type 0} (place : Place S) where
  -- `with Host(...) as host: body`
  unfoldable pub on_host {ℓ} : {A : Type ℓ} → Exec S A → Exec S A
  on_host body s = let (r, s') = body (place.enter s) in (r, place.leave s')

  -- a command whose reply is not used
  abbrev pub call : String → Exec S (Unit {0})
  call cmd = do _ ← place.req_call cmd none; skip

  unfoldable pub get_host_type : Exec S (Option HostKind)
  get_host_type = on_host (do
    uname ← place.req_call "uname -a" none
    kind ← lift (identify_host uname)
    elim kind [
      | some k ↦ pure (some k)
      | none ↦ (do
        release ← place.req_call "cat /etc/os-release" none
        lift (identify_host release))
    ])

  -- `try: ... except Exception: pass`
  abbrev ignore_all : Exec S (Unit {0}) → Exec S (Unit {0})
  ignore_all m s = let (r, s') = m s in (ok tt, s')

  -- `try: ... except ValueError: pass`
  abbrev ignore_value_error : Exec S (Unit {0}) → Exec S (Unit {0})
  ignore_value_error m s =
      let (r, s') = m s in
      elim r [ ok _ ↦ (ok tt, s') | err e ↦ (if is_value_error e then ok tt else err e, s') ]

  unfoldable pub cleanup_db : Exec S (Unit {0})
  cleanup_db = for_each db_files (λ db_file. ignore_all (call ("rm " ++ db_file ++ "*")))

  unfoldable pub run_ignore_error : String → Exec S (Unit {0})
  run_ignore_error cmnd = ignore_value_error (call cmnd)

  unfoldable pub sync_ntp_server : Exec S (Unit {0})
  sync_ntp_server =
      let ntp_server = place.get_param "LYDIAN_NTP_SERVER" in
      elim ntp_server [
        | none ↦ skip
        | some server ↦ if server == "" then skip else run_ignore_error ("ntpdate " ++ server)
      ]

  default_egg : Exec S String
  default_egg = do
    let file = join place.data_dir "lydian.egg"
    there ← gets (place.exists file)
    if there then skip else place.install_egg
    pure file

  -- the egg file that is used, which is made where there is none and none was asked for
  egg_path : Option String → Exec S String
  egg_path egg_file_src = elim (either (place.get_param "LYDIAN_EGG_PATH") egg_file_src) [
    | none ↦ default_egg
    | some file ↦ if file == "" then default_egg else pure file
  ]

  unfoldable pub copy_egg : Option String → String → Exec S (Unit {0})
  unfolding egg_path default_egg
  copy_egg egg_file_src dest = do
    file ← egg_path egg_file_src
    there ← gets (place.exists file)
    assert there
    place.put_file file dest

  config_path : Option String → String
  config_path cfg_path = elim (either (place.get_param "LYDIAN_HOSTPREP_CONFIG") cfg_path) [
    | none ↦ join place.data_dir "lydian.conf"
    | some file ↦ if file == "" then join place.data_dir "lydian.conf" else file
  ]

  unfoldable pub copy_config : Option String → Exec S (Unit {0})
  unfolding config_path
  copy_config cfg_path = do
    call "mkdir -p /etc/lydian"
    place.put_file (config_path cfg_path) "/etc/lydian/lydian.conf"

  -- `[x if not x.startswith(prefix) else x % value for x in lines]`, for a test of `x`
  unfoldable pub fill_lines : (String → Bool) → String → List String → Result (List String)
  fill_lines chosen value [] = ok []
  fill_lines chosen value (x ∷ xs) =
      let rest = fill_lines chosen value xs in
      elim (if chosen x then place.percent x value else ok x) [
        | err e ↦ err e
        | ok y ↦ elim rest [ err e ↦ err e | ok ys ↦ ok (y ∷ ys) ]
      ]

  -- `start`, after which an error of the service is told by False
  abbrev started : Exec S (Unit {0}) → Exec S Bool
  started m s = let (r, s') = m s in (elim r [ ok _ ↦ ok true | err _ ↦ ok false ], s')
