-- ===== src/Tests/Hosts.antt =====
-- Runs of the calls on a host and of its preparation, on a host that keeps its commands.
use mathlib.Core.List.{◌++◌ as append}
use distributed_apps_platfor.Base.{
  ◌≡◌, refl, ℕ, String, Bool, true, false, List, [], ◌∷◌, Option, none, some, pos, Result, ok, err,
  Error, value_error, connection_error, if◌then◌else◌, ◌==◌, string_eq, nat_eq, has_text,
  splitlines, drop_last, contains, ℤ,
}
use distributed_apps_platfor.Hosts.Ssh.{Paramiko, Host, req_call, run_command, get_sftp_connection}
use distributed_apps_platfor.Hosts.Ssh.Calls.{req_call_lem, req_call-closes}
use distributed_apps_platfor.Hosts.Prep.{Place, db_commands}
use distributed_apps_platfor.Hosts.Prep.Ubuntu
use distributed_apps_platfor.Hosts.Prep.Esx
use distributed_apps_platfor.Hosts.Prep.Cleanup.{
  RaisesValueErrors, after_all, ubuntu_commands, esx_commands, cleanup_node_lem,
}
use distributed_apps_platfor.Hosts.Prep.Firewall.{
  Numbers, leℤ, add_one, service_nums, service_num, service_id, max_of,
}
use distributed_apps_platfor.Hosts.Prep.Firewall.Rule.{Numbered, service_num-above}

-- The state of the host below: whether its channel is open, and the seconds slept.
abbrev World : Type 0
World = Bool × ℕ

-- A host that refuses to connect before a minute has passed, and whose commands say `hi`.
abbrev remote : Paramiko World (Unit {0}) (Unit {0}) String
remote = record {
  connect = λ s. (if s.1 == 60 then ok tt else err connection_error, s);
  close = λ s. s;
  open_session = λ s. if s.1 == 0 then (ok tt, (true, s.1)) else (err connection_error, s);
  open_sftp = λ s. (ok tt, (true, s.1));
  settimeout = λ c t s. (ok tt, s);
  exec_command = λ c cmd s. (ok tt, s);
  recv_exit_status = λ c s. (ok (pos 0), s);
  incoming = λ c s. ok "h" ∷ ok "i" ∷ [];
  incoming_stderr = λ c s. [];
  recv_stderr = λ c s. (ok "", s);
  close_channel = λ c s. (false, s.1);
  put = λ f src dst s. (ok tt, s);
  get = λ f src dst s. (ok tt, s);
  stat_mtime = λ f path s. (ok 7, s);
  remove = λ f path s. (err value_error, s);
  close_sftp = λ f s. (false, s.1);
  sleep = λ s. if s.1 == 30 then (s.0, 60) else (s.0, 30);
  decode = λ chunk. ok chunk;
}

abbrev waiting : World
waiting = (false, 0)

abbrev asleep : World
asleep = (false, 60)

abbrev new_host : Host remote
new_host = record { connected = false; env = waiting }

req_call_lem_example : req_call remote true "ls" none waiting ≡ (ok (some "hi"), waiting)
req_call_lem_example =
    req_call_lem remote true "ls" waiting (true, 0) (true, 0) (true, 0) tt (pos 0) ("h" ∷ "i" ∷ [])
      ("h" ∷ "i" ∷ []) [] refl refl refl refl (refl, refl, (refl, refl, tt)) refl

req_call-closes_example :
    ((req_call remote true "ls" none waiting).1.0 ≡ false)
    × ((run_command remote true "ls" waiting).1.0 ≡ false)
req_call-closes_example =
    req_call-closes remote (λ c s. s.0) (λ c s. refl) true "ls" none waiting (true, 0) tt refl

opened : get_sftp_connection remote waiting ≡ (some tt, (true, 0))
unfolding get_sftp_connection
opened = refl

-- An endpoint that keeps its commands, and on which `rm` fails.
abbrev endpoint : Place (List String)
endpoint = record {
  enter = λ s. append s ("connect" ∷ []);
  leave = λ s. append s ("close" ∷ []);
  req_call = λ cmd t s.
      (if has_text "rm " cmd then err value_error else ok (some ""), append s (cmd ∷ []));
  put_file = λ src dst s. (ok tt, s);
  put_lines = λ lines dst s. (ok tt, s);
  exists = λ path s. true;
  read_lines = λ path s. (ok [], s);
  install_egg = λ s. (ok tt, s);
  get_param = λ key. none;
  data_dir = "/data";
  percent = λ format value. ok format;
}

endpoint-raises : RaisesValueErrors endpoint
endpoint-raises cmd s e h = raised (has_text "rm " cmd) e h
  where
    raised :
        (b : Bool) (e : Error)
        → if◌then◌else◌ {A = Result (Option String)} b (err value_error) (ok (some "")) ≡ err e
        → e ≡ value_error
    raised true e h = cc
    raised false e h = cc

cleanup_node_lem_example :
    (Ubuntu.cleanup_node endpoint true [] ≡ (
      ok true,
      append
          (after_all endpoint db_commands (after_all endpoint ubuntu_commands ("connect" ∷ [])))
          ("close" ∷ []),
    ))
    × (Esx.cleanup_node endpoint true [] ≡ (
      ok true,
      append
          (after_all endpoint db_commands (after_all endpoint esx_commands ("connect" ∷ [])))
          ("close" ∷ []),
    ))
cleanup_node_lem_example = cleanup_node_lem endpoint endpoint-raises true []

-- the numbers of this reply are 3 and 12
abbrev numbers : Numbers
numbers = record {
  int_of = λ s. if s == "0003" then some (pos 3) else if s == "0012" then some (pos 12) else none;
  zfilled = λ n. "0013";
  port_num = ok "5649";
}

abbrev grep_reply : String
grep_reply = "  <service id=\"0012\">\n  <service id=\"0003\" owner=\"x\">\n<service id=>\n"

thirteen : service_num endpoint numbers (some grep_reply) ≡ some (pos 13)
unfolding service_num service_nums service_id max_of splitlines drop_last
thirteen = refl

abbrev second_line : String
second_line = "  <service id=\"0003\" owner=\"x\">"

second_there : contains second_line (splitlines grep_reply) ≡ true
unfolding splitlines
second_there = refl

second_Numbered : Numbered endpoint numbers (pos 3) second_line
unfolding service_id drop_last
second_Numbered = ("0003", refl, refl)

service_num-above_example :
    (leℤ (pos 13) (pos 3) ≡ false)
    × ((last : String) × (k : ℤ) × (contains last (splitlines grep_reply) ≡ true)
        × Numbered endpoint numbers k last
        × (pos 13 ≡ add_one k))
service_num-above_example =
    service_num-above endpoint numbers grep_reply second_line (pos 13) (pos 3) thirteen second_there
      second_Numbered
