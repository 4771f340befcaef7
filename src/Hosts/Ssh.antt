-- ===== src/Hosts/Ssh.antt =====
-- `Host` of LYDIAN/lydian/utils/ssh_host.py: commands and files on a remote host, through paramiko.
pub mod Calls
use distributed_apps_platfor.Base.{
  ◌≡◌, ℕ, zero, suc, String, Bool, true, false, not, List, [], ◌∷◌, Option, none, some, pos, ℤ,
  Result, ok, err, Error, attribute_error, value_error, os_error, if◌then◌else◌, ◌==◌, string_eq,
  nat_eq, negsuc, connection_error, timeout_error,
}
use distributed_apps_platfor.Base.Exec.{Exec, pure, raise, lift, modify, skip, ◌>>=◌, ◌>>◌}
use Prim.Native.String.{◌++◌}

-- What paramiko does, on a state `S` of the connection and of the remote host. `incoming` is what the
-- calls of `recv` on a channel return in turn before the empty chunk at its end, `incoming_stderr`
-- the same of `recv_stderr`.
pub record Paramiko (S Channel Sftp Chunk : Type 0) : Type 0 where
  pub connect : Exec S (Unit {0})
  pub close : S → S
  pub open_session : Exec S Channel
  pub open_sftp : Exec S Sftp
  pub settimeout : Channel → ℕ → Exec S (Unit {0})
  pub exec_command : Channel → String → Exec S (Unit {0})
  pub recv_exit_status : Channel → Exec S ℤ
  pub incoming : Channel → S → List (Result Chunk)
  pub incoming_stderr : Channel → S → List (Result Chunk)
  pub recv_stderr : Channel → Exec S Chunk
  pub close_channel : Channel → S → S
  pub put : Sftp → String → String → Exec S (Unit {0})
  pub get : Sftp → String → String → Exec S (Unit {0})
  pub stat_mtime : Sftp → String → Exec S ℕ
  pub remove : Sftp → String → Exec S (Unit {0})
  pub close_sftp : Sftp → S → S
  -- `time.sleep(CONNECT_RETRY_SLEEP)`
  pub sleep : S → S
  -- `chunk.decode('utf-8')` on Python 3, the chunk itself on Python 2
  pub decode : Chunk → Result String

-- `IOError` is `OSError`, with `ConnectionError` and `TimeoutError` below it.
abbrev pub is_os_error : Error → Bool
is_os_error os_error = true
is_os_error connection_error = true
is_os_error timeout_error = true
is_os_error _ = false

abbrev pub is_zero : ℤ → Bool
is_zero (pos n) = n == 0
is_zero (negsuc n) = false

abbrev pub connect_retry_limit : ℕ
connect_retry_limit = 5

-- `try: body finally: close()`
abbrev pub finally {ℓ κ} : {S : Type ℓ} {A : Type κ} → Exec S A → (S → S) → Exec S A
finally body close s = let (r, s') = body s in (r, close s')

module _ {S Channel Sftp Chunk : Type 0} (ssh : Paramiko S Channel Sftp Chunk) where
  pub record Host : Type 0 where
    pub connected : Bool
    pub env : S

  -- the loop of `ssh_connect`, with this many attempts left
  connect_attempts : ℕ → Host → Host
  connect_attempts zero host = host
  connect_attempts (suc n) host =
      let (r, s) = ssh.connect host.env in
      elim r [
        | ok _ ↦ record { connected = true; env = s }
        | err _ ↦ connect_attempts n (record host { env = ssh.sleep s })
      ]

  unfoldable pub ssh_connect : Host → Host
  unfolding connect_attempts
  ssh_connect = connect_attempts connect_retry_limit

  -- the loop of `get_sftp_connection`
  sftp_attempts : ℕ → S → Option Sftp × S
  sftp_attempts zero s = (none, s)
  sftp_attempts (suc n) s =
      let (r, s') = ssh.open_sftp s in
      elim r [ ok client ↦ (some client, s') | err _ ↦ sftp_attempts n s' ]

  unfoldable pub get_sftp_connection : S → Option Sftp × S
  unfolding sftp_attempts
  get_sftp_connection = sftp_attempts connect_retry_limit

  -- The body of a call on a file, and `sftp_client.close()` after it: both raise on None.
  unfoldable pub with_sftp {ℓ} : {A : Type ℓ} → (Sftp → Exec S A) → Exec S A
  with_sftp body s =
      let (client, s') = get_sftp_connection s in
      elim client [
        | none ↦ (err attribute_error, s')
        | some sftp ↦ finally (body sftp) (ssh.close_sftp sftp) s'
      ]

  unfoldable pub put_file : String → String → Exec S (Unit {0})
  put_file src dst = with_sftp (λ sftp. ssh.put sftp src dst)

  unfoldable pub get_file : String → String → Exec S (Unit {0})
  get_file src dst = with_sftp (λ sftp. ssh.get sftp src dst)

  unfoldable pub check_file_exists : String → Exec S Bool
  check_file_exists path = with_sftp (λ sftp s.
      let (r, s') = ssh.stat_mtime sftp path s in
      elim r [
        | ok mtime ↦ (ok (not (mtime == 0)), s')
        | err e ↦ (if is_os_error e then ok false else err e, s')
      ])

  unfoldable pub delete_file : String → Bool → Exec S (Unit {0})
  delete_file path force = with_sftp (λ sftp s.
      let (r, s') = ssh.remove sftp path s in
      elim r [
        | ok u ↦ (ok u, s')
        | err e ↦ (if is_os_error e then (if force then ok tt else err e) else err e, s')
      ])

  module _ (py3 : Bool) where
    -- The loop of `req_call` that opens a session: on Python 3 an exception has no `message`.
    session_attempts : ℕ → Exec S (Option Channel)
    session_attempts zero s = (ok none, s)
    session_attempts (suc n) s =
        let (r, s') = ssh.open_session s in
        elim r [
          | ok chan ↦ (ok (some chan), s')
          | err _ ↦
              if py3 then (err attribute_error, ssh.sleep s') else session_attempts n (ssh.sleep s')
        ]

    -- the loop that collects the reply
    read_reply : String → List (Result Chunk) → Result String
    read_reply reply [] = ok reply
    read_reply reply (err e ∷ rest) = err e
    read_reply reply (ok chunk ∷ rest) = elim (ssh.decode chunk) [
      | err e ↦ err e
      | ok part ↦ if part == "" then ok reply else read_reply (reply ++ part) rest
    ]

    call_on : String → Option ℕ → Channel → Exec S String
    call_on cmd timeout chan = do
      elim timeout [ none ↦ skip | some t ↦ if t == 0 then skip else ssh.settimeout chan t ]
      ssh.exec_command chan cmd
      status ← ssh.recv_exit_status chan
      if is_zero status
          then (λ s. (read_reply "" (ssh.incoming chan s), s))
          else (do _ ← ssh.recv_stderr chan; raise value_error)

    -- None where no session could be opened
    unfoldable pub req_call : String → Option ℕ → Exec S (Option String)
    unfolding session_attempts call_on read_reply
    req_call cmd timeout = do
      chan ← session_attempts connect_retry_limit
      elim chan [
        | none ↦ pure none
        | some c ↦ (do
          reply ← finally (call_on cmd timeout c) (ssh.close_channel c)
          pure (some reply))
      ]

    -- one of the two loops of `run_command`, which keep the chunks
    read_chunks : List (Result Chunk) → Result (List Chunk)
    read_chunks [] = ok []
    read_chunks (err e ∷ rest) = err e
    read_chunks (ok chunk ∷ rest) =
        let more = read_chunks rest in
        elim (ssh.decode chunk) [
          | err e ↦ err e
          | ok part ↦
              if part == "" then ok [] else elim more [ err e ↦ err e | ok cs ↦ ok (chunk ∷ cs) ]
        ]

    run_on : String → Channel → Exec S (List Chunk × List Chunk)
    run_on cmd chan = do
      ssh.exec_command chan cmd
      _ ← ssh.recv_exit_status chan
      stdout ← (λ s. (read_chunks (ssh.incoming chan s), s))
      stderr ← (λ s. (read_chunks (ssh.incoming_stderr chan s), s))
      pure (stdout, stderr)

    -- what a command writes, whatever its exit status
    unfoldable pub run_command : String → Exec S (List Chunk × List Chunk)
    unfolding run_on read_chunks
    run_command cmd = do chan ← ssh.open_session; finally (run_on cmd chan) (ssh.close_channel chan)

  unfoldable pub close : Host → Host
  close host = record { connected = false; env = ssh.close host.env }

  -- `__enter__`
  unfoldable pub enter : Host → Host
  enter host = if host.connected then host else ssh_connect host

  -- `with Host(...) as host: body`: the host connects where it is made, and again on entry where it
  -- did not; it is closed at the end.
  unfoldable pub with_host {ℓ} : {A : Type ℓ} → Exec S A → Exec S A
  with_host body s =
      let host = enter (ssh_connect (record { connected = false; env = s })) in
      finally body ssh.close host.env
