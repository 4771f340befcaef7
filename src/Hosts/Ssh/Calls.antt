-- ===== src/Hosts/Ssh/Calls.antt =====
-- How the connection to a host retries, what a command returns, and that its session is closed.
use mathlib.Core.Path.{subst}
use mathlib.Core.List.{◌++◌ as append}
use Prim.Native.String.{◌++◌}
use text.Mathlib.TextLemmas.{nil-append, append-nil, append_assoc}
use distributed_apps_platfor.Base.{
  ◌≡◌, refl, sym, ap, ◌∙◌, ℕ, zero, suc, ◌<◌, String, Bool, true, false, List, [], ◌∷◌, Option,
  none, some, ℤ, Result, ok, err, Error, attribute_error, value_error, ◌==◌, string_eq, arith,
  concat, Result-cases, Bool-cases, if◌then◌else◌, inl, inr, nat_eq,
}
use distributed_apps_platfor.Base.Exec.{Exec}
use distributed_apps_platfor.Hosts.Ssh.{
  Paramiko, Host, connect_retry_limit, connect_attempts, ssh_connect, finally, session_attempts,
  read_reply, call_on, req_call, run_command, run_on, check_file_exists, delete_file, put_file,
  is_zero, with_sftp, get_sftp_connection,
}

module _ {S Channel Sftp Chunk : Type 0} (ssh : Paramiko S Channel Sftp Chunk) where
  -- `n` attempts to connect fail, each followed by a pause, and lead from `s` to `s'`.
  abbrev pub Fails : ℕ → S → S → Type 0
  Fails zero s s' = s ≡ s'
  Fails (suc n) s s' =
      let (r, s1) = ssh.connect s in ((e : Error) × (r ≡ err e) × Fails n (ssh.sleep s1) s')

  attempts-connect :
      (n m : ℕ) (host : Host ssh) (s s' : S)
      → n < m
      → Fails n host.env s
      → ssh.connect s ≡ (ok tt, s')
      → connect_attempts ssh m host ≡ record { connected = true; env = s' }
  unfolding connect_attempts
  attempts-connect n zero host s s' l h c = absurd (omega (arith, l))
  attempts-connect zero (suc m) host s s' l h c = ground (arith, h, c)
  attempts-connect (suc n) (suc m) host s s' l (e, h, rest) c =
      rw (h, connect_attempts)
        (attempts-connect n m (record host { env = ssh.sleep (ssh.connect host.env).1 }) s s'
          (omega (arith, l)) rest c)

  attempts-fail :
      (n : ℕ) (host : Host ssh) (s : S)
      → Fails n host.env s
      → connect_attempts ssh n host ≡ record host { env = s }
  unfolding connect_attempts
  attempts-fail zero host s h = ap (λ e. record host { env = e }) h
  attempts-fail (suc n) host s (e, h, rest) =
      rw (h, connect_attempts)
        (attempts-fail n (record host { env = ssh.sleep (ssh.connect host.env).1 }) s rest)

  -- A host whose first attempts to connect fail, fewer than the limit, is connected by the next one.
  -- Where as many fail as the limit allows, nothing is raised and the host is as connected as before.
  pub ssh_connect_lem :
      (n : ℕ) (host : Host ssh) (s s' : S)
      → Fails n host.env s
      → (n < connect_retry_limit
          → ssh.connect s ≡ (ok tt, s')
          → ssh_connect ssh host ≡ record { connected = true; env = s' })
        × (n ≡ connect_retry_limit → ssh_connect ssh host ≡ record host { env = s })
  unfolding ssh_connect
  ssh_connect_lem n host s s' h = (
    λ l c. attempts-connect n connect_retry_limit host s s' l h c,
    λ e. attempts-fail connect_retry_limit host s (subst (λ m. Fails m host.env s) e h),
  )

  -- these chunks decode to these texts, none of which is empty
  abbrev pub Reads : List Chunk → List String → Type 0
  Reads [] [] = Unit
  Reads (chunk ∷ chunks) (part ∷ parts) =
      (ssh.decode chunk ≡ ok part) × ((part == "") ≡ false) × Reads chunks parts
  Reads _ _ = ⊥

  -- the reply ends here: nothing more is received, receiving raises, or the next chunk is empty or cannot be decoded
  abbrev pub ends : List (Result Chunk) → Bool
  ends [] = true
  ends (err e ∷ rest) = true
  ends (ok chunk ∷ rest) = elim (ssh.decode chunk) [ err e ↦ true | ok part ↦ part == "" ]

  -- and what its end raises
  abbrev pub ended : List (Result Chunk) → Option Error
  ended [] = none
  ended (err e ∷ rest) = some e
  ended (ok chunk ∷ rest) = elim (ssh.decode chunk) [ err e ↦ some e | ok part ↦ none ]

  abbrev pub received : List Chunk → List (Result Chunk)
  received [] = []
  received (chunk ∷ chunks) = ok chunk ∷ received chunks

  -- what is read of a reply, and what a call returns that reads it
  abbrev pub reply_of : List String → Option Error → Result String
  reply_of parts none = ok (concat parts)
  reply_of parts (some e) = err e

  read_reply-end :
      (py3 : Bool) (reply : String) (rest : List (Result Chunk))
      → ends rest ≡ true
      → read_reply ssh py3 reply rest ≡ (elim (ended rest) [ none ↦ ok reply | some e ↦ err e ])
  unfolding read_reply
  read_reply-end py3 reply [] h = refl
  read_reply-end py3 reply (err e ∷ rest) h = refl
  read_reply-end py3 reply (ok c ∷ rest) h = ground (arith, h)

  read_reply-parts :
      (py3 : Bool) (reply : String) (chunks : List Chunk) (parts : List String)
      (rest : List (Result Chunk))
      → Reads chunks parts
      → read_reply ssh py3 reply (append (received chunks) rest)
        ≡ read_reply ssh py3 (reply ++ concat parts) rest
  unfolding read_reply
  read_reply-parts py3 reply [] [] rest h =
      ap (λ (r : String). read_reply ssh py3 r rest) (sym (append-nil reply))
  read_reply-parts py3 reply (c ∷ chunks) (p ∷ parts) rest (d, n, more) =
      rw (d, n, read_reply)
        (read_reply-parts py3 (reply ++ p) chunks parts rest more
          ∙ ap (λ (r : String). read_reply ssh py3 r rest) (append_assoc reply p (concat parts)))
  read_reply-parts py3 reply (c ∷ chunks) [] rest h = absurd h
  read_reply-parts py3 reply [] (p ∷ parts) rest h = absurd h

  session-opened :
      (py3 : Bool) (s s1 : S) (c : Channel)
      → ssh.open_session s ≡ (ok c, s1)
      → session_attempts ssh py3 connect_retry_limit s ≡ (ok (some c), s1)
  unfolding session_attempts
  session-opened py3 s s1 c h = ground (arith, h)

  req_call-opened :
      (py3 : Bool) (cmd : String) (timeout : Option ℕ) (s s1 : S) (c : Channel)
      → ssh.open_session s ≡ (ok c, s1)
      → req_call ssh py3 cmd timeout s ≡ (
        elim (call_on ssh py3 cmd timeout c s1).0 [ ok reply ↦ ok (some reply) | err e ↦ err e ],
        ssh.close_channel c (call_on ssh py3 cmd timeout c s1).1,
      )
  unfolding req_call
  req_call-opened py3 cmd timeout s s1 c h =
      elim (Result-cases (call_on ssh py3 cmd timeout c s1).0) [
        | inl (a, e) ↦ ground (arith, h, e)
        | inr (x, e) ↦ ground (arith, h, e)
      ]

  call_on-zero :
      (py3 : Bool) (cmd : String) (s1 s2 s3 : S) (c : Channel) (status : ℤ)
      → ssh.exec_command c cmd s1 ≡ (ok tt, s2)
      → ssh.recv_exit_status c s2 ≡ (ok status, s3)
      → is_zero status ≡ true
      → call_on ssh py3 cmd none c s1 ≡ (read_reply ssh py3 "" (ssh.incoming c s3), s3)
  unfolding call_on
  call_on-zero py3 cmd s1 s2 s3 c status run exit z = ground (arith, run, exit, z)

  call_on-other :
      (py3 : Bool) (cmd : String) (s1 s2 s3 : S) (c : Channel) (status : ℤ)
      → ssh.exec_command c cmd s1 ≡ (ok tt, s2)
      → ssh.recv_exit_status c s2 ≡ (ok status, s3)
      → is_zero status ≡ false
      → call_on ssh py3 cmd none c s1 ≡ (
        elim (ssh.recv_stderr c s3).0 [ ok _ ↦ err value_error | err e ↦ err e ],
        (ssh.recv_stderr c s3).1,
      )
  unfolding call_on
  call_on-other py3 cmd s1 s2 s3 c status run exit z =
      elim (Result-cases (ssh.recv_stderr c s3).0) [
        | inl (a, e) ↦ ground (arith, run, exit, z, e)
        | inr (x, e) ↦ ground (arith, run, exit, z, e)
      ]

  whole_reply :
      (py3 : Bool) (chunks : List Chunk) (parts : List String) (rest : List (Result Chunk))
      → Reads chunks parts
      → ends rest ≡ true
      → read_reply ssh py3 "" (append (received chunks) rest) ≡ reply_of parts (ended rest)
  whole_reply py3 chunks parts rest reads over =
      read_reply-parts py3 "" chunks parts rest reads
      ∙ ap (λ (r : String). read_reply ssh py3 r rest) (nil-append (concat parts))
      ∙ read_reply-end py3 (concat parts) rest over
      ∙ either (ended rest)
    where
      either :
          (o : Option Error)
          → (elim o as (λ _. Result String) [ none ↦ ok (concat parts) | some e ↦ err e ])
            ≡ reply_of parts o
      either none = refl
      either (some e) = refl

  -- A call without a time limit whose first session opens, and whose command runs and exits. If it exits with 0, it returns the
  -- texts of the chunks that are received, each decoded by itself, up to the first that is empty, and raises
  -- what receiving or decoding one of them raises, as it does for a chunk that ends inside a character. If it exits with anything else, it
  -- raises a ValueError, or what reading the errors of the command raises, whatever was written. The channel is closed in any case.
  pub req_call_lem :
      (py3 : Bool) (cmd : String) (s s1 s2 s3 : S) (c : Channel) (status : ℤ) (chunks : List Chunk)
      (parts : List String) (rest : List (Result Chunk))
      → ssh.open_session s ≡ (ok c, s1)
      → ssh.exec_command c cmd s1 ≡ (ok tt, s2)
      → ssh.recv_exit_status c s2 ≡ (ok status, s3)
      → ssh.incoming c s3 ≡ append (received chunks) rest
      → Reads chunks parts
      → ends rest ≡ true
      → req_call ssh py3 cmd none s ≡ (
          if is_zero status
          then (
            elim (reply_of parts (ended rest)) [ ok reply ↦ ok (some reply) | err e ↦ err e ],
            ssh.close_channel c s3,
          )
          else (
            elim (ssh.recv_stderr c s3).0 [ ok _ ↦ err value_error | err e ↦ err e ],
            ssh.close_channel c (ssh.recv_stderr c s3).1,
          ))
  req_call_lem py3 cmd s s1 s2 s3 c status chunks parts rest opened run exit given reads over =
      let whole = req_call-opened py3 cmd none s s1 c opened in
      elim (Bool-cases (is_zero status)) [
        | inl z ↦
            let called = call_on-zero py3 cmd s1 s2 s3 c status run exit z in
            rw (z, whole, called, given, whole_reply py3 chunks parts rest reads over) refl
        | inr z ↦
            let called = call_on-other py3 cmd s1 s2 s3 c status run exit z in
            rw (z, whole, called) (ground (arith, Result-cases (ssh.recv_stderr c s3).0))
      ]

  -- On Python 3 a session that cannot be opened is not tried again: reading the `message` of the
  -- exception raises.
  pub req_call-no_session :
      (cmd : String) (timeout : Option ℕ) (s s1 : S) (e : Error)
      → ssh.open_session s ≡ (err e, s1)
      → (req_call ssh true cmd timeout s ≡ (err attribute_error, ssh.sleep s1))
        × (run_command ssh true cmd s ≡ (err e, s1))
  unfolding req_call session_attempts run_command
  req_call-no_session cmd timeout s s1 e h = (ground (arith, h), ground (arith, h))

  run_command-opened :
      (py3 : Bool) (cmd : String) (s s1 : S) (c : Channel)
      → ssh.open_session s ≡ (ok c, s1)
      → run_command ssh py3 cmd s ≡ finally (run_on ssh py3 cmd c) (ssh.close_channel c) s1
  unfolding run_command
  run_command-opened py3 cmd s s1 c h = ground (arith, h)

  -- Where `close_channel` leaves a channel closed, the channel of a command is closed when the call is
  -- over, however it ended, and so is that of `run_command`.
  pub req_call-closes :
      (is_open : Channel → S → Bool)
      → ((c : Channel) (s : S) → is_open c (ssh.close_channel c s) ≡ false)
      → (py3 : Bool) (cmd : String) (timeout : Option ℕ) (s s1 : S) (c : Channel)
      → ssh.open_session s ≡ (ok c, s1)
      → (is_open c (req_call ssh py3 cmd timeout s).1 ≡ false)
        × (is_open c (run_command ssh py3 cmd s).1 ≡ false)
  req_call-closes is_open closes py3 cmd timeout s s1 c h = (
    rw (req_call-opened py3 cmd timeout s s1 c h) (closes c _),
    rw (run_command-opened py3 cmd s s1 c h) (closes c _),
  )

  with_sftp-opened :
      {A : Type 0} (body : Sftp → Exec S A) (s s1 : S) (c : Sftp)
      → get_sftp_connection ssh s ≡ (some c, s1)
      → with_sftp ssh body s ≡ finally (body c) (ssh.close_sftp c) s1
  unfolding with_sftp
  with_sftp-opened body s s1 c h = ground (arith, h)

  -- A call on a file closes its connection where one was opened, whatever the call raises, and
  -- raises where none could be opened.
  pub with_sftp-closes :
      (is_open : Sftp → S → Bool)
      → ((c : Sftp) (s : S) → is_open c (ssh.close_sftp c s) ≡ false)
      → (path : String) (force : Bool) (s s1 : S) (c : Sftp)
      → get_sftp_connection ssh s ≡ (some c, s1)
      → (is_open c (check_file_exists ssh path s).1 ≡ false)
        × (is_open c (delete_file ssh path force s).1 ≡ false)
        × (is_open c (put_file ssh path path s).1 ≡ false)
  unfolding check_file_exists delete_file put_file
  with_sftp-closes is_open closes path force s s1 c h = (closed _, closed _, closed _)
    where
      closed : {A : Type 0} (body : Sftp → Exec S A) → is_open c (with_sftp ssh body s).1 ≡ false
      closed body = rw (with_sftp-opened body s s1 c h) (closes c _)
