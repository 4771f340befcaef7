-- ===== src/Apps/Console.antt =====
-- `Console` of LYDIAN/lydian/apps/console.py: commands on a node, with a time limit.
use distributed_apps_platfor.Base.{
  ◌≡◌, refl, ℕ, zero, suc, ◌+◌, ◌≤◌, ◌⊎◌, inl, inr, String, Bool, true, false, not, List, Option,
  none, some, is_some, ℤ, Result, ok, err, if◌then◌else◌, ltb, arith, Bool-cases,
}
use distributed_apps_platfor.Base.Exec.{Exec, skip, gets, lift, pure, ◌>>=◌, ◌>>◌}

-- The processes `P` of the subprocess module, on a state `S` of the node, and the clock in seconds.
pub record Subprocess (S P : Type 0) : Type 0 where
  -- `shlex.split`
  pub split : String → Result (List String)
  -- `Popen(args, cwd=cwd)` in a session of its own
  pub popen : List String → Option String → Exec S P
  pub poll : P → S → Option ℤ
  pub kill : P → Exec S (Unit {0})
  -- `communicate()[0].strip().decode('utf-8')`, which waits for the end of the process
  pub communicate : P → Exec S String
  pub returncode : P → S → Option ℤ
  -- `send_signal(SIGINT)`, and `wait(timeout)`
  pub interrupt : P → Exec S (Unit {0})
  pub wait : P → ℕ → Exec S (Unit {0})
  pub clock : S → ℕ
  pub sleep : ℕ → S → S

module _ {S P : Type 0} (os : Subprocess S P) where
  unfoldable pub start_subprocess : String → Option String → Exec S P
  start_subprocess cmnd cwd = do args ← lift (os.split cmnd); os.popen args cwd

  unfoldable pub is_alive : P → S → Bool
  is_alive p s = not (is_some (os.poll p s))

  unfoldable pub ctrl_c : P → Exec S (Unit {0})
  ctrl_c p = do os.interrupt p; os.wait p 1

  unfoldable pub kill_subprocess : P → Bool → Exec S (Unit {0})
  kill_subprocess p close_fds = do
    os.kill p
    elim close_fds [ false ↦ skip | true ↦ (do output ← os.communicate p; skip) ]

  -- the loop of `run_command`, with this many rounds at most; None where these do not suffice
  unfoldable pub wait_until : ℕ → ℕ → P → S → Option S
  unfolding is_alive
  wait_until zero limit p s = none
  wait_until (suc fuel) limit p s =
      let rest = wait_until fuel limit p (os.sleep 1 s) in
      if ltb (os.clock s) limit then if is_alive p s then rest else some s else some s

  -- what comes after the loop
  abbrev pub finish : P → Exec S (Option ℤ × String)
  finish p = do
    stdout_val ← os.communicate p
    code ← gets (os.returncode p)
    pure (code, stdout_val)

  -- `run_command`; None where the rounds do not suffice. A timeout of 0 stands for no limit, as a negative one does.
  unfoldable pub run_command :
      ℕ → String → Option String → ℕ → S → Option (Result (Option ℤ × String) × S)
  run_command fuel cmnd cwd timeout s =
      let (r, s1) = start_subprocess cmnd cwd s in
      elim r [
        | err e ↦ some (err e, s1)
        | ok p ↦ elim timeout [
          | zero ↦ some (finish p s1)
          | suc n ↦ elim (wait_until fuel (os.clock s1 + suc n) p s1) [
            | none ↦ none
            | some s2 ↦ some ((kill_subprocess p false >> finish p) s2)
          ]
        ]
      ]

  wait_until_lem :
      (fuel limit : ℕ) (p : P) (s : S)
      → ((t : S) → os.clock t + 1 ≤ os.clock (os.sleep 1 t))
      → limit ≤ os.clock s + fuel
      → (s' : S) × (wait_until (suc fuel) limit p s ≡ some s')
        × ((is_alive p s' ≡ false) ⊎ (limit ≤ os.clock s'))
  unfolding wait_until
  wait_until_lem zero limit p s tick enough =
      let over : ltb (os.clock s) limit ≡ false = ground (arith, enough) in
      (s, rw (over, wait_until) refl, inr (omega (arith, enough)))
  wait_until_lem (suc fuel) limit p s tick enough = elim (Bool-cases (ltb (os.clock s) limit)) [
    | inr e ↦ (s, rw (e, wait_until) refl, inr (ground (arith, e)))
    | inl e ↦ elim (Bool-cases (is_alive p s)) [
      | inr q ↦ (s, rw (e, q, wait_until) refl, inl q)
      | inl q ↦
          let passed : os.clock s + 1 ≤ os.clock (os.sleep 1 s) = tick s in
          let (s', went, over) =
            wait_until_lem fuel limit p (os.sleep 1 s) tick (ground (arith, passed, enough)) in
          (s', rw (e, q, wait_until) went, over)
    ]
  ]

  -- Where a sleep of a second passes a second at least, a command with a time limit that can be started ends with as
  -- many rounds as the limit has seconds, and one more: its process is killed when it is not alive any more or when the
  -- limit has passed, and then its output is read.
  pub run_command-ends :
      (cmnd : String) (cwd : Option String) (n : ℕ) (s : S) (p : P)
      → ((t : S) → os.clock t + 1 ≤ os.clock (os.sleep 1 t))
      → (start_subprocess cmnd cwd s).0 ≡ ok p
      → (s' : S) × (run_command (suc (suc n)) cmnd cwd (suc n) s
          ≡ some ((kill_subprocess p false >> finish p) s'))
        × ((is_alive p s' ≡ false)
            ⊎ (os.clock (start_subprocess cmnd cwd s).1 + suc n ≤ os.clock s'))
  unfolding run_command
  run_command-ends cmnd cwd n s p tick started =
      let s1 : S = (start_subprocess cmnd cwd s).1 in
      let (s', went, over) = wait_until_lem (suc n) (os.clock s1 + suc n) p s1 tick (omega arith) in
      (s', rw (started, run_command) (rw (went) refl), over)
