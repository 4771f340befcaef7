-- ===== src/Hosts/Prep/Cleanup.antt =====
-- What cleaning up a node runs on its host.
use distributed_apps_platfor.Base.{
  ◌≡◌, ◌∙◌, refl, ap, String, Bool, true, false, List, [], ◌∷◌, none, Result, ok, err, Error,
  value_error, if◌then◌else◌, arith, Result-cases, inl, inr,
}
use distributed_apps_platfor.Base.Exec.{bind-then, Exec, pure, skip, for_each, ◌>>◌}
use distributed_apps_platfor.Hosts.Prep.{
  Place, on_host, call, run_ignore_error, cleanup_db, db_commands,
}
use distributed_apps_platfor.Hosts.Prep.Ubuntu
use distributed_apps_platfor.Hosts.Prep.Esx

abbrev pub ubuntu_commands : List String
ubuntu_commands =
    "systemctl stop lydian" ∷ "sudo systemctl disable lydian.service" ∷ "rm /etc/lydian/lydian.conf"
    ∷ "rm /etc/systemd/system/lydian.service" ∷ "rm /var/log/lydian/lydian.log" ∷ "rm lydian.egg"
    ∷ []

abbrev pub esx_commands : List String
esx_commands =
    "/etc/init.d/lydian uninstall" ∷ "rm /etc/lydian/lydian.conf" ∷ "rm /var/log/lydian/lydian.log"
    ∷ "rm lydian.egg" ∷ []

module _ {S : Type 0} (place : Place S) where
  -- the host after these commands, one after the other, whatever each comes to
  abbrev pub after_all : List String → S → S
  after_all [] s = s
  after_all (cmd ∷ cmds) s = after_all cmds (place.req_call cmd none s).1

  -- A command of the host raises nothing but ValueErrors, which tell of its exit status.
  abbrev pub RaisesValueErrors : Type 0
  RaisesValueErrors =
      (cmd : String) (s : S) (e : Error) → (place.req_call cmd none s).0 ≡ err e → e ≡ value_error

  ignored :
      RaisesValueErrors
      → (cmd : String) (s : S)
      → run_ignore_error place cmd s ≡ (ok tt, (place.req_call cmd none s).1)
  unfolding run_ignore_error
  ignored only cmd s = elim (Result-cases (place.req_call cmd none s).0) [
    | inl (a, e) ↦ ground (arith, e)
    | inr (x, e) ↦ ground (arith, e, only cmd s x e)
  ]

  call-after : (cmd : String) (s : S) → (call place cmd s).1 ≡ (place.req_call cmd none s).1
  call-after cmd s = elim (Result-cases (place.req_call cmd none s).0) [
    | inl (a, e) ↦ ground (arith, e)
    | inr (x, e) ↦ ground (arith, e)
  ]

  -- the loop over the files is a loop over commands
  db-cleaned : (s : S) → cleanup_db place s ≡ (ok tt, after_all db_commands s)
  unfolding cleanup_db for_each
  db-cleaned s = simp call-after

  db_part :
      (remove_db : Bool) (s : S)
      → ((if remove_db then cleanup_db place else skip) >> pure true) s
        ≡ (ok true, after_all (if remove_db then db_commands else []) s)
  db_part true s = bind-then (cleanup_db place) (λ _. pure true) s _ tt (db-cleaned s)
  db_part false s = refl

  -- these commands, whose ValueErrors are ignored, and then the rest
  abbrev ignore_each : List String → Exec S Bool → Exec S Bool
  ignore_each [] rest = rest
  ignore_each (cmd ∷ cmds) rest = run_ignore_error place cmd >> ignore_each cmds rest

  ignore_each-runs :
      RaisesValueErrors
      → (cmds : List String) (rest : Exec S Bool) (s : S)
      → ignore_each cmds rest s ≡ rest (after_all cmds s)
  ignore_each-runs only [] rest s = refl
  ignore_each-runs only (cmd ∷ cmds) rest s =
      bind-then (run_ignore_error place cmd) (λ _. ignore_each cmds rest) s _ tt
        (ignored only cmd s)
      ∙ ignore_each-runs only cmds rest (place.req_call cmd none s).1

  -- Where commands raise nothing but ValueErrors, cleaning up a node runs every command of its kind,
  -- and then those for the database files if these are to go, in order and whichever of them fail;
  -- then it closes the host and returns True.
  pub cleanup_node_lem :
      RaisesValueErrors
      → (remove_db : Bool) (s : S)
      → let db = if remove_db then db_commands else [] in
        (Ubuntu.cleanup_node place remove_db s
          ≡ (ok true, place.leave (after_all db (after_all ubuntu_commands (place.enter s)))))
        × (Esx.cleanup_node place remove_db s
            ≡ (ok true, place.leave (after_all db (after_all esx_commands (place.enter s)))))
  unfolding Ubuntu.cleanup_node Esx.cleanup_node on_host
  cleanup_node_lem only remove_db s =
      let t = place.enter s in
      let rest : Exec S Bool = (if remove_db then cleanup_db place else skip) >> pure true in
      (
        ap left (
            ignore_each-runs only ubuntu_commands rest t
            ∙ db_part remove_db (after_all ubuntu_commands t)),
        ap left (
            ignore_each-runs only esx_commands rest t
            ∙ db_part remove_db (after_all esx_commands t)),
      )
    where
      left : Result Bool × S → Result Bool × S
      left (r, u) = (r, place.leave u)
