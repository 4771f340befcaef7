-- ===== src/Apps/Scan/Runs.antt =====
-- The runs of `Rapidscan` in LYDIAN/lydian/apps/pentest/rapidscan.py by their requests.
use Prim.Native.String.{◌++◌}
use distributed_apps_platfor.Base.{
  ◌≡◌, String, Bool, true, false, not, List, [], ◌∷◌, Option, none, some, Dict, lookup, insert,
  has_key, map, Value, text, ok, err, Error, index_error, key_error, unbound_local, if◌then◌else◌,
  ◌==◌, string_eq, split_char, join_by, lookup-insert_self, arith,
}
use distributed_apps_platfor.Base.Exec.{
  Exec, pure, raise, lift, gets, modify, assert, for_each, ◌>>=◌, ◌>>◌,
}
use distributed_apps_platfor.Apps.Console.{Subprocess, start_subprocess, is_alive, kill_subprocess}
use distributed_apps_platfor.Apps.Scan.{parse}

abbrev words : List String → String
words [] = " "
words (arg ∷ args) = join_by " " (arg ∷ args) ++ " "

-- the command of a run, with its arguments and options
unfoldable pub command : List String → Dict String String → String
command args kwargs =
    "su kali -c \"/home/kali/rapidscan.py "
    ++ words args
    ++ join_by " " (map (λ (p : String × String). "--" ++ p.0 ++ "=" ++ p.1) kwargs)
    ++ "\""

-- the request's own id, or else the fresh one
abbrev pub request_id : Option String → String → String
request_id none new = new
request_id (some reqid) new = if reqid == "" then new else reqid

module _ {S P : Type 0} (os : Subprocess S P) where
  pub record Rapidscan : Type 0 where
    pub requests : Dict String P
    pub targets : Dict String String
    pub env : S

  unfoldable pub on_env {ℓ} : {A : Type ℓ} → Exec S A → Exec Rapidscan A
  on_env m app = let (r, s) = m app.env in (r, record app { env = s })

  abbrev is_known : Option String → Rapidscan → Bool
  is_known none app = false
  is_known (some reqid) app = has_key reqid app.requests

  -- `self.targets[reqid] = args[0]`
  abbrev put_target : String → List String → Exec Rapidscan (Unit {0})
  put_target reqid [] = raise index_error
  put_target reqid (arg ∷ args) =
      modify (λ app. record app { targets = insert reqid arg app.targets })

  -- `start_run`: what the start of the process raises is logged, and then there is no process
  unfoldable pub start_run :
      List String → Option String → Dict String String → String → Exec Rapidscan (Option String)
  start_run args reqid kwargs new app =
      if is_known reqid app
      then (ok none, app)
      else let (r, app') =
          on_env (start_subprocess os (command args kwargs) (some "/home/kali")) app in
        elim r [
          | err e ↦ (err unbound_local, app')
          | ok p ↦
              (do
                modify (λ a. record a { requests = insert (request_id reqid new) p a.requests })
                put_target (request_id reqid new) args
                pure (some (request_id reqid new)))
                app'
        ]

  unfoldable pub is_run_complete : String → Rapidscan → Option Bool
  is_run_complete reqid app = elim (lookup reqid app.requests) [
    | none ↦ none
    | some p ↦ some (not (is_alive os p app.env))
  ]

  unfoldable pub stop_run : String → Exec Rapidscan (Unit {0})
  stop_run reqid app = elim (lookup reqid app.requests) [
    | none ↦ (ok tt, app)
    | some p ↦
        if is_alive os p app.env then on_env (kill_subprocess os p true) app else (ok tt, app)
  ]

  -- the row of a tool
  abbrev pub row : String → String → String × (String × String) → Dict String Value
  row target reqid (tool, (severity, message)) =
      ("host", text target)
      ∷ ("tool", text tool)
      ∷ ("reqid", text reqid)
      ∷ ("severity", text severity)
      ∷ ("message", text message)
      ∷ []

  -- `save_results_to_db`, where `write` is that of the table of the runs
  unfoldable pub save_results_to_db :
      (Dict String Value → Exec S (Unit {0})) → String → Exec Rapidscan (Unit {0})
  save_results_to_db write reqid = do
    proc ← gets (λ (app : Rapidscan). lookup reqid app.requests)
    p ← lift (elim proc [ none ↦ err key_error | some p ↦ ok p ])
    output ← on_env (os.communicate p)
    known ← gets (λ (app : Rapidscan). lookup reqid app.targets)
    target ← lift (elim known [ none ↦ err key_error | some target ↦ ok target ])
    assert (not (target == ""))
    filtered_data ← lift (parse (split_char 10 output))
    on_env (
        for_each filtered_data
          (λ (info : String × (String × String)). write (row target reqid info)))

  -- A run whose process starts is kept under its id with its first argument as the target, and its id is told. Without arguments the
  -- start raises although the process runs and is kept: to save its results then raises too. Where the process does not start,
  -- the start raises and keeps nothing.
  pub start_run_lem :
      (args : List String) (kwargs : Dict String String) (new : String) (app : Rapidscan)
      → let (began, s) = start_subprocess os (command args kwargs) (some "/home/kali") app.env in
        let (r, app') = start_run args none kwargs new app in
        ((e : Error)
          → began ≡ err e
          → (r ≡ err unbound_local) × (app'.requests ≡ app.requests) × (app'.targets ≡ app.targets))
        × ((p : P)
            → began ≡ ok p
            → (lookup new app'.requests ≡ some p)
              × (app'.env ≡ s)
              × (r ≡ elim args [ [] ↦ err index_error | ◌∷◌ arg rest ↦ ok (some new) ])
              × (app'.targets
                  ≡ elim args [ [] ↦ app.targets | ◌∷◌ arg rest ↦ insert new arg app.targets ]))
  unfolding start_run on_env
  start_run_lem [] kwargs new app =
      (λ e h. ground (arith, h), λ p h. ground (arith, h, lookup-insert_self new p app.requests))
  start_run_lem (arg ∷ args) kwargs new app =
      (λ e h. ground (arith, h), λ p h. ground (arith, h, lookup-insert_self new p app.requests))
