-- ===== src/Apps/Scan/Lynis.antt =====
-- `Lynis` of LYDIAN/lydian/apps/pentest/lynis.py: scans by their requests, and the risks that they report.
use distributed_apps_platfor.Base.{
  ◌≡◌, ◌∙◌, refl, ap, String, Bool, true, false, not, ◌&&◌, ◌||◌, List, [], ◌∷◌, Option, none, some,
  Dict, lookup, insert, has_key, contains, keep, Value, text, ok, if◌then◌else◌, string_eq,
  has_text, strip, split_char, set_add, contains-set_add, arith, Bool-cases, inl, inr, Distinct,
}
use distributed_apps_platfor.Base.Exec.{Exec, pure, gets, modify, for_each, ◌>>=◌, ◌>>◌}
use distributed_apps_platfor.Base.Patterns.{Piece, one, between, at_least, digit, sub, replace}
use distributed_apps_platfor.Apps.Console.{Subprocess, start_subprocess, is_alive, kill_subprocess}
use distributed_apps_platfor.Apps.Scan.Runs.{request_id}

-- `s/\x1B\[([0-9]{1,2}(;[0-9]{1,2})?)?[mGK]//g`, by its three ways to read the optional groups
abbrev opening : List Piece → List Piece
opening rest = one (115 ∷ []) ∷ one (47 ∷ []) ∷ one (27 ∷ []) ∷ one (91 ∷ []) ∷ rest

abbrev closing : List Piece
closing = one (109 ∷ 71 ∷ 75 ∷ []) ∷ one (47 ∷ []) ∷ one (47 ∷ []) ∷ one (103 ∷ []) ∷ []

abbrev style_ansi : List (List Piece)
style_ansi =
    opening (between 1 2 digit ∷ one (59 ∷ []) ∷ between 1 2 digit ∷ closing)
    ∷ opening (between 1 2 digit ∷ closing)
    ∷ opening closing
    ∷ []

-- `\[[0-9]+C`
abbrev columns : List Piece
columns = one (91 ∷ []) ∷ at_least 1 digit ∷ one (67 ∷ []) ∷ []

-- a line after its columns are made spaces, and the message of a warning
unfoldable pub spaced : String → String
spaced line = sub (columns ∷ []) " " line

unfoldable pub message_of : String → String
message_of line = strip (replace "-" " " (replace "[ WARNING ]" "" line))

-- the loop of `_parsing_output`
unfoldable pub vulns_of : List String → List String
unfolding spaced message_of
vulns_of [] = []
vulns_of (line ∷ lines) =
    let rest = vulns_of lines in
    if has_text "WARNING" (spaced line) then message_of (spaced line) ∷ rest else rest

unfoldable pub parsing_output : String → List String
parsing_output output = vulns_of (split_char 10 (sub style_ansi "" output))

module _ {S P : Type 0} (os : Subprocess S P) where
  pub record Lynis : Type 0 where
    pub requests : Dict String P
    pub done : List String
    pub env : S

  unfoldable pub on_env {ℓ} : {A : Type ℓ} → Exec S A → Exec Lynis A
  on_env m app = let (r, s) = m app.env in (r, record app { env = s })

  abbrev is_known : Option String → Lynis → Bool
  is_known none app = false
  is_known (some reqid) app = has_key reqid app.requests

  -- `start_scan`
  unfoldable pub start_scan : Option String → String → Exec Lynis (Option String)
  start_scan reqid new = do
    known ← gets (is_known reqid)
    elim known [
      | true ↦ pure none
      | false ↦ (do
        p ← on_env (start_subprocess os "./lynis  audit system -Q" (some "/tmp/lynis"))
        modify (λ app. record app { requests = insert (request_id reqid new) p app.requests })
        pure (some (request_id reqid new)))
    ]

  unfoldable pub is_scan_complete : String → Lynis → Option Bool
  is_scan_complete reqid app = elim (lookup reqid app.requests) [
    | none ↦ none
    | some p ↦ some (not (is_alive os p app.env))
  ]

  unfoldable pub stop_scan : String → Exec Lynis (Unit {0})
  stop_scan reqid app = elim (lookup reqid app.requests) [
    | none ↦ (ok tt, app)
    | some p ↦
        if is_alive os p app.env then on_env (kill_subprocess os p true) app else (ok tt, app)
  ]

  -- the row of a risk
  abbrev pub risk : String → String → String → Dict String Value
  risk host reqid msg =
      ("host", text host)
      ∷ ("tool", text "lynis")
      ∷ ("reqid", text reqid)
      ∷ ("severity", text "HIGH")
      ∷ ("message", text msg)
      ∷ []

  -- `_save_results_to_db` for the process of a request, where `write` is that of the table of risks
  unfoldable pub save_results_to_db :
      (Dict String Value → Exec S (Unit {0})) → String → String → P → Exec S (Unit {0})
  save_results_to_db write host reqid proc = do
    output ← os.communicate proc
    for_each (parsing_output output) (λ msg. write (risk host reqid msg))

-- The loop over the requests in a round of `run`, on whether each scan is complete: what saving raises is logged, and
-- the request is done in any case.
module _ {S P : Type 0} (save : String → P → Exec S (Unit {0})) (complete : String → Bool) where
  unfoldable pub save_each : Dict String P → List String → S → List String × S
  save_each [] done s = (done, s)
  save_each ((reqid, proc) ∷ requests) done s =
      if complete reqid && not (contains reqid done)
      then save_each requests (set_add reqid done) (save reqid proc s).1
      else save_each requests done s

  -- the requests that are saved in a round, in order
  abbrev pub due : Dict String P → List String → Dict String P
  due requests done = keep (λ (p : String × P). complete p.0 && not (contains p.0 done)) requests

  -- the state after they are saved, whatever that raises
  abbrev pub saved : Dict String P → S → S
  saved [] s = s
  saved ((reqid, proc) ∷ requests) s = saved requests (save reqid proc s).1

  due-set_add :
      (requests : Dict String P) (done : List String) (reqid : String)
      → has_key reqid requests ≡ false
      → due requests (set_add reqid done) ≡ due requests done
  unfolding lookup
  due-set_add [] done reqid h = refl
  due-set_add ((j, q) ∷ requests) done reqid h =
      ground (arith, h, contains-set_add j reqid done, due-set_add requests done reqid)

  -- Where no request stands twice, a round saves exactly the complete requests that are not done yet, once and in order, and
  -- afterwards exactly they are done beside the old ones.
  pub save_each_lem :
      (requests : Dict String P) (done : List String) (s : S) (k : String)
      → Distinct requests
      → let (done', s') = save_each requests done s in
        (s' ≡ saved (due requests done) s)
        × (contains k done' ≡ (contains k done || complete k && has_key k requests))
  unfolding save_each lookup
  save_each_lem [] done s k d = (refl, ground arith)
  save_each_lem ((reqid, proc) ∷ requests) done s k d =
      elim (Bool-cases (complete reqid && not (contains reqid done))) [
        | inl e ↦
            let (went, told) =
              save_each_lem requests (set_add reqid done) (save reqid proc s).1 k d.1 in
            (
              rw e (
                  went
                  ∙ ap (λ x. saved x (save reqid proc s).1) (due-set_add requests done reqid d.0)),
              rw e (
                  told
                  ∙ ground (
                    arith,
                    contains-set_add k reqid done,
                    e,
                    string_eq.same_iff k reqid,
                    string_eq.same_iff reqid k,
                  )),
            )
        | inr e ↦
            let (went, told) = save_each_lem requests done s k d.1 in
            (rw e went, rw e (told ∙ ground (arith, e, d.0, string_eq.same_iff reqid k)))
      ]
