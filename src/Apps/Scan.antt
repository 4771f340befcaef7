-- ===== src/Apps/Scan.antt =====
-- `Rapidscan` of LYDIAN/lydian/apps/pentest/rapidscan.py: the runs of a scanner and the reports that it prints.
pub mod Report
pub mod Runs
pub mod Lynis
pub mod Threat
use Prim.Native.String.{◌++◌}
use distributed_apps_platfor.Base.{
  ◌≡◌, ℕ, String, Bool, true, false, not, ◌&&◌, List, [], ◌∷◌, Option, none, some, Dict, lookup,
  insert, has_key, get_or, Result, ok, err, Error, index_error, value_error, key_error,
  unbound_local, assertion_error, ◌>>=◌, if◌then◌else◌, ◌==◌, string_eq, option_eq, has_text,
  split_second, first_word, strip, split_at,
}
use distributed_apps_platfor.Base.Exec
use distributed_apps_platfor.Base.Exec.{Exec}
use distributed_apps_platfor.Base.Patterns.{Piece, one, between, at_least, digit, sub}

-- the escape character, the backspace, and the characters of a spinner
abbrev escape : List ℕ
escape = 27 ∷ []

abbrev backspace : List ℕ
backspace = 8 ∷ []

abbrev spinner : List ℕ
spinner = 92 ∷ 47 ∷ 124 ∷ []

abbrev bracket : List ℕ
bracket = 91 ∷ []

-- `\x1b\[[0-9]{1,2}m`
abbrev colour : List Piece
colour = one escape ∷ one bracket ∷ between 1 2 digit ∷ one (109 ∷ []) ∷ []

-- `[\\/|]*\x08`
abbrev spun : List Piece
spun = at_least 0 spinner ∷ one backspace ∷ []

-- `\x1b\[41m[\\/|]`
abbrev red : List Piece
red = one escape ∷ one bracket ∷ one (52 ∷ []) ∷ one (49 ∷ []) ∷ one (109 ∷ []) ∷ one spinner ∷ []

-- `\x1b\[0m\x08`
abbrev reset : List Piece
reset = one escape ∷ one bracket ∷ one (48 ∷ []) ∷ one (109 ∷ []) ∷ one backspace ∷ []

-- `\x1b[\[FK0-9]+`
abbrev moves : List Piece
moves = one escape ∷ at_least 1 (91 ∷ 70 ∷ 75 ∷ digit) ∷ []

-- the five substitutions that are made in a line
unfoldable pub clean : String → String
clean line =
    sub (moves ∷ []) ""
      (sub (reset ∷ []) "" (sub (red ∷ []) "" (sub (spun ∷ []) "" (sub (colour ∷ []) "" line))))

abbrev pub level : String
level = "Vulnerability Threat Level"

-- The variables of `_parse`; `found` is its state FOUND.
pub record Scan : Type 0 where
  pub found : Bool
  pub tool : String
  pub severity : String
  pub description : String
  pub prev_line : String
  pub vul_info : Dict String (String × String)

-- `prev_line.split('|')[1].split()[0].strip()`
unfoldable pub tool_of : String → Result String
tool_of prev_line = elim (split_second "|" prev_line) [
  | none ↦ err index_error
  | some part ↦ elim (first_word part) [ none ↦ err index_error | some word ↦ ok (strip word) ]
]

-- `severity, description = line.strip().split(' ', 1)`
unfoldable pub verdict_of : String → Result (String × String)
verdict_of line = elim (split_at " " (strip line)) [
  | none ↦ err value_error
  | some parts ↦ ok parts
]

-- the end of a round
unfoldable pub note : String → Scan → Scan
note line s = record s {
  prev_line = line;
  vul_info =
      if not (s.severity == "") && not (s.tool == "")
      then insert s.tool (s.severity, s.description) s.vul_info
      else s.vul_info;
}

-- a round on a line that is not empty, after the substitutions
unfoldable pub parse_clean : String → Scan → Result Scan
parse_clean line s =
    if has_text level line && not s.found
    then (tool_of s.prev_line >>= λ tool. ok (note line (record s { found = true; tool = tool })))
    else if s.found
    then (verdict_of line >>= λ (v : String × String).
        ok (note line (record s { found = false; severity = v.0; description = v.1 })))
    else ok (note line s)

unfoldable pub parse_line : String → Scan → Result Scan
parse_line line s = if line == "" then ok s else parse_clean (clean line) s

unfoldable pub parse_lines : List String → Scan → Result Scan
parse_lines [] s = ok s
parse_lines (line ∷ lines) s = parse_line line s >>= parse_lines lines

abbrev pub new_scan : String → Scan
new_scan first = record {
  found = false;
  tool = "";
  severity = "";
  description = "";
  prev_line = first;
  vul_info = [];
}

-- `_parse`, where `results[0]` of no lines raises
unfoldable pub parse : List String → Result (Dict String (String × String))
parse [] = err index_error
parse (first ∷ lines) = parse_lines lines (new_scan first) >>= λ (s : Scan). ok s.vul_info
