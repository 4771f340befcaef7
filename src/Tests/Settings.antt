-- ===== src/Tests/Settings.antt =====
-- A node that starts on a table with one parameter, a file and the constants.
use distributed_apps_platfor.Base.{
  Result, err, overflow_error, os_error, ◌++◌, ◌≡◌, refl, String, true, false, List, [], ◌∷◌,
  Option, none, some, Dict, lookup, contains, pos, Value, text, ok, if◌then◌else◌, ◌==◌, string_eq,
  arith,
}
use mathlib.Core.Path.{subst}
use distributed_apps_platfor.Apps.Config.{
  Param, int, bool, str, as_json, type_name, Config, set_param, load_from_db,
}
use distributed_apps_platfor.Apps.Config.Persist.{Holds, IsConfigTable, IsLoadable}
use distributed_apps_platfor.Apps.Config.Load.{set_param-load}
use distributed_apps_platfor.Apps.Config.Start.{TextLib, Categories, parse_line, init}
use distributed_apps_platfor.Apps.Config.Start.Precedence.{AllRead, configured, init-precedence}
use distributed_apps_platfor.Apps.Config.Constants.{Platform, get_categories}
use distributed_apps_platfor.Apps.Config.Constants.Numbers.{
  returns, all_numbers, number_variables, get_categories_lem,
}
use distributed_apps_platfor.Tests.Memory.{Rows, memory}
use distributed_apps_platfor.Tests.Json.{json, dumps}

-- every text counts as upper case, one as a number, and one as an infinite one
abbrev texts : TextLib
texts = record {
  upper = λ s. s;
  is_upper = λ s. true;
  number_of = λ s.
      if s == "5650"
      then some (ok (int (pos 5650)))
      else if s == "inf"
      then some (err overflow_error)
      else none;
}

abbrev categories : Categories
categories =
    (("_NAME", str "Lydian Service")
      ∷ ("LYDIAN_PORT", int (pos 5649))
      ∷ ("LYDIAN_CONFIG", str "lydian.conf")
      ∷ [])
    ∷ []

abbrev config_lines : List String
config_lines = "# the port" ∷ "LYDIAN_PORT = 5650" ∷ []

abbrev open_file : Option Param → Result (Option (List String))
open_file p = ok (some config_lines)

-- a file with an infinite number, and a directory in place of the file
abbrev endless : Option Param → Result (Option (List String))
endless p = ok (some (config_lines ++ "TEST_ID = inf" ∷ []))

abbrev directory : Option Param → Result (Option (List String))
directory p = err os_error

config_lines-AllRead : AllRead texts config_lines
unfolding parse_line distributed_apps_platfor.Base.strip distributed_apps_platfor.Base.split_at
    distributed_apps_platfor.Base.strip_char distributed_apps_platfor.Base.rstrip
config_lines-AllRead = ((none, refl), ((some ("LYDIAN_PORT", int (pos 5650)), refl), tt))

-- the table has another port
abbrev port_row : String → Value
port_row f =
    if f == "value" then text (dumps (as_json (int (pos 7)))) else text (type_name (int (pos 7)))

abbrev rows : Rows
rows = ("LYDIAN_PORT", port_row) ∷ []

port-Holds : Holds (memory "param") json rows "LYDIAN_PORT" (int (pos 7))
unfolding lookup
port-Holds = record { value = refl; typename = refl }

rows-IsLoadable : IsLoadable (memory "param") json rows
unfolding lookup
rows-IsLoadable = record {
  at = λ k c. (
    int (pos 7),
    subst (λ j. Holds (memory "param") json rows j (int (pos 7))) (only k c) port-Holds,
  );
}
  where
    only : (k : String) → contains k ("LYDIAN_PORT" ∷ []) ≡ true → "LYDIAN_PORT" ≡ k
    only k c = ground (arith, c, string_eq.same_iff k "LYDIAN_PORT")

init-precedence_example :
    (c : Config (memory "param") json) × (init texts (memory "param") json categories open_file rows
      ≡ ok c)
    × ((k : String) (w : Param)
        → contains k ("LYDIAN_PORT" ∷ []) ≡ true
        → Holds (memory "param") json rows k w
        → lookup k c.params ≡ some w)
    × ((k : String)
        → contains k ("LYDIAN_PORT" ∷ []) ≡ false
        → lookup k c.params ≡ configured texts categories (some config_lines) k)
init-precedence_example =
    init-precedence texts (memory "param") json categories open_file (some config_lines) rows refl
      config_lines-AllRead rows-IsLoadable

abbrev config : Config (memory "param") json
config = record { params = []; db = rows; subscribers = []; told = [] }

memory-IsConfigTable : IsConfigTable (memory "param") json
memory-IsConfigTable = record { stored-text = λ f s. refl; value-ne = refl; typename-ne = refl }

set_param-load_example :
    let d = (set_param (memory "param") json "TEST_ID" (bool true) true config).db in
    (loaded : Dict String Param) × (load_from_db (memory "param") json d [] ≡ ok loaded)
    × (lookup "TEST_ID" loaded ≡ some (bool true))
    × ((k : String) (w : Param)
        → ("TEST_ID" == k) ≡ false
        → contains k ("LYDIAN_PORT" ∷ []) ≡ true
        → Holds (memory "param") json rows k w
        → lookup k loaded ≡ some w)
set_param-load_example =
    set_param-load (memory "param") json memory-IsConfigTable "TEST_ID" (bool true) config []
      rows-IsLoadable

-- a platform on which the port is no number
abbrev platform : Platform
platform = record {
  system = "Linux";
  environ = λ key. if key == "LYDIAN_PORT" then some "http" else none;
  hostname = "h1";
  to_int = λ s. if s == "5650" then some (pos 5650) else none;
}

get_categories_lem_example :
    returns (get_categories platform) ≡ all_numbers platform number_variables
get_categories_lem_example = get_categories_lem platform
