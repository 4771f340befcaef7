-- ===== src/Apps/Config/Start.antt =====
-- How `Config.__init__` of LYDIAN/lydian/apps/config.py sets the parameters: the constants of
-- LYDIAN/lydian/common/consts.py, the lines of a file, and the table.
pub mod Precedence
use text.Mathlib.Text.{starts_with}
use distributed_apps_platfor.Base.{
  ◌≡◌, String, Bool, true, false, not, ◌||◌, List, [], ◌∷◌, Option, none, some, Dict, lookup,
  insert, contains, Result, ok, err, if◌then◌else◌, ◌==◌, string_eq, strip, strip_char, split_at,
}
use distributed_apps_platfor.Sql.{Table}
use distributed_apps_platfor.Apps.Config.{
  Param, bool, str, JsonLib, Config, load_from_db, save_to_db,
}

-- `s.upper()`, `s.isupper()`, and the number of a text, an int where it is integral and a float
-- otherwise: none where `float` or `round` raises a ValueError, and an error where `round` raises another,
-- as it does on an infinite number
pub record TextLib : Type 0 where
  pub upper : String → String
  pub is_upper : String → Bool
  pub number_of : String → Option (Result Param)

abbrev bools : List String
bools = "TRUE" ∷ "FALSE" ∷ []

-- the classes of constants, each with its attributes
abbrev pub Categories : Type 0
Categories = List (Dict String Param)

module _ (texts : TextLib) where
  collect : Dict String Param → Dict String Param → Dict String Param
  collect [] constants = constants
  collect ((key, val) ∷ category) constants = collect category (
      if starts_with key "_" || not (texts.is_upper key)
      then constants
      else insert key val constants)

  -- `get_constants`, on all the categories
  unfoldable pub get_constants : Categories → Dict String Param → Dict String Param
  unfolding collect
  get_constants [] constants = constants
  get_constants (category ∷ categories) constants =
      get_constants categories (collect category constants)

  -- `str(val).upper()` is in `BOOLS` for a text or a Boolean
  abbrev as_default : Param → Param
  as_default (str s) =
      if contains (texts.upper s) bools then bool (texts.upper s == "TRUE") else str s
  as_default p = p

  -- `_set_defaults`
  unfoldable pub set_defaults : Dict String Param → Dict String Param → Dict String Param
  set_defaults [] params = params
  set_defaults ((param, val) ∷ constants) params =
      set_defaults constants (insert param (as_default val) params)

  -- the value of a line of the file
  abbrev line_value : String → Result Param
  line_value val =
      if contains (texts.upper val) bools
      then ok (bool (texts.upper val == "TRUE"))
      else (elim (texts.number_of val) [ none ↦ ok (str val) | some r ↦ r ])

  -- A line, as what it sets: nothing for a comment and for a line without `=`. 34 and 39 are the
  -- codes of the two quotes. Only a ValueError is caught.
  unfoldable pub parse_line : String → Result (Option (String × Param))
  parse_line line =
      let line = strip line in
      if starts_with line "#" then ok none else (elim (split_at "=" line) [
        | none ↦ ok none
        | some (param, val) ↦ elim (line_value (strip_char 39 (strip_char 34 (strip val)))) [
          | err e ↦ err e
          | ok v ↦ ok (some (strip param, v))
        ]
      ])

  read_lines : List String → Dict String Param → Result (Dict String Param)
  read_lines [] params = ok params
  read_lines (line ∷ lines) params = elim (parse_line line) [
    | err e ↦ err e
    | ok o ↦ elim o [
      | none ↦ read_lines lines params
      | some (param, val) ↦ read_lines lines (insert param val params)
    ]
  ]

  -- `_read_config`, where the file is opened and its lines are read: None where it is not found, and an error that goes on
  -- for whatever else that raises
  unfoldable pub read_config :
      (Option Param → Result (Option (List String)))
      → Dict String Param
      → Result (Dict String Param)
  unfolding read_lines
  read_config open_file params = elim (open_file (lookup "LYDIAN_CONFIG" params)) [
    | err e ↦ err e
    | ok file ↦ elim file [ none ↦ ok params | some lines ↦ read_lines lines params ]
  ]

  module _ (sql : Table) (lib : JsonLib) where
    open sql use {Db}

    -- `Config.__init__` on a database file
    unfoldable pub init :
        Categories → (Option Param → Result (Option (List String))) → Db → Result (Config sql lib)
    init categories open_file d =
        let defaults = set_defaults (get_constants categories []) [] in
        elim (read_config open_file defaults) [
          | err e ↦ err e
          | ok configured ↦ elim (load_from_db sql lib d configured) [
            | err e ↦ err e
            | ok params ↦ ok (
                save_to_db sql lib
                  (record { params = params; db = d; subscribers = []; told = [] }))
          ]
        ]
