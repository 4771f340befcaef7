-- ===== src/Apps/Config/Start/Precedence.antt =====
-- Which of the constants, the file and the table a parameter gets its value from.
use distributed_apps_platfor.Base.{
  ◌≡◌, ◌∙◌, refl, All, Result, err, String, true, false, List, [], ◌∷◌, Option, none, some, Dict,
  lookup, insert, contains, ok, if◌then◌else◌, ◌==◌, string_eq, arith, lookup-insert, Option-cases,
}
use distributed_apps_platfor.Sql.{Table}
use distributed_apps_platfor.Apps.Config.{Param, JsonLib, Config, load_from_db, save_to_db}
use distributed_apps_platfor.Apps.Config.Persist.{Holds, IsLoadable}
use distributed_apps_platfor.Apps.Config.Load.{load_from_db_lem}
use distributed_apps_platfor.Apps.Config.Start.{
  TextLib, Categories, get_constants, set_defaults, parse_line, read_lines, read_config, init,
}

module _ (texts : TextLib) where
  abbrev or_else : Option Param → Option Param → Option Param
  or_else none o = o
  or_else (some v) o = some v

  -- what a line sets a parameter to, where it sets it
  abbrev set_by : String → Result (Option (String × Param)) → Option Param
  set_by k (err e) = none
  set_by k (ok none) = none
  set_by k (ok (some (param, val))) = if param == k then some val else none

  -- the value that the lines set a parameter to last
  abbrev pub file_value : String → List String → Option Param
  file_value k [] = none
  file_value k (line ∷ lines) = or_else (file_value k lines) (set_by k (parse_line texts line))

  -- none of the lines raises
  abbrev pub AllRead : List String → Type 0
  AllRead = All (λ (line : String). (o : Option (String × Param)) × (parse_line texts line ≡ ok o))

  read_lines-last :
      (lines : List String) (params : Dict String Param)
      → AllRead lines
      → (params' : Dict String Param) × (read_lines texts lines params ≡ ok params')
        × ((k : String) → lookup k params' ≡ or_else (file_value k lines) (lookup k params))
  unfolding read_lines
  read_lines-last [] params h = (params, refl, λ k. refl)
  read_lines-last (line ∷ lines) params ((none, e), h) =
      let (params', done, found) = read_lines-last lines params h in
      (
        params',
        ground (arith, e, done),
        λ k. ground (arith, e, found k, Option-cases (file_value k lines)),
      )
  read_lines-last (line ∷ lines) params ((some (param, val), e), h) =
      let (params', done, found) = read_lines-last lines (insert param val params) h in
      (
        params',
        ground (arith, e, done),
        λ k. ground (
          arith,
          e,
          found k,
          Option-cases (file_value k lines),
          lookup-insert param k val params,
        ),
      )

  abbrev pub defaults_of : Categories → Dict String Param
  defaults_of categories = set_defaults texts (get_constants texts categories []) []

  -- the value of the file, where there is one, and of the constants otherwise
  abbrev pub configured : Categories → Option (List String) → String → Option Param
  configured categories none k = lookup k (defaults_of categories)
  configured categories (some lines) k =
      or_else (file_value k lines) (lookup k (defaults_of categories))

  -- the file is not found, or none of its lines raises
  abbrev pub IsRead : Option (List String) → Type 0
  IsRead none = Unit
  IsRead (some lines) = AllRead lines

  read_config-configured :
      (categories : Categories) (open_file : Option Param → Result (Option (List String)))
      (file : Option (List String))
      → open_file (lookup "LYDIAN_CONFIG" (defaults_of categories)) ≡ ok file
      → IsRead file
      → (params : Dict String Param) × (read_config texts open_file (defaults_of categories)
          ≡ ok params)
        × ((k : String) → lookup k params ≡ configured categories file k)
  unfolding read_config
  read_config-configured categories open_file none opened h =
      (defaults_of categories, ground (arith, opened), λ k. refl)
  read_config-configured categories open_file (some lines) opened h =
      let (params, done, found) = read_lines-last lines (defaults_of categories) h in
      (params, ground (arith, opened, done), found)

  module _ (sql : Table) (lib : JsonLib) where
    open sql use {Db, ids, cell}

    init-read :
        (categories : Categories) (open_file : Option Param → Result (Option (List String)))
        (params loaded : Dict String Param) (d : Db)
        → read_config texts open_file (defaults_of categories) ≡ ok params
        → load_from_db sql lib d params ≡ ok loaded
        → init texts sql lib categories open_file d
          ≡ ok
              (save_to_db sql lib (record { params = loaded; db = d; subscribers = []; told = [] }))
    unfolding init
    init-read categories open_file params loaded d read done = ground (arith, read, done)

    -- A node that starts on a database whose rows can all be read, and whose configuration file is not found, or can be read and
    -- has no line that raises: the start does not raise, a parameter of the
    -- table has the value of its row, and any other has the value that the lines of the
    -- configuration file set last, or that of the constants where the file sets none or is not found.
    pub init-precedence :
        (categories : Categories) (open_file : Option Param → Result (Option (List String)))
        (file : Option (List String)) (d : Db)
        → open_file (lookup "LYDIAN_CONFIG" (defaults_of categories)) ≡ ok file
        → IsRead file
        → IsLoadable sql lib d
        → (c : Config sql lib) × (init texts sql lib categories open_file d ≡ ok c)
          × ((k : String) (w : Param)
              → contains k (ids d) ≡ true
              → Holds sql lib d k w
              → lookup k c.params ≡ some w)
          × ((k : String)
              → contains k (ids d) ≡ false
              → lookup k c.params ≡ configured categories file k)
    unfolding save_to_db
    init-precedence categories open_file file d opened h l =
        let (params, read, configured_there) =
          read_config-configured categories open_file file opened h in
        let (loaded, done, found, others) = load_from_db_lem sql lib d params l in
        (
          save_to_db sql lib (record { params = loaded; db = d; subscribers = []; told = [] }),
          init-read categories open_file params loaded d read done,
          found,
          λ k n. others k n ∙ configured_there k,
        )
