-- ===== src/Apps/Config.antt =====
-- `Config` of LYDIAN/lydian/apps/config.py: the parameters of a node, the table that keeps them and
-- the subscribers that are told of a change.
pub mod Constants
pub mod Persist
pub mod Load
pub mod Start
use distributed_apps_platfor.Base.{
  ◌≡◌, String, Bool, true, false, List, [], ◌∷◌, ◌++◌, Option, none, some, Dict, lookup, insert,
  has_key, get_or, contains, keep, not, Value, text, ℤ, Result, ok, err, Error, type_error,
  value_error, if◌then◌else◌, nat_eq, string_eq, pair_eq, ◌==◌,
}
use distributed_apps_platfor.Sql.{Table}

-- The values of parameters, by their Python types; a collection holds texts, and a set stands as
-- the list of its elements.
pub data Param : Type 0 where
  nothing : Param
  bool : Bool → Param
  int : ℤ → Param
  real : String → Param
  str : String → Param
  list tuple set : List String → Param

-- What `json` makes of them.
pub data Json : Type 0 where
  jnull : Json
  jbool : Bool → Json
  jint : ℤ → Json
  jreal jstr : String → Json
  jlist : List String → Json

-- The `json` module, and `int` and `float` on a JSON value.
pub record JsonLib : Type 0 where
  pub dumps : Json → String
  pub loads : String → Option Json
  pub int_of : Json → Result Param
  pub float_of : Json → Result Param
  pub chars_of : String → List String
  pub loads-dumps : (j : Json) → loads (dumps j) ≡ some j
  pub int_of-jint : (z : ℤ) → int_of (jint z) ≡ ok (int z)
  pub float_of-jreal : (r : String) → float_of (jreal r) ≡ ok (real r)

-- `type(val).__name__`
unfoldable pub type_name : Param → String
type_name nothing = "NoneType"
type_name (bool b) = "bool"
type_name (int z) = "int"
type_name (real r) = "float"
type_name (str s) = "str"
type_name (list xs) = "list"
type_name (tuple xs) = "tuple"
type_name (set xs) = "set"

-- a set is turned into a list first, and `json` writes a tuple as a list
unfoldable pub as_json : Param → Json
as_json nothing = jnull
as_json (bool b) = jbool b
as_json (int z) = jint z
as_json (real r) = jreal r
as_json (str s) = jstr s
as_json (list xs) = jlist xs
as_json (tuple xs) = jlist xs
as_json (set xs) = jlist xs

abbrev plain : Json → Param
plain jnull = nothing
plain (jbool b) = bool b
plain (jint z) = int z
plain (jreal r) = real r
plain (jstr s) = str s
plain (jlist xs) = list xs

module _ (lib : JsonLib) where
  -- `tuple(x)` and `set(x)` of a JSON value
  elements : Json → Result (List String)
  elements (jlist xs) = ok xs
  elements (jstr s) = ok (lib.chars_of s)
  elements _ = err type_error

  collected : (List String → Param) → Result (List String) → Result Param
  collected f (ok xs) = ok (f xs)
  collected f (err e) = err e

  -- `True if x == True else False`
  is_true : Json → Bool
  is_true (jbool b) = b
  is_true (jint (ℤ.pos n)) = n == 1
  is_true (jreal r) = r == "1.0"
  is_true _ = false

  cast_to : String → Json → Result Param
  cast_to name j =
      if name == "int"
      then lib.int_of j
      else if name == "float"
      then lib.float_of j
      else if name == "tuple"
      then collected tuple (elements j)
      else if name == "set"
      then collected set (elements j)
      else if name == "bool"
      then ok (bool (is_true j))
      else if name == "NoneType"
      then ok nothing
      else ok (plain j)

  -- `_type_handler`
  unfoldable pub type_handler : Value → Value → Result Param
  unfolding cast_to collected elements is_true
  type_handler (text val) (text name) = elim (lib.loads val) [
    | none ↦ err value_error
    | some j ↦ cast_to name j
  ]
  type_handler (text val) _ = elim (lib.loads val) [
    | none ↦ err value_error
    | some j ↦ ok (plain j)
  ]
  type_handler _ _ = err type_error

-- A subscriber object, by a name for it, and its callback.
abbrev pub Subscriber : Type 0
Subscriber = String × String

module _ (sql : Table) (lib : JsonLib) where
  open sql use {Db, ids, cell, write, update}

  -- `told` lists the callbacks made, each with the parameter, in order.
  pub record Config : Type 0 where
    pub params : Dict String Param
    pub db : Db
    pub subscribers : Dict String (List Subscriber)
    pub told : List (Subscriber × String)

  unfoldable pub get_param : String → Option Param → Config → Option Param
  get_param param default c = elim (lookup param c.params) [ none ↦ default | some v ↦ some v ]

  row_of : Param → Dict String Value
  row_of val = ("value", text (lib.dumps (as_json val))) ∷ ("typename", text (type_name val)) ∷ []

  unfoldable pub persist_param : String → Param → Db → Db
  unfolding row_of
  persist_param param val d =
      if contains param (ids d) then update param (row_of val) d else write param (row_of val) d

  save_params : Dict String Param → Db → Db
  save_params [] d = d
  save_params ((param, val) ∷ params) d = save_params params (persist_param param val d)

  unfoldable pub save_to_db : Config → Config
  unfolding save_params
  save_to_db c = record c { db = save_params c.params c.db }

  tell : String → List Subscriber → List (Subscriber × String)
  tell param [] = []
  tell param (s ∷ ss) = (s, param) ∷ tell param ss

  -- `_notify_subscriber`
  unfoldable pub notify_subscriber : String → Config → Config
  unfolding tell
  notify_subscriber param c = record c {
    told = c.told ++ tell param (get_or (lookup param c.subscribers) []);
  }

  unfoldable pub set_param : String → Param → Bool → Config → Config
  set_param param val write_to_db c =
      let c1 : Config = record c { params = insert param val c.params } in
      if write_to_db
      then notify_subscriber param (record c1 { db = persist_param param val c1.db })
      else c1

  -- `subscribe_notification` for one parameter and a subscriber with the callback: a set of pairs
  unfoldable pub subscribe : Subscriber → String → Config → Config
  subscribe s param c =
      let old = get_or (lookup param c.subscribers) [] in
      if has_key param c.params
      then record c {
        subscribers = insert param (if contains s old then old else old ++ s ∷ []) c.subscribers;
      }
      else c

  unfoldable pub unsubscribe : Subscriber → String → Config → Config
  unsubscribe s param c = elim (lookup param c.subscribers) [
    | none ↦ c
    | some old ↦ record c {
      subscribers = insert param (keep (λ q. not (q == s)) old) c.subscribers;
    }
  ]

  load_rows : Db → List String → Dict String Param → Result (Dict String Param)
  load_rows d [] params = ok params
  load_rows d (key ∷ rest) params =
      elim (type_handler lib (cell d key "value") (cell d key "typename")) [
        | err e ↦ err e
        | ok val ↦ load_rows d rest (insert key val params)
      ]

  unfoldable pub load_from_db : Db → Dict String Param → Result (Dict String Param)
  unfolding load_rows
  load_from_db d params = load_rows d (ids d) params
