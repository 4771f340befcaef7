-- ===== src/Sql.antt =====
-- What the program uses of the sql30 package: one table of a database file whose rows have a text
-- as primary key. The package is not part of the repository, so that a table is a parameter.
use distributed_apps_platfor.Base.{
  ◌≡◌, String, true, false, ◌||◌, ◌&&◌, List, Dict, has_key, lookup, get_or, contains, Value, null,
  text, if◌then◌else◌, ◌==◌, string_eq,
}

pub record Table : Type 1 where
  pub Db : Type 0
  -- the primary keys of `read()`, and the column of a row
  pub ids : Db → List String
  pub cell : Db → String → String → Value
  pub primary : String
  -- what a column of the table gives back for a value that is written to it
  pub stored : String → Value → Value
  -- `write(**columns)`, `update(condition={primary: key}, **columns)`, `delete(primary=key)`
  pub write : String → Dict String Value → Db → Db
  pub update : String → Dict String Value → Db → Db
  pub delete : String → Db → Db
  pub ids-write :
      (k : String) (c : Dict String Value) (d : Db) (j : String)
      → contains j (ids (write k c d)) ≡ (j == k || contains j (ids d))
  pub ids-update :
      (k : String) (c : Dict String Value) (d : Db) (j : String)
      → contains j (ids (update k c d)) ≡ contains j (ids d)
  pub ids-delete :
      (k : String) (d : Db) (j : String)
      → contains j (ids (delete k d)) ≡ (if k == j then false else contains j (ids d))
  -- a new row has the columns given, and NULL in the others
  pub cell-write :
      (k : String) (c : Dict String Value) (d : Db) (j f : String)
      → contains k (ids d) ≡ false
      → (f == primary) ≡ false
      → cell (write k c d) j f
        ≡ (if k == j then stored f (get_or (lookup f c) null) else cell d j f)
  -- an updated row has the columns given, and its old ones
  pub cell-update :
      (k : String) (c : Dict String Value) (d : Db) (j f : String)
      → contains k (ids d) ≡ true
      → (f == primary) ≡ false
      → cell (update k c d) j f
        ≡ (if k == j && has_key f c then stored f (get_or (lookup f c) null) else cell d j f)
  pub cell-delete :
      (k : String) (d : Db) (j f : String) → (k == j) ≡ false → cell (delete k d) j f ≡ cell d j f
  pub cell-primary : (d : Db) (k : String) → contains k (ids d) ≡ true → cell d k primary ≡ text k
