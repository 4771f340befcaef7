-- ===== src/Apps/Rules/Rows.antt =====
-- What the rows of the table hold after a call, and what is loaded from them.
use distributed_apps_platfor.Base.{
  ◌≡◌, refl, ap, ◌∙◌, inl, inr, String, true, false, [], ◌∷◌, none, some, Dict, lookup, insert,
  has_key, get_or, is_some, contains, keep, Value, null, text, is_text, ok, if◌then◌else◌, ◌==◌,
  string_eq, option_eq, arith, Bool-cases, lookup-insert, lookup-insert_self, ==_refl,
}
use distributed_apps_platfor.Sql.{Table}
use distributed_apps_platfor.Traffic.Rule.Fill.{lookup-keep_keys, lookup-as_dict}
use distributed_apps_platfor.Traffic.Rule.{enabled, Rule, schema, as_dict, active, inactive}
use distributed_apps_platfor.Apps.Rules.{
  RulesApp, save_row, save_to_db, cache, add, get, is_enabled, set_state, enable, disable,
}

row_of : Rule → Dict String Value
row_of r = keep (λ (p : String × Value). contains p.0 schema) (as_dict r)

lookup-row_of :
    (f : String) (r : Rule) → lookup f (row_of r) ≡ (if contains f schema then lookup f r else none)
unfolding row_of
lookup-row_of f r =
    lookup-keep_keys (λ j. contains j schema) f (as_dict r) ∙ ground (arith, lookup-as_dict f r)

module _ (sql : Table) where
  open sql use {Db, ids, cell, stored, write, update, delete, cell-write, cell-update, cell-primary}

  save_row-cell :
      (row : Dict String Value) (s : String) (d : Db) (f : String)
      → (s == "") ≡ false
      → has_key f row ≡ true
      → (f == sql.primary) ≡ false
      → cell (save_row sql (ids d) row (some s) d) s f ≡ stored f (get_or (lookup f row) null)
  unfolding save_row
  save_row-cell row s d f n h q = rw n (elim (Bool-cases (contains s (ids d))) [
    | inl c ↦ rw c (cell-update s row d s f c q ∙ ground (arith, h, ==_refl s))
    | inr c ↦ rw c (cell-write s row d s f c q ∙ ground (arith, ==_refl s))
  ])

  save_row-cell_ne :
      (row : Dict String Value) (s : String) (d : Db) (j f : String)
      → (s == j) ≡ false
      → (f == sql.primary) ≡ false
      → cell (save_row sql (ids d) row (some s) d) j f ≡ cell d j f
  unfolding save_row
  save_row-cell_ne row s d j f n q = elim (Bool-cases (s == "")) [
    | inl e ↦ rw e
    | inr e ↦ rw e (elim (Bool-cases (contains s (ids d))) [
      | inl c ↦ rw c (cell-update s row d j f c q ∙ ground (arith, n))
      | inr c ↦ rw c (cell-write s row d j f c q ∙ ground (arith, n))
    ])
  ]

  save_one :
      (r : Rule) (s : String) (d : Db)
      → lookup "ruleid" r ≡ some (text s)
      → save_to_db sql (r ∷ []) d ≡ save_row sql (ids d) (row_of r) (some s) d
  unfolding save_to_db row_of
  save_one r s d h = rw h

  add-eq :
      (r : Rule) (s : String) (app : RulesApp sql)
      → lookup "ruleid" r ≡ some (text s)
      → add sql r true app ≡ (
        ok tt,
        record {
          rules = insert (some s) r app.rules;
          db = save_row sql (ids app.db) (row_of r) (some s) app.db;
        },
      )
  unfolding add cache
  add-eq r s app h = rw (← save_one r s app.db h) (ground (arith, h))

  -- Adding a rule whose id is not empty caches it, writes each attribute of the schema that it has, but the key,
  -- to its row, also over an older row, and leaves every other row alone.
  pub add-row :
      (r : Rule) (s f : String) (app : RulesApp sql)
      → lookup "ruleid" r ≡ some (text s)
      → (s == "") ≡ false
      → contains f schema ≡ true
      → has_key f r ≡ true
      → (f == sql.primary) ≡ false
      → let (result, app') = add sql r true app in
        (result ≡ ok tt)
        × (get sql s app' ≡ some r)
        × (cell app'.db s f ≡ stored f (get_or (lookup f r) null))
        × ((j g : String)
            → (s == j) ≡ false
            → (g == sql.primary) ≡ false
            → cell app'.db j g ≡ cell app.db j g)
  unfolding get
  add-row r s f app h n c k q =
      let inside : lookup f (row_of r) ≡ lookup f r = lookup-row_of f r ∙ ground arith in
      rw (add-eq r s app h) (
        refl,
        lookup-insert_self (some s) r app.rules,
        save_row-cell (row_of r) s app.db f n (ap is_some inside ∙ k) q
            ∙ ap (λ o. stored f (get_or o null)) inside,
        λ j g m p. save_row-cell_ne (row_of r) s app.db j g m p,
      )

  module _ (v : Value) (k : String) (r : Rule) (app : RulesApp sql)
      (h : lookup (some k) app.rules ≡ some r) where
    set_state-eq : set_state sql v k app ≡ record {
      rules = insert (some k) (insert "state" v r) app.rules;
      db = update k (("state", v) ∷ []) app.db;
    }
    unfolding set_state
    set_state-eq = rw (h, set_state)

    set_state-is_enabled : is_enabled sql k (set_state sql v k app) ≡ ok (is_text v "ACTIVE")
    unfolding is_enabled enabled
    set_state-is_enabled = rw set_state-eq (
        ground (
          arith,
          lookup-insert_self (some k) (insert "state" v r) app.rules,
          lookup-insert_self "state" v r,
        ))

    set_state-cell :
        contains k (ids app.db) ≡ true
        → ("state" == sql.primary) ≡ false
        → cell (set_state sql v k app).db k "state" ≡ stored "state" v
    unfolding lookup
    set_state-cell c q =
        rw set_state-eq
          (cell-update k (("state", v) ∷ []) app.db k "state" c q ∙ ground (arith, ==_refl k))

    set_state-get_ne :
        (j : String) → (k == j) ≡ false → get sql j (set_state sql v k app) ≡ get sql j app
    unfolding get
    set_state-get_ne j n =
        rw set_state-eq
          (lookup-insert (some k) (some j) (insert "state" v r) app.rules ∙ ground (arith, n))

  -- For a cached rule that has a row, in a table whose key is not the state, `enable` and `disable` set its state in the cache, so that `is_enabled`
  -- answers it, and in its row, and leave the other cached rules alone.
  pub enable-disable :
      (k : String) (r : Rule) (app : RulesApp sql)
      → lookup (some k) app.rules ≡ some r
      → contains k (ids app.db) ≡ true
      → ("state" == sql.primary) ≡ false
      → (is_enabled sql k (enable sql k app) ≡ ok true)
        × (is_enabled sql k (disable sql k app) ≡ ok false)
        × (cell (enable sql k app).db k "state" ≡ stored "state" active)
        × (cell (disable sql k app).db k "state" ≡ stored "state" inactive)
        × ((j : String)
            → (k == j) ≡ false
            → (get sql j (enable sql k app) ≡ get sql j app)
              × (get sql j (disable sql k app) ≡ get sql j app))
  unfolding enable disable
  enable-disable k r app h c q = (
    set_state-is_enabled active k r app h,
    set_state-is_enabled inactive k r app h,
    set_state-cell active k r app h c q,
    set_state-cell inactive k r app h c q,
    λ j n. (set_state-get_ne active k r app h j n, set_state-get_ne inactive k r app h j n),
  )

  -- The cache after `enable` and `disable` of a cached rule.
  pub enable-disable_rules :
      (k : String) (r : Rule) (app : RulesApp sql)
      → lookup (some k) app.rules ≡ some r
      → ((enable sql k app).rules ≡ insert (some k) (insert "state" active r) app.rules)
        × ((disable sql k app).rules ≡ insert (some k) (insert "state" inactive r) app.rules)
  unfolding enable disable
  enable-disable_rules k r app h = (
    ap (λ a. a.rules) (set_state-eq active k r app h),
    ap (λ a. a.rules) (set_state-eq inactive k r app h),
  )
