-- ===== src/Apps/Rules/Synced.antt =====
-- Every rule that `RulesApp` caches under an id has a row in the table; a rule without an id, or with an empty one, is
-- cached but not saved.
use mathlib.Core.Path.{subst}
use distributed_apps_platfor.Base.{
  ◌≡◌, refl, sym, ◌∙◌, ◌⊎◌, inl, inr, String, true, false, List, [], ◌∷◌, Option, none, some, Dict,
  lookup, insert, has_key, values, contains, Value, null, as_key, ok, err, attribute_error, ◌==◌,
  string_eq, option_eq, arith, Bool-cases, Option-cases, Result-cases, lookup-insert, lookup-remove,
  any, ==_refl,
}
use distributed_apps_platfor.Base.Exec.{modify, for_each, for_each-ok, for_each-err, bind-ok}
use distributed_apps_platfor.Sql.{Table}
use distributed_apps_platfor.Traffic.Rule.{Rule, getattr, active, inactive}
use distributed_apps_platfor.Apps.Rules.{
  RulesApp, with_state, save_row, save_rule, save_rules, save_to_db, cache, add, add_rules,
  delete_rule, delete_rules, set_state, enable, disable, close,
}

-- the id of a rule, or None
abbrev pub id_of : Rule → Option String
id_of r = as_key (getattr "ruleid" r null)

module _ (sql : Table) where
  open sql use {Db, ids, cell, write, update, delete, ids-write, ids-update, ids-delete}

  -- every rule that is cached under an id that is a text, and not empty, has a row
  pub record IsSynced (app : RulesApp sql) : Type 0 where
    pub at :
        (j : String)
        → (j == "") ≡ false
        → has_key (some j) app.rules ≡ true
        → contains j (ids app.db) ≡ true

  save_row-grows :
      (curr : List String) (row : Dict String Value) (o : Option String) (d : Db) (j : String)
      → contains j (ids d) ≡ true
      → contains j (ids (save_row sql curr row o d)) ≡ true
  unfolding save_row
  save_row-grows curr row none d j h = h
  save_row-grows curr row (some k) d j h = elim (Bool-cases (k == "")) [
    | inl e ↦ rw e h
    | inr n ↦ rw n (elim (Bool-cases (contains k curr)) [
      | inl c ↦ rw c (ids-update k row d j ∙ h)
      | inr c ↦ rw c (ids-write k row d j ∙ ground arith)
    ])
  ]

  save_row-covers :
      (curr : List String) (row : Dict String Value) (d : Db) (j : String)
      → (contains j curr ≡ true → contains j (ids d) ≡ true)
      → (j == "") ≡ false
      → contains j (ids (save_row sql curr row (some j) d)) ≡ true
  unfolding save_row
  save_row-covers curr row d j known n = rw n (elim (Bool-cases (contains j curr)) [
    | inl c ↦ rw c (ids-update j row d j ∙ known c)
    | inr c ↦ rw c (ids-write j row d j ∙ ground (arith, ==_refl j))
  ])

  save_rule-grows :
      (curr : List String) (r : Rule) (d : Db) (j : String)
      → contains j (ids d) ≡ true
      → contains j (ids (save_rule sql curr r d)) ≡ true
  unfolding save_rule
  save_rule-grows curr r d j h = save_row-grows curr _ (id_of r) d j h

  save_rule-covers :
      (curr : List String) (r : Rule) (d : Db) (j : String)
      → (contains j curr ≡ true → contains j (ids d) ≡ true)
      → (j == "") ≡ false
      → id_of r ≡ some j
      → contains j (ids (save_rule sql curr r d)) ≡ true
  unfolding save_rule
  save_rule-covers curr r d j known n e = rw e (save_row-covers curr _ d j known n)

  save_rules-grows :
      (curr : List String) (rs : List Rule) (d : Db) (j : String)
      → contains j (ids d) ≡ true
      → contains j (ids (save_rules sql curr rs d)) ≡ true
  unfolding save_rules
  save_rules-grows curr [] d j h = h
  save_rules-grows curr (r ∷ rs) d j h =
      save_rules-grows curr rs (save_rule sql curr r d) j (save_rule-grows curr r d j h)

  save_rules-covers :
      (curr : List String) (rs : List Rule) (d : Db) (j : String)
      → (contains j curr ≡ true → contains j (ids d) ≡ true)
      → (j == "") ≡ false
      → any (λ r. id_of r == some j) rs ≡ true
      → contains j (ids (save_rules sql curr rs d)) ≡ true
  unfolding save_rules
  save_rules-covers curr [] d j known n h = cc
  save_rules-covers curr (r ∷ rs) d j known n h = elim (Bool-cases (id_of r == some j)) [
    | inl e ↦
        save_rules-grows curr rs (save_rule sql curr r d) j
          (save_rule-covers curr r d j known n ((option_eq.same_iff (id_of r) (some j)).0 e))
    | inr e ↦
        save_rules-covers curr rs (save_rule sql curr r d) j
          (λ c. save_rule-grows curr r d j (known c)) n (rw e at h)
  ]

  -- What the cache may hold when all of `rs` have been put into the cache `rules`.
  abbrev Within : Dict (Option String) Rule → List Rule → Dict (Option String) Rule → Type 0
  Within rules rs rules' =
      (j : String)
      → has_key (some j) rules' ≡ true
      → (has_key (some j) rules ≡ true) ⊎ (any (λ r. id_of r == some j) rs ≡ true)

  -- how `add` ends without the table
  add-false-cases :
      (r : Rule) (app : RulesApp sql)
      → (add sql r false app ≡ (err attribute_error, app))
        ⊎ (add sql r false app ≡ (ok tt, record app { rules = insert (id_of r) r app.rules }))
  unfolding add cache
  add-false-cases r app = elim (Option-cases (lookup "ruleid" r)) [
    | inl e ↦ inl (ground arith)
    | inr (v, e) ↦ inr (ground arith)
  ]

  insert-Within :
      (r : Rule) (rules : Dict (Option String) Rule) (j : String)
      → has_key (some j) (insert (id_of r) r rules) ≡ true
      → (has_key (some j) rules ≡ true) ⊎ ((id_of r == some j) ≡ true)
  insert-Within r rules j h = elim (Bool-cases (id_of r == some j)) [
    | inl e ↦ inr e
    | inr n ↦ inl (rw (lookup-insert, n) at h)
  ]

  split_Within :
      (r : Rule) (rs : List Rule) (rules : Dict (Option String) Rule) (j : String)
      → (has_key (some j) (insert (id_of r) r rules) ≡ true)
        ⊎ (any (λ q. id_of q == some j) rs ≡ true)
      → (has_key (some j) rules ≡ true) ⊎ (any (λ q. id_of q == some j) (r ∷ rs) ≡ true)
  split_Within r rs rules j (inl h) = ground (arith, insert-Within r rules j h)
  split_Within r rs rules j (inr h) = inr (ground arith)

  add_each-Within :
      (rs : List Rule) (app : RulesApp sql)
      → (for_each rs (λ r. add sql r false) app).0 ≡ ok tt
      → let app' = (for_each rs (λ r. add sql r false) app).1 in
        (app'.db ≡ app.db) × Within app.rules rs app'.rules
  add_each-Within [] app h = unfold for_each in (refl, λ j k. inl k)
  add_each-Within (r ∷ rs) app h = elim (add-false-cases r app) [
    | inl e ↦ cc (for_each-err r rs (λ r. add sql r false) app app attribute_error e)
    | inr e ↦
        let app1 : RulesApp sql = record app { rules = insert (id_of r) r app.rules } in
        let step = for_each-ok r rs (λ r. add sql r false) app app1 e in
        let ih = add_each-Within rs app1 (rw step at h) in
        rw step (ih.0, λ j k. split_Within r rs app.rules j (ih.1 j k))
  ]

  -- saving the rules that were put into the cache
  saved-IsSynced :
      (rs : List Rule) (app app' : RulesApp sql)
      → (app'.db ≡ app.db) × Within app.rules rs app'.rules
      → IsSynced app
      → IsSynced (record app' { db = save_to_db sql rs app'.db })
  unfolding save_to_db
  saved-IsSynced rs app app' w sync = record { at = λ j n h. covered j n (w.1 j h) }
    where
      covered :
          (j : String)
          → (j == "") ≡ false
          → (has_key (some j) app.rules ≡ true) ⊎ (any (λ r. id_of r == some j) rs ≡ true)
          → contains j (ids (save_rules sql (ids app'.db) rs app'.db)) ≡ true
      covered j n (inl k) = save_rules-grows (ids app'.db) rs app'.db j (rw (w.0) (sync.at j n k))
      covered j n (inr k) = save_rules-covers (ids app'.db) rs app'.db j (λ c. c) n k

  -- Where every cached rule has a row, a batch of rules that does not raise keeps a row for each.
  pub add_rules-IsSynced :
      (rs : List Rule) (app : RulesApp sql)
      → (add_rules sql rs app).0 ≡ ok tt
      → IsSynced app
      → IsSynced (add_rules sql rs app).1
  unfolding add_rules
  add_rules-IsSynced rs app h sync =
      let each = for_each rs (λ r. add sql r false) in
      let save = λ (a : RulesApp sql). record a { db = save_to_db sql rs a.db } in
      elim (Result-cases (each app).0) [
        | inl (tt, e) ↦
            subst (λ p. IsSynced p.1) (sym (bind-ok each (λ _. modify save) app tt e))
              (saved-IsSynced rs app (each app).1 (add_each-Within rs app e) sync)
        | inr (x, e) ↦ cc
      ]

  delete_rule-IsSynced :
      (k : String) (app : RulesApp sql) → IsSynced app → IsSynced (delete_rule sql k app)
  unfolding delete_rule
  delete_rule-IsSynced k app sync = record {
    at = λ j n h.
        rw ids-delete (ground (arith, lookup-remove (some k) (some j) app.rules, sync.at j n));
  }

  set_state-IsSynced :
      (v : Value) (k : String) (app : RulesApp sql)
      → IsSynced app
      → IsSynced (set_state sql v k app)
  unfolding set_state
  set_state-IsSynced v k app sync = elim (Option-cases (lookup (some k) app.rules)) [
    | inl e ↦ rw (e, set_state) sync
    | inr (r, e) ↦
        rw (e, set_state)
          (record {
            at = λ j n h. rw ids-update (
                ground (
                  arith,
                  e,
                  lookup-insert (some k) (some j) (with_state v r) app.rules,
                  sync.at j n,
                  string_eq.same_iff k j,
                ));
          })
  ]

  delete_rules-IsSynced :
      (ks : List String) (app : RulesApp sql) → IsSynced app → IsSynced (delete_rules sql ks app)
  unfolding delete_rules
  delete_rules-IsSynced [] app sync = sync
  delete_rules-IsSynced (k ∷ ks) app sync =
      delete_rules-IsSynced ks (delete_rule sql k app) (delete_rule-IsSynced k app sync)

  close-IsSynced : (app : RulesApp sql) → IsSynced app → IsSynced (close sql app)
  unfolding close
  close-IsSynced app sync = saved-IsSynced (values app.rules) app app (refl, λ j h. inl h) sync

  -- how `add` ends with the table
  pub add-true-cases :
      (r : Rule) (app : RulesApp sql)
      → let app1 : RulesApp sql = record app { db = save_to_db sql (r ∷ []) app.db } in
        (add sql r true app ≡ (err attribute_error, app1))
        ⊎ (add sql r true app ≡ (ok tt, record app1 { rules = insert (id_of r) r app.rules }))
  unfolding add cache
  add-true-cases r app = elim (Option-cases (lookup "ruleid" r)) [
    | inl e ↦ inl (ground arith)
    | inr (v, e) ↦ inr (ground arith)
  ]

  insert-Within_one :
      (r : Rule) (rules : Dict (Option String) Rule)
      → Within rules (r ∷ []) (insert (id_of r) r rules)
  insert-Within_one r rules j h = ground (arith, insert-Within r rules j h)

  add-IsSynced : (r : Rule) (app : RulesApp sql) → IsSynced app → IsSynced (add sql r true app).1
  add-IsSynced r app sync = elim (add-true-cases r app) [
    | inl e ↦ rw e (saved-IsSynced (r ∷ []) app app (refl, λ j h. inl h) sync)
    | inr e ↦
        let rules = insert (id_of r) r app.rules in
        rw e (
          saved-IsSynced (r ∷ []) app (record app { rules = rules })
            (refl, insert-Within_one r app.rules) sync)
  ]

  -- Where every rule that is cached under an id, other than None and the empty text, has a row, adding a rule, also when that
  -- raises, deleting rules, enabling or disabling one, and closing the app all keep a row for every rule that is cached
  -- under such an id. Nothing is said of a rule without an id or with an empty one.
  pub calls-IsSynced :
      (r : Rule) (ks : List String) (k : String) (app : RulesApp sql)
      → IsSynced app
      → IsSynced (add sql r true app).1
        × IsSynced (delete_rules sql ks app)
        × IsSynced (enable sql k app)
        × IsSynced (disable sql k app)
        × IsSynced (close sql app)
  unfolding enable disable
  calls-IsSynced r ks k app sync = (
    add-IsSynced r app sync,
    delete_rules-IsSynced ks app sync,
    set_state-IsSynced active k app sync,
    set_state-IsSynced inactive k app sync,
    close-IsSynced app sync,
  )
