-- ===== src/Apps/Rules/Load.antt =====
-- What `load_from_db` makes of the rows of the table.
use distributed_apps_platfor.Base.{
  ◌≡◌, refl, sym, ◌⊎◌, inl, inr, String, true, List, [], ◌∷◌, Option, none, some, Dict, lookup,
  insert, contains, null, text, as_key, if◌then◌else◌, ◌==◌, string_eq, option_eq, arith,
  Bool-cases, lookup-insert, All, ==_refl,
}
use distributed_apps_platfor.Sql.{Table}
use distributed_apps_platfor.Traffic.Rule.{Rule, schema, getattr}
use distributed_apps_platfor.Apps.Rules.{
  get, load_fields, load_rows, load_from_db, converted, Casts,
}

All-contains_in :
    (xs ys : List String)
    → ((x : String) → contains x xs ≡ true → contains x ys ≡ true)
    → All (λ x. contains x ys ≡ true) xs
All-contains_in [] ys h = tt
All-contains_in (x ∷ xs) ys h =
    (h x (ground (arith, ==_refl x)), All-contains_in xs ys (λ z c. h z (ground (arith, c))))

All-contains : (xs : List String) → All (λ x. contains x xs ≡ true) xs
All-contains xs = All-contains_in xs xs (λ x c. c)

module _ (sql : Table) where
  open sql use {Db, ids, cell, cell-primary}

  module _ (casts : Casts) where
    lookup-load_fields :
        (d : Db) (k f : String) (fs : List String) (r : Rule)
        → lookup f (load_fields sql casts d k fs r)
          ≡ (if contains f fs then some (converted casts f (cell d k f)) else lookup f r)
    unfolding load_fields
    lookup-load_fields d k f [] r = refl
    lookup-load_fields d k f (g ∷ fs) r =
        let value = converted casts g (cell d k g) in
        ground (
          arith,
          lookup-load_fields d k f fs (insert g value r),
          lookup-insert g f value r,
          string_eq.same_iff f g,
          string_eq.same_iff g f,
        )

    abbrev loaded : Db → String → Rule
    loaded d k = load_fields sql casts d k schema []

    -- the id that a loaded rule has is the key of its row
    loaded-id :
        (d : Db) (k : String)
        → sql.primary ≡ "ruleid"
        → ((s : String) → casts.to_str (text s) ≡ text s)
        → contains k (ids d) ≡ true
        → as_key (getattr "ruleid" (loaded d k) null) ≡ some k
    unfolding converted schema
    loaded-id d k p str c =
        let cell_id : cell d k "ruleid" ≡ text k = rw (← p) (cell-primary d k c) in
        rw (lookup-load_fields, cell_id) (ground (arith, str k, string_eq.same_iff k ""))

    module _ (d : Db) (p : sql.primary ≡ "ruleid")
        (str : (s : String) → casts.to_str (text s) ≡ text s) (j : String) where
      abbrev Loaded : Dict (Option String) Rule → Type 0
      Loaded rules = lookup (some j) rules ≡ some (loaded d j)

      step-Loaded :
          (k : String) (rules : Dict (Option String) Rule)
          → contains k (ids d) ≡ true
          → (Loaded rules ⊎ (k ≡ j))
          → Loaded (insert (as_key (getattr "ruleid" (loaded d k) null)) (loaded d k) rules)
      step-Loaded k rules c (inl h) = rw (loaded-id d k p str c) (
          ground
            (arith, h, string_eq.same_iff k j, lookup-insert (some k) (some j) (loaded d k) rules))
      step-Loaded k rules c (inr e) = rw (loaded-id d k p str c) (
          ground
            (arith, string_eq.same_iff k j, lookup-insert (some k) (some j) (loaded d k) rules))

      load_rows-keeps :
          (ks : List String) (rules : Dict (Option String) Rule)
          → All (λ k. contains k (ids d) ≡ true) ks
          → Loaded rules
          → Loaded (load_rows sql casts d ks rules)
      unfolding load_rows
      load_rows-keeps [] rules a h = h
      load_rows-keeps (k ∷ ks) rules a h =
          load_rows-keeps ks _ a.1 (step-Loaded k rules a.0 (inl h))

      load_rows-covers :
          (ks : List String) (rules : Dict (Option String) Rule)
          → All (λ k. contains k (ids d) ≡ true) ks
          → contains j ks ≡ true
          → Loaded (load_rows sql casts d ks rules)
      unfolding load_rows
      load_rows-covers [] rules a h = cc
      load_rows-covers (k ∷ ks) rules a h = elim (Bool-cases (j == k)) [
        | inl e ↦
            load_rows-keeps ks _ a.1
              (step-Loaded k rules a.0 (inr (sym ((string_eq.same_iff j k).0 e))))
        | inr n ↦ load_rows-covers ks _ a.1 (rw n at h)
      ]

      -- Where the table's key is the rule id and `str` leaves a text as it is, every row is loaded: its
      -- id is cached with a rule that has each attribute of the schema,
      -- converted from its column, and the attributes that are not in the schema are not set.
      pub load_from_db-get :
          (f : String)
          → contains j (ids d) ≡ true
          → (r : Rule) × (get sql j (load_from_db sql casts d) ≡ some r)
            × (lookup f r
                ≡ (if contains f schema then some (converted casts f (cell d j f)) else none))
      unfolding load_from_db get lookup
      load_from_db-get f c = (
        loaded d j,
        load_rows-covers (ids d) [] (All-contains (ids d)) c,
        lookup-load_fields d j f schema [],
      )
