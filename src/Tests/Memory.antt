-- ===== src/Tests/Memory.antt =====
-- A table in memory, which meets the laws that the program relies on.
use distributed_apps_platfor.Base.{
  ◌≡◌, refl, String, true, false, ◌||◌, ◌&&◌, [], ◌∷◌, none, some, Dict, lookup, insert, remove,
  keys, has_key, get_or, contains, lookup-insert, lookup-remove, Value, null, text, if◌then◌else◌,
  ◌==◌, string_eq, arith, Option-cases, inl, inr, ==_refl,
}
use distributed_apps_platfor.Sql.{Table}

abbrev pub Rows : Type 0
Rows = Dict String (String → Value)

contains-keys : (k : String) (d : Rows) → contains k (keys d) ≡ has_key k d
unfolding lookup
contains-keys k [] = refl
contains-keys k ((j, r) ∷ d) =
    ground (arith, contains-keys k d, string_eq.same_iff j k, string_eq.same_iff k j)

abbrev pub columns : Dict String Value → String → Value
columns c f = get_or (lookup f c) null

abbrev pub update_row : Dict String Value → (String → Value) → String → Value
update_row c old f = if has_key f c then columns c f else old f

module _ (primary : String) where
  abbrev pub cell : Rows → String → String → Value
  cell d k f = elim (lookup k d) [ none ↦ null | some row ↦ if f == primary then text k else row f ]

  abbrev pub update_rows : String → Dict String Value → Rows → Rows
  update_rows k c d = elim (lookup k d) [ none ↦ d | some row ↦ insert k (update_row c row) d ]

  pub ids-write :
      (k : String) (c : Dict String Value) (d : Rows) (j : String)
      → contains j (keys (insert k (columns c) d)) ≡ (j == k || contains j (keys d))
  ids-write k c d j = simp contains-keys (
      ground
        (arith, lookup-insert k j (columns c) d, string_eq.same_iff j k, string_eq.same_iff k j))

  pub ids-update :
      (k : String) (c : Dict String Value) (d : Rows) (j : String)
      → contains j (keys (update_rows k c d)) ≡ contains j (keys d)
  ids-update k c d j = simp contains-keys (elim (Option-cases (lookup k d)) [
    | inl e ↦ ground (arith, e)
    | inr (row, e) ↦
        ground (arith, e, lookup-insert k j (update_row c row) d, string_eq.same_iff k j)
  ])

  pub ids-delete :
      (k : String) (d : Rows) (j : String)
      → contains j (keys (remove k d)) ≡ (if k == j then false else contains j (keys d))
  ids-delete k d j = simp contains-keys (ground (arith, lookup-remove k j d))

  pub cell-write :
      (k : String) (c : Dict String Value) (d : Rows) (j f : String)
      → contains k (keys d) ≡ false
      → (f == primary) ≡ false
      → cell (insert k (columns c) d) j f ≡ (if k == j then columns c f else cell d j f)
  cell-write k c d j f h n = ground (arith, lookup-insert k j (columns c) d, n)

  pub cell-update :
      (k : String) (c : Dict String Value) (d : Rows) (j f : String)
      → contains k (keys d) ≡ true
      → (f == primary) ≡ false
      → cell (update_rows k c d) j f ≡ (if k == j && has_key f c then columns c f else cell d j f)
  cell-update k c d j f h n = elim (Option-cases (lookup k d)) [
    | inl e ↦ absurd (ground (arith, contains-keys k d, e))
    | inr (row, e) ↦
        ground (arith, e, n, lookup-insert k j (update_row c row) d, string_eq.same_iff k j)
  ]

  pub cell-delete :
      (k : String) (d : Rows) (j f : String) → (k == j) ≡ false → cell (remove k d) j f ≡ cell d j f
  cell-delete k d j f n = ground (arith, lookup-remove k j d, n)

  pub cell-primary :
      (d : Rows) (k : String) → contains k (keys d) ≡ true → cell d k primary ≡ text k
  cell-primary d k h =
      ground (arith, contains-keys k d, ==_refl primary, Option-cases (lookup k d), h)

  abbrev pub memory : Table
  memory = record {
    Db = Rows;
    ids = keys;
    cell = cell;
    primary = primary;
    stored = λ f v. v;
    write = λ k c d. insert k (columns c) d;
    update = update_rows;
    delete = remove;
    ids-write = ids-write;
    ids-update = ids-update;
    ids-delete = ids-delete;
    cell-write = cell-write;
    cell-update = cell-update;
    cell-delete = cell-delete;
    cell-primary = cell-primary;
  }
