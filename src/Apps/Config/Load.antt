-- ===== src/Apps/Config/Load.antt =====
-- What `load_from_db` makes of the table of parameters.
use distributed_apps_platfor.Base.{
  ◌≡◌, ◌⊎◌, refl, String, true, List, [], ◌∷◌, some, Dict, lookup, insert, lookup-insert, All,
  contains, ok, string_eq, pair_eq, ◌==◌, ==_refl, arith, inl, inr, false, ◌∙◌, Result-cases,
}
use distributed_apps_platfor.Sql.{Table}
use distributed_apps_platfor.Apps.Config.Persist.{
  type_handler-as_json, Holds, IsConfigTable, IsLoadable, persist-IsLoadable, persist-Holds,
  persist-Holds_ne, persist-ids,
}
use distributed_apps_platfor.Apps.Config.{
  Param, JsonLib, type_handler, Config, persist_param, set_param, notify_subscriber, load_rows,
  load_from_db,
}

module _ (sql : Table) (lib : JsonLib) where
  open sql use {Db, ids, cell}

  Holds-value :
      (d : Db) (k : String) (v : Param)
      → Holds sql lib d k v
      → type_handler lib (cell d k "value") (cell d k "typename") ≡ ok v
  Holds-value d k v o = rw (o.value, o.typename) (type_handler-as_json lib v)

  abbrev Held : Db → String → Type 0
  Held d k = (v : Param) × Holds sql lib d k v

  next_row :
      (d : Db) (j k : String) (v w : Param)
      → Holds sql lib d j v
      → Holds sql lib d k w
      → (ks : List String) (params : Dict String Param)
      → (contains k (j ∷ ks) ≡ true) ⊎ (lookup k params ≡ some w)
      → (contains k ks ≡ true) ⊎ (lookup k (insert j v params) ≡ some w)
  next_row d j k v w o q ks params h = ground (
    arith,
    h,
    Holds-value d j v o,
    Holds-value d k w q,
    lookup-insert j k v params,
    string_eq.same_iff j k,
    string_eq.same_iff k j,
  )

  load_rows_lem :
      (d : Db) (ks : List String) (params : Dict String Param)
      → All (Held d) ks
      → (loaded : Dict String Param) × (load_rows sql lib d ks params ≡ ok loaded)
        × ((k : String) (w : Param)
            → Holds sql lib d k w
            → (contains k ks ≡ true) ⊎ (lookup k params ≡ some w)
            → lookup k loaded ≡ some w)
  unfolding load_rows
  load_rows_lem d [] params a = (params, refl, λ k w o h. elim h [ inl c ↦ cc | inr e ↦ e ])
  load_rows_lem d (j ∷ ks) params a =
      let (v, o) = a.0 in
      let (loaded, done, found) = load_rows_lem d ks (insert j v params) a.1 in
      (
        loaded,
        ground (arith, Holds-value d j v o, done),
        λ k w q h. found k w q (next_row d j k v w o q ks params h),
      )

  load-All :
      (d : Db) (xs : List String)
      → ((k : String) → contains k xs ≡ true → Held d k)
      → All (Held d) xs
  load-All d [] h = tt
  load-All d (x ∷ xs) h =
      (h x (ground (arith, ==_refl x)), load-All d xs (λ k c. h k (ground (arith, c))))

  load_rows-others :
      (d : Db) (ks : List String) (params loaded : Dict String Param) (k : String)
      → load_rows sql lib d ks params ≡ ok loaded
      → contains k ks ≡ false
      → lookup k loaded ≡ lookup k params
  unfolding load_rows
  load_rows-others d [] params loaded k h n = ground (arith, h)
  load_rows-others d (j ∷ ks) params loaded k h n =
      elim (Result-cases (type_handler lib (cell d j "value") (cell d j "typename"))) [
        | inl (v, e) ↦
            let rest =
              load_rows-others d ks (insert j v params) loaded k (ground (arith, h, e))
                (ground (arith, n)) in
            rest
            ∙ ground (
              arith,
              n,
              lookup-insert j k v params,
              string_eq.same_iff j k,
              string_eq.same_iff k j,
            )
        | inr (x, e) ↦ absurd (ground (arith, h, e))
      ]

  -- loading a table whose rows can all be read, over these parameters
  pub load_from_db_lem :
      (d : Db) (params : Dict String Param)
      → IsLoadable sql lib d
      → (loaded : Dict String Param) × (load_from_db sql lib d params ≡ ok loaded)
        × ((k : String) (w : Param)
            → contains k (ids d) ≡ true
            → Holds sql lib d k w
            → lookup k loaded ≡ some w)
        × ((k : String) → contains k (ids d) ≡ false → lookup k loaded ≡ lookup k params)
  unfolding load_from_db
  load_from_db_lem d params l =
      let (loaded, done, found) = load_rows_lem d (ids d) params (load-All d (ids d) l.at) in
      (
        loaded,
        done,
        λ k w i o. found k w o (inl i),
        λ k n. load_rows-others d (ids d) params loaded k done n,
      )

  -- After a parameter is set and written, a node that loads its table, over any parameters that it
  -- has by then, gets that value for it, and for every other row the value that it held before.
  pub set_param-load :
      (h : IsConfigTable sql lib) (p : String) (v : Param) (c : Config sql lib)
      (params : Dict String Param)
      → IsLoadable sql lib c.db
      → let d = (set_param sql lib p v true c).db in
        (loaded : Dict String Param) × (load_from_db sql lib d params ≡ ok loaded)
        × (lookup p loaded ≡ some v)
        × ((k : String) (w : Param)
            → (p == k) ≡ false
            → contains k (ids c.db) ≡ true
            → Holds sql lib c.db k w
            → lookup k loaded ≡ some w)
  unfolding set_param notify_subscriber load_from_db
  set_param-load h p v c params l =
      let d = persist_param sql lib p v c.db in
      let (loaded, done, found) =
        load_rows_lem d (ids d) params
          (load-All d (ids d) (persist-IsLoadable sql lib h p v c.db l).at) in
      (
        loaded,
        done,
        found p v (persist-Holds sql lib h p v c.db)
            (inl (ground (arith, persist-ids sql lib h p v c.db p, ==_refl p))),
        λ k w n i o.
            found k w (persist-Holds_ne sql lib h p v c.db k w n o)
              (inl (ground (arith, persist-ids sql lib h p v c.db k, i))),
      )
