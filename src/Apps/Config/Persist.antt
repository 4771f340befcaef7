-- ===== src/Apps/Config/Persist.antt =====
-- A parameter that is written to the table comes back with its value and type.
use mathlib.Core.Path.{subst}
use distributed_apps_platfor.Base.{
  ◌≡◌, ◌||◌, refl, ◌∙◌, String, true, false, some, lookup, contains, text, ok, string_eq, pair_eq,
  ◌==◌, ==_refl, arith, Bool-cases, inl, inr,
}
use distributed_apps_platfor.Sql.{Table}
use distributed_apps_platfor.Apps.Config.{
  Param, int, real, Json, JsonLib, type_name, as_json, type_handler, row_of, persist_param,
}

-- Reading back what was written for a parameter gives its value, at its type.
pub type_handler-as_json :
    (lib : JsonLib) (v : Param)
    → type_handler lib (text (lib.dumps (as_json v))) (text (type_name v)) ≡ ok v
unfolding type_handler as_json type_name
type_handler-as_json lib (int z) = ground (arith, lib.loads-dumps (Json.jint z), lib.int_of-jint z)
type_handler-as_json lib (real r) =
    ground (arith, lib.loads-dumps (Json.jreal r), lib.float_of-jreal r)
type_handler-as_json lib v = ground (arith, lib.loads-dumps (as_json v))

module _ (sql : Table) (lib : JsonLib) where
  open sql use {
    Db, ids, cell, stored, write, update, ids-write, ids-update, cell-write, cell-update,
  }

  -- The row of a parameter holds the value `v`.
  pub record Holds (d : Db) (k : String) (v : Param) : Type 0 where
    pub value : cell d k "value" ≡ text (lib.dumps (as_json v))
    pub typename : cell d k "typename" ≡ text (type_name v)

  -- What the table does with texts, and that neither column is its primary key.
  pub record IsConfigTable : Type 0 where
    pub stored-text : (f s : String) → stored f (text s) ≡ text s
    pub value-ne : ("value" == sql.primary) ≡ false
    pub typename-ne : ("typename" == sql.primary) ≡ false

  module _ (h : IsConfigTable) (p : String) (v : Param) (d : Db) where
    persist-cell :
        (f s : String)
        → lookup f (row_of sql lib v) ≡ some (text s)
        → (f == sql.primary) ≡ false
        → cell (persist_param sql lib p v d) p f ≡ text s
    unfolding persist_param
    persist-cell f s e n = elim (Bool-cases (contains p (ids d))) [
      | inl c ↦
          ground
            (arith, c, cell-update p (row_of sql lib v) d p f c n, ==_refl p, e, h.stored-text f s)
      | inr c ↦
          ground
            (arith, c, cell-write p (row_of sql lib v) d p f c n, ==_refl p, e, h.stored-text f s)
    ]

    persist-cell_ne :
        (k f : String)
        → (p == k) ≡ false
        → (f == sql.primary) ≡ false
        → cell (persist_param sql lib p v d) k f ≡ cell d k f
    unfolding persist_param
    persist-cell_ne k f m n = elim (Bool-cases (contains p (ids d))) [
      | inl c ↦ ground (arith, c, m, cell-update p (row_of sql lib v) d k f c n)
      | inr c ↦ ground (arith, c, m, cell-write p (row_of sql lib v) d k f c n)
    ]

    pub persist-ids :
        (k : String)
        → contains k (ids (persist_param sql lib p v d)) ≡ (k == p || contains k (ids d))
    unfolding persist_param
    persist-ids k = elim (Bool-cases (contains p (ids d))) [
      | inl c ↦ ground (arith, c, ids-update p (row_of sql lib v) d k, string_eq.same_iff k p)
      | inr c ↦ ground (arith, c, ids-write p (row_of sql lib v) d k)
    ]

    pub persist-Holds : Holds (persist_param sql lib p v d) p v
    unfolding row_of lookup
    persist-Holds = record {
      value = persist-cell "value" (lib.dumps (as_json v)) refl h.value-ne;
      typename = persist-cell "typename" (type_name v) refl h.typename-ne;
    }

    pub persist-Holds_ne :
        (k : String) (w : Param)
        → (p == k) ≡ false
        → Holds d k w
        → Holds (persist_param sql lib p v d) k w
    persist-Holds_ne k w m o = record {
      value = persist-cell_ne k "value" m h.value-ne ∙ o.value;
      typename = persist-cell_ne k "typename" m h.typename-ne ∙ o.typename;
    }

  -- Every row holds some parameter's value.
  pub record IsLoadable (d : Db) : Type 0 where
    pub at : (k : String) → contains k (ids d) ≡ true → (v : Param) × Holds d k v

  pub persist-IsLoadable :
      (h : IsConfigTable) (p : String) (v : Param) (d : Db)
      → IsLoadable d
      → IsLoadable (persist_param sql lib p v d)
  persist-IsLoadable h p v d l = record {
    at = λ k c. elim (Bool-cases (p == k)) [
      | inl e ↦ (
        v,
        subst (λ j. Holds (persist_param sql lib p v d) j v) ((string_eq.same_iff p k).0 e)
            (persist-Holds h p v d),
      )
      | inr n ↦
          let (w, o) = l.at k (
            ground (
              arith,
              c,
              n,
              persist-ids h p v d k,
              string_eq.same_iff k p,
              string_eq.same_iff p k,
            )) in
          (w, persist-Holds_ne h p v d k w n o)
    ];
  }
