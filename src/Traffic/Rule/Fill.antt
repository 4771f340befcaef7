-- ===== src/Traffic/Rule/Fill.antt =====
-- What `fill`, `external` and `as_dict` make of the attributes of a rule.
use mathlib.Core.Path.{subst}
use distributed_apps_platfor.Base.{
  Bool-cases, inl, inr, ◌≡◌, refl, String, Bool, true, false, List, [], ◌∷◌, none, some, lookup,
  insert, keep, lookup-insert, contains, Value, null, text, truthy, if◌then◌else◌, arith, string_eq,
  ◌==◌,
}
use distributed_apps_platfor.Traffic.Rule.{
  Rule, schema, getattr, fill_keys, fill_default, fill, external, as_dict,
}

lookup-fill_keys :
    (ks : List String) (k : String) (r : Rule)
    → lookup k (fill_keys ks r) ≡ (if contains k ks then some (getattr k r null) else lookup k r)
unfolding fill_keys
lookup-fill_keys [] k r = refl
lookup-fill_keys (j ∷ ks) k r = ground (
  arith,
  lookup-fill_keys ks k (insert j (getattr j r null) r),
  lookup-insert j k (getattr j r null) r,
  string_eq.same_iff j k,
  string_eq.same_iff k j,
)

-- What `fill` leaves in the attribute `k` that had the value `v`, or None.
abbrev pub filled : String → Value → Value
filled k v =
    if truthy v
    then v
    else if k == "state"
    then text "ACTIVE"
    else if k == "username"
    then text "root"
    else v

lookup-fill_default :
    (key d k : String) (r : Rule)
    → lookup k (fill_default key d r) ≡ (
        if key == k
        then (if truthy (getattr key r null) then lookup k r else some (text d))
        else lookup k r)
unfolding fill_default
lookup-fill_default key d k r =
    ground (arith, lookup-insert key k (text d) r, string_eq.same_iff key k)

state_in_schema : contains "state" schema ≡ true
unfolding schema
state_in_schema = refl

username_in_schema : contains "username" schema ≡ true
unfolding schema
username_in_schema = refl

ruleset fill_laws = (lookup-fill_default, lookup-fill_keys, state_in_schema, username_in_schema)

lookup-fill_state :
    (r : Rule) → lookup "state" (fill r) ≡ some (filled "state" (getattr "state" r null))
unfolding fill
lookup-fill_state r = simp fill_laws (ground arith)

lookup-fill_username :
    (r : Rule) → lookup "username" (fill r) ≡ some (filled "username" (getattr "username" r null))
unfolding fill
lookup-fill_username r = simp fill_laws (ground arith)

lookup-fill_other :
    (k : String) (r : Rule)
    → ("state" == k) ≡ false
    → ("username" == k) ≡ false
    → lookup k (fill r)
      ≡ (if contains k schema then some (filled k (getattr k r null)) else lookup k r)
unfolding fill
lookup-fill_other k r s u =
    simp (s, u, fill_laws)
      (ground (
        arith,
        string_eq.same_iff "state" k,
        string_eq.same_iff "username" k,
        string_eq.same_iff k "state",
        string_eq.same_iff k "username",
      ))

-- After `fill` every attribute of the schema is set: it keeps its value, or is None where it was
-- missing, but a state that is false is ACTIVE and a user name that is false is root. Every other
-- attribute is as it was.
pub lookup-fill :
    (k : String) (r : Rule)
    → lookup k (fill r)
      ≡ (if contains k schema then some (filled k (getattr k r null)) else lookup k r)
lookup-fill k r = elim (Bool-cases ("state" == k)) [
  | inl s ↦
      subst
        (λ j.
          lookup j (fill r)
          ≡ (if contains j schema then some (filled j (getattr j r null)) else lookup j r))
        ((string_eq.same_iff "state" k).0 s) (rw state_in_schema (lookup-fill_state r))
  | inr s ↦ elim (Bool-cases ("username" == k)) [
    | inl u ↦
        subst
          (λ j.
            lookup j (fill r)
            ≡ (if contains j schema then some (filled j (getattr j r null)) else lookup j r))
          ((string_eq.same_iff "username" k).0 u) (rw username_in_schema (lookup-fill_username r))
    | inr u ↦ lookup-fill_other k r s u
  ]
]

tool_in_schema : contains "tool" schema ≡ true
unfolding schema
tool_in_schema = refl

-- A rule whose tool was never set is for the internal handlers, and after `fill`, which sets the
-- tool to None, it counts as external.
pub fill-external :
    (r : Rule) → lookup "tool" r ≡ none → (external r ≡ false) × (external (fill r) ≡ true)
unfolding external
fill-external r h = (rw h, simp (lookup-fill, h, tool_in_schema))

pub lookup-keep_keys :
    (p : String → Bool) (k : String) (r : Rule)
    → lookup k (keep (λ (e : String × Value). p e.0) r) ≡ (if p k then lookup k r else none)
unfolding lookup
lookup-keep_keys p k [] = ground arith
lookup-keep_keys p k ((j, v) ∷ r) = elim (Bool-cases (j == k)) [
  | inl e ↦
      rw ((string_eq.same_iff j k).0 e)
        (ground (arith, lookup-keep_keys p k r, string_eq.same_iff k k))
  | inr n ↦ ground (arith, lookup-keep_keys p k r, n)
]

-- `as_dict` shows the attributes of the schema, each with its value, and nothing else.
pub lookup-as_dict :
    (k : String) (r : Rule)
    → lookup k (as_dict r) ≡ (if contains k schema then lookup k r else none)
unfolding as_dict
lookup-as_dict k r = lookup-keep_keys (λ j. contains j schema) k r
