-- ===== src/Apps/Records/Columns.antt =====
-- The row that `TrafficRecorder.write` writes, against the columns of the table.
use distributed_apps_platfor.Base.{
  ◌≡◌, ◌∙◌, refl, ap, sym, String, Bool, false, ◌||◌, List, [], ◌∷◌, ◌++◌, some, Dict, lookup,
  insert, keys, has_key, contains, contains-append, bool, int, pos, string_eq, option_eq, arith,
  ◌==◌,
}
use distributed_apps_platfor.Apps.Records.{Stamped, as_dict, columns_of}
use distributed_apps_platfor.Apps.Podium.Stats.{record_schema}

has_key-keys : {V : Type 0} (k : String) (d : Dict String V) → has_key k d ≡ contains k (keys d)
unfolding lookup
has_key-keys k [] = refl
has_key-keys k ((j, v) ∷ d) =
    ground (arith, has_key-keys k d, string_eq.same_iff j k, string_eq.same_iff k j)

-- the columns that stand in the middle of the record and at the end of the table
abbrev middle : List String
middle =
    "source" ∷ "destination" ∷ "protocol" ∷ "port" ∷ "expected" ∷ "result" ∷ "latency" ∷ "error"
    ∷ []

abbrev after_timestamp : List String
after_timestamp = middle ++ "reqid" ∷ "ruleid" ∷ []

columns_of-keys : (s : Stamped) → keys (columns_of s) ≡ after_timestamp ++ "timestamp" ∷ []
unfolding columns_of as_dict insert record_schema
columns_of-keys s = refl

shuffle : (m a b t : Bool) → (m || (a || (b || (t || false)))) ≡ ((t || (a || (b || false))) || m)
shuffle m a b t = ground arith

schema-timestamp :
    record_schema
    ≡ "timestamp" ∷ "reqid" ∷ "ruleid" ∷ "source" ∷ "destination" ∷ "protocol" ∷ "port" ∷ "expected"
      ∷ "result" ∷ "latency" ∷ "error" ∷ []
unfolding record_schema
schema-timestamp = refl

-- the columns of the record and of the table are the same, in another order
columns-schema :
    (k : String) → contains k (after_timestamp ++ "timestamp" ∷ []) ≡ contains k record_schema
columns-schema k = rw schema-timestamp (
    contains-append k middle ("reqid" ∷ "ruleid" ∷ "timestamp" ∷ [])
    ∙ shuffle (contains k middle) (k == "reqid") (k == "ruleid") (k == "timestamp")
    ∙ sym (contains-append k ("timestamp" ∷ "reqid" ∷ "ruleid" ∷ []) middle))

-- The row that is written of a record has exactly the columns of the table, and, where the record was made of a ping of
-- a rule, the row has the rule's ids, the verdict, and the time of the record.
pub columns_of_lem :
    (s : Stamped) (k : String)
    → (has_key k (columns_of s) ≡ contains k record_schema)
      × (lookup "timestamp" (columns_of s) ≡ some (int (pos s.timestamp)))
      × (lookup "reqid" (columns_of s) ≡ some s.record_of.reqid)
      × (lookup "ruleid" (columns_of s) ≡ some s.record_of.ruleid)
      × (lookup "result" (columns_of s) ≡ some (bool s.record_of.result))
unfolding columns_of as_dict insert record_schema lookup
columns_of_lem s k = (
  has_key-keys k (columns_of s) ∙ ap (contains k) (columns_of-keys s) ∙ columns-schema k,
  refl,
  refl,
  refl,
  refl,
)
