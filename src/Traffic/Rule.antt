-- ===== src/Traffic/Rule.antt =====
-- `TrafficRule` of LYDIAN/lydian/traffic/core.py: an object whose attributes are set one by one,
-- as a dict of attributes.
pub mod Fill
use distributed_apps_platfor.Base.{
  ◌≡◌, String, Bool, true, false, not, List, [], ◌∷◌, Option, none, some, Dict, lookup, insert,
  get_or, contains, keep, Value, null, text, truthy, is_text, Result, ok, err, Error,
  attribute_error, ◌>>=◌, if◌then◌else◌, string_eq,
}

abbrev pub Rule : Type 0
Rule = Dict String Value

-- The keys of `TrafficRule.SCHEMA`.
unfoldable pub schema : List String
schema =
    "ruleid" ∷ "reqid" ∷ "src" ∷ "dst" ∷ "protocol" ∷ "port" ∷ "connected" ∷ "sockettimeout"
    ∷ "interval" ∷ "payload" ∷ "packet" ∷ "tries" ∷ "attempts" ∷ "username" ∷ "state" ∷ "src_host"
    ∷ "dst_host" ∷ "purpose" ∷ "target" ∷ "tool" ∷ []

abbrev pub active : Value
active = text "ACTIVE"

abbrev pub inactive : Value
inactive = text "INACTIVE"

-- `getattr(trule, key, default)`
abbrev pub getattr : String → Rule → Value → Value
getattr key r default = get_or (lookup key r) default

-- `trule.key`
abbrev pub attr : String → Rule → Result Value
attr key r = elim (lookup key r) [ none ↦ err attribute_error | some v ↦ ok v ]

pub fill_keys : List String → Rule → Rule
fill_keys [] r = r
fill_keys (key ∷ rest) r = fill_keys rest (insert key (getattr key r null) r)

-- `if not self.key: self.key = default`
unfoldable pub fill_default : String → String → Rule → Rule
fill_default key default r = if truthy (getattr key r null) then r else insert key (text default) r

unfoldable pub fill : Rule → Rule
fill r = fill_default "username" "root" (fill_default "state" "ACTIVE" (fill_keys schema r))

unfoldable pub is_tcp : Rule → Result Bool
is_tcp r = do p ← attr "protocol" r; ok (is_text p "TCP")

unfoldable pub is_udp : Rule → Result Bool
is_udp r = do p ← attr "protocol" r; ok (is_text p "UDP")

unfoldable pub is_http : Rule → Result Bool
is_http r = do p ← attr "protocol" r; ok (is_text p "HTTP")

unfoldable pub enabled : Rule → Result Bool
enabled r = do s ← attr "state" r; ok (is_text s "ACTIVE")

unfoldable pub external : Rule → Bool
external r = not (is_text (getattr "tool" r (text "internal")) "internal")

unfoldable pub as_dict : Rule → Dict String Value
unfolding schema
as_dict r = keep (λ (p : String × Value). contains p.0 schema) r
