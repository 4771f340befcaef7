-- ===== src/Base/Values.antt =====
-- The Python values that the program stores, and the exceptions that it raises.
use Prim.Native.Nat.{ℕ, zero}
use Prim.Native.String.{String}
use mathlib.Core.Path.{◌≡◌, refl}
use mathlib.Core.Bool.{Bool, true, false, not, ◌&&◌}
use mathlib.Core.Option.{Option, none, some}
use mathlib.Core.Logic.{◌⊎◌, inl, inr}
use distributed_apps_platfor.Base.Tests.{◌==◌, nat_eq, string_eq}

-- `negsuc n` is -(n + 1).
pub data ℤ : Type 0 where
  pos : ℕ → ℤ
  negsuc : ℕ → ℤ

-- The `HOST_TYPE` of `Target`.
pub data HostType : Type 0 where
  posix namespace container winvm : HostType

-- A `Target`: the host, namespace or container that an endpoint belongs to.
pub record Target : Type 0 where
  pub name : Option String
  pub ip : Option String
  pub target_type : HostType

-- A float stands as its `repr`, which the program only stores and passes on.
pub data Value : Type 0 where
  null : Value
  bool : Bool → Value
  int : ℤ → Value
  real : String → Value
  text : String → Value
  target : Target → Value

-- `bool(v)`
abbrev pub truthy : Value → Bool
truthy null = false
truthy (bool b) = b
truthy (int (pos zero)) = false
truthy (int _) = true
truthy (real r) = not (r == "0.0") && not (r == "-0.0")
truthy (text s) = not (s == "")
truthy (target t) = true

-- `v == s` for a text `s`
abbrev pub is_text : Value → String → Bool
is_text (text t) s = t == s
is_text _ s = false

-- `v in [1, '1']`: Python's `True` and `1.0` are equal to `1`.
abbrev pub is_one : Value → Bool
is_one (bool b) = b
is_one (int (pos n)) = n == 1
is_one (real r) = r == "1.0"
is_one (text s) = s == "1"
is_one _ = false

-- A dictionary key: a text, or `None` for what is no text.
abbrev pub as_key : Value → Option String
as_key (text s) = some s
as_key _ = none

pub data Error : Type 0 where
  attribute_error key_error index_error assertion_error : Error
  type_error value_error unbound_local not_implemented : Error
  runtime_error connection_error timeout_error rerun_error os_error overflow_error : Error

pub data Result {ℓ} (A : Type ℓ) : Type ℓ where
  ok : A → Result A
  err : Error → Result A

infixl 5 ◌>>=◌
abbrev pub ◌>>=◌ {ℓ κ} : {A : Type ℓ} {B : Type κ} → Result A → (A → Result B) → Result B
ok a >>= f = f a
err e >>= f = err e

pub Result-cases {ℓ} :
    {A : Type ℓ} (r : Result A) → ((a : A) × (r ≡ ok a)) ⊎ ((e : Error) × (r ≡ err e))
Result-cases (ok a) = inl (a, refl)
Result-cases (err e) = inr (e, refl)
