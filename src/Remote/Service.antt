-- ===== src/Remote/Service.antt =====
-- What the service exposes: `LydianService` of LYDIAN/lydian/controller/rpyc_controller.py, `exposify` of
-- LYDIAN/lydian/apps/base.py, and the methods of the apps.
pub mod Methods
use Prim.Native.String.{◌++◌ as join_text}
use text.Mathlib.Text.{starts_with}
use distributed_apps_platfor.Base.{
  ◌≡◌, ℕ, zero, suc, ◌<◌, String, Bool, true, false, not, ◌&&◌, ◌||◌, List, [], ◌∷◌, ◌++◌, Option,
  none, some, Dict, lookup, keys, keep, map, contains, any, Result, ok, err, attribute_error,
  type_error, if◌then◌else◌, ◌==◌, string_eq,
}
use distributed_apps_platfor.Remote.Managers.{Call}

-- A parameter of a method: whether it has to be given.
pub record Param : Type 0 where
  pub name : String
  pub required : Bool

abbrev pub need : String → Param
need name = record { name = name; required = true }

abbrev pub have : String → Param
have name = record { name = name; required = false }

-- The parameters of a method after `self`, those that are given by keyword only, and whether it takes further
-- arguments and further keywords.
pub record Signature : Type 0 where
  pub params : List Param
  pub keywords : List Param
  pub star : Bool
  pub star_star : Bool

abbrev pub takes : List Param → Signature
takes params = record { params = params; keywords = []; star = false; star_star = false }

abbrev pub takes_more : List Param → Signature
takes_more params = record { params = params; keywords = []; star = false; star_star = true }

-- An attribute of a class, in the order of `dir`: a method, or something that cannot be called.
pub data Attribute : Type 0 where
  callable : Signature → Attribute
  other : Attribute

-- the attributes `exposed_...` that `exposify` sets on a class, from those that it has and inherits
unfoldable pub exposify : Dict String Attribute → Dict String Signature
exposify [] = []
exposify ((key, other) ∷ cls) = exposify cls
exposify ((key, callable sig) ∷ cls) =
    let rest = exposify cls in
    if starts_with key "_" then rest else (join_text "exposed_" key, sig) ∷ rest

-- the parameters that the arguments by position leave
unfoldable pub remaining : {A : Type 0} → List A → List Param → List Param
remaining [] params = params
remaining (a ∷ args) [] = []
remaining (a ∷ args) (p ∷ params) = remaining args params

fits : {A : Type 0} → List A → List Param → Bool
fits [] params = true
fits (a ∷ args) [] = false
fits (a ∷ args) (p ∷ params) = fits args params

names : List Param → List String
names params = map (λ (p : Param). p.name) params

-- the keywords are parameters that are left, or the method takes any
known : {A : Type 0} → Bool → Dict String A → List String → Bool
known true kwargs left = true
known false [] left = true
known false ((key, a) ∷ kwargs) left = contains key left && known false kwargs left

given : {A : Type 0} → List Param → Dict String A → Bool
given [] kwargs = true
given (p ∷ left) kwargs = (not p.required || contains p.name (keys kwargs)) && given left kwargs

-- whether a method can be called like this, where no keyword is given twice
unfoldable pub accepts : {A : Type 0} → Signature → List A → Dict String A → Bool
unfolding remaining fits names known given
accepts sig args kwargs =
    let left = remaining args sig.params ++ sig.keywords in
    (sig.star || fits args sig.params)
    && known sig.star_star kwargs (names left)
    && given left kwargs

-- The lookups of rpyc: a name of a served object stands for the attribute `exposed_...`.
unfoldable pub served :
    {A : Type 0} → Dict String (Dict String Signature) → Call A → Result (Unit {0})
served exposed c = elim (lookup (join_text "exposed_" c.app) exposed) [
  | none ↦ err attribute_error
  | some methods ↦ elim (lookup (join_text "exposed_" c.method) methods) [
    | none ↦ err attribute_error
    | some sig ↦ if accepts sig c.args c.kwargs then ok tt else err type_error
  ]
]
