-- ===== src/Tests/Json.antt =====
-- A way to write JSON values as texts and to read them, which meets the laws of the json module that the
-- configuration relies on, and a node that starts on a table with one parameter.
use Prim.Native.Char.{Char, char, code}
use distributed_apps_platfor.Base.{
  ◌≡◌, ◌∙◌, refl, ap, ℕ, zero, suc, String, true, false, List, [], ◌∷◌, Option, none, some, pos,
  negsuc, Result, ok, err, value_error, if◌then◌else◌, ◌==◌, nat_eq, string_eq, option_eq,
}
use distributed_apps_platfor.Apps.Config.{Param, Json, JsonLib}

-- `n` marks, before `rest`
abbrev marks : ℕ → String
marks zero = String.[]
marks (suc n) = String.◌∷◌ (char 97 tt) (marks n)

abbrev count_of : String → ℕ
count_of String.[] = 0
count_of (String.◌∷◌ c s) = suc (count_of s)

count_of-marks : (n : ℕ) → count_of (marks n) ≡ n
count_of-marks zero = refl
count_of-marks (suc n) = ap suc (count_of-marks n)

-- each character of a word behind a 99, and a pair that starts with a 101 at its end
abbrev word : String → String → String
word String.[] rest = String.◌∷◌ (char 101 tt) (String.◌∷◌ (char 101 tt) rest)
word (String.◌∷◌ c s) rest = String.◌∷◌ (char 99 tt) (String.◌∷◌ c (word s rest))

abbrev words : List String → String
words [] = String.[]
words (x ∷ xs) = word x (words xs)

-- a character in front of the first word of a list
abbrev onto : Char → List String → List String
onto c [] = []
onto c (x ∷ xs) = String.◌∷◌ c x ∷ xs

abbrev words_of : String → List String
words_of String.[] = []
words_of (String.◌∷◌ k String.[]) = []
words_of (String.◌∷◌ k (String.◌∷◌ c s)) =
    let rest = words_of s in if code k == 101 then String.[] ∷ rest else onto c rest

words_of-word : (x rest : String) → words_of (word x rest) ≡ x ∷ words_of rest
words_of-word String.[] rest = refl
words_of-word (String.◌∷◌ c s) rest = ap (onto c) (words_of-word s rest)

words_of-words : (xs : List String) → words_of (words xs) ≡ xs
words_of-words [] = refl
words_of-words (x ∷ xs) = words_of-word x (words xs) ∙ ap (λ ys. x ∷ ys) (words_of-words xs)

abbrev pub dumps : Json → String
dumps Json.jnull = String.◌∷◌ (char 110 tt) String.[]
dumps (Json.jbool true) = String.◌∷◌ (char 116 tt) String.[]
dumps (Json.jbool false) = String.◌∷◌ (char 102 tt) String.[]
dumps (Json.jint (pos n)) = String.◌∷◌ (char 112 tt) (marks n)
dumps (Json.jint (negsuc n)) = String.◌∷◌ (char 109 tt) (marks n)
dumps (Json.jreal r) = String.◌∷◌ (char 114 tt) r
dumps (Json.jstr s) = String.◌∷◌ (char 115 tt) s
dumps (Json.jlist xs) = String.◌∷◌ (char 108 tt) (words xs)

abbrev by_tag : ℕ → String → Option Json
by_tag tag s =
    if tag == 110
    then some Json.jnull
    else if tag == 116
    then some (Json.jbool true)
    else if tag == 102
    then some (Json.jbool false)
    else if tag == 112
    then some (Json.jint (pos (count_of s)))
    else if tag == 109
    then some (Json.jint (negsuc (count_of s)))
    else if tag == 114
    then some (Json.jreal s)
    else if tag == 115
    then some (Json.jstr s)
    else if tag == 108
    then some (Json.jlist (words_of s))
    else none

abbrev loads : String → Option Json
loads String.[] = none
loads (String.◌∷◌ c s) = by_tag (code c) s

pub loads-dumps : (j : Json) → loads (dumps j) ≡ some j
loads-dumps Json.jnull = refl
loads-dumps (Json.jbool true) = refl
loads-dumps (Json.jbool false) = refl
loads-dumps (Json.jint (pos n)) = ap (λ m. some (Json.jint (pos m))) (count_of-marks n)
loads-dumps (Json.jint (negsuc n)) = ap (λ m. some (Json.jint (negsuc m))) (count_of-marks n)
loads-dumps (Json.jreal r) = refl
loads-dumps (Json.jstr s) = refl
loads-dumps (Json.jlist xs) = ap (λ ys. some (Json.jlist ys)) (words_of-words xs)

abbrev int_of : Json → Result Param
int_of (Json.jint z) = ok (Param.int z)
int_of _ = err value_error

abbrev float_of : Json → Result Param
float_of (Json.jreal r) = ok (Param.real r)
float_of _ = err value_error

abbrev chars_of : String → List String
chars_of String.[] = []
chars_of (String.◌∷◌ c s) = String.◌∷◌ c String.[] ∷ chars_of s

abbrev pub json : JsonLib
json = record {
  dumps = dumps;
  loads = loads;
  int_of = int_of;
  float_of = float_of;
  chars_of = chars_of;
  loads-dumps = loads-dumps;
  int_of-jint = λ z. refl;
  float_of-jreal = λ r. refl;
}
