-- ===== src/Base/Patterns.antt =====
-- The regular expressions of the program: sequences of repeated character classes in which no class meets the
-- one after it, so that the longest repetition is the only one that can match.
use Prim.Native.Char.{code}
use Prim.Native.Nat.{ℕ, zero, suc, ◌+◌, min}
use Prim.Native.String.{String, ◌++◌}
use mathlib.Core.Option.{Option, none, some}
use mathlib.Core.List.{List, [], ◌∷◌}
use distributed_apps_platfor.Base.Tests.{if◌then◌else◌, ltb, nat_eq, string_eq}
use distributed_apps_platfor.Base.Lists.{contains}

-- A class, by the codes of its characters, that stands `least` times or more, up to `most` where there is a limit.
pub record Piece : Type 0 where
  pub codes : List ℕ
  pub least : ℕ
  pub most : Option ℕ

-- one character of a class, and a class between two bounds
abbrev pub one : List ℕ → Piece
one codes = record { codes = codes; least = 1; most = some 1 }

abbrev pub between : ℕ → ℕ → List ℕ → Piece
between a b codes = record { codes = codes; least = a; most = some b }

abbrev pub at_least : ℕ → List ℕ → Piece
at_least a codes = record { codes = codes; least = a; most = none }

-- the codes of the decimal digits
abbrev pub digit : List ℕ
digit = 48 ∷ 49 ∷ 50 ∷ 51 ∷ 52 ∷ 53 ∷ 54 ∷ 55 ∷ 56 ∷ 57 ∷ []

-- a text as a pattern
abbrev pub literal : String → List Piece
literal String.[] = []
literal (String.◌∷◌ c s) = one (code c ∷ []) ∷ literal s

-- how many characters at the start of a text are of a class
leading : List ℕ → String → ℕ
leading codes String.[] = 0
leading codes (String.◌∷◌ c s) =
    let rest = leading codes s in if contains (code c) codes then suc rest else 0

after : ℕ → String → String
after zero s = s
after (suc n) String.[] = ""
after (suc n) (String.◌∷◌ c s) = after n s

-- how long the match at the start of a text is, none where there is no match
unfoldable pub match_length : List Piece → String → Option ℕ
unfolding leading after
match_length [] s = some 0
match_length (p ∷ ps) s =
    let run = leading p.codes s in
    let n : ℕ = elim (p.most) [ none ↦ run | some m ↦ min m run ] in
    if ltb n p.least
    then none
    else elim (match_length ps (after n s)) [ none ↦ none | some m ↦ some (n + m) ]

-- the first of several alternatives that matches
unfoldable pub match_any : List (List Piece) → String → Option ℕ
match_any [] s = none
match_any (ps ∷ alternatives) s = elim (match_length ps s) [
  | none ↦ match_any alternatives s
  | some n ↦ some n
]

-- the characters that a match has taken are passed over
sub_after : List (List Piece) → String → ℕ → String → String
sub_after alternatives repl n String.[] = ""
sub_after alternatives repl (suc n) (String.◌∷◌ c s) = sub_after alternatives repl n s
sub_after alternatives repl zero (String.◌∷◌ c s) = elim (match_any alternatives (String.◌∷◌ c s)) [
  | none ↦ String.◌∷◌ c (sub_after alternatives repl 0 s)
  | some n ↦ elim n [
    | zero ↦ String.◌∷◌ c (sub_after alternatives repl 0 s)
    | suc m ↦ repl ++ sub_after alternatives repl m s
  ]
]

-- `re.sub(pattern, repl, s)` for a pattern that matches no empty text
unfoldable pub sub : List (List Piece) → String → String → String
unfolding sub_after
sub alternatives repl s = sub_after alternatives repl 0 s

-- `s.replace(old, new)` for a text that is not empty
unfoldable pub replace : String → String → String → String
replace old new s = sub (literal old ∷ []) new s
