-- ===== src/Base/Texts.antt =====
-- The operations on texts and paths that the program uses.
use Prim.Native.Char.{Char, code}
use Prim.Native.Nat.{ℕ, ◌+◌}
use Prim.Native.String.{String, ◌++◌, slice, len}
use mathlib.Core.Bool.{Bool, true, false, ◌&&◌, ◌||◌}
use mathlib.Core.Option.{Option, none, some}
use mathlib.Core.List.{List, [], ◌∷◌}
use text.Mathlib.Text.{starts_with, find?}
use distributed_apps_platfor.Base.Tests.{◌==◌, if◌then◌else◌, string_eq, nat_eq}
use distributed_apps_platfor.Base.Lists.{contains}
use distributed_apps_platfor.Base.Dicts.{is_some}

-- `part in s`
unfoldable pub has_text : String → String → Bool
has_text part s = is_some (find? s part)

-- `''.join(parts)`
abbrev pub concat : List String → String
concat [] = ""
concat (part ∷ parts) = part ++ concat parts

-- the characters at which `splitlines` breaks a text
abbrev is_break : Char → Bool
is_break c = contains (code c) (10 ∷ 11 ∷ 12 ∷ 13 ∷ 28 ∷ 29 ∷ 30 ∷ 133 ∷ 8232 ∷ 8233 ∷ [])

abbrev starts_newline : String → Bool
starts_newline String.[] = false
starts_newline (String.◌∷◌ c s) = code c == 10

abbrev glue : Char → List String → List String
glue c [] = String.◌∷◌ c "" ∷ []
glue c (line ∷ lines) = String.◌∷◌ c line ∷ lines

-- `s.splitlines()`: a carriage return and the newline after it are one break
unfoldable pub splitlines : String → List String
splitlines String.[] = []
splitlines (String.◌∷◌ c s) =
    let rest = splitlines s in
    if code c == 13 && starts_newline s then rest else if is_break c then "" ∷ rest else glue c rest

ends_slash : String → Bool
ends_slash String.[] = false
ends_slash (String.◌∷◌ c s) = let rest = ends_slash s in if s == "" then code c == 47 else rest

-- `os.path.join(a, b)`
unfoldable pub join : String → String → String
unfolding ends_slash
join a b =
    if starts_with b "/" then b else if a == "" || ends_slash a then a ++ b else a ++ "/" ++ b

-- the characters that `strip` takes away
abbrev is_space : Char → Bool
is_space c = contains (code c) (
    9 ∷ 10 ∷ 11 ∷ 12 ∷ 13 ∷ 28 ∷ 29 ∷ 30 ∷ 31 ∷ 32 ∷ 133 ∷ 160 ∷ 5760 ∷ 8192 ∷ 8193 ∷ 8194 ∷ 8195
    ∷ 8196 ∷ 8197 ∷ 8198 ∷ 8199 ∷ 8200 ∷ 8201 ∷ 8202 ∷ 8232 ∷ 8233 ∷ 8239 ∷ 8287 ∷ 12288 ∷ [])

-- `s.rstrip()`
unfoldable pub rstrip : String → String
rstrip String.[] = ""
rstrip (String.◌∷◌ c s) =
    let rest = rstrip s in if rest == "" && is_space c then "" else String.◌∷◌ c rest

lstrip : String → String
lstrip String.[] = ""
lstrip (String.◌∷◌ c s) = let rest = lstrip s in if is_space c then rest else String.◌∷◌ c s

-- `s.strip()`
unfoldable pub strip : String → String
unfolding lstrip
strip s = rstrip (lstrip s)

-- `s[:-1]`
unfoldable pub drop_last : String → String
drop_last String.[] = ""
drop_last (String.◌∷◌ c s) = let rest = drop_last s in if s == "" then "" else String.◌∷◌ c rest

-- `s[1:]`
abbrev pub drop_first : String → String
drop_first String.[] = ""
drop_first (String.◌∷◌ c s) = s

-- `s.split(sep)[0]`
unfoldable pub before : String → String → String
before sep s = elim (find? s sep) [ none ↦ s | some at ↦ slice s 0 at ]

-- `s.split(sep)[1]`, none where it raises
unfoldable pub split_second : String → String → Option String
split_second sep s = elim (find? s sep) [
  | none ↦ none
  | some at ↦ some (before sep (slice s (at + len sep) (len s)))
]

until_space : String → String
until_space String.[] = ""
until_space (String.◌∷◌ c s) =
    let rest = until_space s in if is_space c then "" else String.◌∷◌ c rest

-- `s.split()[0]`, none where it raises
unfoldable pub first_word : String → Option String
unfolding until_space lstrip
first_word s = let word = until_space (lstrip s) in if word == "" then none else some word

lstrip_char : ℕ → String → String
lstrip_char d String.[] = ""
lstrip_char d (String.◌∷◌ c s) =
    let rest = lstrip_char d s in if code c == d then rest else String.◌∷◌ c s

rstrip_char : ℕ → String → String
rstrip_char d String.[] = ""
rstrip_char d (String.◌∷◌ c s) =
    let rest = rstrip_char d s in if rest == "" && code c == d then "" else String.◌∷◌ c rest

-- `s.strip(c)` for the character of a code
unfoldable pub strip_char : ℕ → String → String
unfolding lstrip_char rstrip_char
strip_char d s = rstrip_char d (lstrip_char d s)

-- `s[:i]` and `s[i + 1:]` for the first place of a separator, none where there is none
unfoldable pub split_at : String → String → Option (String × String)
split_at sep s = elim (find? s sep) [
  | none ↦ none
  | some at ↦ some (slice s 0 at, slice s (at + len sep) (len s))
]

-- `s[:i]` and `s[i:]` for the first place `i` of the character of a code, none where there is none
unfoldable pub cut_at : ℕ → String → Option (String × String)
cut_at d String.[] = none
cut_at d (String.◌∷◌ c s) =
    let rest = cut_at d s in
    if code c == d
    then some ("", String.◌∷◌ c s)
    else elim rest [ none ↦ none | some p ↦ some (String.◌∷◌ c p.0, p.1) ]

abbrev pub is_digit : Char → Bool
is_digit c = contains (code c) (48 ∷ 49 ∷ 50 ∷ 51 ∷ 52 ∷ 53 ∷ 54 ∷ 55 ∷ 56 ∷ 57 ∷ [])

unfoldable pub digits : String → String
digits String.[] = ""
digits (String.◌∷◌ c s) = let rest = digits s in if is_digit c then String.◌∷◌ c rest else ""

-- `re.findall('[0-9]+', s)[0]`, none where it raises
unfoldable pub first_number : String → Option String
unfolding digits
first_number String.[] = none
first_number (String.◌∷◌ c s) =
    let rest = first_number s in if is_digit c then some (digits (String.◌∷◌ c s)) else rest

abbrev is_empty : List String → Bool
is_empty [] = true
is_empty (x ∷ xs) = false

-- `s.split(c)` for the character of a code, and `sep.join(parts)`
unfoldable pub split_char : ℕ → String → List String
split_char d String.[] = "" ∷ []
split_char d (String.◌∷◌ c s) =
    let rest = split_char d s in if code c == d then "" ∷ rest else glue c rest

unfoldable pub join_by : String → List String → String
join_by sep [] = ""
join_by sep (part ∷ parts) =
    let rest = join_by sep parts in if is_empty parts then part else part ++ sep ++ rest
