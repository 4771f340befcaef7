-- ===== src/Remote/Namespaces/Lines.antt =====
-- What is read of a line of `ip netns list`.
use Prim.Native.Char.{char, code}
use Prim.Native.String.{◌++◌ as join_text}
use text.Mathlib.TextLemmas.{nil-append, cons-append}
use distributed_apps_platfor.Base.{
  ◌≡◌, refl, String, Bool, true, false, not, ◌&&◌, Option, none, some, ◌==◌, nat_eq, arith, cut_at,
  first_number, digits, is_digit,
}
use distributed_apps_platfor.Remote.Namespaces.{parse_namespace}

-- no character of the text is a blank, none is a digit, each is a digit
abbrev pub no_blank : String → Bool
no_blank String.[] = true
no_blank (String.◌∷◌ c s) = not (code c == 32) && no_blank s

abbrev pub no_digit : String → Bool
no_digit String.[] = true
no_digit (String.◌∷◌ c s) = not (is_digit c) && no_digit s

abbrev pub all_digits : String → Bool
all_digits String.[] = true
all_digits (String.◌∷◌ c s) = is_digit c && all_digits s

-- at least one character, and all are digits
abbrev pub is_id : String → Bool
is_id String.[] = false
is_id s = all_digits s

-- the text does not go on with a digit
abbrev pub stops : String → Bool
stops String.[] = true
stops (String.◌∷◌ c s) = not (is_digit c)

cut_at-append :
    (name rest : String)
    → no_blank name ≡ true
    → cut_at 32 (join_text name (String.◌∷◌ (char 32 tt) rest))
      ≡ some (name, String.◌∷◌ (char 32 tt) rest)
unfolding cut_at
cut_at-append String.[] rest h = rw (nil-append (String.◌∷◌ (char 32 tt) rest)) refl
cut_at-append (String.◌∷◌ c s) rest h =
    rw (cons-append c s (String.◌∷◌ (char 32 tt) rest))
      (ground (arith, h, cut_at-append s rest (ground (arith, h))))

cut_at-none : (line : String) → no_blank line ≡ true → cut_at 32 line ≡ none
unfolding cut_at
cut_at-none String.[] h = refl
cut_at-none (String.◌∷◌ c s) h = ground (arith, h, cut_at-none s (ground (arith, h)))

digits-append :
    (id after : String)
    → all_digits id ≡ true
    → stops after ≡ true
    → digits (join_text id after) ≡ id
unfolding digits
digits-append String.[] String.[] h k = rw (nil-append "") refl
digits-append String.[] (String.◌∷◌ c s) h k = rw (nil-append (String.◌∷◌ c s)) (ground (arith, k))
digits-append (String.◌∷◌ c s) after h k =
    rw (cons-append c s after) (ground (arith, h, digits-append s after (ground (arith, h)) k))

first_number-id :
    (id after : String)
    → is_id id ≡ true
    → stops after ≡ true
    → first_number (join_text id after) ≡ some id
unfolding first_number
first_number-id String.[] after h k = absurd (ground (arith, h))
first_number-id (String.◌∷◌ c s) after h k =
    let whole = digits-append (String.◌∷◌ c s) after h k in
    rw (cons-append c s after) (ground (arith, h, rw (cons-append c s after) at whole))

first_number-append :
    (between id after : String)
    → no_digit between ≡ true
    → is_id id ≡ true
    → stops after ≡ true
    → first_number (join_text between (join_text id after)) ≡ some id
unfolding first_number
first_number-append String.[] id after n h k =
    rw (nil-append (join_text id after)) (first_number-id id after h k)
first_number-append (String.◌∷◌ c s) id after n h k =
    rw (cons-append c s (join_text id after))
      (ground (arith, n, first_number-append s id after (ground (arith, n)) h k))

first_number-none : (line : String) → no_digit line ≡ true → first_number line ≡ none
unfolding first_number
first_number-none String.[] h = refl
first_number-none (String.◌∷◌ c s) h = ground (arith, h, first_number-none s (ground (arith, h)))

-- A line: a name with an id behind a blank, a name alone, or a name with a blank and no digit after it.
pub data Line : Type 0 where
  with_id : String → String → String → String → Line
  bare : String → Line
  no_id : String → String → Line

abbrev blank : String → String
blank s = String.◌∷◌ (char 32 tt) s

abbrev pub print : Line → String
print (with_id name between id after) =
    join_text name (blank (join_text between (join_text id after)))
print (bare name) = name
print (no_id name after) = join_text name (blank after)

abbrev pub is_line : Line → Bool
is_line (with_id name between id after) =
    no_blank name && no_digit between && is_id id && stops after
is_line (bare name) = no_blank name
is_line (no_id name after) = no_blank name && no_digit after

-- the name and id that a line tells
abbrev pub named : Line → Option (String × String)
named (with_id name between id after) = some (name, id)
named (bare name) = none
named (no_id name after) = none

first_number-blank : (s : String) → first_number (blank s) ≡ first_number s
unfolding first_number
first_number-blank s = refl

pub parse_namespace-print : (l : Line) → is_line l ≡ true → parse_namespace (print l) ≡ named l
unfolding parse_namespace
parse_namespace-print (with_id name between id after) h =
    let rest = join_text between (join_text id after) in
    ground (
      arith,
      cut_at-append name rest (ground (arith, h)),
      first_number-blank rest,
      first_number-append between id after (ground (arith, h)) (ground (arith, h))
          (ground (arith, h)),
    )
parse_namespace-print (bare name) h = ground (arith, cut_at-none name h)
parse_namespace-print (no_id name after) h = ground (
  arith,
  cut_at-append name after (ground (arith, h)),
  first_number-blank after,
  first_number-none after (ground (arith, h)),
)
