-- ===== src/Hosts/Prep/Firewall/Rule.antt =====
-- The number and the place of the rule that the service gets in the firewall.
use mathlib.Core.Path.{subst}
use mathlib.Core.List.{◌++◌ as append}
use distributed_apps_platfor.Base.{
  ◌≡◌, ◌∙◌, ◌⊎◌, refl, sym, zero, suc, String, true, false, List, [], ◌∷◌, none, some, ℤ, pos,
  negsuc, ok, err, value_error, ◌==◌, string_eq, arith, All, contains, Bool-cases, Option-cases,
  inl, inr, splitlines,
}
use distributed_apps_platfor.Hosts.Prep.{Place}
use distributed_apps_platfor.Hosts.Prep.Firewall.{
  Numbers, leℤ, add_one, max_of, insert_rule, service_id, service_nums, service_num,
}

leℤ_refl : (x : ℤ) → leℤ x x ≡ true
leℤ_refl (pos n) = ground arith
leℤ_refl (negsuc n) = ground arith

leℤ-trans : (x y z : ℤ) → leℤ x y ≡ true → leℤ y z ≡ true → leℤ x z ≡ true
leℤ-trans x y z h k = ground arith

leℤ-total : (x y : ℤ) → leℤ x y ≡ false → leℤ y x ≡ true
leℤ-total x y h = ground arith

add_one-above : (x y : ℤ) → leℤ x y ≡ true → leℤ (add_one y) x ≡ false
add_one-above x (pos n) h = ground arith
add_one-above x (negsuc zero) h = ground arith
add_one-above x (negsuc (suc n)) h = ground arith

-- the numbers of a list are at most this one
abbrev AtMost : ℤ → List ℤ → Type 0
AtMost m = All (λ x. leℤ x m ≡ true)

AtMost-weaken : (m n : ℤ) (xs : List ℤ) → leℤ m n ≡ true → AtMost m xs → AtMost n xs
AtMost-weaken m n [] l h = tt
AtMost-weaken m n (x ∷ xs) l h = (leℤ-trans x m n h.0 l, AtMost-weaken m n xs l h.1)

max_of-none : (xs : List ℤ) (m : ℤ) → max_of xs ≡ none → AtMost m xs
unfolding max_of
max_of-none [] m h = tt
max_of-none (x ∷ xs) m h = elim (Option-cases (max_of xs)) [
  | inl e ↦ absurd (ground (arith, e))
  | inr (y, e) ↦ elim (Bool-cases (leℤ x y)) [
    | inl l ↦ absurd (ground (arith, e, l))
    | inr l ↦ absurd (ground (arith, e, l))
  ]
]

max_of-AtMost : (xs : List ℤ) (m : ℤ) → max_of xs ≡ some m → AtMost m xs
unfolding max_of
max_of-AtMost [] m h = tt
max_of-AtMost (x ∷ xs) m h = elim (Option-cases (max_of xs)) [
  | inl e ↦ (ground (arith, e, leℤ_refl x), max_of-none xs m e)
  | inr (y, e) ↦ elim (Bool-cases (leℤ x y)) [
    | inl l ↦
        let same : y ≡ m = ground (arith, e, l) in
        (rw⁻¹ same l, AtMost-weaken y m xs (rw same (leℤ_refl m)) (max_of-AtMost xs y e))
    | inr l ↦
        let same : x ≡ m = ground (arith, e, l) in
        (
          rw same (leℤ_refl m),
          AtMost-weaken y m xs (rw⁻¹ same (leℤ-total x y l)) (max_of-AtMost xs y e),
        )
  ]
]

-- a number is one of a list
abbrev Among : ℤ → List ℤ → Type 0
Among m [] = ⊥
Among m (x ∷ xs) = (x ≡ m) ⊎ Among m xs

max_of-Among : (xs : List ℤ) (m : ℤ) → max_of xs ≡ some m → Among m xs
unfolding max_of
max_of-Among [] m h = absurd (ground (arith, h))
max_of-Among (x ∷ xs) m h = elim (Option-cases (max_of xs)) [
  | inl e ↦ inl (ground (arith, h, e))
  | inr (y, e) ↦ elim (Bool-cases (leℤ x y)) [
    | inl l ↦ inr (max_of-Among xs m (e ∙ ground (arith, h, e, l)))
    | inr l ↦ inl (ground (arith, h, e, l))
  ]
]

AtMost-Among : (n m : ℤ) (xs : List ℤ) → AtMost n xs → Among m xs → leℤ m n ≡ true
AtMost-Among n m (x ∷ xs) h (inl e) = subst (λ k. leℤ k n ≡ true) e h.0
AtMost-Among n m (x ∷ xs) h (inr i) = AtMost-Among n m xs h.1 i
AtMost-Among n m [] h i = absurd i

module _ {S : Type 0} (place : Place S) (numbers : Numbers) where
  -- a line from which this number of a service is read
  abbrev pub Numbered : ℤ → String → Type 0
  Numbered m line = (id : String) × (service_id line ≡ some id) × (numbers.int_of id ≡ some m)

  -- a line gives one number more, or none
  service_nums-cons :
      (x : String) (lines : List String)
      → ((n : ℤ) × Numbered n x
          × (service_nums place numbers (x ∷ lines) ≡ n ∷ service_nums place numbers lines))
        ⊎ (((m : ℤ) → Numbered m x → ⊥)
            × (service_nums place numbers (x ∷ lines) ≡ service_nums place numbers lines))
  unfolding service_nums
  service_nums-cons x lines = elim (Option-cases (service_id x)) [
    | inl e ↦ inr (λ m (id, s, i). ground (arith, e, s), ground (arith, e))
    | inr (id, e) ↦ elim (Option-cases (numbers.int_of id)) [
      | inl q ↦ inr (λ m (id', s, i). ground (arith, e, s, q, i), ground (arith, e, q))
      | inr (n, q) ↦ inl (n, (id, e, q), ground (arith, e, q))
    ]
  ]

  one_number : (m n : ℤ) (line : String) → Numbered m line → Numbered n line → n ≡ m
  one_number m n line (id, s, i) (id', s', i') = ground (arith, s, s', i, i')

  service_nums-Among :
      (m : ℤ) (line : String) (lines : List String)
      → contains line lines ≡ true
      → Numbered m line
      → Among m (service_nums place numbers lines)
  service_nums-Among m line [] h n = absurd (ground (arith, h))
  service_nums-Among m line (x ∷ lines) h n = elim (service_nums-cons x lines) [
    | inl (k, found, cons) ↦ rw cons (elim (Bool-cases (line == x)) [
      | inl e ↦ inl (
          one_number m k line n
            (subst (λ y. Numbered k y) (sym ((string_eq.same_iff line x).0 e)) found))
      | inr e ↦ inr (service_nums-Among m line lines (ground (arith, h, e)) n)
    ])
    | inr (missing, cons) ↦ rw cons (elim (Bool-cases (line == x)) [
      | inl e ↦ absurd (missing m (subst (λ y. Numbered m y) ((string_eq.same_iff line x).0 e) n))
      | inr e ↦ service_nums-Among m line lines (ground (arith, h, e)) n
    ])
  ]

  -- every number is that of a line
  service_nums-lines :
      (m : ℤ) (lines : List String)
      → Among m (service_nums place numbers lines)
      → (line : String) × (contains line lines ≡ true) × Numbered m line
  unfolding service_nums
  service_nums-lines m [] h = absurd h
  service_nums-lines m (x ∷ lines) h = elim (service_nums-cons x lines) [
    | inl (k, found, cons) ↦ elim (rw cons at h) [
      | inl e ↦ (x, ground (arith, string_eq.same_iff x x), subst (λ y. Numbered y x) e found)
      | inr i ↦
          let (line, there, n) = service_nums-lines m lines i in (line, ground (arith, there), n)
    ]
    | inr (missing, cons) ↦
        let (line, there, n) = service_nums-lines m lines (rw cons at h) in
        (line, ground (arith, there), n)
  ]

  -- The number of the new service is greater than the number that is read from any line of the reply of `grep`, and it is one
  -- more than the number of one of these lines.
  pub service_num-above :
      (result line : String) (n m : ℤ)
      → service_num place numbers (some result) ≡ some n
      → contains line (splitlines result) ≡ true
      → Numbered m line
      → (leℤ n m ≡ false)
        × ((last : String) × (k : ℤ) × (contains last (splitlines result) ≡ true)
            × Numbered k last
            × (n ≡ add_one k))
  unfolding service_num
  service_num-above result line n m h there numbered =
      let lines = splitlines result in
      let nums = service_nums place numbers lines in
      elim (Option-cases (max_of nums)) [
        | inl e ↦ absurd (ground (arith, e, h))
        | inr (k, e) ↦
            let same : add_one k ≡ n = ground (arith, e, h) in
            let below : leℤ m k ≡ true =
              AtMost-Among k m nums (max_of-AtMost nums k e)
                (service_nums-Among m line lines there numbered) in
            let (last, found, top) = service_nums-lines k lines (max_of-Among nums k e) in
            (
              subst (λ x. leℤ x m ≡ false) same (add_one-above m k below),
              (last, k, found, top, sym same),
            )
      ]

-- The lines of the new rule come directly before the first line that is `</ConfigRoot>`, and all
-- other lines stay in their order; without such a line a ValueError is raised.
pub insert_rule_lem :
    (fw_cfg before after : List String)
    → contains "</ConfigRoot>" before ≡ false
    → (insert_rule fw_cfg (append before ("</ConfigRoot>" ∷ after))
        ≡ ok (append before (append fw_cfg ("</ConfigRoot>" ∷ after))))
      × (insert_rule fw_cfg before ≡ err value_error)
unfolding insert_rule
insert_rule_lem fw_cfg [] after h = (refl, refl)
insert_rule_lem fw_cfg (line ∷ before) after h =
    let (found, missing) = insert_rule_lem fw_cfg before after (ground (arith, h)) in
    let other : (line == "</ConfigRoot>") ≡ false = ground (
      arith,
      h,
      string_eq.same_iff line "</ConfigRoot>",
      string_eq.same_iff "</ConfigRoot>" line,
    ) in
    (ground (arith, other, found), ground (arith, other, missing))
