-- ===== src/Diag/Rules/Names.antt =====
-- rules.c: the names of the rule language.
use usbtrace.Common.{
  ℕ, zero, suc, not, ◌≡◌, refl, sym, ◌∙◌, subst, Bool, true, false, List, [], ◌∷◌, Option, none,
  some, ◌&&◌, ◌||◌, text_eq, text_eq_sound, text_eq_refl, arith, Bool-cases, inl, inr, ◌++◌,
}
use usbtrace.Common.Int.{ℤ}
use usbtrace.Diag.Rules.Symbols.{
  Strtol, is_number, kind_syms, enum_syms, field_syms, sym_lookup, resolve_name, resolve_value,
}

-- Is a name in a table?
unfoldable pub is_named {ℓ} : {A : Type ℓ} → List (List ℕ × A) → List ℕ → Bool
is_named [] n = false
is_named ((m, _) ∷ tab) n = text_eq m n || is_named tab n

-- No two entries of a table have the same name.
unfoldable pub distinct_names {ℓ} : {A : Type ℓ} → List (List ℕ × A) → Bool
unfolding is_named
distinct_names [] = true
distinct_names ((n, _) ∷ tab) = not (is_named tab n) && distinct_names tab

-- The entry at a position.
abbrev pub entry {ℓ} : {A : Type ℓ} → List A → ℕ → Option A
entry [] i = none
entry (x ∷ xs) zero = some x
entry (x ∷ xs) (suc i) = entry xs i

module _ {ℓ} {A : Type ℓ} where
  is_named-entry :
      (tab : List (List ℕ × A)) (i : ℕ) (n : List ℕ) (v : A)
      → entry tab i ≡ some (n, v)
      → is_named tab n ≡ true
  unfolding is_named
  is_named-entry [] i n v h = cc
  is_named-entry ((m, w) ∷ tab) zero n v h = ground (arith, text_eq_refl n)
  is_named-entry ((m, w) ∷ tab) (suc i) n v h = ground (arith, is_named-entry tab i n v h)

  other_name :
      (tab : List (List ℕ × A)) (i : ℕ) (m n : List ℕ) (v : A)
      → entry tab i ≡ some (n, v)
      → is_named tab m ≡ false
      → text_eq m n ≡ false
  other_name tab i m n v h k = elim (Bool-cases (text_eq m n)) [
    | inr e ↦ e
    | inl e ↦ absurd (
        ground (
          arith,
          is_named-entry tab i n v h,
          subst (λ x. is_named tab x ≡ false) (text_eq_sound m n e) k,
        ))
  ]

  sym_lookup-entry :
      (tab : List (List ℕ × A)) (i : ℕ) (n : List ℕ) (v : A)
      → distinct_names tab ≡ true
      → entry tab i ≡ some (n, v)
      → sym_lookup tab n ≡ some v
  unfolding sym_lookup distinct_names
  sym_lookup-entry [] i n v d h = cc
  sym_lookup-entry ((m, w) ∷ tab) zero n v d h = ground (arith, text_eq_refl n)
  sym_lookup-entry ((m, w) ∷ tab) (suc i) n v d h =
      rw (other_name tab i m n v h (ground arith)) (sym_lookup-entry tab i n v (ground arith) h)

  sym_lookup-append :
      (tab rest : List (List ℕ × A)) (n : List ℕ)
      → sym_lookup (tab ++ rest) n
        ≡ elim (sym_lookup tab n) [ some v ↦ some v | none ↦ sym_lookup rest n ]
  unfolding sym_lookup
  sym_lookup-append [] rest n = refl
  sym_lookup-append ((m, w) ∷ tab) rest n = elim (Bool-cases (text_eq m n)) [
    | inl e ↦ rw e refl
    | inr e ↦ rw e (sym_lookup-append tab rest n)
  ]

-- The names for values are different from each other, those of kinds included; so are the fields'.
value_names_distinct : distinct_names (kind_syms ++ enum_syms) ≡ true
unfolding distinct_names is_named kind_syms enum_syms text_eq
value_names_distinct = refl

field_names_distinct : distinct_names field_syms ≡ true
unfolding distinct_names is_named field_syms text_eq
field_names_distinct = refl

resolve_name_lem : (n : List ℕ) → resolve_name n ≡ sym_lookup (kind_syms ++ enum_syms) n
unfolding resolve_name
resolve_name_lem n = sym (sym_lookup-append kind_syms enum_syms n)

-- For a `strtol` that reads no whole name as a number: every name of `kind_syms` and `enum_syms`,
-- with its value, is what `resolve_value` resolves it to, so no entry hides another.
pub resolve_value-names :
    (strtol : List ℕ → Strtol) (i c : ℕ) (n : List ℕ) (v : ℤ)
    → entry (kind_syms ++ enum_syms) i ≡ some (c ∷ n, v)
    → is_number (strtol (c ∷ n)) ≡ false
    → resolve_value strtol (c ∷ n) ≡ some v
unfolding resolve_value
resolve_value-names strtol i c n v h k = rw k (
    resolve_name_lem (c ∷ n)
    ∙ sym_lookup-entry (kind_syms ++ enum_syms) i (c ∷ n) v value_names_distinct h)
