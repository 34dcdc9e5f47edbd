-- ===== src/Diag/Rules/Operators.antt =====
-- rules.c: the operators that a match value's first bytes spell.
use usbtrace.Common.{
  ℕ, not, ap, ◌≡◌, refl, List, [], ◌∷◌, ◌++◌, some, length, arith, leb, ◌==◌, ◌<◌, Bool, true,
  false, ◌||◌,
}
use usbtrace.Common.Int.{ℤ}
use usbtrace.Diag.Rule.{Cond, CmpOp, op_eq, op_ne, op_gte, op_lte, Field}
use usbtrace.Diag.Rules.Symbols.{Strtol, field_syms, sym_lookup, resolve_value}
use usbtrace.Diag.Rules.Conds.{ok, add_match, split_op}

-- How a rule's author writes an operator before a value.
unfoldable pub op_prefix : CmpOp → List ℕ
op_prefix op_ne = b'!' ∷ []
op_prefix op_gte = b'>' ∷ b'=' ∷ []
op_prefix op_lte = b'<' ∷ b'=' ∷ []
op_prefix op_eq = []

-- A value that starts with none of the bytes `!`, `<` and `>`.
unfoldable pub is_plain : List ℕ → Bool
is_plain [] = true
is_plain (c ∷ cs) = not (c == b'!' || c == b'<' || c == b'>')

-- The operator is read back.
split_op-prefix :
    (op : CmpOp) (s : List ℕ) → is_plain s ≡ true → split_op (op_prefix op ++ s) ≡ (op, s)
unfolding split_op op_prefix is_plain
split_op-prefix op_ne [] h = refl
split_op-prefix op_ne (c ∷ s) h = refl
split_op-prefix op_gte s h = refl
split_op-prefix op_lte s h = refl
split_op-prefix op_eq [] h = refl
split_op-prefix op_eq (c ∷ []) h = ground arith
split_op-prefix op_eq (c ∷ d ∷ s) h = ground arith

-- For every operator, field name and plain value that resolves to a number: the text made of the
-- operator and the value is stored by `add_match`, at the end of a condition with room left, as
-- that field, that number and that operator.
pub add_match-op_prefix :
    (strtol : List ℕ → Strtol) (c : Cond) (name s : List ℕ) (op : CmpOp) (f : Field) (v : ℤ)
    → sym_lookup field_syms name ≡ some f
    → is_plain s ≡ true
    → resolve_value strtol s ≡ some v
    → length c.matches < 8
    → add_match strtol c name (op_prefix op ++ s)
      ≡ ok (record c { matches = c.matches ++ (record { field = f; value = v; op = op } ∷ []) })
unfolding add_match
add_match-op_prefix strtol c name s op f v hf hp hv hn =
    let room : leb 8 (length c.matches) ≡ false = ground arith in
    rw (add_match, hf, split_op-prefix op s hp, hv, room)
      (ap
        (λ x.
          ok (record c { matches = c.matches ++ (record { field = f; value = v; op = x.0 } ∷ []) }))
        (split_op-prefix op s hp))
