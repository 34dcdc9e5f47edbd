-- ===== src/Tracers/Names/Resolve.antt =====
-- What the tool prints for a device state or a record kind is what a rule file may say for it.
use usbtrace.Common.{
  ℕ, ◌<◌, ◌≡◌, refl, arith, Bool, true, false, Option, none, some, ◌==◌, ◌||◌, all_below,
  all_below_sound, text_eq,
}
use usbtrace.Common.Int.{ℤ, pos, negsuc}
use usbtrace.Diag.Labels.{kind_str}
use usbtrace.Diag.Rules.Symbols.{resolve_name, sym_lookup, kind_syms, enum_syms}
use usbtrace.Tracers.Names.{state_str}

abbrev is_value : Option ℤ → ℕ → Bool
is_value none n = false
is_value (some (pos v)) n = v == n
is_value (some (negsuc v)) n = false

is_value_sound : (o : Option ℤ) (n : ℕ) → is_value o n ≡ true → o ≡ some (pos n)
is_value_sound none n h = absurd (ground (arith, h))
is_value_sound (some (pos v)) n h = ground (arith, h)
is_value_sound (some (negsuc v)) n h = absurd (ground (arith, h))

states_checked : all_below 9 (λ s. is_value (resolve_name (state_str s)) s) ≡ true
unfolding all_below resolve_name sym_lookup kind_syms enum_syms text_eq state_str
states_checked = refl

kinds_checked : all_below 8 (λ k. k == 0 || is_value (resolve_name (kind_str k)) k) ≡ true
unfolding all_below resolve_name sym_lookup kind_syms enum_syms text_eq kind_str
kinds_checked = refl

-- The name that the enum module prints for a device state, and the name that a finding prints for a
-- record kind up to uvc_vb2, are names that `resolve_name` of the rule loader reads as this state and this
-- kind.
pub labels-resolve :
    (s k : ℕ)
    → s < 9
    → 0 < k
    → k < 8
    → (resolve_name (state_str s) ≡ some (pos s)) × (resolve_name (kind_str k) ≡ some (pos k))
labels-resolve s k hs hk hk' = (
  is_value_sound (resolve_name (state_str s)) s
      (all_below_sound 9 (λ i. is_value (resolve_name (state_str i)) i) s states_checked hs),
  is_value_sound (resolve_name (kind_str k)) k (
      ground (
        arith,
        hk,
        all_below_sound 8 (λ i. i == 0 || is_value (resolve_name (kind_str i)) i) k kinds_checked
            hk',
      )),
)
