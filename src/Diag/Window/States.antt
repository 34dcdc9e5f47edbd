-- ===== src/Diag/Window/States.antt =====
-- A set of the device states 0 to 8 as the bits of a `uint16_t`.
use Prim.Native.Nat.{bit_and, bit_or}
use usbtrace.Common.{
  all_below, all_below_sound, eqb, eqb_eq, and_left, and_right, ℕ, ◌^◌, ◌<◌, ◌≡◌, refl, arith, Bool,
  true, false, ◌&&◌, ◌||◌, not, ltb, ltb→lt, ◌==◌,
}

-- `seen_states & (1u << state)`.
unfoldable pub has_state : ℕ → ℕ → Bool
has_state seen state = not (bit_and seen (2 ^ state) == 0)

-- Setting a state's bit adds the state and no other, and stays within nine bits.
bits_row : ℕ → Bool
bits_row s = all_below 9 (λ n.
    ltb (bit_or s (2 ^ n)) 512
    && all_below 9 (λ m. eqb (has_state (bit_or s (2 ^ n)) m) (n == m || has_state s m)))

bits_table : all_below 512 bits_row ≡ true
unfolding all_below bits_row has_state eqb
bits_table = refl

row_of : (s : ℕ) → s < 512 → bits_row s ≡ true
row_of s h = all_below_sound 512 bits_row s bits_table h

entry_of :
    (s n : ℕ)
    → s < 512
    → n < 9
    → (ltb (bit_or s (2 ^ n)) 512
        && all_below 9 (λ m. eqb (has_state (bit_or s (2 ^ n)) m) (n == m || has_state s m)))
      ≡ true
unfolding bits_row
entry_of s n h k =
    all_below_sound 9
      (λ i.
        ltb (bit_or s (2 ^ i)) 512
        && all_below 9 (λ m. eqb (has_state (bit_or s (2 ^ i)) m) (i == m || has_state s m)))
      n (row_of s h) k

-- With a further state the set still fits nine bits.
pub bit_or_bound : (s n : ℕ) → s < 512 → n < 9 → bit_or s (2 ^ n) < 512
bit_or_bound s n h k = ltb→lt (bit_or s (2 ^ n)) 512 (and_left _ _ (entry_of s n h k))

-- The set with a further state holds that state and what it held.
pub has_state-bit_or :
    (s n m : ℕ)
    → s < 512
    → n < 9
    → m < 9
    → has_state (bit_or s (2 ^ n)) m ≡ (n == m || has_state s m)
has_state-bit_or s n m h k l = eqb_eq (has_state (bit_or s (2 ^ n)) m) (n == m || has_state s m) (
    all_below_sound 9 (λ i. eqb (has_state (bit_or s (2 ^ n)) i) (n == i || has_state s i)) m
      (and_right _ _ (entry_of s n h k)) l)

has_state-zero_table : all_below 9 (λ m. not (has_state 0 m)) ≡ true
unfolding all_below has_state
has_state-zero_table = refl

-- The empty set.
pub has_state-zero : (m : ℕ) → m < 9 → has_state 0 m ≡ false
has_state-zero m h =
    ground (arith, all_below_sound 9 (λ i. not (has_state 0 i)) m has_state-zero_table h)
