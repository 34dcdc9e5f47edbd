-- ===== src/Diag/Expand/Substitute.antt =====
-- The loop ends, stays within the buffer, and writes the substituted template as far as it fits.
use mathlib.Core.List.{append_assoc, append-nil}
use usbtrace.Common.{
  ℕ, zero, suc, ◌+◌, ◌-◌, ◌≤◌, ◌<◌, ◌≡◌, ◌⊎◌, inl, inr, refl, sym, ap, ◌∙◌, subst, arith, min, Bool,
  true, false, List, [], ◌∷◌, ◌++◌, Option, none, some, if◌then◌else◌, ◌==◌, not, ltb, length, take,
  length-append, length-take, take_short, take-length, take_prefix, take-append, take-take_append,
  Bool-cases, Option-cases,
}
use usbtrace.Common.Int.{ℤ}
use usbtrace.Diag.Window.{DevWin}
use usbtrace.Diag.Expand.{
  split_close, placeholder, expand_loop, expand, template, value_of, terminator,
}

-- The template with its placeholders replaced, after the next `skip` bytes.
abbrev pub substituted : (List ℕ → List ℕ) → ℕ → List ℕ → List ℕ
substituted value skip [] = []
substituted value (suc skip) (c ∷ cs) = substituted value skip cs
substituted value zero (c ∷ cs) = elim (placeholder c cs) [
  | some (key, after) ↦ value key ++ substituted value (suc (length key)) cs
  | none ↦ c ∷ substituted value zero cs
]

abbrev Split : Type 0
Split = Option (List ℕ × List ℕ)

abbrev split_step : Bool → ℕ → List ℕ → Split → Split
split_step b c cs o =
    if b then some ([], cs) else elim o [ none ↦ none | some (k, a) ↦ some (c ∷ k, a) ]

split_cases :
    (b : Bool) (c : ℕ) (cs key after : List ℕ) (o : Split)
    → split_step b c cs o ≡ some (key, after)
    → (([] ≡ key) × (cs ≡ after)) ⊎ ((k : List ℕ) × ((c ∷ k ≡ key) × (o ≡ some (k, after))))
split_cases true c cs key after o h = inl (ground (arith, h))
split_cases false c cs key after none h = absurd (ground (arith, h))
split_cases false c cs key after (some (k, a)) h = inr (k, ground (arith, h))

split_close_lem :
    (value : List ℕ → List ℕ) (cs key after : List ℕ)
    → split_close cs ≡ some (key, after)
    → (substituted value (suc (length key)) cs ≡ substituted value zero after)
      × (length after < length cs)
unfolding split_close
split_close_lem value [] key after h = absurd (ground (arith, h))
split_close_lem value (c ∷ cs) key after h =
    elim (split_cases (c == b'}') c cs key after (split_close cs) h) [
      | inl (k, a) ↦
          subst
            (λ x.
              (substituted value (length x) cs ≡ substituted value zero after)
              × (length after < suc (length cs)))
            k
            (subst
              (λ x.
                (substituted value zero cs ≡ substituted value zero x)
                × (length x < suc (length cs)))
              a (refl, omega arith))
      | inr (k', (k, o)) ↦
          let (same, shorter) = split_close_lem value cs k' after o in
          subst
            (λ x.
              (substituted value (length x) cs ≡ substituted value zero after)
              × (length after < suc (length cs)))
            k (same, omega (arith, shorter))
    ]

-- What has been written after `o` bytes of output: all of them, or as much as the buffer holds.
abbrev IsWritten : ℕ → ℕ → List ℕ → Type 0
IsWritten outsz o text = length text ≡ min o (outsz - 1)

-- The end of the loop, from a state of it.
abbrev Ends : (List ℕ → List ℕ) → ℕ → List ℕ → List ℕ → Option (ℕ × List ℕ) → Type 0
Ends value outsz p text r =
    (o' : ℕ) × ((text' : List ℕ) × ((r ≡ some (o', text'))
        × (IsWritten outsz o' text'
            × (text' ≡ take (outsz - 1) (text ++ substituted value zero p)))))

stops :
    (value : List ℕ → List ℕ) (outsz o : ℕ) (p text : List ℕ)
    → IsWritten outsz o text
    → ltb (o + 1) outsz ≡ false
    → Ends value outsz p text (some (o, text))
stops value outsz o p text w h = (
  o,
  (
    text,
    (
      refl,
      (w, sym (take_prefix (outsz - 1) text (substituted value zero p) (ground (arith, w, h)))),
    ),
  ),
)

done :
    (value : List ℕ → List ℕ) (outsz o : ℕ) (text : List ℕ)
    → IsWritten outsz o text
    → Ends value outsz [] text (some (o, text))
done value outsz o text w = (
  o,
  (
    text,
    (
      refl,
      (
        w,
        sym (
            take_short (outsz - 1) (text ++ [])
              (subst (λ xs. length xs ≤ outsz - 1) (sym (append-nil text)) (ground (arith, w)))
            ∙ append-nil text),
      ),
    ),
  ),
)

extends :
    (value : List ℕ → List ℕ) (outsz : ℕ) (p q text more : List ℕ) (r : Option (ℕ × List ℕ))
    → take (outsz - 1) (more ++ substituted value zero q)
      ≡ take (outsz - 1) (text ++ substituted value zero p)
    → Ends value outsz q more r
    → Ends value outsz p text r
extends value outsz p q text more r e (o', (text', (found, (w, same)))) =
    (o', (text', (found, (w, same ∙ e))))

plain_step :
    (value : List ℕ → List ℕ) (outsz c : ℕ) (cs text : List ℕ)
    → placeholder c cs ≡ none
    → take (outsz - 1) (text ++ (c ∷ []) ++ substituted value zero cs)
      ≡ take (outsz - 1) (text ++ substituted value zero (c ∷ cs))
plain_step value outsz c cs text h =
    rw (substituted, h)
      (ap (take (outsz - 1)) (append_assoc text (c ∷ []) (substituted value zero cs)))

abbrev fitting : Bool → Split → Split
fitting b o =
    if b
    then none
    else elim o [ none ↦ none | some (k, a) ↦ if ltb (length k) 16 then some (k, a) else none ]

placeholder_split :
    (b : Bool) (o : Split) (key after : List ℕ)
    → fitting b o ≡ some (key, after)
    → o ≡ some (key, after)
placeholder_split true o key after h = absurd (ground (arith, h))
placeholder_split false none key after h = absurd (ground (arith, h))
placeholder_split false (some (k, a)) key after h = ground (arith, h)

placeholder_lem :
    (value : List ℕ → List ℕ) (c : ℕ) (cs key after : List ℕ)
    → placeholder c cs ≡ some (key, after)
    → (substituted value zero (c ∷ cs) ≡ value key ++ substituted value zero after)
      × (length after < length cs)
unfolding placeholder
placeholder_lem value c cs key after h =
    let (same, shorter) =
      split_close_lem value cs key after
        (placeholder_split (not (c == b'{')) (split_close cs) key after h) in
    (rw (substituted, h) (ap (λ xs. value key ++ xs) same), shorter)

value_step :
    (value : List ℕ → List ℕ) (outsz o : ℕ) (val rest text : List ℕ)
    → IsWritten outsz o text
    → o + 1 < outsz
    → take (outsz - 1) (text ++ take (outsz - o - 1) val ++ rest)
      ≡ take (outsz - 1) (text ++ (val ++ rest))
value_step value outsz o val rest text w h =
    let room : outsz - o - 1 ≡ outsz - 1 - length text = omega (arith, w, h) in
    let fits : length text ≤ outsz - 1 = omega (arith, w, h) in
    ap (take (outsz - 1)) (append_assoc text (take (outsz - o - 1) val) rest)
    ∙ (take-append (outsz - 1) text (take (outsz - o - 1) val ++ rest) fits
        ∙ (ap (λ n. text ++ take (outsz - 1 - length text) (take n val ++ rest)) room
            ∙ (ap (λ xs. text ++ xs) (take-take_append (outsz - 1 - length text) val rest)
                ∙ sym (take-append (outsz - 1) text (val ++ rest) fits))))

loop_lem :
    (value : List ℕ → List ℕ) (outsz fuel o : ℕ) (p text : List ℕ)
    → length p < fuel
    → IsWritten outsz o text
    → Ends value outsz p text (expand_loop fuel value outsz p o text)
unfolding expand_loop
loop_lem value outsz zero o p text f w = absurd (omega (arith, f))
loop_lem value outsz (suc fuel) o [] text f w = done value outsz o text w
loop_lem value outsz (suc fuel) o (c ∷ cs) text f w = elim (Bool-cases (ltb (o + 1) outsz)) [
  | inr h ↦ rw (expand_loop, h) (stops value outsz o (c ∷ cs) text w h)
  | inl h ↦ elim (Option-cases (placeholder c cs)) [
    | inl e ↦
        rw (expand_loop, h, e)
          (extends value outsz (c ∷ cs) cs text (text ++ (c ∷ [])) _
            (plain_step value outsz c cs text e)
            (loop_lem value outsz fuel (o + 1) cs (text ++ (c ∷ [])) (omega (arith, f))
              (ground (arith, w, h, length-append text (c ∷ [])))))
    | inr ((key, after), e) ↦
        let (same, shorter) = placeholder_lem value c cs key after e in
        let text' = text ++ take (outsz - o - 1) (value key) in
        rw (expand_loop, h, e)
          (extends value outsz (c ∷ cs) after text text' _
            (value_step value outsz o (value key) (substituted value zero after) text w
                (ground (arith, h))
              ∙ ap (λ xs. take (outsz - 1) (text ++ xs)) (sym same))
            (loop_lem value outsz fuel (o + length (value key)) after text'
              (omega (arith, f, shorter))
              (ground (
                arith,
                w,
                h,
                length-append text (take (outsz - o - 1) (value key)),
                length-take (outsz - o - 1) (value key),
              ))))
  ]
]

-- In a buffer of at least one byte `expand` leaves the template with its placeholders replaced, cut
-- at the buffer's size less one byte for the NUL: every known key by its value, and an unknown one,
-- a brace without its partner and a key of sixteen bytes or more as they stand.
pub expand_lem :
    (tmpl : Option (List ℕ)) (w : DevWin) (count window_ms : ℤ) (comm : Option (List ℕ)) (outsz : ℕ)
    → 0 < outsz
    → expand tmpl w count window_ms comm outsz
      ≡ some (take (outsz - 1) (substituted (value_of w count window_ms comm) zero (template tmpl)))
unfolding expand
expand_lem tmpl w count window_ms comm outsz n =
    let value = value_of w count window_ms comm in
    let (o, (text, (found, (wr, same)))) =
      loop_lem value outsz (suc (length (template tmpl))) 0 (template tmpl) [] (omega arith)
        (omega arith) in
    rw (expand, found)
      (ap some (
        ap (λ k. take k text)
          (let e : terminator o outsz ≡ length text = ground (arith, wr, n) in e)
        ∙ (take-length text ∙ same)))
