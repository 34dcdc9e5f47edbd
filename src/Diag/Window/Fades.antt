-- ===== src/Diag/Window/Fades.antt =====
-- Windows that stay with their devices: what a table keeps when no slot changes hands.
use usbtrace.Common.{
  ℕ, zero, suc, ◌≡◌, refl, ap, sym, subst, List, [], ◌∷◌, arith, true, false, some, length,
  get_elem?, set,
}
use mathlib.Core.Option.{some-injective}
use usbtrace.Diag.Event.{DevKey}
use usbtrace.Diag.Window.{DevWin}
use usbtrace.Diag.Window.Recent.{IsValid}
use usbtrace.Diag.Window.Table.{serves, Absent, Distinct}

-- The window keeps its device, and is in use only if it was.
pub record Fade (w w' : DevWin) : Type 0 where
  pub key_same : w'.key ≡ w.key
  pub used_before : w'.used ≡ true → w.used ≡ true

abbrev pub Fades : List DevWin → List DevWin → Type 0
Fades [] [] = Unit {0}
Fades [] (_ ∷ _) = ⊥
Fades (_ ∷ _) [] = ⊥
Fades (w ∷ ws) (w' ∷ ws') = Fade w w' × Fades ws ws'

pub Fade-refl : (w : DevWin) → Fade w w
Fade-refl w = record { key_same = refl; used_before = λ h. h }

pub Fades-refl : (ws : List DevWin) → Fades ws ws
Fades-refl [] = tt
Fades-refl (w ∷ ws) = (Fade-refl w, Fades-refl ws)

pub Fades-set :
    (ws : List DevWin) (i : ℕ) (w w' : DevWin)
    → get_elem? ws i ≡ some w
    → Fade w w'
    → Fades ws (set ws i w')
Fades-set [] i w w' e f = tt
Fades-set (x ∷ ws) zero w w' e f =
    (subst (λ z. Fade z w') (sym (some-injective x w e)) f, Fades-refl ws)
Fades-set (x ∷ ws) (suc i) w w' e f = (Fade-refl x, Fades-set ws i w w' e f)

pub length-Fades : (ws ws' : List DevWin) → Fades ws ws' → length ws' ≡ length ws
length-Fades [] [] f = refl
length-Fades [] (w' ∷ ws') f = absurd f
length-Fades (w ∷ ws) [] f = absurd f
length-Fades (w ∷ ws) (w' ∷ ws') f = ap suc (length-Fades ws ws' f.1)

serves-Fade : (w w' : DevWin) (k : DevKey) → Fade w w' → serves w k ≡ false → serves w' k ≡ false
serves-Fade w w' k f h = ground (arith, f.key_same)

Absent-Fades : (ws ws' : List DevWin) (k : DevKey) → Fades ws ws' → Absent k ws → Absent k ws'
Absent-Fades [] [] k f a = tt
Absent-Fades [] (w' ∷ ws') k f a = absurd f
Absent-Fades (w ∷ ws) [] k f a = absurd f
Absent-Fades (w ∷ ws) (w' ∷ ws') k f a = (serves-Fade w w' k f.0 a.0, Absent-Fades ws ws' k f.1 a.1)

pub Distinct-Fades : (ws ws' : List DevWin) → Fades ws ws' → Distinct ws → Distinct ws'
Distinct-Fades [] [] f d = tt
Distinct-Fades [] (w' ∷ ws') f d = absurd f
Distinct-Fades (w ∷ ws) [] f d = absurd f
Distinct-Fades (w ∷ ws) (w' ∷ ws') f d = (
  λ u. rw f.0.key_same (Absent-Fades ws ws' w.key f.1 (d.0 (f.0.used_before u))),
  Distinct-Fades ws ws' f.1 d.1,
)

-- Every ring of the table is within its bounds.
abbrev pub AllValid : List DevWin → Type 0
AllValid [] = Unit {0}
AllValid (w ∷ ws) = IsValid w × AllValid ws

pub AllValid-set :
    (ws : List DevWin) (i : ℕ) (w : DevWin) → IsValid w → AllValid ws → AllValid (set ws i w)
AllValid-set [] i w v a = tt
AllValid-set (x ∷ ws) zero w v a = (v, a.1)
AllValid-set (x ∷ ws) (suc i) w v a = (a.0, AllValid-set ws i w v a.1)

pub AllValid-get :
    (ws : List DevWin) (i : ℕ) (w : DevWin) → get_elem? ws i ≡ some w → AllValid ws → IsValid w
AllValid-get [] i w e a = cc
AllValid-get (x ∷ ws) zero w e a = subst IsValid (some-injective x w e) a.0
AllValid-get (x ∷ ws) (suc i) w e a = AllValid-get ws i w e a.1
