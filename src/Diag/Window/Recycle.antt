-- ===== src/Diag/Window/Recycle.antt =====
-- Which slot `win_get` takes for a new device: a free one, else the least recently seen one.
use usbtrace.Common.{
  ℕ, zero, suc, ◌+◌, ◌<◌, ◌≤◌, ◌≡◌, refl, sym, ap, ◌∙◌, inl, inr, List, [], ◌∷◌, arith, true, false,
  Option, none, some, length, get_elem?, ltb, if◌then◌else◌, Bool-cases,
}
use usbtrace.Diag.Event.{DevKey}
use usbtrace.Diag.Window.{DevWin, Oldest, older, find_key, pick_slot, win_get}
use usbtrace.Diag.Window.Table.{AllUsed, SeenSince, win_get_new}
use native.Mathlib.Nat.{le_trans, add-zero, zero-add}
use usbtrace.Diag.Window.{older}

-- The older of a candidate and the window of slot `i`.
abbrev elder : ℕ → DevWin → Oldest → Oldest
elder i w o =
    if ltb w.last_seen_ns o.seen_ns then record { slot = i; seen_ns = w.last_seen_ns } else o

elder_bounds :
    (i : ℕ) (w : DevWin) (o : Oldest)
    → ((elder i w o).seen_ns ≤ o.seen_ns) × ((elder i w o).seen_ns ≤ w.last_seen_ns)
elder_bounds i w o = ground arith

-- The slot that the second loop ends with when no slot is free.
oldest_from : ℕ → Oldest → List DevWin → Oldest
oldest_from i o [] = o
oldest_from i o (w ∷ ws) = oldest_from (suc i) (elder i w o) ws

pick_slot-AllUsed :
    (ws : List DevWin) (i : ℕ) (o : Oldest)
    → AllUsed ws
    → pick_slot i (some o) ws ≡ some (oldest_from i o ws).slot
unfolding pick_slot oldest_from
pick_slot-AllUsed [] i o u = refl
pick_slot-AllUsed (w ∷ ws) i o u = rw u.0 (pick_slot-AllUsed ws (suc i) (elder i w o) u.1)

-- Its time is no later than that of the candidate, nor of any window of the list.
oldest_from-SeenSince :
    (ws : List DevWin) (i : ℕ) (o : Oldest)
    → ((oldest_from i o ws).seen_ns ≤ o.seen_ns) × SeenSince (oldest_from i o ws).seen_ns ws
unfolding oldest_from
oldest_from-SeenSince [] i o = (omega arith, tt)
oldest_from-SeenSince (w ∷ ws) i o =
    let (below, rest) = oldest_from-SeenSince ws (suc i) (elder i w o) in
    let (old, here) = elder_bounds i w o in (le_trans below old, (le_trans below here, rest))

-- Slot `i` of the table was last seen at `t`.
abbrev pub SeenAt : List DevWin → ℕ → ℕ → Type 0
SeenAt ws i t = (w : DevWin) × (get_elem? ws i ≡ some w) × (w.last_seen_ns ≡ t)

elder-SeenAt :
    (table : List DevWin) (w : DevWin) (i : ℕ) (o : Oldest)
    → get_elem? table i ≡ some w
    → SeenAt table o.slot o.seen_ns
    → SeenAt table (elder i w o).slot (elder i w o).seen_ns
elder-SeenAt table w i o e h = elim (Bool-cases (ltb w.last_seen_ns o.seen_ns)) [
  | inl t ↦ rw t (w, e, refl)
  | inr t ↦ rw t h
]

-- The slot is that of a window of the table, at the window's time.
oldest_from-SeenAt :
    (table ws : List DevWin) (i : ℕ) (o : Oldest)
    → ((p : ℕ) → get_elem? table (i + p) ≡ get_elem? ws p)
    → SeenAt table o.slot o.seen_ns
    → SeenAt table (oldest_from i o ws).slot (oldest_from i o ws).seen_ns
unfolding oldest_from
oldest_from-SeenAt table [] i o n h = h
oldest_from-SeenAt table (w ∷ ws) i o n h =
    oldest_from-SeenAt table ws (suc i) (elder i w o)
      (λ p. ap (get_elem? table) (shift p) ∙ n (suc p))
      (elder-SeenAt table w i o (ap (get_elem? table) (sym (add-zero i)) ∙ n 0) h)
  where
    shift : (p : ℕ) → suc i + p ≡ i + suc p
    shift p = omega arith

-- A new device in a table with no free slot takes over a slot whose device was seen no later than
-- any other.
pub win_get_recycles :
    (devs : List DevWin) (k : DevKey)
    → 0 < length devs
    → AllUsed devs
    → find_key devs k ≡ none
    → (i t : ℕ) × ((win_get devs k true).0 ≡ some i) × SeenAt devs i t × SeenSince t devs
unfolding pick_slot
win_get_recycles [] k h u e = elim h [ ]
win_get_recycles (w ∷ ws) k h u e =
    let first : Oldest = record { slot = 0; seen_ns = w.last_seen_ns } in
    let (below, rest) = oldest_from-SeenSince ws 1 first in
    let last = oldest_from 1 first ws in
    (
      last.slot,
      last.seen_ns,
      ap (λ x. x.0)
          (win_get_new (w ∷ ws) k last.slot e (rw u.0 (pick_slot-AllUsed ws 1 first u.1))),
      oldest_from-SeenAt (w ∷ ws) ws 1 first (λ p. ap (get_elem? (w ∷ ws)) (one p)) (w, refl, refl),
      (below, rest),
    )
  where
    one : (p : ℕ) → 1 + p ≡ suc p
    one p = omega arith

-- A free slot is taken before any device is dropped.
abbrev pub Free : List DevWin → ℕ → Type 0
Free [] i = ⊥
Free (w ∷ ws) zero = w.used ≡ false
Free (w ∷ ws) (suc i) = Free ws i

pick_slot-Free :
    (ws : List DevWin) (i : ℕ) (lru : Option Oldest) (f : ℕ)
    → Free ws f
    → (j : ℕ) × (pick_slot i lru ws ≡ some (i + j)) × Free ws j
unfolding pick_slot
pick_slot-Free [] i lru f h = absurd h
pick_slot-Free (w ∷ ws) i lru zero h = (0, rw h (ap some (sym (add-zero i))), h)
pick_slot-Free (w ∷ ws) i lru (suc f) h = elim (Bool-cases w.used) [
  | inl u ↦
      let (j, e, q) = pick_slot-Free ws (suc i) (older i w lru) f h in
      (suc j, rw u (e ∙ ap some (shift j)), q)
  | inr u ↦ (0, rw u (ap some (sym (add-zero i))), u)
]
  where
    shift : (p : ℕ) → suc i + p ≡ i + suc p
    shift p = omega arith

-- A new device in a table with a free slot takes a free slot.
pub win_get_takes-Free :
    (devs : List DevWin) (k : DevKey) (f : ℕ)
    → Free devs f
    → find_key devs k ≡ none
    → (i : ℕ) × ((win_get devs k true).0 ≡ some i) × Free devs i
win_get_takes-Free devs k f h e =
    let (j, p, q) = pick_slot-Free devs 0 none f h in
    (j, ap (λ x. x.0) (win_get_new devs k j e (p ∙ ap some (zero-add j))), q)
