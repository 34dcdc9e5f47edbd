-- ===== src/Diag/Window/Table.antt =====
-- The table of devices: a device that is seen has a window, no device has two, and the slot that
-- is recycled is the least recently seen one.
use usbtrace.Common.{
  ℕ, zero, suc, ◌+◌, ◌<◌, ◌≤◌, ◌≡◌, refl, ap, inl, inr, List, [], ◌∷◌, arith, Bool, true, false,
  Option, none, some, length, set, Bool-cases, Option-cases, ◌&&◌, length-set, ltb, if◌then◌else◌,
}
use usbtrace.Diag.Event.{DevKey, key_eq}
use usbtrace.Diag.Window.{DevWin, Oldest, older, find_key, pick_slot, win_get, fresh_win}

-- The window is in use for the key.
abbrev pub serves : DevWin → DevKey → Bool
serves w k = w.used && key_eq w.key k

-- No window of the list is in use for the key.
abbrev pub Absent : DevKey → List DevWin → Type 0
Absent k [] = Unit {0}
Absent k (w ∷ ws) = (serves w k ≡ false) × Absent k ws

-- No two windows are in use for one key.
abbrev pub Distinct : List DevWin → Type 0
Distinct [] = Unit {0}
Distinct (w ∷ ws) = (w.used ≡ true → Absent w.key ws) × Distinct ws

-- Slot `i` is in use for the key.
abbrev pub Holds : DevKey → List DevWin → ℕ → Type 0
Holds k [] i = ⊥
Holds k (w ∷ ws) zero = serves w k ≡ true
Holds k (w ∷ ws) (suc i) = Holds k ws i

abbrev pub AllUsed : List DevWin → Type 0
AllUsed [] = Unit {0}
AllUsed (w ∷ ws) = (w.used ≡ true) × AllUsed ws

-- No window was seen before `t`.
abbrev pub SeenSince : ℕ → List DevWin → Type 0
SeenSince t [] = Unit {0}
SeenSince t (w ∷ ws) = (t ≤ w.last_seen_ns) × SeenSince t ws

pub find_key-Absent : (ws : List DevWin) (k : DevKey) → find_key ws k ≡ none → Absent k ws
unfolding find_key
find_key-Absent [] k h = tt
find_key-Absent (w ∷ ws) k h = ground (arith, find_key-Absent ws k)

pub find_key-Holds : (ws : List DevWin) (k : DevKey) (i : ℕ) → find_key ws k ≡ some i → Holds k ws i
unfolding find_key
find_key-Holds [] k i h = cc
find_key-Holds (w ∷ ws) k zero h = ground arith
find_key-Holds (w ∷ ws) k (suc i) h = find_key-Holds ws k i (ground arith)

pub lt_of_Holds : (ws : List DevWin) (k : DevKey) (i : ℕ) → Holds k ws i → i < length ws
lt_of_Holds [] k i h = absurd h
lt_of_Holds (w ∷ ws) k zero h = omega arith
lt_of_Holds (w ∷ ws) k (suc i) h = omega (arith, lt_of_Holds ws k i h)

serves-fresh_win : (k : DevKey) → serves (fresh_win k) k ≡ true
unfolding fresh_win
serves-fresh_win k = ground arith

Holds-set :
    (ws : List DevWin) (k : DevKey) (i : ℕ) → i < length ws → Holds k (set ws i (fresh_win k)) i
Holds-set [] k i h = elim h [ ]
Holds-set (w ∷ ws) k zero h = serves-fresh_win k
Holds-set (w ∷ ws) k (suc i) h = Holds-set ws k i (omega arith)

-- Another device stays absent when a slot is written for `k`.
Absent-set :
    (ws : List DevWin) (k j : DevKey) (i : ℕ)
    → serves (fresh_win k) j ≡ false
    → Absent j ws
    → Absent j (set ws i (fresh_win k))
Absent-set [] k j i n h = tt
Absent-set (w ∷ ws) k j zero n h = (n, h.1)
Absent-set (w ∷ ws) k j (suc i) n h = (h.0, Absent-set ws k j i n h.1)

-- A slot that serves no `k` has another key than a fresh window for `k`.
serves-fresh_win_other :
    (w : DevWin) (k : DevKey)
    → w.used ≡ true
    → serves w k ≡ false
    → serves (fresh_win k) w.key ≡ false
unfolding fresh_win
serves-fresh_win_other w k u h = ground arith

Absent-fresh : (ws : List DevWin) (k : DevKey) → Absent k ws → Absent (fresh_win k).key ws
unfolding fresh_win
Absent-fresh ws k h = h

pub Distinct-set :
    (ws : List DevWin) (k : DevKey) (i : ℕ)
    → Absent k ws
    → Distinct ws
    → Distinct (set ws i (fresh_win k))
Distinct-set [] k i a d = tt
Distinct-set (w ∷ ws) k zero a d = ((λ _. Absent-fresh ws k a.1), d.1)
Distinct-set (w ∷ ws) k (suc i) a d = (
  (λ u. Absent-set ws k w.key i (serves-fresh_win_other w k u a.0) (d.0 u)),
  Distinct-set ws k i a.1 d.1,
)

-- The slot that the loop has settled on lies below `n`.
abbrev Below : ℕ → Option Oldest → Type 0
Below n none = Unit {0}
Below n (some o) = o.slot < n

older-Below :
    (i : ℕ) (w : DevWin) (lru : Option Oldest) (n : ℕ)
    → i < n
    → Below n lru
    → Below n (older i w lru)
older-Below i w none n h b = h
older-Below i w (some o) n h b = ground arith

-- The loop ends with a slot of the table, if it is not empty.
pick_slot_bounds :
    (ws : List DevWin) (i n : ℕ) (lru : Option Oldest)
    → i + length ws ≤ n
    → Below n lru
    → (j : ℕ) → pick_slot i lru ws ≡ some j
    → j < n
unfolding pick_slot
pick_slot_bounds [] i n none h b j e = cc
pick_slot_bounds [] i n (some o) h b j e = ground arith
pick_slot_bounds (w ∷ ws) i n lru h b j e = ground (
  arith,
  pick_slot_bounds ws (suc i) n (older i w lru) (omega arith)
      (older-Below i w lru n (omega arith) b) j,
)

-- From a candidate on, the loop finds a slot.
pick_slot-some :
    (ws : List DevWin) (i : ℕ) (o : Oldest) → (j : ℕ) × (pick_slot i (some o) ws ≡ some j)
unfolding pick_slot
pick_slot-some [] i o = (o.slot, refl)
pick_slot-some (w ∷ ws) i o =
    let (j, e) =
      pick_slot-some ws (suc i) (
        if ltb w.last_seen_ns o.seen_ns
        then record { slot = i; seen_ns = w.last_seen_ns }
        else o) in
    elim (Bool-cases w.used) [ inl u ↦ (j, rw u e) | inr u ↦ (i, rw u) ]

-- In a table that is not empty a new device gets a slot of the table.
pick_slot_total :
    (ws : List DevWin) → 0 < length ws → (j : ℕ) × (pick_slot 0 none ws ≡ some j) × (j < length ws)
unfolding pick_slot
pick_slot_total [] h = elim h [ ]
pick_slot_total (w ∷ ws) h =
    let (j, e) = pick_slot-some ws 1 (record { slot = 0; seen_ns = w.last_seen_ns }) in
    elim (Bool-cases w.used) [
      | inl u ↦ (
        j,
        rw u e,
        pick_slot_bounds (w ∷ ws) 0 (length (w ∷ ws)) none (omega arith) tt j (rw u e),
      )
      | inr u ↦ (0, rw u, omega arith)
    ]

-- What `win_get` promises of a table when it may create a window.
pub record Gets (devs : List DevWin) (k : DevKey) (i : ℕ) : Type 0 where
  pub found : (win_get devs k true).0 ≡ some i
  pub holds : Holds k (win_get devs k true).1 i
  pub distinct : Distinct (win_get devs k true).1
  pub same_size : length (win_get devs k true).1 ≡ length devs

pub win_get_known :
    (devs : List DevWin) (k : DevKey) (i : ℕ) (create : Bool)
    → find_key devs k ≡ some i
    → win_get devs k create ≡ (some i, devs)
unfolding win_get
win_get_known devs k i create e = ground arith

pub win_get_new :
    (devs : List DevWin) (k : DevKey) (i : ℕ)
    → find_key devs k ≡ none
    → pick_slot 0 none devs ≡ some i
    → win_get devs k true ≡ (some i, set devs i (fresh_win k))
unfolding win_get
win_get_new devs k i e p = ground arith

pub win_get_full :
    (devs : List DevWin) (k : DevKey)
    → find_key devs k ≡ none
    → pick_slot 0 none devs ≡ none
    → win_get devs k true ≡ (none, devs)
unfolding win_get
win_get_full devs k e p = ground arith

-- `win_get` with `create` finds or makes the one window of the device, and keeps the table's size
-- and that no device has two windows.
pub win_get_lem :
    (devs : List DevWin) (k : DevKey)
    → 0 < length devs
    → Distinct devs
    → (i : ℕ) × (i < length devs) × Gets devs k i
win_get_lem devs k h d = elim (Option-cases (find_key devs k)) [
  | inl e ↦
      let (i, p, b) = pick_slot_total devs h in
      let r = win_get_new devs k i e p in
      (
        i,
        b,
        record {
          found = ap (λ x. x.0) r;
          holds = rw r (Holds-set devs k i b);
          distinct = rw r (Distinct-set devs k i (find_key-Absent devs k e) d);
          same_size = rw r (length-set devs i (fresh_win k));
        },
      )
  | inr (i, e) ↦
      let r = win_get_known devs k i true e in
      let here = find_key-Holds devs k i e in
      (
        i,
        lt_of_Holds devs k i here,
        record {
          found = ap (λ x. x.0) r;
          holds = rw r here;
          distinct = rw r d;
          same_size = ap (λ x. length x.1) r;
        },
      )
]
