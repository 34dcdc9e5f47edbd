-- ===== src/Diag/Window.antt =====
-- src/modules/diag/engine.c, the device windows: a ring of recent events for each device, and the
-- table of devices. Events, windows and timestamps are as in the source; an array is its contents
-- by index, and the modules below prove that each index is in range.
pub mod States
pub mod Recent
pub mod Table
pub mod Recycle
pub mod Fades
use usbtrace.Common.{
  ℕ, zero, suc, ◌+◌, ◌-◌, ◌%◌, ◌*◌, Bool, true, false, List, [], ◌∷◌, Option, none, some,
  if◌then◌else◌, ◌&&◌, ltb, fill, update, set,
}
use usbtrace.Diag.Event.{DiagEvent, zero_event, DevKey, key_eq}

abbrev pub win_max_devs : ℕ
win_max_devs = 128

abbrev pub win_max_events : ℕ
win_max_events = 1024

abbrev pub retention_ns : ℕ
retention_ns = 10000000000

abbrev pub cooldown_ns : ℕ
cooldown_ns = 2000000000

abbrev pub max_evidence : ℕ
max_evidence = 6

-- `struct devwin`.
pub record DevWin : Type 0 where
  pub used : Bool
  pub key : DevKey
  pub vid : ℕ
  pub product : ℕ
  pub last_seen_ns : ℕ
  pub ev : ℕ → DiagEvent  -- win_max_events entries
  pub head : ℕ
  pub count : ℕ
  pub seen_states : ℕ  -- uint16_t, a bit for each state
  pub state_ts : ℕ → ℕ  -- 9 entries
  pub last_fire_ns : ℕ → ℕ  -- diag_max_rules entries
  pub dl_fired : ℕ → Bool  -- diag_max_rules entries

-- A slot of zeroed memory.
unfoldable pub zero_win : DevWin
unfolding zero_event
zero_win = record {
  used = false;
  key = record { busnum = 0; devnum = 0 };
  vid = 0;
  product = 0;
  last_seen_ns = 0;
  ev = fill zero_event;
  head = 0;
  count = 0;
  seen_states = 0;
  state_ts = fill 0;
  last_fire_ns = fill 0;
  dl_fired = fill false;
}

-- What `win_get` writes to a slot that it takes: `memset`, `used = 1`, `key = *k`.
unfoldable pub fresh_win : DevKey → DevWin
unfolding zero_win
fresh_win k = record zero_win { used = true; key = k }

-- The first loop of `win_get`: the index of the slot that holds the key.
unfoldable pub find_key : List DevWin → DevKey → Option ℕ
find_key [] k = none
find_key (w ∷ ws) k =
    let rest = find_key ws k in
    if w.used && key_eq w.key k then some 0 else elim rest [ none ↦ none | some i ↦ some (suc i) ]

-- A slot and its `last_seen_ns`, the `lru` of `win_get`.
pub record Oldest : Type 0 where
  pub slot : ℕ
  pub seen_ns : ℕ

-- One round of the second loop: is this slot older than `lru`?
abbrev pub older : ℕ → DevWin → Option Oldest → Option Oldest
older i w none = some (record { slot = i; seen_ns = w.last_seen_ns })
older i w (some o) =
    some
      (if ltb w.last_seen_ns o.seen_ns then (record { slot = i; seen_ns = w.last_seen_ns }) else o)

abbrev pub slot_of : Option Oldest → Option ℕ
slot_of none = none
slot_of (some o) = some o.slot

-- The second loop of `win_get`, from slot `i` on: the first free slot, else the least recently
-- seen one. `none` is the NULL that an empty table would leave in `lru`.
unfoldable pub pick_slot : ℕ → Option Oldest → List DevWin → Option ℕ
pick_slot i lru [] = slot_of lru
pick_slot i lru (w ∷ ws) =
    let rest = pick_slot (suc i) (older i w lru) ws in if w.used then rest else some i

-- `win_get`: the slot that it returns, and the table.
unfoldable pub win_get : List DevWin → DevKey → Bool → Option ℕ × List DevWin
unfolding find_key pick_slot fresh_win
win_get devs k create = elim (find_key devs k) [
  | some i ↦ (some i, devs)
  | none ↦
      if create
      then elim (pick_slot 0 none devs) [
        | none ↦ (none, devs)
        | some i ↦ (some i, set devs i (fresh_win k))
      ]
      else (none, devs)
]

-- `win_push`.
unfoldable pub win_push : DevWin → DiagEvent → DevWin
win_push w e = record w {
  ev = update w.ev w.head e;
  head = (w.head + 1) % win_max_events;
  count = if ltb w.count win_max_events then w.count + 1 else w.count;
}

-- The `pos` of `win_at`: `head - 1 - idx + 2 * WIN_MAX_EVENTS`, which is not negative.
abbrev pub win_pos : ℕ → ℕ → ℕ
win_pos head idx = (head + 2 * win_max_events - 1 - idx) % win_max_events

-- `win_at`: the event of age `idx`, 0 for the newest.
unfoldable pub win_at : DevWin → ℕ → DiagEvent
win_at w idx = w.ev (win_pos w.head idx)
