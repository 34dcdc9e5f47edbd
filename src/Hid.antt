-- ===== src/Hid.antt =====
-- src/modules/hid/hid.c: the report-rate meter. The module's static variables are a state record;
-- a printed rate line is an entry of its output. Timestamps and counters are 64-bit unless noted.
pub mod Slots
pub mod Intervals
mod Tests
use usbtrace.Common.{
  ℕ, zero, suc, ◌+◌, ◌*◌, Bool, true, false, List, [], ◌∷◌, ◌++◌, Option, none, some, if◌then◌else◌,
  ◌&&◌, ◌||◌, not, ltb, leb, ◌==◌, length, get_elem?, set, codes, map,
}
use usbtrace.Common.Int.{pos}
use usbtrace.Common.Word.{u32, u64, sub_u64, ◌==ℤ◌}
use usbtrace.Records.{ClassUrbEvent, evt_class, class_hid, size_of_class_urb_event}

abbrev pub rate_slots : ℕ
rate_slots = 16

abbrev pub rate_gap_ns : ℕ
rate_gap_ns = 50000000

-- `enum hid_role`.
pub data Role : Type 0 where
  role_unk role_mouse role_kbd : Role

-- `struct hid_rate_slot`. The fields named `_iv_ns` for a minimum or maximum, and the `len_` votes,
-- are 32 bits wide.
pub record Slot : Type 0 where
  pub busnum : ℕ
  pub devnum : ℕ
  pub ep : ℕ
  pub role : Role
  pub vid : ℕ
  pub product : ℕ
  pub last_ts_ns : ℕ
  pub win_count : ℕ
  pub win_iv_count : ℕ
  pub win_sum_iv_ns : ℕ
  pub win_min_iv_ns : ℕ
  pub win_max_iv_ns : ℕ
  pub win_gaps : ℕ
  pub total_count : ℕ
  pub total_iv_count : ℕ
  pub total_sum_iv_ns : ℕ
  pub total_min_iv_ns : ℕ
  pub total_max_iv_ns : ℕ
  pub total_gaps : ℕ
  pub err_urbs : ℕ
  pub len_mouse : ℕ
  pub len_kbd : ℕ
  pub len_other : ℕ

-- A rate line: the slot as it was printed, and the length of the window.
pub record RateLine : Type 0 where
  pub slot : Slot
  pub win_ns : ℕ

-- The static variables: `g_rate`, `g_rate_sec`, `g_slots` up to `g_nslots`, `g_window_start_ns`.
pub record Meter : Type 0 where
  pub rate : Bool
  pub rate_sec : ℕ
  pub slots : List Slot
  pub window_start_ns : ℕ
  pub lines : List RateLine

-- `rate_window_ns`.
abbrev pub rate_window_ns : Meter → ℕ
rate_window_ns m = u64 (m.rate_sec * 1000000000)

-- `role_str`.
unfoldable pub role_str : Role → List ℕ
role_str role_mouse = codes "mouse"
role_str role_kbd = codes "kbd"
role_str role_unk = codes "hid"

-- The slot that `slot_get` makes: zeroed, with the endpoint's address.
unfoldable pub fresh_slot : ℕ → ℕ → ℕ → ℕ → ℕ → Slot
fresh_slot bus dev ep vid product = record {
  busnum = bus;
  devnum = dev;
  ep = ep;
  role = role_unk;
  vid = vid;
  product = product;
  last_ts_ns = 0;
  win_count = 0;
  win_iv_count = 0;
  win_sum_iv_ns = 0;
  win_min_iv_ns = 0;
  win_max_iv_ns = 0;
  win_gaps = 0;
  total_count = 0;
  total_iv_count = 0;
  total_sum_iv_ns = 0;
  total_min_iv_ns = 0;
  total_max_iv_ns = 0;
  total_gaps = 0;
  err_urbs = 0;
  len_mouse = 0;
  len_kbd = 0;
  len_other = 0;
}

-- The test of the loop of `slot_get`.
abbrev pub is_slot_of : ℕ → ℕ → ℕ → Slot → Bool
is_slot_of bus dev ep s = s.busnum == bus && (s.devnum == dev && s.ep == ep)

-- The loop of `slot_get`: the index of the endpoint's slot.
unfoldable pub find_slot : List Slot → ℕ → ℕ → ℕ → Option ℕ
find_slot [] bus dev ep = none
find_slot (s ∷ ss) bus dev ep =
    let rest = find_slot ss bus dev ep in
    if is_slot_of bus dev ep s then some 0 else elim rest [ none ↦ none | some i ↦ some (suc i) ]

-- `slot_get`: the slot's index, and the slots. `none` is NULL: all slots are taken.
unfoldable pub slot_get : List Slot → ℕ → ℕ → ℕ → ℕ → ℕ → Option ℕ × List Slot
slot_get ss bus dev ep vid product = elim (find_slot ss bus dev ep) [
  | some i ↦ (some i, ss)
  | none ↦
      if leb rate_slots (length ss)
      then (none, ss)
      else (some (length ss), ss ++ (fresh_slot bus dev ep vid product ∷ []))
]

-- The vote of a report's length.
unfoldable pub vote : Slot → ℕ → Slot
vote s len =
    if len == 4
    then record s { len_mouse = u32 (s.len_mouse + 1) }
    else if len == 8 || (len == 9 || len == 17)
    then record s { len_kbd = u32 (s.len_kbd + 1) }
    else record s { len_other = u32 (s.len_other + 1) }

abbrev pub is_known : Role → Bool
is_known role_unk = false
is_known role_mouse = true
is_known role_kbd = true

-- The sticky classification of a slot after the vote.
unfoldable pub classify : Slot → Slot
classify s =
    if is_known s.role
    then s
    else if ltb (u32 (s.len_mouse + s.len_kbd + s.len_other)) 8
    then s
    else if leb s.len_kbd s.len_mouse && leb s.len_other s.len_mouse
    then record s { role = role_mouse }
    else if leb s.len_other s.len_kbd
    then record s { role = role_kbd }
    else s

-- `slot_note_len`.
unfoldable pub slot_note_len : Slot → ℕ → Slot
unfolding vote classify
slot_note_len s len = classify (vote s len)

-- `slot_note_interval`. The assignments to the 32-bit fields truncate.
unfoldable pub slot_note_interval : Slot → ℕ → Slot
slot_note_interval s iv =
    if iv == 0
    then s
    else if ltb rate_gap_ns iv
    then record s { win_gaps = u64 (s.win_gaps + 1); total_gaps = u64 (s.total_gaps + 1) }
    else record s {
      win_iv_count = u64 (s.win_iv_count + 1);
      total_iv_count = u64 (s.total_iv_count + 1);
      win_sum_iv_ns = u64 (s.win_sum_iv_ns + iv);
      total_sum_iv_ns = u64 (s.total_sum_iv_ns + iv);
      win_min_iv_ns =
          if s.win_min_iv_ns == 0 || ltb iv s.win_min_iv_ns then u32 iv else s.win_min_iv_ns;
      win_max_iv_ns = if ltb s.win_max_iv_ns iv then u32 iv else s.win_max_iv_ns;
      total_min_iv_ns =
          if s.total_min_iv_ns == 0 || ltb iv s.total_min_iv_ns then u32 iv else s.total_min_iv_ns;
      total_max_iv_ns = if ltb s.total_max_iv_ns iv then u32 iv else s.total_max_iv_ns;
    }

-- `print_rate_line` for a window of positive length: an endpoint with no report prints nothing.
unfoldable pub rate_lines : List Slot → ℕ → List RateLine
rate_lines [] win_ns = []
rate_lines (s ∷ ss) win_ns =
    let rest = rate_lines ss win_ns in
    if s.win_count == 0 then rest else record { slot = s; win_ns = win_ns } ∷ rest

-- What `rate_flush_window` resets of a slot.
unfoldable pub clear_window : Slot → Slot
clear_window s = record s {
  win_count = 0;
  win_iv_count = 0;
  win_sum_iv_ns = 0;
  win_min_iv_ns = 0;
  win_max_iv_ns = 0;
  win_gaps = 0;
}

-- `rate_flush_window`. The final window is dropped where `win_s < 0.25 * g_rate_sec`: with `win_ns`
-- in nanoseconds, where `4 * win_ns < g_rate_sec * 10^9`.
unfoldable pub rate_flush_window : Meter → ℕ → Bool → Meter
unfolding rate_lines clear_window
rate_flush_window m now_ns final =
    let win_ns = sub_u64 now_ns m.window_start_ns in
    if m.window_start_ns == 0 || leb now_ns m.window_start_ns
    then m
    else if final && ltb (4 * win_ns) (m.rate_sec * 1000000000)
    then m
    else record m {
      slots = map clear_window m.slots;
      window_start_ns = now_ns;
      lines = m.lines ++ rate_lines m.slots win_ns;
    }

-- `rate_on_in`, what it does to the slot of a successful report.
unfoldable pub note_report : Slot → ClassUrbEvent → Slot
unfolding slot_note_len slot_note_interval
note_report s e =
    let ts = e.hdr.ts_ns in
    let s1 = slot_note_len s e.actual_length in
    let s2 =
      if not (s1.last_ts_ns == 0) && ltb s1.last_ts_ns ts
      then slot_note_interval s1 (sub_u64 ts s1.last_ts_ns)
      else s1 in
    record s2 {
      last_ts_ns = ts;
      win_count = u64 (s2.win_count + 1);
      total_count = u64 (s2.total_count + 1);
    }

-- The end of `rate_on_in`: the first report opens the window, and a full window is flushed.
unfoldable pub advance_window : Meter → ℕ → Meter
unfolding rate_flush_window
advance_window m ts =
    let m' = if m.window_start_ns == 0 then record m { window_start_ns = ts } else m in
    if leb (rate_window_ns m') (sub_u64 ts m'.window_start_ns)
    then rate_flush_window m' ts false
    else m'

-- `rate_on_in` on the slot that `slot_get` returned.
unfoldable pub report_at : Meter → ClassUrbEvent → ℕ → Meter
report_at m e i = elim (get_elem? m.slots i) [
  | none ↦ m
  | some s ↦
      if not (e.status ==ℤ pos 0)
      then record m { slots = set m.slots i (record s { err_urbs = u64 (s.err_urbs + 1) }) }
      else advance_window (record m { slots = set m.slots i (note_report s e) }) e.hdr.ts_ns
]

-- `rate_on_in`.
unfoldable pub rate_on_in : Meter → ClassUrbEvent → Meter
rate_on_in m e =
    if not m.rate || e.dir_in == 0
    then m
    else (let (slot, slots) = slot_get m.slots e.busnum e.devnum e.ep e.vid e.product in
        elim slot [ none ↦ m | some i ↦ report_at (record m { slots = slots }) e i ])

-- The meter's part of `hid_on_event`, for the `len` bytes at `data`.
unfoldable pub hid_on_event : Meter → ClassUrbEvent → ℕ → Meter
hid_on_event m e len =
    if leb size_of_class_urb_event len && (e.hdr.kind == evt_class && e.klass == class_hid)
    then rate_on_in m e
    else m

-- The loop of `hid_on_stop`: the time of the last report.
unfoldable pub last_report : List Slot → ℕ → ℕ
last_report [] now = now
last_report (s ∷ ss) now = last_report ss (if ltb now s.last_ts_ns then s.last_ts_ns else now)

-- The meter's part of `hid_on_stop`: the partial last window is flushed.
unfoldable pub hid_on_stop : Meter → Meter
unfolding last_report
hid_on_stop m =
    let now = last_report m.slots 0 in
    if m.rate && not (m.window_start_ns == 0)
    then (if ltb m.window_start_ns now then rate_flush_window m now true else m)
    else m
