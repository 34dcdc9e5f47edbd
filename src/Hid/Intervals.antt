-- ===== src/Hid/Intervals.antt =====
-- hid.c: the statistics of the report intervals.
use usbtrace.Common.{
  ℕ, zero, suc, ◌+◌, ◌*◌, ◌^◌, ◌≤◌, ◌<◌, ◌≡◌, refl, Bool, true, false, if◌then◌else◌, ltb, leb,
  ◌==◌, ◌||◌, arith, Bool-cases, inl, inr, not, ◌&&◌,
}
use usbtrace.Common.Word.{u32, u64, sub_u64}
use usbtrace.Records.{ClassUrbEvent}
use usbtrace.Hid.{
  Slot, slot_note_interval, rate_gap_ns, slot_note_len, vote, classify, note_report, is_known,
}

-- A count, sum, minimum and maximum that agree: every counted interval lies between the minimum and
-- the maximum, of which the first is positive and the second at most 50 ms.
pub record Agree (count sum low high : ℕ) : Type 0 where
  pub above : count * low ≤ sum
  pub below : sum ≤ count * high
  pub gap : high ≤ 50000000
  pub empty : count ≡ 0 → (low ≡ 0) × (high ≡ 0)
  pub positive : 0 < count → 0 < low

-- A new minimum, and a new maximum.
abbrev lower : ℕ → ℕ → ℕ
lower low iv = if low == 0 || ltb iv low then iv else low

abbrev higher : ℕ → ℕ → ℕ
higher high iv = if ltb high iv then iv else high

mul_mono : (n a b : ℕ) → a ≤ b → n * a ≤ n * b
mul_mono zero a b h = omega arith
mul_mono (suc n) a b h = omega (arith, mul_mono n a b h)

above_step :
    (n sum low iv x : ℕ) → suc n * low ≤ sum → x ≤ low → x ≤ iv → (suc n + 1) * x ≤ sum + iv
above_step n sum low iv x h p q = omega (arith, mul_mono (suc n) x low p)

below_step :
    (n sum high iv x : ℕ) → sum ≤ suc n * high → high ≤ x → iv ≤ x → sum + iv ≤ (suc n + 1) * x
below_step n sum high iv x h p q = omega (arith, mul_mono (suc n) high x p)

-- One more interval, positive and at most 50 ms long.
Agree-add :
    (count sum low high iv : ℕ)
    → Agree count sum low high
    → 0 < iv
    → iv ≤ 50000000
    → Agree (count + 1) (sum + iv) (lower low iv) (higher high iv)
Agree-add zero sum low high iv h p q =
    let (z, w) = h.empty refl in
    record {
      above = ground (arith, h.above, h.below, z, w);
      below = ground (arith, h.above, h.below, z, w);
      gap = ground (arith, h.gap);
      empty = λ e. ground arith;
      positive = λ _. ground arith;
    }
Agree-add (suc n) sum low high iv h p q = record {
  above =
      above_step n sum low iv (lower low iv) h.above (ground (arith, h.positive (omega arith)))
        (ground arith);
  below = below_step n sum high iv (higher high iv) h.below (ground arith) (ground arith);
  gap = ground (arith, h.gap);
  empty = λ e. ground arith;
  positive = λ _. ground (arith, h.positive (omega arith));
}

-- The two statistics of a slot, of its window and of the whole run.
pub record IntervalsAgree (s : Slot) : Type 0 where
  pub in_window : Agree s.win_iv_count s.win_sum_iv_ns s.win_min_iv_ns s.win_max_iv_ns
  pub in_total : Agree s.total_iv_count s.total_sum_iv_ns s.total_min_iv_ns s.total_max_iv_ns

-- Room for one more interval in the 64-bit sums.
pub record HasRoom (s : Slot) : Type 0 where
  pub window_room : s.win_sum_iv_ns + 50000000 < 2 ^ 64
  pub total_room : s.total_sum_iv_ns + 50000000 < 2 ^ 64

-- There are no more intervals than nanoseconds in them.
count_le_sum : (count sum low high : ℕ) → Agree count sum low high → count ≤ sum
count_le_sum zero sum low high h = omega arith
count_le_sum (suc n) sum low high h =
    omega (arith, mul_mono (suc n) 1 low (h.positive (omega arith)), h.above)

-- What the C statements assign, in terms of the sums and the extremes without a wrap.
Agree-stored :
    (count sum low high iv : ℕ)
    → Agree count sum low high
    → 0 < iv
    → iv ≤ 50000000
    → sum + 50000000 < 2 ^ 64
    → Agree
        (u64 (count + 1))
        (u64 (sum + iv))
        (if low == 0 || ltb iv low then u32 iv else low)
        (if ltb high iv then u32 iv else high)
Agree-stored count sum low high iv h p q r =
    let c : u64 (count + 1) ≡ count + 1 = omega (arith, count_le_sum count sum low high h) in
    let t : u64 (sum + iv) ≡ sum + iv = omega arith in
    let i : u32 iv ≡ iv = omega arith in rw (c, t, i) (Agree-add count sum low high iv h p q)

slot_note_interval-IntervalsAgree :
    (s : Slot) (iv : ℕ) → IntervalsAgree s → HasRoom s → IntervalsAgree (slot_note_interval s iv)
unfolding slot_note_interval
slot_note_interval-IntervalsAgree s iv h r = elim (Bool-cases (iv == 0)) [
  | inl e ↦ rw e h
  | inr e ↦ rw e elim (Bool-cases (ltb rate_gap_ns iv)) [
    | inl g ↦ rw g record { in_window = h.in_window; in_total = h.in_total }
    | inr g ↦ rw g record {
      in_window = Agree-stored _ _ _ _ iv h.in_window (ground arith) (ground arith) r.window_room;
      in_total = Agree-stored _ _ _ _ iv h.in_total (ground arith) (ground arith) r.total_room;
    }
  ]
]

-- Both, of the statistics of a slot.
Counted : Slot → Type 0
Counted s = IntervalsAgree s × HasRoom s

if_keeps : (P : Slot → Type 0) (b : Bool) (x y : Slot) → P x → P y → P (if b then x else y)
if_keeps P true x y p q = p
if_keeps P false x y p q = q

if_agrees :
    (b : Bool) (x y : Slot)
    → IntervalsAgree x
    → IntervalsAgree y
    → IntervalsAgree (if b then x else y)
if_agrees true x y p q = p
if_agrees false x y p q = q

-- The votes and the role are none of the fields that the statistics read.
vote-Counted : (s : Slot) (len : ℕ) → Counted s → Counted (vote s len)
unfolding vote Counted
vote-Counted s len (h, r) =
    if_keeps Counted (len == 4) _ _
      (
        record { in_window = h.in_window; in_total = h.in_total },
        record { window_room = r.window_room; total_room = r.total_room },
      )
      (if_keeps Counted (len == 8 || (len == 9 || len == 17)) _ _
        (
          record { in_window = h.in_window; in_total = h.in_total },
          record { window_room = r.window_room; total_room = r.total_room },
        )
        (
          record { in_window = h.in_window; in_total = h.in_total },
          record { window_room = r.window_room; total_room = r.total_room },
        ))

classify-Counted : (s : Slot) → Counted s → Counted (classify s)
unfolding classify Counted
classify-Counted s (h, r) =
    if_keeps Counted (is_known s.role) _ _ (h, r)
      (if_keeps Counted (ltb (u32 (s.len_mouse + s.len_kbd + s.len_other)) 8) _ _ (h, r)
        (if_keeps Counted (leb s.len_kbd s.len_mouse && leb s.len_other s.len_mouse) _ _
          (
            record { in_window = h.in_window; in_total = h.in_total },
            record { window_room = r.window_room; total_room = r.total_room },
          )
          (if_keeps Counted (leb s.len_other s.len_kbd) _ _
            (
              record { in_window = h.in_window; in_total = h.in_total },
              record { window_room = r.window_room; total_room = r.total_room },
            )
            (h, r))))

slot_note_len-Counted : (s : Slot) (len : ℕ) → Counted s → Counted (slot_note_len s len)
unfolding slot_note_len
slot_note_len-Counted s len h = classify-Counted (vote s len) (vote-Counted s len h)

-- For a slot whose window and run statistics agree and whose two 64-bit sums have room for 50 ms:
-- after any successful report, of whatever length and time, both statistics agree again: the
-- counted intervals' sum lies between count times minimum and count times maximum, the minimum of a
-- non-empty count is positive and the maximum is at most 50 ms.
pub note_report-IntervalsAgree :
    (s : Slot) (e : ClassUrbEvent) → IntervalsAgree s → HasRoom s → IntervalsAgree (note_report s e)
unfolding note_report Counted
note_report-IntervalsAgree s e h r =
    let s1 = slot_note_len s e.actual_length in
    let (h1, r1) = slot_note_len-Counted s e.actual_length (h, r) in
    let both =
      if_agrees (not (s1.last_ts_ns == 0) && ltb s1.last_ts_ns e.hdr.ts_ns)
        (slot_note_interval s1 (sub_u64 e.hdr.ts_ns s1.last_ts_ns)) s1
        (slot_note_interval-IntervalsAgree s1 (sub_u64 e.hdr.ts_ns s1.last_ts_ns) h1 r1) h1 in
    record { in_window = both.in_window; in_total = both.in_total }
