-- ===== src/Hid/Slots.antt =====
-- hid.c: the table of endpoints.
use usbtrace.Common.{
  ℕ, zero, suc, ◌+◌, ◌≤◌, ◌<◌, ◌≡◌, refl, ap, sym, subst, ◌∙◌, Bool, true, false, List, [], ◌∷◌,
  ◌++◌, Option, none, some, if◌then◌else◌, ◌&&◌, ◌||◌, ◌*◌, ◌==◌, leb, length, length-append,
  get_elem?, set, map, arith, Bool-cases, Option-cases, inl, inr, not, ltb,
}
use usbtrace.Common.Int.{pos}
use usbtrace.Common.Word.{◌==ℤ◌, u32, u64, sub_u64}
use usbtrace.Records.{ClassUrbEvent}
use usbtrace.Hid.{
  Slot, Meter, is_slot_of, find_slot, slot_get, fresh_slot, note_report, slot_note_len, vote,
  classify, is_known, slot_note_interval, clear_window, rate_flush_window, advance_window,
  report_at, rate_on_in, hid_on_event, rate_window_ns, rate_gap_ns,
}

-- An endpoint's address.
abbrev Address : Type 0
Address = ℕ × ℕ × ℕ

abbrev address : Slot → Address
address s = (s.busnum, s.devnum, s.ep)

addresses : List Slot → List Address
addresses [] = []
addresses (s ∷ ss) = address s ∷ addresses ss

-- Is an address among those of a list?
unfoldable pub is_among : Address → List Address → Bool
is_among (b, d, e) [] = false
is_among (b, d, e) ((b', d', e') ∷ xs) =
    if b' == b && (d' == d && e' == e) then true else is_among (b, d, e) xs

-- No address twice.
NoRepeat : List Address → Type 0
NoRepeat [] = Unit {0}
NoRepeat (a ∷ xs) = (is_among a xs ≡ false) × NoRepeat xs

-- A table of at most 16 endpoints, each once.
pub IsTable : List Slot → Type 0
IsTable ss = (length ss ≤ 16) × NoRepeat (addresses ss)

-- The table before the first report.
pub no_slots-IsTable : IsTable []
unfolding IsTable NoRepeat addresses
no_slots-IsTable = (omega arith, tt)

no_address : (b d e : ℕ) → is_among (b, d, e) [] ≡ false
unfolding is_among
no_address b d e = refl

not_head :
    (x y z : ℕ) (xs : List Address) (b d e : ℕ)
    → is_among (b, d, e) ((x, y, z) ∷ xs) ≡ false
    → ((x == b && (y == d && z == e)) ≡ false) × (is_among (b, d, e) xs ≡ false)
unfolding is_among
not_head x y z xs b d e h = ground arith

head_address : (r s : Slot) → some r ≡ some s → address s ≡ address r
head_address r s h = cc

step_none :
    (b : Bool) (o : Option ℕ)
    → (if b then some 0 else elim o [ none ↦ none | some i ↦ some (suc i) ]) ≡ none
    → (b ≡ false) × (o ≡ none)
step_none true o h = ground arith
step_none false none h = (refl, refl)
step_none false (some i) h = ground arith

find_slot-is_among :
    (ss : List Slot) (b d e : ℕ)
    → find_slot ss b d e ≡ none
    → is_among (b, d, e) (addresses ss) ≡ false
unfolding find_slot is_among addresses
find_slot-is_among [] b d e h = refl
find_slot-is_among (s ∷ ss) b d e h =
    let (k, r) = step_none (is_slot_of b d e s) (find_slot ss b d e) h in
    rw k (find_slot-is_among ss b d e r)

is_among-append :
    (xs : List Address) (b d e b' d' e' : ℕ)
    → is_among (b, d, e) xs ≡ false
    → (b' == b && (d' == d && e' == e)) ≡ false
    → is_among (b, d, e) (xs ++ ((b', d', e') ∷ [])) ≡ false
unfolding is_among
is_among-append [] b d e b' d' e' h k = rw k refl
is_among-append ((x, y, z) ∷ xs) b d e b' d' e' h k =
    elim (Bool-cases (x == b && (y == d && z == e))) [
      | inl i ↦ ground arith
      | inr i ↦ rw i (is_among-append xs b d e b' d' e' (ground arith) k)
    ]

same_address_sym :
    (b d e b' d' e' : ℕ)
    → (b' == b && (d' == d && e' == e)) ≡ false
    → (b == b' && (d == d' && e == e')) ≡ false
same_address_sym b d e b' d' e' h = ground arith

NoRepeat-append :
    (xs : List Address) (b d e : ℕ)
    → NoRepeat xs
    → is_among (b, d, e) xs ≡ false
    → NoRepeat (xs ++ ((b, d, e) ∷ []))
unfolding NoRepeat
NoRepeat-append [] b d e h k = (no_address b d e, tt)
NoRepeat-append ((x, y, z) ∷ xs) b d e (p, h) k =
    let (i, j) = not_head x y z xs b d e k in
    (
      is_among-append xs x y z b d e p (same_address_sym b d e x y z i),
      NoRepeat-append xs b d e h j,
    )

addresses-append :
    (ss : List Slot) (s : Slot) → addresses (ss ++ (s ∷ [])) ≡ addresses ss ++ (address s ∷ [])
unfolding addresses
addresses-append [] s = refl
addresses-append (t ∷ ss) s = ap (◌∷◌ (address t)) (addresses-append ss s)

addresses-set :
    (ss : List Slot) (i : ℕ) (s t : Slot)
    → get_elem? ss i ≡ some s
    → address t ≡ address s
    → addresses (set ss i t) ≡ addresses ss
unfolding addresses
addresses-set [] i s t h k = refl
addresses-set (r ∷ ss) zero s t h k = ap (λ a. a ∷ addresses ss) (k ∙ head_address r s h)
addresses-set (r ∷ ss) (suc i) s t h k = ap (◌∷◌ (address r)) (addresses-set ss i s t h k)

addresses-clear : (ss : List Slot) → addresses (map clear_window ss) ≡ addresses ss
unfolding addresses clear_window
addresses-clear [] = refl
addresses-clear (s ∷ ss) = ap (◌∷◌ (address s)) (addresses-clear ss)

length-addresses : (ss : List Slot) → length (addresses ss) ≡ length ss
unfolding addresses
length-addresses [] = refl
length-addresses (s ∷ ss) = ap suc (length-addresses ss)

-- No step of a report changes an address.
if_address :
    (a : Address) (b : Bool) (x y : Slot)
    → address x ≡ a
    → address y ≡ a
    → address (if b then x else y) ≡ a
if_address a true x y p q = p
if_address a false x y p q = q

address-vote : (s : Slot) (len : ℕ) → address (vote s len) ≡ address s
unfolding vote
address-vote s len =
    if_address (address s) (len == 4) _ _ refl
      (if_address (address s) (len == 8 || (len == 9 || len == 17)) _ _ refl refl)

address-classify : (s : Slot) → address (classify s) ≡ address s
unfolding classify
address-classify s = if_address (address s) (is_known s.role) _ _ refl (
    if_address (address s) (ltb (u32 (s.len_mouse + s.len_kbd + s.len_other)) 8) _ _ refl (
      if_address (address s) (leb s.len_kbd s.len_mouse && leb s.len_other s.len_mouse) _ _ refl
        (if_address (address s) (leb s.len_other s.len_kbd) _ _ refl refl)))

address-slot_note_len : (s : Slot) (len : ℕ) → address (slot_note_len s len) ≡ address s
unfolding slot_note_len
address-slot_note_len s len = address-classify (vote s len) ∙ address-vote s len

address-slot_note_interval : (s : Slot) (iv : ℕ) → address (slot_note_interval s iv) ≡ address s
unfolding slot_note_interval
address-slot_note_interval s iv =
    if_address (address s) (iv == 0) _ _ refl
      (if_address (address s) (ltb rate_gap_ns iv) _ _ refl refl)

address-note_report : (s : Slot) (e : ClassUrbEvent) → address (note_report s e) ≡ address s
unfolding note_report
address-note_report s e =
    let s1 = slot_note_len s e.actual_length in
    let iv = sub_u64 e.hdr.ts_ns s1.last_ts_ns in
    if_address (address s1) (not (s1.last_ts_ns == 0) && ltb s1.last_ts_ns e.hdr.ts_ns)
      (slot_note_interval s1 iv) s1 (address-slot_note_interval s1 iv) refl
    ∙ address-slot_note_len s e.actual_length

IsTable-same : (ss ts : List Slot) → addresses ts ≡ addresses ss → IsTable ss → IsTable ts
unfolding IsTable
IsTable-same ss ts h (n, r) =
    (omega (arith, length-addresses ss, length-addresses ts, ap length h), subst NoRepeat (sym h) r)

if_slots :
    (xs : List Address) (b : Bool) (x y : Meter)
    → addresses x.slots ≡ xs
    → addresses y.slots ≡ xs
    → addresses (if b then x else y).slots ≡ xs
if_slots xs true x y p q = p
if_slots xs false x y p q = q

addresses-rate_flush_window :
    (m : Meter) (now : ℕ) (final : Bool)
    → addresses (rate_flush_window m now final).slots ≡ addresses m.slots
unfolding rate_flush_window
addresses-rate_flush_window m now final =
    if_slots _ (m.window_start_ns == 0 || leb now m.window_start_ns) _ _ refl (
      if_slots _ (final && ltb (4 * sub_u64 now m.window_start_ns) (m.rate_sec * 1000000000)) _ _
        refl (addresses-clear m.slots))

addresses-advance_window :
    (m : Meter) (ts : ℕ) → addresses (advance_window m ts).slots ≡ addresses m.slots
unfolding advance_window
addresses-advance_window m ts =
    let m' = if m.window_start_ns == 0 then record m { window_start_ns = ts } else m in
    let opened : addresses m'.slots ≡ addresses m.slots =
      if_slots _ (m.window_start_ns == 0) _ _ refl refl in
    if_slots _ (leb (rate_window_ns m') (sub_u64 ts m'.window_start_ns)) _ _
      (addresses-rate_flush_window m' ts false ∙ opened) opened

leb-false : (a b : ℕ) → leb a b ≡ false → b < a
leb-false a b h = ground arith

-- `report_at` on what it finds at the index.
slot_step : Meter → ClassUrbEvent → ℕ → Option Slot → Meter
slot_step m e i none = m
slot_step m e i (some s) =
    if not (e.status ==ℤ pos 0)
    then record m { slots = set m.slots i (record s { err_urbs = u64 (s.err_urbs + 1) }) }
    else advance_window (record m { slots = set m.slots i (note_report s e) }) e.hdr.ts_ns

addresses-report_at :
    (m : Meter) (e : ClassUrbEvent) (i : ℕ) → addresses (report_at m e i).slots ≡ addresses m.slots
unfolding report_at slot_step
addresses-report_at m e i = elim (Option-cases (get_elem? m.slots i)) [
  | inl h ↦ subst (λ o. addresses (slot_step m e i o).slots ≡ addresses m.slots) (sym h) refl
  | inr (s, h) ↦
      subst (λ o. addresses (slot_step m e i o).slots ≡ addresses m.slots) (sym h)
        (if_slots _ (not (e.status ==ℤ pos 0)) _ _ (addresses-set m.slots i s _ h refl)
          (addresses-advance_window _ _ ∙ addresses-set m.slots i s _ h (address-note_report s e)))
]

grown :
    (ss : List Slot) (b d e v p : ℕ)
    → IsTable ss
    → find_slot ss b d e ≡ none
    → leb 16 (length ss) ≡ false
    → IsTable (ss ++ (fresh_slot b d e v p ∷ []))
unfolding IsTable fresh_slot
grown ss b d e v p (n, r) k f = (
  omega (arith, length-append ss (fresh_slot b d e v p ∷ []), leb-false 16 (length ss) f),
  subst NoRepeat (sym (addresses-append ss (fresh_slot b d e v p)))
      (NoRepeat-append (addresses ss) b d e r (find_slot-is_among ss b d e k)),
)

slot_get-IsTable : (ss : List Slot) (b d e v p : ℕ) → IsTable ss → IsTable (slot_get ss b d e v p).1
unfolding slot_get
slot_get-IsTable ss b d e v p h = elim (Option-cases (find_slot ss b d e)) [
  | inr (i, k) ↦ rw (slot_get, k) h
  | inl k ↦ elim (Bool-cases (leb 16 (length ss))) [
    | inl f ↦ rw (slot_get, k, f) h
    | inr f ↦ rw (slot_get, k, f) (grown ss b d e v p h k f)
  ]
]

if_IsTable :
    (b : Bool) (x y : Meter)
    → IsTable x.slots
    → IsTable y.slots
    → IsTable (if b then x else y).slots
if_IsTable true x y p q = p
if_IsTable false x y p q = q

-- `rate_on_in` with the pair that `slot_get` returns.
in_slot :
    (m : Meter) (e : ClassUrbEvent) (r : Option ℕ × List Slot)
    → IsTable m.slots
    → IsTable r.1
    → IsTable
        (elim r.0 as (λ o. Meter) [
          | none ↦ m
          | some i ↦ report_at (record m { slots = r.1 }) e i
        ]).slots
in_slot m e (none, ss) h k = h
in_slot m e (some i, ss) h k =
    IsTable-same ss _ (addresses-report_at (record m { slots = ss }) e i) k

rate_on_in-IsTable :
    (m : Meter) (e : ClassUrbEvent) → IsTable m.slots → IsTable (rate_on_in m e).slots
unfolding rate_on_in
rate_on_in-IsTable m e h = if_IsTable (not m.rate || e.dir_in == 0) m _ h (
    in_slot m e (slot_get m.slots e.busnum e.devnum e.ep e.vid e.product) h
      (slot_get-IsTable m.slots e.busnum e.devnum e.ep e.vid e.product h))

-- From a table of at most 16 endpoints, each once: after any delivery to the callback, of any length
-- and any content, it is such a table again.
pub hid_on_event-IsTable :
    (m : Meter) (e : ClassUrbEvent) (len : ℕ)
    → IsTable m.slots
    → IsTable (hid_on_event m e len).slots
unfolding hid_on_event
hid_on_event-IsTable m e len h = if_IsTable _ (rate_on_in m e) m (rate_on_in-IsTable m e h) h
