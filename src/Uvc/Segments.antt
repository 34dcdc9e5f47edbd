-- ===== src/Uvc/Segments.antt =====
-- The frames that a stream reports are consecutive groups of its payload packets.
pub mod Rounds
use mathlib.Core.List.{append_assoc, append-nil}
use usbtrace.Common.{
  ℕ, zero, suc, ◌+◌, ◌≡◌, refl, sym, ◌∙◌, ap, subst, arith, Bool, true, false, List, [], ◌∷◌, ◌++◌,
  none, some, if◌then◌else◌, ◌&&◌, ◌||◌, not, ◌==◌, length, length-append,
}
use usbtrace.Common.Word.{u32}
use usbtrace.Records.{UvcFrameEvent}
use usbtrace.Uvc.State.{StreamState, VideoUrb, UvcRecord, frame, vb2}
use usbtrace.Uvc.Parse.{
  Packet, packet_fid, packet_eof, payload_of, start_frame, add_packet, frame_record, next_frame,
  Source, is_packet, zero_stream,
}

-- A group of packets: one that another FID cut off, or one that a packet with EOF ends.
pub data Group : Type 0 where
  cut : List Packet → Group
  ended : List Packet → Packet → Group

abbrev pub members : Group → List Packet
members (cut g) = g
members (ended g p) = g ++ (p ∷ [])

abbrev pub total : List Packet → ℕ
total [] = 0
total (p ∷ ps) = p.bytes + total ps

abbrev pub is_empty : List Packet → Bool
is_empty [] = true
is_empty (p ∷ ps) = false

-- All packets have this FID, and none has EOF.
abbrev pub is_open : ℕ → List Packet → Bool
is_open f [] = true
is_open f (p ∷ ps) = (packet_fid p == f && not (packet_eof p)) && is_open f ps

-- The record counts the bytes and the packets of the group, modulo 2^32.
abbrev pub Counts : UvcFrameEvent → List Packet → Type 0
Counts e g = (e.bytes ≡ u32 (total g)) × (e.packets ≡ u32 (length g))

-- The record describes the group. A group that is cut off is reported as errored.
unfoldable pub Reports : UvcFrameEvent → Group → Type 0
Reports e (cut g) =
    Counts e g
    × ((is_empty g ≡ false) × ((is_open e.fid g ≡ true) × ((e.eof ≡ 0) × (e.errored ≡ 1))))
Reports e (ended g p) =
    Counts e (g ++ (p ∷ []))
    × ((is_open e.fid g ≡ true) × ((packet_fid p ≡ e.fid) × ((packet_eof p ≡ true) × (e.eof ≡ 1))))

unfoldable pub AllReport : List (UvcFrameEvent × Group) → Type 0
AllReport [] = Unit {0}
AllReport ((e, g) ∷ rs) = Reports e g × AllReport rs

abbrev pub records : List (UvcFrameEvent × Group) → List UvcFrameEvent
records [] = []
records ((e, g) ∷ rs) = e ∷ records rs

abbrev pub packets_of : List (UvcFrameEvent × Group) → List Packet
packets_of [] = []
packets_of ((e, g) ∷ rs) = members g ++ packets_of rs

-- Does a packet with another FID come first?
abbrev pub starts_other : ℕ → List Packet → Bool
starts_other f [] = false
starts_other f (p ∷ ps) = not (packet_fid p == f)

-- After each group that was cut off comes a packet with another FID: the first of the next group, or
-- of the packets `after` the groups.
unfoldable pub Toggled : List (UvcFrameEvent × Group) → List Packet → Type 0
Toggled [] after = Unit {0}
Toggled ((e, cut g) ∷ rs) after =
    (starts_other e.fid (packets_of rs ++ after) ≡ true) × Toggled rs after
Toggled ((e, ended g p) ∷ rs) after = Toggled rs after

-- The state of a stream stands for the packets of the frame that has begun.
unfoldable pub Holds : StreamState → List Packet → Type 0
Holds st g =
    (st.active ≡ not (is_empty g))
    × (((is_empty g || st.have_fid) ≡ true)
        × ((is_open st.cur_fid g ≡ true)
            × ((st.cur_bytes ≡ u32 (total g)) × (st.cur_packets ≡ u32 (length g)))))

-- The state of a stream that is seen for the first time stands for no packet.
pub zero_stream-Holds : Holds zero_stream []
unfolding Holds
zero_stream-Holds = (refl, (refl, (refl, (refl, refl))))

-- From the packets `g` on, the packets `ps` are reported by the records `fs`, and `g'` is left,
-- before the packets `next`.
unfoldable pub SegmentedBefore :
    List Packet → List Packet → List Packet → List UvcFrameEvent → List Packet → Type 0
SegmentedBefore next g ps fs g' =
    (rs : List (UvcFrameEvent × Group)) × ((records rs ≡ fs)
      × ((packets_of rs ++ g' ≡ g ++ ps) × (AllReport rs × Toggled rs (g' ++ next))))

-- The same where no packet need follow.
unfoldable pub Segmented : List Packet → List Packet → List UvcFrameEvent → List Packet → Type 0
Segmented g ps fs g' =
    (rs : List (UvcFrameEvent × Group)) × ((records rs ≡ fs)
      × ((packets_of rs ++ g' ≡ g ++ ps) × (AllReport rs × Toggled rs g')))

-- The frame records among the records.
unfoldable pub frames_in : List UvcRecord → List UvcFrameEvent
frames_in [] = []
frames_in (frame e ∷ rs) = e ∷ frames_in rs
frames_in (vb2 e ∷ rs) = frames_in rs

-- The payload packet of a descriptor, if it has one.
unfoldable pub packet_at : VideoUrb → ℕ → List Packet
packet_at urb i = elim (urb.desc i) [
  | none ↦ []
  | some d ↦ elim (payload_of urb d) [ none ↦ [] | some p ↦ p ∷ [] ]
]

-- The payload packets of a URB from the descriptor `i` on, of at most so many descriptors.
unfoldable pub payloads : VideoUrb → ℕ → ℕ → List Packet
payloads urb i zero = []
payloads urb i (suc n) =
    let rest = payloads urb (suc i) n in
    if is_packet i urb.number_of_packets then packet_at urb i ++ rest else []

records-append : (a b : List (UvcFrameEvent × Group)) → records (a ++ b) ≡ records a ++ records b
records-append [] b = refl
records-append ((e, g) ∷ a) b = ap (λ x. e ∷ x) (records-append a b)

packets_of-append :
    (a b : List (UvcFrameEvent × Group)) → packets_of (a ++ b) ≡ packets_of a ++ packets_of b
packets_of-append [] b = refl
packets_of-append ((e, g) ∷ a) b =
    ap (λ x. members g ++ x) (packets_of-append a b)
    ∙ sym (append_assoc (members g) (packets_of a) (packets_of b))

AllReport-append :
    (a b : List (UvcFrameEvent × Group)) → AllReport a → AllReport b → AllReport (a ++ b)
unfolding AllReport
AllReport-append [] b p q = q
AllReport-append ((e, g) ∷ a) b (r, p) q = (r, AllReport-append a b p q)

starts_other-append :
    (f : ℕ) (a b : List Packet) → starts_other f a ≡ true → starts_other f (a ++ b) ≡ true
starts_other-append f [] b h = ground (arith, h)
starts_other-append f (p ∷ a) b h = h

Toggled-before :
    (rs : List (UvcFrameEvent × Group)) (g ps : List Packet) → Toggled rs g → Toggled rs (g ++ ps)
unfolding Toggled
Toggled-before [] g ps h = tt
Toggled-before ((e, cut c) ∷ rs) g ps (o, h) = (
  subst (λ x. starts_other e.fid x ≡ true) (append_assoc (packets_of rs) g ps)
      (starts_other-append e.fid (packets_of rs ++ g) ps o),
  Toggled-before rs g ps h,
)
Toggled-before ((e, ended c p) ∷ rs) g ps h = Toggled-before rs g ps h

Toggled-append :
    (a b : List (UvcFrameEvent × Group)) (g : List Packet)
    → Toggled a (packets_of b ++ g)
    → Toggled b g
    → Toggled (a ++ b) g
unfolding Toggled
Toggled-append [] b g h k = k
Toggled-append ((e, cut c) ∷ a) b g (o, h) k = (
  subst (λ x. starts_other e.fid x ≡ true)
      (sym (append_assoc (packets_of a) (packets_of b) g)
        ∙ ap (λ x. x ++ g) (sym (packets_of-append a b)))
      o,
  Toggled-append a b g h k,
)
Toggled-append ((e, ended c p) ∷ a) b g h k = Toggled-append a b g h k

-- What is reported before the packets `qs`, and then those.
pub SegmentedBefore-then :
    (g g' g'' ps qs : List Packet) (fs hs : List UvcFrameEvent)
    → SegmentedBefore qs g ps fs g'
    → Segmented g' qs hs g''
    → Segmented g (ps ++ qs) (fs ++ hs) g''
unfolding SegmentedBefore Segmented
SegmentedBefore-then g g' g'' ps qs fs hs (a, (ra, (ca, (pa, ta)))) (b, (rb, (cb, (pb, tb)))) = (
  a ++ b,
  (
    records-append a b ∙ (ap (λ x. x ++ records b) ra ∙ ap (λ x. fs ++ x) rb),
    (
      ap (λ x. x ++ g'') (packets_of-append a b)
          ∙ (append_assoc (packets_of a) (packets_of b) g''
              ∙ (ap (λ x. packets_of a ++ x) cb
                  ∙ (sym (append_assoc (packets_of a) g' qs)
                      ∙ (ap (λ x. x ++ qs) ca ∙ append_assoc g ps qs)))),
      (
        AllReport-append a b pa pb,
        Toggled-append a b g'' (subst (λ x. Toggled a x) (sym cb) ta) tb,
      ),
    ),
  ),
)

pub Segmented-trans :
    (g g' g'' ps qs : List Packet) (fs hs : List UvcFrameEvent)
    → Segmented g ps fs g'
    → Segmented g' qs hs g''
    → Segmented g (ps ++ qs) (fs ++ hs) g''
unfolding SegmentedBefore Segmented
Segmented-trans g g' g'' ps qs fs hs (a, (ra, (ca, (pa, ta)))) =
    SegmentedBefore-then g g' g'' ps qs fs hs (a, (ra, (ca, (pa, Toggled-before a g' qs ta))))

pub Segmented-none : (g : List Packet) → Segmented g [] [] g
unfolding Segmented AllReport Toggled
Segmented-none g = ([], (refl, (sym (append-nil g), (tt, tt))))
