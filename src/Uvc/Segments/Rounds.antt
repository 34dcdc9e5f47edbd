-- ===== src/Uvc/Segments/Rounds.antt =====
-- What the opening of a frame and the end of a packet report, in the body of the loop of
-- uvc_parse_frames.
use mathlib.Core.List.{append-nil}
use usbtrace.Common.{
  ℕ, ◌+◌, ◌≡◌, refl, sym, ◌∙◌, ap, subst, arith, Bool, true, false, List, [], ◌∷◌, ◌++◌, ◌&&◌, ◌||◌,
  not, ◌==◌, length, length-append,
}
use usbtrace.Common.Word.{u32}
use usbtrace.Records.{UvcFrameEvent}
use usbtrace.Uvc.State.{StreamState}
use usbtrace.Uvc.Parse.{
  Packet, packet_fid, packet_eof, start_frame, add_packet, frame_record, next_frame, Source,
}
use usbtrace.Uvc.Segments.{
  cut, ended, total, is_empty, is_open, Reports, AllReport, Toggled, Holds, Segmented,
  SegmentedBefore,
}

total-append : (a b : List Packet) → total (a ++ b) ≡ total a + total b
total-append [] b = omega arith
total-append (p ∷ a) b = omega (arith, total-append a b)

is_open-snoc :
    (f : ℕ) (g : List Packet) (p : Packet)
    → is_open f g ≡ true
    → packet_fid p ≡ f
    → packet_eof p ≡ false
    → is_open f (g ++ (p ∷ [])) ≡ true
is_open-snoc f [] p h e n = ground (arith, e, n)
is_open-snoc f (q ∷ g) p h e n = let ih = is_open-snoc f g p in ground (arith, h, e, n, ih)

-- The state is in a frame of this FID, whose packets so far are `g`.
unfoldable pub Ready : StreamState → ℕ → List Packet → Type 0
Ready st f g =
    (st.active ≡ true)
    × ((st.have_fid ≡ true)
        × ((st.cur_fid ≡ f)
            × ((is_open f g ≡ true)
                × ((st.cur_bytes ≡ u32 (total g)) × (st.cur_packets ≡ u32 (length g))))))

-- The records of the opening of a frame and the state, without the maps: by whether a frame is
-- active, and whether the FID has toggled.
unfoldable pub opening : Source → ℕ → StreamState → Bool → Bool → List UvcFrameEvent × StreamState
opening src fid st false toggled = ([], start_frame fid src.now st)
opening src fid st true true =
    (frame_record src st false ∷ [], start_frame fid src.now (next_frame src.now st))
opening src fid st true false = ([], st)

-- The same of the end of a packet, by whether it has EOF.
unfoldable pub closing : Source → Packet → StreamState → Bool → List UvcFrameEvent × StreamState
closing src p st true =
    (frame_record src (add_packet p st) true ∷ [], next_frame src.now (add_packet p st))
closing src p st false = ([], add_packet p st)

pub opening-SegmentedBefore :
    (src : Source) (next : Packet) (st : StreamState) (g : List Packet) (a t : Bool)
    → st.active ≡ a
    → (st.have_fid && not (packet_fid next == st.cur_fid)) ≡ t
    → Holds st g
    → (g' : List Packet) × (SegmentedBefore
          (next ∷ [])
          g
          []
          (opening src (packet_fid next) st a t).0
          g'
        × Ready (opening src (packet_fid next) st a t).1 (packet_fid next) g')
unfolding Holds SegmentedBefore Ready opening AllReport Toggled Reports frame_record start_frame
    next_frame
opening-SegmentedBefore src next st [] false t ha ht (a, (h, (o, (b, c)))) =
    ([], (([], (refl, (refl, (tt, tt)))), (refl, (refl, (refl, (refl, (b, c)))))))
opening-SegmentedBefore src next st (p ∷ g) false t ha ht (a, (h, (o, (b, c)))) =
    ground (arith, ha, a)
opening-SegmentedBefore src next st [] true t ha ht (a, (h, (o, (b, c)))) = ground (arith, ha, a)
opening-SegmentedBefore src next st (p ∷ g) true true ha ht (a, (h, (o, (b, c)))) =
    let other : not (packet_fid next == st.cur_fid) ≡ true = ground (arith, ht) in
    (
      [],
      (
        (
          (frame_record src st false, cut (p ∷ g)) ∷ [],
          (
            refl,
            (append-nil ((p ∷ g) ++ []), ((((b, c), (refl, (o, (refl, refl)))), tt), (other, tt))),
          ),
        ),
        (refl, (refl, (refl, (refl, (refl, refl))))),
      ),
    )
opening-SegmentedBefore src next st (p ∷ g) true false ha ht (a, (h, (o, (b, c)))) =
    let same : st.cur_fid ≡ packet_fid next = ground (arith, ht, h) in
    (
      p ∷ g,
      (
        ([], (refl, (sym (append-nil (p ∷ g)), (tt, tt)))),
        (a, (h, (same, (subst (λ x. is_open x (p ∷ g) ≡ true) same o, (b, c))))),
      ),
    )

snoc-bytes :
    (st : StreamState) (g : List Packet) (p : Packet)
    → st.cur_bytes ≡ u32 (total g)
    → (add_packet p st).cur_bytes ≡ u32 (total (g ++ (p ∷ [])))
unfolding add_packet
snoc-bytes st g p b = omega (arith, b, total-append g (p ∷ []))

snoc-packets :
    (st : StreamState) (g : List Packet) (p : Packet)
    → st.cur_packets ≡ u32 (length g)
    → (add_packet p st).cur_packets ≡ u32 (length (g ++ (p ∷ [])))
unfolding add_packet
snoc-packets st g p c = omega (arith, c, length-append g (p ∷ []))

is_empty-snoc : (g : List Packet) (p : Packet) → is_empty (g ++ (p ∷ [])) ≡ false
is_empty-snoc [] p = refl
is_empty-snoc (q ∷ g) p = refl

pub closing-Segmented :
    (src : Source) (p : Packet) (st : StreamState) (g : List Packet) (e : Bool)
    → packet_eof p ≡ e
    → Ready st (packet_fid p) g
    → (g' : List Packet) × (Segmented g (p ∷ []) (closing src p st e).0 g'
        × Holds (closing src p st e).1 g')
unfolding Holds Segmented Ready closing AllReport Toggled Reports frame_record add_packet next_frame
closing-Segmented src p st g true he (a, (h, (f, (o, (b, c))))) = (
  [],
  (
    (
      (frame_record src (add_packet p st) true, ended g p) ∷ [],
      (
        refl,
        (
          append-nil ((g ++ (p ∷ [])) ++ []) ∙ append-nil (g ++ (p ∷ [])),
          (
            (
              (
                (snoc-bytes st g p b, snoc-packets st g p c),
                (subst (λ x. is_open x g ≡ true) (sym f) o, (sym f, (he, refl))),
              ),
              tt,
            ),
            tt,
          ),
        ),
      ),
    ),
    (refl, (refl, (refl, (refl, refl)))),
  ),
)
closing-Segmented src p st g false he (a, (h, (f, (o, (b, c))))) = (
  g ++ (p ∷ []),
  (
    ([], (refl, (refl, (tt, tt)))),
    (
      a ∙ sym (ap not (is_empty-snoc g p)),
      (
        ap (λ x. x || st.have_fid) (is_empty-snoc g p) ∙ h,
        (
          is_open-snoc st.cur_fid g p (subst (λ x. is_open x g ≡ true) (sym f) o) (sym f) he,
          (snoc-bytes st g p b, snoc-packets st g p c),
        ),
      ),
    ),
  ),
)
