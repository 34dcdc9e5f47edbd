-- ===== src/Uvc/Frames.antt =====
-- What `uvc_parse_frames` reports is the segmentation of the packets of its URBs.
use mathlib.Core.List.{append_assoc, append-nil}
use usbtrace.Common.{
  ℕ, zero, suc, ◌≡◌, refl, sym, ◌∙◌, ap, subst, arith, Bool, true, List, [], ◌∷◌, ◌++◌, some,
  if◌then◌else◌, ◌&&◌, not, ◌==◌, Bool-cases, Option-cases, inl, inr,
}
use usbtrace.Common.Int.{pos}
use usbtrace.Common.Word.{◌==ℤ◌}
use usbtrace.Records.{UvcFrameEvent}
use usbtrace.Bpf.{dev_match, KeyMap, Task}
use usbtrace.Uvc.State.{
  max_isoc_pkts, UvcConfig, StreamState, QState, StreamCorr, IsoDesc, Pool, VideoUrb,
}
use usbtrace.Uvc.Vb2.{World}
use usbtrace.Uvc.Parse.{
  Packet, packet_fid, packet_eof, payload_of, Source, is_packet, note_status, open_frame,
  take_packet, parse_packet, parse_from, parse_stream, parse_frames, stream_state, source_of,
  urb_key,
}
use usbtrace.Uvc.Segments.{
  Holds, Segmented, frames_in, packet_at, payloads, SegmentedBefore-then, Segmented-trans,
  Segmented-none,
}
use usbtrace.Uvc.Segments.Rounds.{Ready, closing, opening-SegmentedBefore, closing-Segmented}
use usbtrace.Uvc.Output.{
  open_frame_frames, open_frame_state, close_frame, close_frame_frames, close_frame_state,
}

if_true {ℓ} : {A : Type ℓ} {x : A} (y : A) (b : Bool) → b ≡ true → (if b then x else y) ≡ x
if_true y b e = rw e

module _ (C : KeyMap StreamCorr) (D : KeyMap ℕ) (Q : KeyMap QState) where
  -- From the open frame `g` on, the packets `ps` are reported between two states of the world.
  unfoldable pub Reported :
      World C D Q → World C D Q × StreamState → List Packet → List Packet → Type 0
  Reported w s g ps =
      (fs : List UvcFrameEvent) × ((g' : List Packet) × ((frames_in s.0.output
            ≡ frames_in w.output ++ fs)
          × (Segmented g ps fs g' × Holds s.1 g')))

  take_packet-Reported :
      (src : Source) (p : Packet) (w : World C D Q) (st : StreamState) (g : List Packet)
      → Holds st g
      → Reported w (take_packet C D Q src p (w, st)) g (p ∷ [])
  unfolding Reported take_packet close_frame
  take_packet-Reported src p w st g h =
      let f = packet_fid p in
      let s1 = open_frame C D Q src f (w, st) in
      let (g1, (seg1, ready)) =
        opening-SegmentedBefore src p st g st.active (st.have_fid && not (f == st.cur_fid)) refl
          refl h in
      let (g2, (seg2, held)) =
        closing-Segmented src p s1.1 g1 (packet_eof p) refl
          (subst (λ x. Ready x f g1) (sym (open_frame_state C D Q src f w st)) ready) in
      (
        _,
        (
          g2,
          (
            close_frame_frames C D Q src p s1.0 s1.1
                ∙ (ap (λ x. x ++ (closing src p s1.1 (packet_eof p)).0)
                      (open_frame_frames C D Q src f w st)
                    ∙ append_assoc (frames_in w.output) _ _),
            (
              SegmentedBefore-then g g1 g2 [] (p ∷ []) _ _ seg1 seg2,
              subst (λ x. Holds x g2) (sym (close_frame_state C D Q src p s1.0 s1.1)) held,
            ),
          ),
        ),
      )

  nothing-Reported :
      (w : World C D Q) (st : StreamState) (g : List Packet) → Holds st g → Reported w (w, st) g []
  unfolding Reported
  nothing-Reported w st g h =
      ([], (g, (sym (append-nil (frames_in w.output)), (Segmented-none g, h))))

  Reported-trans :
      (w : World C D Q) (s s' : World C D Q × StreamState) (g ps qs : List Packet)
      → Reported w s g ps
      → ((g' : List Packet) → Holds s.1 g' → Reported s.0 s' g' qs)
      → Reported w s' g (ps ++ qs)
  unfolding Reported
  Reported-trans w s s' g ps qs (fs, (g', (o, (seg, h)))) next =
      let (hs, (g'', (o', (seg', h')))) = next g' h in
      (
        fs ++ hs,
        (
          g'',
          (
            o' ∙ (ap (λ x. x ++ hs) o ∙ append_assoc (frames_in w.output) fs hs),
            (Segmented-trans g g' g'' ps qs fs hs seg seg', h'),
          ),
        ),
      )

  note_status-Holds :
      (d : IsoDesc) (st : StreamState) (g : List Packet) → Holds st g → Holds (note_status d st) g
  unfolding note_status Holds
  note_status-Holds d st g h = elim (Bool-cases (d.status ==ℤ pos 0)) [
    | inl e ↦ rw e h
    | inr e ↦ rw e h
  ]

  parse_packet-Reported :
      (src : Source) (urb : VideoUrb) (i : ℕ) (w : World C D Q) (st : StreamState) (g : List Packet)
      → Holds st g
      → Reported w (parse_packet C D Q src urb i (w, st)) g (packet_at urb i)
  unfolding parse_packet packet_at
  parse_packet-Reported src urb i w st g h = elim (Option-cases (urb.desc i)) [
    | inl e ↦ rw (parse_packet, packet_at, e) (nothing-Reported w st g h)
    | inr (d, e) ↦ elim (Option-cases (payload_of urb d)) [
      | inl n ↦
          rw (parse_packet, packet_at, e, n)
            (nothing-Reported w (note_status d st) g (note_status-Holds d st g h))
      | inr (p, n) ↦
          rw (parse_packet, packet_at, e, n)
            (take_packet-Reported src p w (note_status d st) g (note_status-Holds d st g h))
    ]
  ]

  parse_from-Reported :
      (src : Source) (urb : VideoUrb) (i n : ℕ) (w : World C D Q) (st : StreamState)
      (g : List Packet)
      → Holds st g
      → Reported w (parse_from C D Q src urb i n (w, st)) g (payloads urb i n)
  unfolding parse_from payloads
  parse_from-Reported src urb i zero w st g h = nothing-Reported w st g h
  parse_from-Reported src urb i (suc n) w st g h =
      elim (Bool-cases (is_packet i urb.number_of_packets)) [
        | inl e ↦
            let s = parse_packet C D Q src urb i (w, st) in
            rw e (
              Reported-trans w s (parse_from C D Q src urb (suc i) n s) g (packet_at urb i)
                (payloads urb (suc i) n) (parse_packet-Reported src urb i w st g h)
                (λ g' h'. parse_from-Reported src urb (suc i) n s.0 s.1 g' h'))
        | inr e ↦ rw e (nothing-Reported w st g h)
      ]

  module _ (S : KeyMap StreamState) where
    update_found :
        (m : S.Map) (k : ℕ) (st v : StreamState)
        → S.lookup m k ≡ some st
        → S.lookup (S.update m k v) k ≡ some v
    update_found m k st v h = elim (S.lookup-update_self m k v) [
      | inl e ↦ e
      | inr (e, _) ↦ grind (arith, e, h)
    ]

    parse_stream-Reported :
        (src : Source) (urb : VideoUrb) (key : ℕ) (st : StreamState) (m : S.Map) (w : World C D Q)
        (g : List Packet)
        → urb.has_buffer ≡ true
        → S.lookup m key ≡ some st
        → Holds st g
        → (st' : StreamState) × ((S.lookup (parse_stream C D Q S src urb key (some st) m w).0 key
              ≡ some st')
            × Reported w
                ((parse_stream C D Q S src urb key (some st) m w).1, st')
                g
                (payloads urb 0 max_isoc_pkts))
    unfolding parse_stream
    parse_stream-Reported src urb key st m w g b l h =
        let s = parse_from C D Q src urb 0 max_isoc_pkts (w, st) in
        subst
          (λ (r : S.Map × World C D Q).
            (st' : StreamState) × ((S.lookup r.0 key ≡ some st')
              × Reported w (r.1, st') g (payloads urb 0 max_isoc_pkts)))
          (sym (if_true {x = (S.update m key s.1, s.0)} (m, w) urb.has_buffer b))
          (s.1, (update_found m key st s.1 l, parse_from-Reported src urb 0 max_isoc_pkts w st g h))

    parse_frames_found :
        (cfg : UvcConfig) (task : Task) (pools : ℕ → Pool) (urb : VideoUrb) (now : ℕ) (ids : ℕ × ℕ)
        (st : StreamState) (m : S.Map) (w : World C D Q)
        → dev_match urb.dev cfg.filter_vid cfg.filter_pid ≡ some ids
        → S.lookup m (urb_key urb) ≡ some st
        → parse_frames C D Q S cfg task pools urb now m w
          ≡ parse_stream C D Q S (source_of task pools urb now ids) urb (urb_key urb) (some st) m w
    unfolding parse_frames stream_state
    parse_frames_found cfg task pools urb now ids st m w d l = rw (parse_frames, d, stream_state, l)

    -- From a stream whose state stands for the packets `g` of an unfinished frame, the frames that
    -- one URB reports are consecutive groups of `g` and then the URB's payload packets, none left
    -- out and none counted twice; what remains is again what the stream's state stands for. Each
    -- record counts the bytes and packets of its group, whose packets share one FID, and says by
    -- `eof` whether the last packet has EOF, as no other has. A group without it is reported as
    -- errored, and after it comes a packet with another FID.
    pub parse_frames-Reported :
        (cfg : UvcConfig) (task : Task) (pools : ℕ → Pool) (urb : VideoUrb) (now : ℕ) (ids : ℕ × ℕ)
        (st : StreamState) (m : S.Map) (w : World C D Q) (g : List Packet)
        → dev_match urb.dev cfg.filter_vid cfg.filter_pid ≡ some ids
        → urb.has_buffer ≡ true
        → S.lookup m (urb_key urb) ≡ some st
        → Holds st g
        → (st' : StreamState) × ((S.lookup
                (parse_frames C D Q S cfg task pools urb now m w).0
                (urb_key urb)
              ≡ some st')
            × Reported w
                ((parse_frames C D Q S cfg task pools urb now m w).1, st')
                g
                (payloads urb 0 max_isoc_pkts))
    parse_frames-Reported cfg task pools urb now ids st m w g d b l h =
        subst
          (λ (r : S.Map × World C D Q).
            (st' : StreamState) × ((S.lookup r.0 (urb_key urb) ≡ some st')
              × Reported w (r.1, st') g (payloads urb 0 max_isoc_pkts)))
          (sym (parse_frames_found cfg task pools urb now ids st m w d l))
          (parse_stream-Reported (source_of task pools urb now ids) urb (urb_key urb) st m w g b l
            h)
