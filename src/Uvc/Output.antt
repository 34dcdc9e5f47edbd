-- ===== src/Uvc/Output.antt =====
-- The frame records that `uvc_emit_frame` and its callers put on the event buffer.
use mathlib.Core.List.{append-nil}
use usbtrace.Common.{
  ℕ, ◌≡◌, refl, sym, ◌∙◌, ap, arith, Bool, true, false, List, [], ◌∷◌, ◌++◌, if◌then◌else◌, ◌&&◌,
  not, ◌==◌, Bool-cases, inl, inr,
}
use usbtrace.Records.{UvcVb2Event}
use usbtrace.Bpf.{KeyMap, Task}
use usbtrace.Uvc.State.{StreamState, QState, StreamCorr, Pool, UvcRecord, frame, vb2}
use usbtrace.Uvc.Vb2.{
  World, corr_store, note_wire_frame, vb2_qstate, bind_dev, fill_device, vb2_submit,
  check_starvation,
}
use usbtrace.Uvc.Parse.{
  Packet, packet_eof, add_packet, frame_record, Source, emit_frame, open_frame,
}
use usbtrace.Uvc.Segments.{frames_in}
use usbtrace.Uvc.Segments.Rounds.{opening, closing}

frames_in-append : (a b : List UvcRecord) → frames_in (a ++ b) ≡ frames_in a ++ frames_in b
unfolding frames_in
frames_in-append [] b = refl
frames_in-append (frame e ∷ a) b = ap (λ x. e ∷ x) (frames_in-append a b)
frames_in-append (vb2 e ∷ a) b = frames_in-append a b

frames_in-vb2 : (a : List UvcRecord) (e : UvcVb2Event) → frames_in (a ++ (vb2 e ∷ [])) ≡ frames_in a
unfolding frames_in
frames_in-vb2 a e = frames_in-append a (vb2 e ∷ []) ∙ append-nil (frames_in a)

module _ (C : KeyMap StreamCorr) (D : KeyMap ℕ) (Q : KeyMap QState) where
  bind_dev_output :
      (q bus dev : ℕ) (w : World C D Q) → (bind_dev C D Q q bus dev w).output ≡ w.output
  unfolding bind_dev
  bind_dev_output q bus dev w = ground arith

  vb2_qstate_output : (k : ℕ) (w : World C D Q) → (vb2_qstate C D Q k w).1.output ≡ w.output
  unfolding vb2_qstate
  vb2_qstate_output k w = ground arith

  corr_store_output :
      (k : ℕ) (c : StreamCorr) (w : World C D Q) → (corr_store C D Q k c w).output ≡ w.output
  unfolding corr_store
  corr_store_output k c w = ground arith

  note_wire_output :
      (bus devnum vid pid bytes now : ℕ) (w : World C D Q)
      → (note_wire_frame C D Q bus devnum vid pid bytes now w).output ≡ w.output
  unfolding note_wire_frame
  note_wire_output bus devnum vid pid bytes now w =
      corr_store_output _ _ _ ∙ corr_store_output _ _ w

  if_output :
      (b : Bool) (w w' : World C D Q)
      → w'.output ≡ w.output
      → (if b then w else w').output ≡ w.output
  if_output true w w' h = refl
  if_output false w w' h = h

  vb2_submit_frames :
      (task : Task) (q : ℕ) (ve : UvcVb2Event) (w : World C D Q)
      → frames_in (vb2_submit C D Q task q ve w).output ≡ frames_in w.output
  unfolding vb2_submit
  vb2_submit_frames task q ve w =
      let e = fill_device C D Q w ve.hdr.ts_ns ve in
      frames_in-vb2 _ _
      ∙ ap frames_in (
          if_output (e.busnum == 0 && e.devnum == 0) w (bind_dev C D Q q e.busnum e.devnum w)
            (bind_dev_output q e.busnum e.devnum w))

  Keeps : World C D Q → World C D Q → Type 0
  Keeps w w' = frames_in w'.output ≡ frames_in w.output

  if_Keeps : (b : Bool) (w x y : World C D Q) → Keeps w x → Keeps w y → Keeps w (if b then x else y)
  if_Keeps true w x y p q = p
  if_Keeps false w x y p q = q

  check_starvation_frames :
      (task : Task) (pools : ℕ → Pool) (bus dev now : ℕ) (w : World C D Q)
      → Keeps w (check_starvation C D Q task pools bus dev now w)
  unfolding check_starvation Keeps
  check_starvation_frames task pools bus dev now w =
      grind (arith, vb2_submit_frames, vb2_qstate_output)

  emit_frame_frames :
      (src : Source) (eof : Bool) (w : World C D Q) (st : StreamState)
      → frames_in (emit_frame C D Q src eof (w, st)).0.output
        ≡ frames_in w.output ++ (frame_record src st eof ∷ [])
  unfolding emit_frame frames_in Keeps
  emit_frame_frames src eof w st =
      check_starvation_frames _ _ _ _ _ _
      ∙ (ap frames_in (note_wire_output _ _ _ _ _ _ _)
          ∙ frames_in-append w.output (frame (frame_record src st eof) ∷ []))

  pub open_frame_frames :
      (src : Source) (f : ℕ) (w : World C D Q) (st : StreamState)
      → frames_in (open_frame C D Q src f (w, st)).0.output
        ≡ frames_in w.output
          ++ (opening src f st st.active (st.have_fid && not (f == st.cur_fid))).0
  unfolding open_frame opening emit_frame frame_record
  open_frame_frames src f w st = elim (Bool-cases st.active) [
    | inl a ↦ elim (Bool-cases (st.have_fid && not (f == st.cur_fid))) [
      | inl t ↦ rw (a, t) (emit_frame_frames src false w st)
      | inr t ↦ rw (a, t) (sym (append-nil (frames_in w.output)))
    ]
    | inr a ↦ rw a (sym (append-nil (frames_in w.output)))
  ]

  pub open_frame_state :
      (src : Source) (f : ℕ) (w : World C D Q) (st : StreamState)
      → (open_frame C D Q src f (w, st)).1
        ≡ (opening src f st st.active (st.have_fid && not (f == st.cur_fid))).1
  unfolding open_frame opening emit_frame
  open_frame_state src f w st = elim (Bool-cases st.active) [
    | inl a ↦ elim (Bool-cases (st.have_fid && not (f == st.cur_fid))) [
      | inl t ↦ rw (a, t)
      | inr t ↦ rw (a, t)
    ]
    | inr a ↦ rw a
  ]

  -- The end of `take_packet`.
  unfoldable pub close_frame :
      Source → Packet → World C D Q × StreamState → World C D Q × StreamState
  close_frame src p (w, st) =
      if packet_eof p then emit_frame C D Q src true (w, add_packet p st) else (w, add_packet p st)

  pub close_frame_frames :
      (src : Source) (p : Packet) (w : World C D Q) (st : StreamState)
      → frames_in (close_frame src p (w, st)).0.output
        ≡ frames_in w.output ++ (closing src p st (packet_eof p)).0
  unfolding close_frame closing
  close_frame_frames src p w st = elim (Bool-cases (packet_eof p)) [
    | inl e ↦ rw e (emit_frame_frames src true w (add_packet p st))
    | inr e ↦ rw e (sym (append-nil (frames_in w.output)))
  ]

  pub close_frame_state :
      (src : Source) (p : Packet) (w : World C D Q) (st : StreamState)
      → (close_frame src p (w, st)).1 ≡ (closing src p st (packet_eof p)).1
  unfolding close_frame closing emit_frame
  close_frame_state src p w st = elim (Bool-cases (packet_eof p)) [ inl e ↦ rw e | inr e ↦ rw e ]
