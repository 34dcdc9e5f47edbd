-- ===== src/Uvc/Driver/Drops.antt =====
-- The reason that a dropped frame is reported with.
use usbtrace.Common.{
  ℕ, ◌≡◌, inl, inr, refl, sym, ap, ◌∙◌, arith, Bool, true, false, List, [], ◌∷◌, Option, none, some,
  if◌then◌else◌, ◌&&◌, ◌||◌, not, ◌==◌, Bool-cases, Option-cases, ==_iff, is_some,
}
use usbtrace.Common.Word.{u8}
use usbtrace.Records.{drv_drop, drop_short_bit, drop_iso_bit, drop_other_bit}
use usbtrace.Bpf.{KeyMap, NeverFull}
use usbtrace.Uvc.State.{UvcConfig, max_isoc_pkts}
use usbtrace.Uvc.Driver.{
  UvcStreaming, UvcBuffer, UvcQueue, IsoUrb, is_video_buffer, stream_usb, drv_record, sees_loss,
  drops_corrupted, is_short, drop_reason, drop_cause_add, drop_cause_take, on_decode_isoc,
  report_drop, on_queue_complete,
}

-- A call of the decoder's program or of the one at a buffer's completion.
pub data DriverCall : Type 0 where
  decode : Option UvcStreaming → Option IsoUrb → UvcBuffer → DriverCall
  complete : Option UvcQueue → UvcBuffer → ℕ → DriverCall

-- Does a decode mark its buffer: it is a video buffer of a traced device, and a packet was lost?
abbrev pub marks : UvcConfig → Option UvcStreaming → Option IsoUrb → UvcBuffer → Bool
marks cfg none urb b = false
marks cfg (some s) none b = false
marks cfg (some s) (some urb) b =
    is_video_buffer b && (is_some (stream_usb cfg s) && sees_loss urb 0 max_isoc_pkts)

-- Does a completion clear the mark? It does on every kernel that has the field of the queue.
abbrev pub clears : Option UvcQueue → UvcBuffer → Bool
clears none b = true
clears (some queue) b = not (is_video_buffer b) || is_some queue.stream

-- Has a packet of the buffer been lost since its last completion, by the calls so far, newest first?
abbrev pub has_loss : UvcConfig → List DriverCall → ℕ → Bool
has_loss cfg [] k = false
has_loss cfg (decode s urb b ∷ cs) k =
    if marks cfg s urb b && b.address == k then true else has_loss cfg cs k
has_loss cfg (complete queue b now ∷ cs) k =
    if clears queue b && b.address == k then false else has_loss cfg cs k

-- The reason, told by what happened to the frame.
abbrev pub cause : Bool → Bool → ℕ
cause true true = 3
cause true false = drop_iso_bit
cause false true = drop_short_bit
cause false false = drop_other_bit

abbrev pub gathered : Bool → Option ℕ
gathered true = some drop_iso_bit
gathered false = none

module _ (K : KeyMap ℕ) where
  open K use {
    Map, empty, lookup, update, delete, lookup-empty, lookup-update_ne, lookup-delete_self,
    lookup-delete_ne,
  }

  -- The map `drv_drop_cause` after the calls, newest first.
  unfoldable pub causes_after : UvcConfig → List DriverCall → Map
  causes_after cfg [] = empty
  causes_after cfg (decode s urb b ∷ cs) = on_decode_isoc K cfg s urb b (causes_after cfg cs)
  causes_after cfg (complete queue b now ∷ cs) =
      (on_queue_complete K cfg queue b now (causes_after cfg cs)).0

  decode_map :
      (cfg : UvcConfig) (s : Option UvcStreaming) (urb : Option IsoUrb) (b : UvcBuffer) (m : Map)
      → on_decode_isoc K cfg s urb b m
        ≡ (if marks cfg s urb b then drop_cause_add K m b.address drop_iso_bit else m)
  unfolding on_decode_isoc
  decode_map cfg none urb b m = refl
  decode_map cfg (some s) none b m = refl
  decode_map cfg (some s) (some urb) b m = elim (Option-cases (stream_usb cfg s)) [
    | inl e ↦ ground (arith, e)
    | inr (usb, e) ↦ ground (arith, e)
  ]

  complete_map :
      (cfg : UvcConfig) (queue : Option UvcQueue) (b : UvcBuffer) (now : ℕ) (m : Map)
      → (on_queue_complete K cfg queue b now m).0
        ≡ (if clears queue b then (drop_cause_take K m b.address).1 else m)
  unfolding on_queue_complete
  complete_map cfg none b now m = refl
  complete_map cfg (some queue) b now m = elim (Option-cases queue.stream) [
    | inl e ↦ ground (arith, e)
    | inr (s, e) ↦ elim (Option-cases (stream_usb cfg s)) [
      | inl f ↦ ground (arith, e, f)
      | inr (usb, f) ↦ ground (arith, e, f)
    ]
  ]

  updated :
      (m : Map) (a k v : ℕ)
      → NeverFull K
      → lookup (update m a v) k ≡ (if a == k then some v else lookup m k)
  updated m a k v full = elim (Bool-cases (a == k)) [
    | inl e ↦ rw e (sym (ap (lookup (update m a v)) ((==_iff a k).0 e)) ∙ full m a v)
    | inr e ↦ rw e (lookup-update_ne m a v k (ground (arith, e)))
  ]

  deleted : (m : Map) (a k : ℕ) → lookup (delete m a) k ≡ (if a == k then none else lookup m k)
  deleted m a k = elim (Bool-cases (a == k)) [
    | inl e ↦ rw e (sym (ap (lookup (delete m a)) ((==_iff a k).0 e)) ∙ lookup-delete_self m a)
    | inr e ↦ rw e (lookup-delete_ne m a k (ground (arith, e)))
  ]

  absent :
      (m : Map) (a k : ℕ) → lookup m a ≡ none → lookup m k ≡ (if a == k then none else lookup m k)
  absent m a k h = elim (Bool-cases (a == k)) [
    | inl e ↦ rw e (sym (ap (lookup m) ((==_iff a k).0 e)) ∙ h)
    | inr e ↦ rw e refl
  ]

  -- A mark adds a bit to a buffer that has none or the same one.
  added :
      (m : Map) (a k : ℕ) (old : Bool)
      → NeverFull K
      → lookup m a ≡ gathered old
      → lookup (drop_cause_add K m a drop_iso_bit) k
        ≡ (if a == k then some drop_iso_bit else lookup m k)
  unfolding drop_cause_add
  added m a k true full h = rw (drop_cause_add, h) (updated m a k drop_iso_bit full)
  added m a k false full h = rw (drop_cause_add, h) (updated m a k drop_iso_bit full)

  taken :
      (m : Map) (a k : ℕ)
      → lookup (drop_cause_take K m a).1 k ≡ (if a == k then none else lookup m k)
  unfolding drop_cause_take
  taken m a k = elim (Option-cases (lookup m a)) [
    | inl e ↦ rw (drop_cause_take, e) (absent m a k e)
    | inr (v, e) ↦ rw (drop_cause_take, e) (deleted m a k)
  ]

  if_added :
      (b : Bool) (m : Map) (a k : ℕ) (old : Bool) (lost : Bool)
      → NeverFull K
      → lookup m a ≡ gathered old
      → lookup m k ≡ gathered lost
      → lookup (if b then drop_cause_add K m a drop_iso_bit else m) k
        ≡ gathered (if b && a == k then true else lost)
  if_added false m a k old lost full h g = g
  if_added true m a k old lost full h g = added m a k old full h ∙ pick (a == k) (lookup m k) lost g
    where
      pick :
          (c : Bool) (o : Option ℕ) (lost : Bool)
          → o ≡ gathered lost
          → (if c then some drop_iso_bit else o) ≡ gathered (if c then true else lost)
      pick true o lost g = refl
      pick false o lost g = g

  if_taken :
      (b : Bool) (m : Map) (a k : ℕ) (lost : Bool)
      → lookup m k ≡ gathered lost
      → lookup (if b then (drop_cause_take K m a).1 else m) k
        ≡ gathered (if b && a == k then false else lost)
  if_taken false m a k lost g = g
  if_taken true m a k lost g = taken m a k ∙ pick (a == k) (lookup m k) lost g
    where
      pick :
          (c : Bool) (o : Option ℕ) (lost : Bool)
          → o ≡ gathered lost
          → (if c then none else o) ≡ gathered (if c then false else lost)
      pick true o lost g = refl
      pick false o lost g = g

  -- The map holds the losses since the last completion of each buffer.
  lookup-causes_after :
      (cfg : UvcConfig) (cs : List DriverCall) (k : ℕ)
      → NeverFull K
      → lookup (causes_after cfg cs) k ≡ gathered (has_loss cfg cs k)
  unfolding causes_after
  lookup-causes_after cfg [] k full = lookup-empty k
  lookup-causes_after cfg (decode s urb b ∷ cs) k full =
      ap (λ m. lookup m k) (decode_map cfg s urb b (causes_after cfg cs))
      ∙ if_added (marks cfg s urb b) (causes_after cfg cs) b.address k (has_loss cfg cs b.address)
          (has_loss cfg cs k) full (lookup-causes_after cfg cs b.address full)
          (lookup-causes_after cfg cs k full)
  lookup-causes_after cfg (complete queue b now ∷ cs) k full =
      ap (λ m. lookup m k) (complete_map cfg queue b now (causes_after cfg cs))
      ∙ if_taken (clears queue b) (causes_after cfg cs) b.address k (has_loss cfg cs k)
          (lookup-causes_after cfg cs k full)

  take_bits :
      (m : Map) (a : ℕ) (lost short : Bool) (s : UvcStreaming) (b : UvcBuffer)
      → lookup m a ≡ gathered lost
      → is_short s b ≡ short
      → drop_reason s b (drop_cause_take K m a).0 ≡ cause lost short
  unfolding drop_reason drop_cause_take is_short
  take_bits m a true true s b h e = rw (drop_cause_take, h, e) refl
  take_bits m a true false s b h e = rw (drop_cause_take, h, e) refl
  take_bits m a false true s b h e = rw (drop_cause_take, h, e) refl
  take_bits m a false false s b h e = rw (drop_cause_take, h, e) refl

  -- After any decodes and completions of any buffers, with a map that is never full: when the driver
  -- drops a video buffer of a traced device, because its queue drops corrupted frames and the buffer
  -- has an error, one record is put on the buffer. Its reason is a lost packet exactly if a decode
  -- of this buffer saw one since the buffer's last completion, a short frame exactly if the size of
  -- an uncompressed frame is not the stream's, and neither of these exactly if neither happened.
  pub on_queue_complete-cause :
      (cfg : UvcConfig) (cs : List DriverCall) (queue : UvcQueue) (s : UvcStreaming)
      (usb : (ℕ × ℕ) × (ℕ × ℕ)) (b : UvcBuffer) (now : ℕ)
      → NeverFull K
      → is_video_buffer b ≡ true
      → queue.stream ≡ some s
      → stream_usb cfg s ≡ some usb
      → drops_corrupted queue.flags ≡ true
      → (u8 b.error == 0) ≡ false
      → (on_queue_complete K cfg (some queue) b now (causes_after cfg cs)).1
        ≡ some (drv_record drv_drop (cause (has_loss cfg cs b.address) (is_short s b)) usb now)
  unfolding on_queue_complete report_drop
  on_queue_complete-cause cfg cs queue s usb b now full v q u d e =
      rw (on_queue_complete, v, q, u, report_drop, d, e)
        (ap (λ r. some (drv_record drv_drop r usb now))
          (take_bits (causes_after cfg cs) b.address (has_loss cfg cs b.address) (is_short s b) s b
            (lookup-causes_after cfg cs b.address full) refl))
