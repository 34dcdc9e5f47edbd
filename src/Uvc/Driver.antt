-- ===== src/Uvc/Driver.antt =====
-- uvc.bpf.c: the programs on uvcvideo, which count the frames that the driver hands on and drops.
pub mod Drops
mod Tests
use Prim.Native.Nat.{bit_and, bit_or}
use usbtrace.Common.{
  ℕ, zero, suc, ◌+◌, Bool, true, false, Option, none, some, if◌then◌else◌, ◌&&◌, ◌||◌, not, ◌==◌,
}
use usbtrace.Common.Int.{ℤ, pos, ltb_ℤ}
use usbtrace.Common.Word.{u8, u16, leb_ℤ}
use usbtrace.Records.{
  UvcDrvEvent, evt_uvc_drv, size_of_uvc_drv_event, drv_recv, drv_drop, drop_short_bit, drop_iso_bit,
  drop_other_bit,
}
use usbtrace.Bpf.{KernelDev, dev_match, KeyMap}
use usbtrace.Uvc.State.{UvcConfig, IsoDesc, max_isoc_pkts}

-- What the programs read of a `struct uvc_streaming`: `dev` is `none` if the pointer to its device
-- is NULL, and `format_flags` if it has no current format.
pub record UvcStreaming : Type 0 where
  pub dev : Option KernelDev
  pub max_frame_size : ℕ
  pub format_flags : Option ℕ

-- What they read of a `struct uvc_buffer` at its address, 0 for NULL.
pub record UvcBuffer : Type 0 where
  pub address : ℕ
  pub type : ℕ
  pub error : ℕ
  pub bytesused : ℕ

-- What they read of a `struct uvc_video_queue`, with the stream around it; `none` if the kernel has
-- no such field.
pub record UvcQueue : Type 0 where
  pub flags : ℕ
  pub stream : Option UvcStreaming

-- `uvc_buf_is_video`.
unfoldable pub is_video_buffer : UvcBuffer → Bool
is_video_buffer b = not (b.address == 0) && (b.type == 1 || b.type == 9)

-- `uvc_stream_usb`: the ids, and the numbers of bus and device.
unfoldable pub stream_usb : UvcConfig → UvcStreaming → Option ((ℕ × ℕ) × (ℕ × ℕ))
stream_usb cfg s = elim s.dev [
  | none ↦ none
  | some dev ↦ elim (dev_match dev cfg.filter_vid cfg.filter_pid) [
    | none ↦ none
    | some ids ↦ some (ids, (u16 dev.busnum, u16 dev.devnum))
  ]
]

-- The record of `uvc_drv_emit`.
unfoldable pub drv_record : ℕ → ℕ → (ℕ × ℕ) × (ℕ × ℕ) → ℕ → UvcDrvEvent
drv_record op reason ((vid, pid), (bus, devnum)) now = record {
  hdr = record { kind = evt_uvc_drv; size = size_of_uvc_drv_event; ts_ns = now };
  drv_op = op;
  reason = reason;
  vid = vid;
  product = pid;
  busnum = bus;
  devnum = devnum;
}

-- `on_queue_next`; the queue is `none` if its pointer is NULL.
unfoldable pub on_queue_next : UvcConfig → Option UvcQueue → UvcBuffer → ℕ → Option UvcDrvEvent
on_queue_next cfg none b now = none
on_queue_next cfg (some queue) b now = if not (is_video_buffer b) then none else elim queue.stream [
  | none ↦ none
  | some s ↦ elim (stream_usb cfg s) [
    | none ↦ none
    | some usb ↦ some (drv_record drv_recv 0 usb now)
  ]
]

-- What `on_decode_isoc` reads of the URB: a packet descriptor may fail to be read.
pub record IsoUrb : Type 0 where
  pub number_of_packets : ℤ
  pub desc : ℕ → Option IsoDesc

abbrev pub is_lost : Option IsoDesc → Bool
is_lost none = false
is_lost (some d) = ltb_ℤ d.status (pos 0)

-- The loop over the packets, from `i` with so many rounds left: does it see a loss?
unfoldable pub sees_loss : IsoUrb → ℕ → ℕ → Bool
sees_loss urb i zero = false
sees_loss urb i (suc rounds) =
    let rest = sees_loss urb (i + 1) rounds in
    if leb_ℤ urb.number_of_packets (pos i)
    then false
    else if is_lost (urb.desc i)
    then true
    else rest

-- `(qflags & UVC_QUEUE_DROP_CORRUPTED)` and `(fmtflags & UVC_FMT_FLAG_COMPRESSED)`.
abbrev pub drops_corrupted : ℕ → Bool
drops_corrupted flags = not (bit_and flags 2 == 0)

abbrev pub flags_of : Option ℕ → ℕ
flags_of none = 0
flags_of (some flags) = flags

abbrev pub is_compressed : ℕ → Bool
is_compressed flags = not (bit_and flags 1 == 0)

-- The test of a short frame.
unfoldable pub is_short : UvcStreaming → UvcBuffer → Bool
is_short s b =
    not (is_compressed (flags_of s.format_flags))
    && (not (s.max_frame_size == 0) && not (b.bytesused == s.max_frame_size))

-- `reason` of a drop, from the bits gathered before.
unfoldable pub drop_reason : UvcStreaming → UvcBuffer → ℕ → ℕ
drop_reason s b gathered =
    let reason = if is_short s b then bit_or gathered drop_short_bit else gathered in
    if reason == 0 then drop_other_bit else reason

module _ (K : KeyMap ℕ) where
  open K use {Map, lookup, update, delete}

  -- `uvc_drop_cause_add`.
  unfoldable pub drop_cause_add : Map → ℕ → ℕ → Map
  drop_cause_add m key bit = elim (lookup m key) [
    | some cur ↦ update m key (bit_or cur bit)
    | none ↦ update m key bit
  ]

  -- `uvc_drop_cause_take`.
  unfoldable pub drop_cause_take : Map → ℕ → ℕ × Map
  drop_cause_take m key = elim (lookup m key) [ some cur ↦ (cur, delete m key) | none ↦ (0, m) ]

  -- `on_decode_isoc`; the stream and the URB are `none` if their pointers are NULL.
  unfoldable pub on_decode_isoc :
      UvcConfig → Option UvcStreaming → Option IsoUrb → UvcBuffer → Map → Map
  on_decode_isoc cfg none urb b m = m
  on_decode_isoc cfg (some s) none b m = m
  on_decode_isoc cfg (some s) (some urb) b m =
      if not (is_video_buffer b) then m else elim (stream_usb cfg s) [
        | none ↦ m
        | some usb ↦
            if sees_loss urb 0 max_isoc_pkts then drop_cause_add m b.address drop_iso_bit else m
      ]

  -- `on_queue_complete` from the test of the flags on, with the bits gathered before.
  unfoldable pub report_drop :
      UvcQueue → UvcStreaming → UvcBuffer → (ℕ × ℕ) × (ℕ × ℕ) → ℕ → ℕ → Option UvcDrvEvent
  report_drop queue s b usb gathered now =
      if not (drops_corrupted queue.flags) || u8 b.error == 0
      then none
      else some (drv_record drv_drop (drop_reason s b gathered) usb now)

  -- `on_queue_complete`; the queue is `none` if its pointer is NULL.
  unfoldable pub on_queue_complete :
      UvcConfig → Option UvcQueue → UvcBuffer → ℕ → Map → Map × Option UvcDrvEvent
  on_queue_complete cfg none b now m = ((drop_cause_take m b.address).1, none)
  on_queue_complete cfg (some queue) b now m =
      let (gathered, m') = drop_cause_take m b.address in
      if not (is_video_buffer b) then (m', none) else elim queue.stream [
        | none ↦ (m, none)
        | some s ↦ elim (stream_usb cfg s) [
          | none ↦ (m', none)
          | some usb ↦ (m', report_drop queue s b usb gathered now)
        ]
      ]
