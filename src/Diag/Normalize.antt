-- ===== src/Diag/Normalize.antt =====
-- src/modules/diag/diag.c, event normalization: one record of the event buffer becomes a DiagEvent.
pub mod Laws
mod Tests
use Prim.Native.Nat.{bit_or}
use usbtrace.Common.{ℕ, ◌*◌, ◌%◌, ◌^◌, Option, none, some, if◌then◌else◌, ltb, ◌==◌}
use usbtrace.Common.Word.{u16}
use usbtrace.Records.{
  EventHdr, UrbEvent, EnumEvent, PowerRec, LifecycleEvent, HubEvent, ClassUrbEvent, UvcFrameEvent,
  UvcVb2Event, evt_urb, evt_enum, evt_power, evt_lifecycle, evt_hub, evt_class, evt_uvc_frame,
  evt_uvc_vb2, class_video, size_of_hdr, size_of_urb_event, size_of_enum_event, size_of_power_rec,
  size_of_lifecycle_event, size_of_hub_event, size_of_class_urb_event, size_of_uvc_frame_event,
  size_of_uvc_vb2_event,
}
use usbtrace.Diag.Event.{DiagEvent, zero_event}
use usbtrace.Diag.Engine.{Engine, ingest}

-- The bytes at `data`, as each of the structs that `normalize` may read them as.
pub record RawRecord : Type 0 where
  pub hdr : EventHdr
  pub as_urb : UrbEvent
  pub as_enum : EnumEvent
  pub as_power : PowerRec
  pub as_lifecycle : LifecycleEvent
  pub as_hub : HubEvent
  pub as_class : ClassUrbEvent
  pub as_frame : UvcFrameEvent
  pub as_vb2 : UvcVb2Event

-- The cases of the `switch`, each on the event that the envelope gives.
unfoldable pub from_urb : UrbEvent → DiagEvent → DiagEvent
from_urb e out =
    let base = record out {
      vid = e.vid;
      product = e.product;
      busnum = e.busnum;
      devnum = e.devnum;
      status = e.status;
      latency_ns = e.latency_ns % 2 ^ 32;
      actual = e.actual;
      length = e.length;
      xfer_type = e.xfer_type;
      dir_in = e.dir_in;
      ep = e.ep;
      is_submit = e.is_submit;
      has_setup = e.has_setup;
      comm = e.comm;
    } in
    if e.has_setup == 0
    then base
    else (record base { brequest = e.setup 1; wvalue = u16 (bit_or (e.setup 2) (e.setup 3 * 256)) })

unfoldable pub from_enum : EnumEvent → DiagEvent → DiagEvent
from_enum e out = record out {
  vid = e.vid;
  product = e.product;
  busnum = e.busnum;
  devnum = e.devnum;
  speed = e.speed;
  portnum = e.portnum;
  old_state = e.old_state;
  new_state = e.new_state;
  step = e.step;
  status = e.status;
  devpath = e.devpath;
  comm = e.comm;
}

unfoldable pub from_power : PowerRec → DiagEvent → DiagEvent
from_power e out = record out {
  vid = e.vid;
  product = e.product;
  busnum = e.busnum;
  devnum = e.devnum;
  speed = e.speed;
  portnum = e.portnum;
  action = e.action;
  devpath = e.devpath;
  comm = e.comm;
}

unfoldable pub from_lifecycle : LifecycleEvent → DiagEvent → DiagEvent
from_lifecycle e out = record out {
  vid = e.vid;
  product = e.product;
  busnum = e.busnum;
  devnum = e.devnum;
  speed = e.speed;
  portnum = e.portnum;
  action = e.action;
  reset_resume = e.reset_resume;
  devpath = e.devpath;
  comm = e.comm;
}

unfoldable pub from_hub : HubEvent → DiagEvent → DiagEvent
from_hub e out = record out {
  vid = e.vid;
  product = e.product;
  busnum = e.busnum;
  devnum = e.devnum;
  speed = e.speed;
  portnum = e.portnum;
  action = e.action;
  devpath = e.devpath;
  comm = e.comm;
}

unfoldable pub from_class : ClassUrbEvent → DiagEvent → DiagEvent
from_class e out = record out {
  vid = e.vid;
  product = e.product;
  busnum = e.busnum;
  devnum = e.devnum;
  status = e.status;
  error_count = e.error_count;
  actual = e.actual_length;
  length = e.actual_length;
  xfer_type = e.xfer_type;
  dir_in = e.dir_in;
  ep = e.ep;
  cls = e.klass;
  is_submit = 0;
  comm = e.comm;
}

unfoldable pub from_frame : UvcFrameEvent → DiagEvent → DiagEvent
from_frame e out = record out {
  vid = e.vid;
  product = e.product;
  busnum = e.busnum;
  devnum = e.devnum;
  ep = e.ep;
  cls = class_video;
  actual = e.bytes;
  frame_bytes = e.bytes;
  frame_interval_ns = e.interval_ns;
  frame_errored = e.errored;
  comm = e.comm;
}

unfoldable pub from_vb2 : UvcVb2Event → DiagEvent → DiagEvent
from_vb2 e out = record out {
  vid = e.vid;
  product = e.product;
  busnum = e.busnum;
  devnum = e.devnum;
  cls = class_video;
  actual = e.bytesused;
  vb2_sequence = e.sequence;
  vb2_bytesused = e.bytesused;
  vb2_interval_ns = e.interval_ns;
  vb2_seq_gap = e.seq_gap;
  wire_to_vb2_ns = e.wire_to_vb2_ns;
  vb2_op = e.vb2_op;
  vb2_starved = e.starved;
  vb2_num_buffers = e.num_buffers;
  vb2_queued = e.queued;
  vb2_drv_owned = e.drv_owned;
  comm = e.comm;
}

-- `if (len < sizeof(*e)) return -1;`.
abbrev pub sized : ℕ → ℕ → DiagEvent → Option DiagEvent
sized len size ev = if ltb len size then none else some ev

-- The event before the `switch`: zeroed, with the kind and time of the envelope.
unfoldable pub envelope : EventHdr → DiagEvent
unfolding zero_event
envelope h = record zero_event { kind = h.kind; ts_ns = h.ts_ns }

-- `normalize` on the record at `data` and its length; `none` is the result -1.
unfoldable pub normalize : RawRecord → ℕ → Option DiagEvent
normalize raw len =
    let out = envelope raw.hdr in
    let kind = raw.hdr.kind in
    if ltb len size_of_hdr
    then none
    else if kind == evt_urb
    then sized len size_of_urb_event (from_urb raw.as_urb out)
    else if kind == evt_enum
    then sized len size_of_enum_event (from_enum raw.as_enum out)
    else if kind == evt_power
    then sized len size_of_power_rec (from_power raw.as_power out)
    else if kind == evt_lifecycle
    then sized len size_of_lifecycle_event (from_lifecycle raw.as_lifecycle out)
    else if kind == evt_hub
    then sized len size_of_hub_event (from_hub raw.as_hub out)
    else if kind == evt_class
    then sized len size_of_class_urb_event (from_class raw.as_class out)
    else if kind == evt_uvc_frame
    then sized len size_of_uvc_frame_event (from_frame raw.as_frame out)
    else if kind == evt_uvc_vb2
    then sized len size_of_uvc_vb2_event (from_vb2 raw.as_vb2 out)
    else none

-- `on_event`, the callback of the event buffer.
unfoldable pub on_event : (ℕ → ℕ) → Engine → RawRecord → ℕ → Engine
on_event clock e raw len = elim (normalize raw len) [ none ↦ e | some ev ↦ ingest clock e ev ]
