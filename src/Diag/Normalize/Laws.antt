-- ===== src/Diag/Normalize/Laws.antt =====
-- Which records are accepted, and what of a record reaches the engine.
use usbtrace.Common.{
  is_some, ℕ, ◌≤◌, ◌+◌, ◌%◌, ◌^◌, ◌<◌, ◌≡◌, ◌↔◌, Option, none, some, ap, if◌then◌else◌, ◌==◌, ltb,
  arith, Bool, true, false,
}
use usbtrace.Records.{
  evt_urb, evt_enum, evt_power, evt_lifecycle, evt_hub, evt_class, evt_uvc_frame, evt_uvc_vb2,
  size_of_urb_event, size_of_enum_event, size_of_power_rec, size_of_lifecycle_event,
  size_of_hub_event, size_of_class_urb_event, size_of_uvc_frame_event, size_of_uvc_vb2_event,
}
use usbtrace.Common.Int.{pos}
use usbtrace.Diag.Event.{DiagEvent}
use usbtrace.Diag.Rule.{ev_field_val, f_latency_ns}
use usbtrace.Diag.Normalize.{
  RawRecord, normalize, envelope, from_urb, from_enum, from_power, from_lifecycle, from_hub,
  from_class, from_frame, from_vb2,
}

-- How many bytes a record of a kind has, for the kinds that the engine reads.
abbrev pub record_size : ℕ → Option ℕ
record_size kind =
    if kind == evt_urb
    then some size_of_urb_event
    else if kind == evt_enum
    then some size_of_enum_event
    else if kind == evt_power
    then some size_of_power_rec
    else if kind == evt_lifecycle
    then some size_of_lifecycle_event
    else if kind == evt_class
    then some size_of_class_urb_event
    else if kind == evt_uvc_frame
    then some size_of_uvc_frame_event
    else if kind == evt_uvc_vb2
    then some size_of_uvc_vb2_event
    else if kind == evt_hub
    then some size_of_hub_event
    else none

-- Is the record of a known kind and complete?
abbrev pub accepts : ℕ → ℕ → Bool
accepts kind len = elim (record_size kind) [
  | none ↦ false
  | some size ↦ if ltb len size then false else true
]

-- A record is accepted exactly if its kind is known and it is complete.
pub normalize-accepts :
    (raw : RawRecord) (len : ℕ) → is_some (normalize raw len) ≡ accepts raw.hdr.kind len
unfolding normalize
normalize-accepts raw len = ground arith

-- The device that a record names, as the struct of its kind has it: vid, pid, bus and device number.
abbrev pub identity : RawRecord → ℕ × ℕ × ℕ × ℕ
identity raw =
    let kind = raw.hdr.kind in
    if kind == evt_urb
    then (raw.as_urb.vid, raw.as_urb.product, raw.as_urb.busnum, raw.as_urb.devnum)
    else if kind == evt_enum
    then (raw.as_enum.vid, raw.as_enum.product, raw.as_enum.busnum, raw.as_enum.devnum)
    else if kind == evt_power
    then (raw.as_power.vid, raw.as_power.product, raw.as_power.busnum, raw.as_power.devnum)
    else if kind == evt_lifecycle
    then (
      raw.as_lifecycle.vid, raw.as_lifecycle.product, raw.as_lifecycle.busnum,
      raw.as_lifecycle.devnum,
    )
    else if kind == evt_hub
    then (raw.as_hub.vid, raw.as_hub.product, raw.as_hub.busnum, raw.as_hub.devnum)
    else if kind == evt_class
    then (raw.as_class.vid, raw.as_class.product, raw.as_class.busnum, raw.as_class.devnum)
    else if kind == evt_uvc_frame
    then (raw.as_frame.vid, raw.as_frame.product, raw.as_frame.busnum, raw.as_frame.devnum)
    else (raw.as_vb2.vid, raw.as_vb2.product, raw.as_vb2.busnum, raw.as_vb2.devnum)

-- An accepted record keeps its kind, its time and the device that it names.
pub normalize-identity :
    (raw : RawRecord) (len : ℕ) {ev : DiagEvent}
    → normalize raw len ≡ some ev
    → (ev.kind ≡ raw.hdr.kind)
      × (ev.ts_ns ≡ raw.hdr.ts_ns)
      × ((ev.vid, ev.product, ev.busnum, ev.devnum) ≡ identity raw)
unfolding normalize envelope from_urb from_enum from_power from_lifecycle from_hub from_class
    from_frame from_vb2
normalize-identity raw len h = (ground arith, ground arith, ground arith)

urb_latency :
    (raw : RawRecord) (len : ℕ) {ev : DiagEvent}
    → raw.hdr.kind ≡ evt_urb
    → normalize raw len ≡ some ev
    → ev.latency_ns ≡ raw.as_urb.latency_ns % 2 ^ 32
unfolding normalize from_urb envelope
urb_latency raw len k h = ground arith

-- The field `latency_ns` that the rules read of an accepted URB record is the URB's latency modulo
-- 2 ^ 32 nanoseconds, some 4.3 seconds: whole exactly if it is less than that, and otherwise short
-- by at least as much.
pub urb_latency_wraps :
    (raw : RawRecord) (len : ℕ) {ev : DiagEvent}
    → raw.hdr.kind ≡ evt_urb
    → normalize raw len ≡ some ev
    → (ev_field_val ev f_latency_ns ≡ pos (raw.as_urb.latency_ns % 2 ^ 32))
      × ((ev.latency_ns ≡ raw.as_urb.latency_ns) ↔ (raw.as_urb.latency_ns < 2 ^ 32))
      × (2 ^ 32 ≤ raw.as_urb.latency_ns → ev.latency_ns + 2 ^ 32 ≤ raw.as_urb.latency_ns)
unfolding ev_field_val
urb_latency_wraps raw len k h =
    let kept = urb_latency raw len k h in
    (ap pos kept, (λ e. omega arith, λ l. omega arith), λ l. omega arith)
