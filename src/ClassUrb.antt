-- ===== src/ClassUrb.antt =====
-- include/usbtrace/class_urb.bpf.h, and the programs of the audio, HID and storage modules, which
-- call it with their class.
mod Session
mod Tests
use Prim.Native.Nat.{bit_and}
use usbtrace.Common.{ℕ, ◌/◌, ◌%◌, ◌^◌, List, [], ◌∷◌, Option, none, some, if◌then◌else◌, ◌==◌}
use usbtrace.Common.Int.{ℤ}
use usbtrace.Common.Word.{u16, u32, cast_u32}
use usbtrace.Records.{ClassUrbEvent, evt_class, size_of_class_urb_event}
use usbtrace.Bpf.{KernelDev, Task, dev_match}

-- `struct usbtrace_class_config`.
pub record ClassConfig : Type 0 where
  pub filter_vid : ℕ
  pub filter_pid : ℕ

-- What the programs read of a completed `struct urb`.
pub record CompletedUrb : Type 0 where
  pub dev : KernelDev
  pub pipe : ℕ
  pub status : ℤ
  pub error_count : ℤ
  pub number_of_packets : ℤ
  pub actual_length : ℕ
  pub start_frame : ℤ

-- The record that `usbtrace_class_urb_emit` fills, with the ids that the filter wrote.
abbrev pub class_record : ℕ → Task → CompletedUrb → ℕ → ℕ × ℕ → ClassUrbEvent
class_record klass task urb now (vid, pid) = record {
  hdr = record { kind = evt_class; size = size_of_class_urb_event; ts_ns = now };
  status = urb.status;
  error_count = urb.error_count;
  number_of_packets = cast_u32 urb.number_of_packets;
  actual_length = u32 urb.actual_length;
  start_frame = urb.start_frame;
  tgid = u32 task.tgid;
  vid = vid;
  product = pid;
  busnum = u16 urb.dev.busnum;
  devnum = u16 urb.dev.devnum;
  klass = klass;
  ep = urb.pipe / 2 ^ 15 % 16;
  dir_in = if bit_and urb.pipe 0x80 == 0 then 0 else 1;
  xfer_type = urb.pipe / 2 ^ 30 % 4;
  comm = task.comm;
}

-- `usbtrace_class_urb_emit`: the record that goes on the buffer. `none` is a NULL URB.
unfoldable pub class_urb_emit :
    ClassConfig → ℕ → Task → Option CompletedUrb → ℕ → Option ClassUrbEvent
class_urb_emit cfg klass task none now = none
class_urb_emit cfg klass task (some urb) now =
    elim (dev_match urb.dev cfg.filter_vid cfg.filter_pid) [
      | none ↦ none
      | some ids ↦ some (class_record klass task urb now ids)
    ]
