-- ===== src/Urb.antt =====
-- src/modules/urb: the BPF program that pairs submissions with completions (urb.bpf.c), and the
-- decoder of setup packets (urb.c).
pub mod Names
pub mod Setup
mod Fits
pub mod Pairing
mod Tests
use Prim.Native.Nat.{bit_and}
use usbtrace.Common.{
  ℕ, ◌^◌, ◌/◌, ◌%◌, Bool, true, false, List, [], Option, none, some, if◌then◌else◌, ◌&&◌, not, ◌==◌,
}
use usbtrace.Common.Int.{ℤ, pos}
use usbtrace.Common.Word.{u16, u32, sub_u64}
use usbtrace.Records.{UrbEvent, evt_urb, size_of_urb_event}
use usbtrace.Bpf.{KernelDev, Task, dev_match, KeyMap}

-- `struct urb_config`.
pub record UrbConfig : Type 0 where
  pub filter_vid : ℕ
  pub filter_pid : ℕ
  pub emit_submit : Bool
  pub ctrl_only : Bool

-- What the programs read of a `struct urb`, at its address. The address 0 is NULL; the setup packet
-- is `none` if its pointer is NULL or cannot be read.
pub record KernelUrb : Type 0 where
  pub address : ℕ
  pub dev : KernelDev
  pub pipe : ℕ
  pub transfer_buffer_length : ℕ
  pub actual_length : ℕ
  pub setup_packet : Option (ℕ → ℕ)

-- `USBTRACE_XFER_CONTROL`.
abbrev pub xfer_control : ℕ
xfer_control = 2

unfoldable pub pipe_endpoint : ℕ → ℕ
pipe_endpoint pipe = pipe / 2 ^ 15 % 16

unfoldable pub pipe_is_in : ℕ → ℕ
pipe_is_in pipe = if bit_and pipe 0x80 == 0 then 0 else 1

unfoldable pub pipe_type : ℕ → ℕ
pipe_type pipe = pipe / 2 ^ 30 % 4

-- `urb_passes_filter`.
abbrev pub urb_passes_filter : UrbConfig → KernelUrb → Option (ℕ × ℕ)
urb_passes_filter cfg urb = dev_match urb.dev cfg.filter_vid cfg.filter_pid

-- `urb_is_control`.
abbrev pub urb_is_control : KernelUrb → Bool
urb_is_control urb = pipe_type urb.pipe == xfer_control

-- `struct urb_event e = {}`, with the header that both handlers write.
unfoldable pub blank_event : ℕ → UrbEvent
blank_event ts = record {
  hdr = record { kind = evt_urb; size = size_of_urb_event; ts_ns = ts };
  latency_ns = 0;
  tgid = 0;
  length = 0;
  actual = 0;
  status = pos 0;
  vid = 0;
  product = 0;
  busnum = 0;
  devnum = 0;
  ep = 0;
  dir_in = 0;
  xfer_type = 0;
  is_submit = 0;
  comm = [];
  has_setup = 0;
  setup = λ i. 0;
}

-- `fill_setup`.
unfoldable pub fill_setup : UrbEvent → KernelUrb → UrbEvent
fill_setup e urb =
    if not (e.xfer_type == xfer_control)
    then e
    else elim urb.setup_packet [ none ↦ e | some s ↦ record e { setup = s; has_setup = 1 } ]

-- `fill_common`.
unfoldable pub fill_common : UrbEvent → KernelUrb → ℕ → ℕ → Task → UrbEvent
unfolding fill_setup pipe_endpoint pipe_is_in pipe_type
fill_common e urb vid pid task =
    fill_setup
      (record e {
        vid = vid;
        product = pid;
        busnum = u16 urb.dev.busnum;
        devnum = u16 urb.dev.devnum;
        ep = pipe_endpoint urb.pipe;
        dir_in = pipe_is_in urb.pipe;
        xfer_type = pipe_type urb.pipe;
        length = urb.transfer_buffer_length;
        tgid = u32 task.tgid;
        comm = task.comm;
      })
      urb

-- The record of a submission, and of a completion with its latency.
abbrev pub submit_record : KernelUrb → ℕ → ℕ → Task → ℕ → UrbEvent
submit_record urb vid pid task ts =
    fill_common (record (blank_event ts) { is_submit = 1 }) urb vid pid task

abbrev pub giveback_record : KernelUrb → ℕ → ℕ → Task → ℤ → ℕ → ℕ → UrbEvent
giveback_record urb vid pid task status now latency =
    fill_common
      (record (blank_event now) {
        latency_ns = latency;
        status = status;
        actual = urb.actual_length;
      })
      urb vid pid task

-- `tsp ? (now - *tsp) : 0`.
abbrev pub latency : ℕ → Option ℕ → ℕ
latency now none = 0
latency now (some ts) = sub_u64 now ts

module _ (K : KeyMap ℕ) where
  open K use {Map, lookup, update, delete}

  -- `on_submit`, at time `ts`: the map `start_ts`, and the record that goes on the buffer.
  unfoldable pub on_submit : UrbConfig → Task → KernelUrb → ℕ → Map → Map × Option UrbEvent
  on_submit cfg task urb ts m =
      if urb.address == 0
      then (m, none)
      else if cfg.ctrl_only && not (urb_is_control urb)
      then (m, none)
      else elim (urb_passes_filter cfg urb) [
        | none ↦ (m, none)
        | some (vid, pid) ↦ (
          update m urb.address ts,
          if cfg.emit_submit then some (submit_record urb vid pid task ts) else none,
        )
      ]

  -- `if (tsp) bpf_map_delete_elem(...)`.
  abbrev pub forget : Map → ℕ → Option ℕ → Map
  forget m key none = m
  forget m key (some ts) = delete m key

  -- `on_giveback`, at time `now`.
  unfoldable pub on_giveback : UrbConfig → Task → KernelUrb → ℤ → ℕ → Map → Map × Option UrbEvent
  on_giveback cfg task urb status now m =
      if urb.address == 0
      then (m, none)
      else if cfg.ctrl_only && not (urb_is_control urb)
      then (delete m urb.address, none)
      else (let tsp = lookup m urb.address in
          elim (urb_passes_filter cfg urb) [
            | none ↦ (forget m urb.address tsp, none)
            | some (vid, pid) ↦ (
              forget m urb.address tsp,
              some (giveback_record urb vid pid task status now (latency now tsp)),
            )
          ])
