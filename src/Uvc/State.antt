-- ===== src/Uvc/State.antt =====
-- uvc.bpf.c: the state that the programs keep, and what they read of the kernel.
use usbtrace.Common.{ℕ, Bool, Option}
use usbtrace.Common.Int.{ℤ}
use usbtrace.Records.{UvcFrameEvent, UvcVb2Event}
use usbtrace.Bpf.{KernelDev}

-- `struct uvc_config`, without what only user space reads.
pub record UvcConfig : Type 0 where
  pub filter_vid : ℕ
  pub filter_pid : ℕ
  pub no_frames : Bool
  pub no_vb2 : Bool

-- `UVC_MAX_ISOC_PKTS`.
abbrev pub max_isoc_pkts : ℕ
max_isoc_pkts = 32

abbrev pub vb2_min_bytes : ℕ
vb2_min_bytes = 100000

abbrev pub vb2_max_bytes : ℕ
vb2_max_bytes = 33554432

abbrev pub vb2_starve_cooldown_ns : ℕ
vb2_starve_cooldown_ns = 100000000

abbrev pub wire_vb2_max_ns : ℕ
wire_vb2_max_ns = 100000000

-- `struct uvc_stream_state`.
pub record StreamState : Type 0 where
  pub frame_start_ts : ℕ
  pub last_frame_end_ts : ℕ
  pub cur_bytes : ℕ
  pub cur_packets : ℕ
  pub cur_err_packets : ℕ
  pub cur_pts : ℕ
  pub cur_scr_stc : ℕ
  pub cur_scr_sof : ℕ
  pub cur_fid : ℕ
  pub have_fid : Bool
  pub saw_err : Bool
  pub active : Bool

-- `struct vb2_qstate`.
pub record QState : Type 0 where
  pub done_count : ℕ
  pub last_done_ns : ℕ
  pub last_starve_ns : ℕ
  pub last_sequence : ℕ
  pub have_last_seq : Bool

-- `struct stream_corr`.
pub record StreamCorr : Type 0 where
  pub last_wire_done_ns : ℕ
  pub last_wire_bytes : ℕ
  pub vid : ℕ
  pub product : ℕ
  pub busnum : ℕ
  pub devnum : ℕ

-- `struct usb_iso_packet_descriptor`.
pub record IsoDesc : Type 0 where
  pub offset : ℕ
  pub actual_length : ℕ
  pub status : ℤ

-- What the program reads of a video URB. `desc` and `payload`, which reads so many bytes at an
-- offset of the transfer buffer, may fail, as `bpf_probe_read_kernel` does.
pub record VideoUrb : Type 0 where
  pub dev : KernelDev
  pub pipe : ℕ
  pub number_of_packets : ℤ
  pub has_buffer : Bool
  pub transfer_buffer_length : ℕ
  pub desc : ℕ → Option IsoDesc
  pub payload : ℕ → ℕ → Option (ℕ → ℕ)

-- What the programs read of a `struct vb2_queue`.
pub record Pool : Type 0 where
  pub num_buffers : ℕ
  pub queued_count : ℕ
  pub owned_by_drv_count : ℕ

-- What the programs read of a `struct vb2_buffer`: `sequence` is `none` if the kernel has no such
-- field, and the queue 0 is NULL.
pub record Vb2Buffer : Type 0 where
  pub queue : ℕ
  pub type : ℕ
  pub index : ℕ
  pub bytesused : ℕ
  pub timestamp : ℕ
  pub sequence : Option ℕ

-- A record that the programs put on the event buffer.
pub data UvcRecord : Type 0 where
  frame : UvcFrameEvent → UvcRecord
  vb2 : UvcVb2Event → UvcRecord
