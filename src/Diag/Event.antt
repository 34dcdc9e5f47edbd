-- ===== src/Diag/Event.antt =====
-- src/modules/diag/diag.h: the normalized event that the engine and the rules refer to.
use usbtrace.Common.{ℕ, List, [], Bool, ◌&&◌, ◌==◌}
use usbtrace.Common.Int.{ℤ, pos}

pub record DiagEvent : Type 0 where
  pub kind : ℕ
  pub ts_ns : ℕ
  pub vid : ℕ
  pub product : ℕ  -- `pid`
  pub busnum : ℕ
  pub devnum : ℕ
  pub speed : ℕ
  pub portnum : ℕ
  pub status : ℤ
  pub latency_ns : ℕ
  pub actual : ℕ
  pub length : ℕ
  pub error_count : ℤ
  pub xfer_type : ℕ
  pub dir_in : ℕ
  pub ep : ℕ
  pub is_submit : ℕ
  pub cls : ℕ
  pub frame_bytes : ℕ
  pub frame_interval_ns : ℕ
  pub frame_errored : ℕ
  pub vb2_sequence : ℕ
  pub vb2_bytesused : ℕ
  pub vb2_interval_ns : ℕ
  pub wire_to_vb2_ns : ℕ
  pub vb2_seq_gap : ℕ
  pub vb2_op : ℕ
  pub vb2_starved : ℕ
  pub vb2_num_buffers : ℕ
  pub vb2_queued : ℕ
  pub vb2_drv_owned : ℕ
  pub old_state : ℕ
  pub new_state : ℕ
  pub action : ℕ
  pub reset_resume : ℕ
  pub step : ℕ
  pub has_setup : ℕ
  pub brequest : ℕ
  pub wvalue : ℕ
  pub comm : List ℕ
  pub devpath : List ℕ

-- `memset(out, 0, sizeof(*out))`. A zeroed `char` array is the empty text.
unfoldable pub zero_event : DiagEvent
zero_event = record {
  kind = 0;
  ts_ns = 0;
  vid = 0;
  product = 0;
  busnum = 0;
  devnum = 0;
  speed = 0;
  portnum = 0;
  status = pos 0;
  latency_ns = 0;
  actual = 0;
  length = 0;
  error_count = pos 0;
  xfer_type = 0;
  dir_in = 0;
  ep = 0;
  is_submit = 0;
  cls = 0;
  frame_bytes = 0;
  frame_interval_ns = 0;
  frame_errored = 0;
  vb2_sequence = 0;
  vb2_bytesused = 0;
  vb2_interval_ns = 0;
  wire_to_vb2_ns = 0;
  vb2_seq_gap = 0;
  vb2_op = 0;
  vb2_starved = 0;
  vb2_num_buffers = 0;
  vb2_queued = 0;
  vb2_drv_owned = 0;
  old_state = 0;
  new_state = 0;
  action = 0;
  reset_resume = 0;
  step = 0;
  has_setup = 0;
  brequest = 0;
  wvalue = 0;
  comm = [];
  devpath = [];
}

-- `struct diag_devkey`: only (bus,dev) is stable across the modules.
pub record DevKey : Type 0 where
  pub busnum : ℕ
  pub devnum : ℕ

-- `diag_event_key`.
abbrev pub event_key : DiagEvent → DevKey
event_key e = record { busnum = e.busnum; devnum = e.devnum }

-- `key_eq`.
abbrev pub key_eq : DevKey → DevKey → Bool
key_eq a b = a.busnum == b.busnum && a.devnum == b.devnum
