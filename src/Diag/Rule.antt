-- ===== src/Diag/Rule.antt =====
-- src/modules/diag/engine.h: the rules, and what a rule says of one event (engine.c, matching).
use usbtrace.Common.{ℕ, List, [], ◌∷◌, Bool, true, false, ◌==◌, if◌then◌else◌, ◌&&◌}
use usbtrace.Common.{not, Option, length}
use usbtrace.Common.Int.{ℤ, pos, negsuc}
use usbtrace.Common.Word.{leb_ℤ, ◌==ℤ◌}
use usbtrace.Diag.Event.{DiagEvent}

abbrev pub diag_max_rules : ℕ
diag_max_rules = 64

abbrev pub diag_max_when : ℕ
diag_max_when = 8

abbrev pub diag_max_match : ℕ
diag_max_match = 8

abbrev pub diag_max_status : ℕ
diag_max_status = 16

-- `enum diag_field`.
pub data Field : Type 0 where
  f_none f_kind f_is_submit f_status f_xfer_type f_dir_in f_ep f_action f_old_state : Field
  f_new_state f_latency_ns f_actual f_length f_error_count f_class f_frame_bytes : Field
  f_frame_interval f_frame_errored f_vb2_sequence f_vb2_seq_gap f_vb2_bytesused : Field
  f_vb2_interval f_wire_to_vb2_ns f_vb2_op f_vb2_starved f_vb2_num_buffers f_vb2_queued : Field
  f_vb2_drv_owned f_step f_brequest f_wvalue f_reset_resume : Field

-- `enum diag_op`.
pub data CmpOp : Type 0 where
  op_eq op_ne op_gte op_lte : CmpOp

-- `enum diag_severity`.
pub data Severity : Type 0 where
  sev_info sev_warn sev_error : Severity

-- `enum diag_rule_type`.
pub data RuleType : Type 0 where
  rule_event rule_deadline : RuleType

-- `struct diag_match`.
pub record FieldMatch : Type 0 where
  pub field : Field
  pub value : ℤ
  pub op : CmpOp

-- `struct diag_cond`. An array with its count is a list; a `has_` flag is a truth value.
pub record Cond : Type 0 where
  pub has_kind : Bool
  pub kind : ℕ
  pub matches : List FieldMatch
  pub status_in : List ℤ
  pub has_within_ms : Bool
  pub within_ms : ℤ
  pub has_count_gte : Bool
  pub count_gte : ℤ
  pub has_min_span_ms : Bool
  pub min_span_ms : ℤ
  pub has_cluster_ms : Bool
  pub cluster_ms : ℤ

-- `struct diag_rule`. A `char *` that may be NULL is an option.
pub record Rule : Type 0 where
  pub id : Option (List ℕ)
  pub name : Option (List ℕ)
  pub conclusion : Option (List ℕ)
  pub fix : Option (List ℕ)
  pub severity : Severity
  pub type : RuleType
  pub trigger : Cond
  pub when : List Cond
  pub dl_reached_state : ℤ
  pub dl_without_state : ℤ
  pub dl_timeout_ms : ℤ

-- `ev_field_val`.
unfoldable pub ev_field_val : DiagEvent → Field → ℤ
ev_field_val e f_kind = pos e.kind
ev_field_val e f_is_submit = pos e.is_submit
ev_field_val e f_status = e.status
ev_field_val e f_xfer_type = pos e.xfer_type
ev_field_val e f_dir_in = pos e.dir_in
ev_field_val e f_ep = pos e.ep
ev_field_val e f_action = pos e.action
ev_field_val e f_old_state = pos e.old_state
ev_field_val e f_new_state = pos e.new_state
ev_field_val e f_latency_ns = pos e.latency_ns
ev_field_val e f_actual = pos e.actual
ev_field_val e f_length = pos e.length
ev_field_val e f_error_count = e.error_count
ev_field_val e f_class = pos e.cls
ev_field_val e f_frame_bytes = pos e.frame_bytes
ev_field_val e f_frame_interval = pos e.frame_interval_ns
ev_field_val e f_frame_errored = pos e.frame_errored
ev_field_val e f_vb2_sequence = pos e.vb2_sequence
ev_field_val e f_vb2_seq_gap = pos e.vb2_seq_gap
ev_field_val e f_vb2_bytesused = pos e.vb2_bytesused
ev_field_val e f_vb2_interval = pos e.vb2_interval_ns
ev_field_val e f_wire_to_vb2_ns = pos e.wire_to_vb2_ns
ev_field_val e f_vb2_op = pos e.vb2_op
ev_field_val e f_vb2_starved = pos e.vb2_starved
ev_field_val e f_vb2_num_buffers = pos e.vb2_num_buffers
ev_field_val e f_vb2_queued = pos e.vb2_queued
ev_field_val e f_vb2_drv_owned = pos e.vb2_drv_owned
ev_field_val e f_step = pos e.step
ev_field_val e f_brequest = if e.has_setup == 0 then negsuc 0 else pos e.brequest
ev_field_val e f_wvalue = if e.has_setup == 0 then negsuc 0 else pos e.wvalue
ev_field_val e f_reset_resume = pos e.reset_resume
ev_field_val e f_none = pos 0

-- The `switch` of `match_one`, and `match_one`.
unfoldable pub compare_by : CmpOp → ℤ → ℤ → Bool
compare_by op_ne v value = not (v ==ℤ value)
compare_by op_gte v value = leb_ℤ value v
compare_by op_lte v value = leb_ℤ v value
compare_by op_eq v value = v ==ℤ value

unfoldable pub match_one : FieldMatch → ℤ → Bool
unfolding compare_by
match_one m v = compare_by m.op v m.value

-- The loop of `match_fields` from one entry on.
unfoldable pub match_all : List FieldMatch → DiagEvent → Bool
unfolding ev_field_val match_one
match_all [] e = true
match_all (m ∷ ms) e = if match_one m (ev_field_val e m.field) then match_all ms e else false

-- `match_fields`.
unfoldable pub match_fields : Cond → DiagEvent → Bool
unfolding match_all
match_fields c e = match_all c.matches e

-- The loop of `status_ok` from one entry on.
unfoldable pub status_among : List ℤ → DiagEvent → Bool
status_among [] e = false
status_among (s ∷ ss) e = if e.status ==ℤ s then true else status_among ss e

-- `status_ok`.
unfoldable pub status_ok : Cond → DiagEvent → Bool
unfolding status_among
status_ok c e = if length c.status_in == 0 then true else status_among c.status_in e

-- `cond_event_pred`.
unfoldable pub cond_event_pred : Cond → DiagEvent → Bool
unfolding match_fields status_ok
cond_event_pred c e =
    if c.has_kind && not (e.kind == c.kind)
    then false
    else if not (match_fields c e)
    then false
    else if not (status_ok c e)
    then false
    else true

-- `trigger_match`.
unfoldable pub trigger_match : Cond → DiagEvent → Bool
unfolding match_fields
trigger_match c e = if c.has_kind && not (e.kind == c.kind) then false else match_fields c e
