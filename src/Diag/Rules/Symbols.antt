-- ===== src/Diag/Rules/Symbols.antt =====
-- rules.c: the symbol tables, and the value of a scalar.
use usbtrace.Common.{
  ℕ, Bool, List, [], ◌∷◌, Option, none, some, if◌then◌else◌, ◌&&◌, length, ◌==◌, codes, text_eq,
}
use usbtrace.Common.Int.{ℤ, pos}
use usbtrace.Diag.Rule.{
  Field, f_kind, f_is_submit, f_status, f_xfer_type, f_dir_in, f_ep, f_action, f_old_state,
  f_new_state, f_latency_ns, f_actual, f_length, f_error_count, f_class, f_frame_bytes,
  f_frame_interval, f_frame_errored, f_vb2_sequence, f_vb2_seq_gap, f_vb2_bytesused, f_vb2_interval,
  f_wire_to_vb2_ns, f_vb2_op, f_vb2_starved, f_vb2_num_buffers, f_vb2_queued, f_vb2_drv_owned,
  f_step, f_brequest, f_wvalue, f_reset_resume,
}

-- `kind_syms`, `enum_syms` and `field_syms`: a `struct symbol` is a name with its value.
unfoldable pub kind_syms : List (List ℕ × ℤ)
kind_syms =
    (codes "urb", pos 1)
    ∷ (codes "enum", pos 2)
    ∷ (codes "power", pos 3)
    ∷ (codes "lifecycle", pos 4)
    ∷ (codes "class", pos 5)
    ∷ (codes "uvc_frame", pos 6)
    ∷ (codes "uvc_vb2", pos 7)
    ∷ (codes "hub", pos 9)
    ∷ []

unfoldable pub enum_syms : List (List ℕ × ℤ)
enum_syms =
    (codes "connect", pos 0)
    ∷ (codes "disconnect", pos 1)
    ∷ (codes "reset", pos 2)
    ∷ (codes "autosuspend", pos 0)
    ∷ (codes "autoresume", pos 1)
    ∷ (codes "port_suspend", pos 2)
    ∷ (codes "port_resume", pos 3)
    ∷ (codes "hub_reset", pos 0)
    ∷ (codes "hub_disable", pos 1)
    ∷ (codes "hub_power_off", pos 2)
    ∷ (codes "hub_power_on", pos 3)
    ∷ (codes "hub_overcurrent", pos 4)
    ∷ (codes "enum_state", pos 0)
    ∷ (codes "get_descriptor", pos 1)
    ∷ (codes "set_address", pos 2)
    ∷ (codes "set_configuration", pos 3)
    ∷ (codes "GET_STATUS", pos 0)
    ∷ (codes "CLEAR_FEATURE", pos 1)
    ∷ (codes "SET_FEATURE", pos 3)
    ∷ (codes "SET_ADDRESS", pos 5)
    ∷ (codes "GET_DESCRIPTOR", pos 6)
    ∷ (codes "SET_CONFIGURATION", pos 9)
    ∷ (codes "GET_INTERFACE", pos 10)
    ∷ (codes "SET_INTERFACE", pos 11)
    ∷ (codes "NOTATTACHED", pos 0)
    ∷ (codes "ATTACHED", pos 1)
    ∷ (codes "POWERED", pos 2)
    ∷ (codes "RECONNECTING", pos 3)
    ∷ (codes "UNAUTHED", pos 4)
    ∷ (codes "DEFAULT", pos 5)
    ∷ (codes "ADDRESS", pos 6)
    ∷ (codes "CONFIGURED", pos 7)
    ∷ (codes "SUSPENDED", pos 8)
    ∷ (codes "video", pos 0)
    ∷ (codes "audio", pos 1)
    ∷ (codes "hid", pos 2)
    ∷ (codes "storage", pos 3)
    ∷ (codes "vb2_done", pos 0)
    ∷ (codes "vb2_queue", pos 1)
    ∷ (codes "vb2_qbuf", pos 2)
    ∷ (codes "vb2_dqbuf", pos 3)
    ∷ (codes "vb2_starved", pos 4)
    ∷ (codes "isoc", pos 0)
    ∷ (codes "int", pos 1)
    ∷ (codes "control", pos 2)
    ∷ (codes "bulk", pos 3)
    ∷ []

unfoldable pub field_syms : List (List ℕ × Field)
field_syms =
    (codes "kind", f_kind)
    ∷ (codes "is_submit", f_is_submit)
    ∷ (codes "status", f_status)
    ∷ (codes "xfer_type", f_xfer_type)
    ∷ (codes "dir_in", f_dir_in)
    ∷ (codes "ep", f_ep)
    ∷ (codes "action", f_action)
    ∷ (codes "old_state", f_old_state)
    ∷ (codes "new_state", f_new_state)
    ∷ (codes "latency_ns", f_latency_ns)
    ∷ (codes "actual", f_actual)
    ∷ (codes "length", f_length)
    ∷ (codes "error_count", f_error_count)
    ∷ (codes "class", f_class)
    ∷ (codes "frame_bytes", f_frame_bytes)
    ∷ (codes "frame_interval_ns", f_frame_interval)
    ∷ (codes "frame_errored", f_frame_errored)
    ∷ (codes "vb2_sequence", f_vb2_sequence)
    ∷ (codes "vb2_seq_gap", f_vb2_seq_gap)
    ∷ (codes "vb2_bytesused", f_vb2_bytesused)
    ∷ (codes "vb2_interval_ns", f_vb2_interval)
    ∷ (codes "wire_to_vb2_ns", f_wire_to_vb2_ns)
    ∷ (codes "vb2_op", f_vb2_op)
    ∷ (codes "vb2_starved", f_vb2_starved)
    ∷ (codes "vb2_num_buffers", f_vb2_num_buffers)
    ∷ (codes "vb2_queued", f_vb2_queued)
    ∷ (codes "vb2_drv_owned", f_vb2_drv_owned)
    ∷ (codes "step", f_step)
    ∷ (codes "brequest", f_brequest)
    ∷ (codes "wvalue", f_wvalue)
    ∷ (codes "reset_resume", f_reset_resume)
    ∷ []

-- `sym_lookup`.
unfoldable pub sym_lookup {ℓ} : {A : Type ℓ} → List (List ℕ × A) → List ℕ → Option A
sym_lookup [] name = none
sym_lookup ((n, v) ∷ tab) name = if text_eq n name then some v else sym_lookup tab name

-- What `strtol` at base 0 gives: the number, whether `errno` is 0, and the text from `end` on.
pub record Strtol : Type 0 where
  pub value : ℤ
  pub no_errno : Bool
  pub rest : List ℕ

-- The test `errno == 0 && end && *end == '\0'`.
abbrev pub is_number : Strtol → Bool
is_number r = r.no_errno && (length r.rest == 0)

-- The symbolic half of `resolve_value`.
unfoldable pub resolve_name : List ℕ → Option ℤ
unfolding sym_lookup kind_syms enum_syms
resolve_name s = elim (sym_lookup kind_syms s) [ some v ↦ some v | none ↦ sym_lookup enum_syms s ]

-- `resolve_value`, for a `strtol` of the C library.
unfoldable pub resolve_value : (List ℕ → Strtol) → List ℕ → Option ℤ
unfolding resolve_name
resolve_value strtol [] = none
resolve_value strtol (c ∷ cs) =
    if is_number (strtol (c ∷ cs)) then some (strtol (c ∷ cs)).value else resolve_name (c ∷ cs)
