-- ===== src/Diag/Engine/States.antt =====
-- The device states that the deadline rules look at, after an event: which states count as reached
-- in the current bring-up, and when the alarms are armed again.
use usbtrace.Common.{ℕ, ◌<◌, ◌≡◌, arith, Bool, false, ◌&&◌, ◌||◌, if◌then◌else◌, ◌==◌}
use usbtrace.Records.{evt_enum, evt_lifecycle}
use usbtrace.Diag.Event.{DiagEvent}
use usbtrace.Diag.Window.{DevWin, win_push}
use usbtrace.Diag.Window.States.{has_state, has_state-bit_or, has_state-zero}
use usbtrace.Diag.Engine.{track_state, observe}
use usbtrace.Diag.Engine.WellFormed.{identified, observe_lem}

-- A state transition of the device.
abbrev pub is_transition : DiagEvent → Bool
is_transition e = e.kind == evt_enum && e.step == 0

-- The end of a bring-up: the device is gone, or starts over.
abbrev pub starts_over : DiagEvent → Bool
starts_over e =
    if is_transition e then e.new_state == 0 else e.kind == evt_lifecycle && e.action == 1

-- The states reached in the current bring-up, after an event.
abbrev pub reached_after : DiagEvent → (ℕ → Bool) → ℕ → Bool
reached_after e seen m =
    (is_transition e && e.new_state == m) || (if starts_over e then false else seen m)

track_state_lem :
    (w : DevWin) (e : DiagEvent) (m i : ℕ)
    → w.seen_states < 512
    → m < 9
    → (has_state (track_state w e).seen_states m ≡ reached_after e (has_state w.seen_states) m)
      × ((track_state w e).dl_fired i ≡ (if starts_over e then false else w.dl_fired i))
unfolding track_state
track_state_lem w e m i h k = (
  ground (
    arith,
    has_state-bit_or w.seen_states e.new_state m,
    has_state-bit_or 0 e.new_state m,
    has_state-zero m,
  ),
  ground arith,
)

-- After an event the states of the window are those reached in the current bring-up, and a rule is
-- latched only if it was and no bring-up ended.
pub observe_tracks :
    (w : DevWin) (e : DiagEvent) (m i : ℕ)
    → w.seen_states < 512
    → m < 9
    → (has_state (observe w e).seen_states m ≡ reached_after e (has_state w.seen_states) m)
      × ((observe w e).dl_fired i ≡ (if starts_over e then false else w.dl_fired i))
unfolding win_push
observe_tracks w e m i h k =
    rw (observe_lem w e) (track_state_lem (win_push (identified w e) e) e m i h k)
