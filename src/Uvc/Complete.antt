-- ===== src/Uvc/Complete.antt =====
-- uvc.bpf.c: on_video_complete, the program at the completion of a video URB.
use usbtrace.Common.{ℕ, Option, none, some, if◌then◌else◌}
use usbtrace.Records.{ClassUrbEvent, class_video}
use usbtrace.Bpf.{KeyMap, Task}
use usbtrace.ClassUrb.{ClassConfig, CompletedUrb, class_urb_emit}
use usbtrace.Uvc.State.{UvcConfig, StreamState, QState, StreamCorr, VideoUrb, Pool}
use usbtrace.Uvc.Vb2.{World}
use usbtrace.Uvc.Parse.{parse_frames}

-- The filter of `uvc_config`, as `usbtrace_class_urb_emit` takes it.
abbrev pub class_config : UvcConfig → ClassConfig
class_config cfg = record { filter_vid = cfg.filter_vid; filter_pid = cfg.filter_pid }

module _ (C : KeyMap StreamCorr) (D : KeyMap ℕ) (Q : KeyMap QState) (S : KeyMap StreamState) where
  -- `on_video_complete`, on what the two functions read of the URB; `none` is a NULL URB. The record
  -- of the URB comes before those of its frames.
  unfoldable pub on_video_complete :
      UvcConfig
      → Task
      → (ℕ → Pool)
      → Option (CompletedUrb × VideoUrb)
      → ℕ
      → S.Map
      → World C D Q
      → Option ClassUrbEvent × (S.Map × World C D Q)
  on_video_complete cfg task pools none now m w = (none, (m, w))
  on_video_complete cfg task pools (some (completed, urb)) now m w = (
    class_urb_emit (class_config cfg) class_video task (some completed) now,
    if cfg.no_frames then (m, w) else parse_frames C D Q S cfg task pools urb now m w,
  )
