-- ===== src/UvcReport/Tallies.antt =====
-- What the statistics of the frames hold after a session.
use usbtrace.Common.{
  ℕ, ◌+◌, ◌^◌, ◌<◌, ◌≡◌, sym, arith, Bool, true, false, List, [], ◌∷◌, if◌then◌else◌, ◌&&◌, not,
  ◌==◌, ltb, length, subst,
}
use usbtrace.Common.Word.{u64}
use usbtrace.Records.{UvcFrameEvent, evt_uvc_frame, size_of_uvc_frame_event}
use usbtrace.UvcReport.{
  FrameStats, UvcCtx, UvcRaw, tally_frame, handle_frame, handle_vb2, handle_drv, uvc_on_event,
}

-- Does the record count as a frame: it says so, and is a whole frame record?
abbrev pub is_frame : UvcRaw → ℕ → Bool
is_frame raw len = not (ltb len size_of_uvc_frame_event) && raw.hdr.kind == evt_uvc_frame

-- The frames among some records, in order.
abbrev pub frames_of : List (UvcRaw × ℕ) → List UvcFrameEvent
frames_of [] = []
frames_of ((raw, len) ∷ rs) =
    let rest = frames_of rs in if is_frame raw len then raw.as_frame ∷ rest else rest

-- The loop of the event buffer.
unfoldable pub on_events : UvcCtx → List (UvcRaw × ℕ) → UvcCtx
on_events c [] = c
on_events c ((raw, len) ∷ rs) = on_events (uvc_on_event c raw len) rs

-- Numbers of some frames: those with an error, those with an interval, and what these carry. 0 is no
-- interval: the shortest of no intervals, and less than every other.
abbrev pub errored_in : List UvcFrameEvent → ℕ
errored_in [] = 0
errored_in (e ∷ es) = (if e.errored == 0 then 0 else 1) + errored_in es

abbrev pub measured_in : List UvcFrameEvent → ℕ
measured_in [] = 0
measured_in (e ∷ es) = (if e.interval_ns == 0 then 0 else 1) + measured_in es

abbrev pub bytes_in : List UvcFrameEvent → ℕ
bytes_in [] = 0
bytes_in (e ∷ es) = e.bytes + bytes_in es

abbrev pub time_in : List UvcFrameEvent → ℕ
time_in [] = 0
time_in (e ∷ es) = e.interval_ns + time_in es

abbrev pub shorter : ℕ → ℕ → ℕ
shorter a b = if a == 0 then b else if b == 0 then a else if ltb a b then a else b

abbrev pub longer : ℕ → ℕ → ℕ
longer a b = if ltb a b then b else a

abbrev pub shortest_in : List UvcFrameEvent → ℕ
shortest_in [] = 0
shortest_in (e ∷ es) = shorter e.interval_ns (shortest_in es)

abbrev pub longest_in : List UvcFrameEvent → ℕ
longest_in [] = 0
longest_in (e ∷ es) = longer e.interval_ns (longest_in es)

-- The counters are those of a 64-bit machine.
pub record AreSmall (s : FrameStats) : Type 0 where
  pub frames_small : s.frames < 2 ^ 64
  pub errored_small : s.errored < 2 ^ 64
  pub bytes_small : s.bytes < 2 ^ 64
  pub intervals_small : s.intervals < 2 ^ 64
  pub sum_small : s.sum_interval_ns < 2 ^ 64

-- The statistics `t` are those of `s` and of some frames, sums modulo 2 ^ 64.
pub record Measures (s t : FrameStats) (es : List UvcFrameEvent) : Type 0 where
  pub frames_counted : t.frames ≡ u64 (s.frames + length es)
  pub errored_counted : t.errored ≡ u64 (s.errored + errored_in es)
  pub bytes_added : t.bytes ≡ u64 (s.bytes + bytes_in es)
  pub intervals_counted : t.intervals ≡ u64 (s.intervals + measured_in es)
  pub time_added : t.sum_interval_ns ≡ u64 (s.sum_interval_ns + time_in es)
  pub shortest_kept : t.min_interval_ns ≡ shorter s.min_interval_ns (shortest_in es)
  pub longest_kept : t.max_interval_ns ≡ longer s.max_interval_ns (longest_in es)

on_event_stats :
    (c : UvcCtx) (raw : UvcRaw) (len : ℕ)
    → (uvc_on_event c raw len).frame_stats
      ≡ (if is_frame raw len then tally_frame c.frame_stats raw.as_frame else c.frame_stats)
unfolding uvc_on_event handle_frame handle_vb2 handle_drv
on_event_stats c raw len = ground arith

tally_frame-AreSmall :
    (s : FrameStats) (e : UvcFrameEvent) → AreSmall s → AreSmall (tally_frame s e)
unfolding tally_frame
tally_frame-AreSmall s e h = ground (arith, h)

no_frames : (s : FrameStats) → AreSmall s → Measures s s []
no_frames s h = ground (arith, h)

tally_frame-Measures :
    (s t : FrameStats) (e : UvcFrameEvent) (es : List UvcFrameEvent)
    → Measures (tally_frame s e) t es
    → Measures s t (e ∷ es)
unfolding tally_frame
tally_frame-Measures s t e es h = record {
  frames_counted = ground (arith, h.frames_counted);
  errored_counted = ground (arith, h.errored_counted);
  bytes_added = ground (arith, h.bytes_added);
  intervals_counted = ground (arith, h.intervals_counted);
  time_added = ground (arith, h.time_added);
  shortest_kept = ground (arith, h.shortest_kept);
  longest_kept = ground (arith, h.longest_kept);
}

if_Measures :
    (b : Bool) (s t : FrameStats) (e : UvcFrameEvent) (es : List UvcFrameEvent)
    → Measures (if b then tally_frame s e else s) t es
    → Measures s t (if b then e ∷ es else es)
if_Measures true s t e es h = tally_frame-Measures s t e es h
if_Measures false s t e es h = h

if_AreSmall :
    (b : Bool) (s : FrameStats) (e : UvcFrameEvent)
    → AreSmall s
    → AreSmall (if b then tally_frame s e else s)
if_AreSmall true s e h = tally_frame-AreSmall s e h
if_AreSmall false s e h = h

-- After any records, of any kinds and lengths, the frame statistics hold the number of whole frame
-- records and of those with an error, their bytes, the number and the sum of their intervals, each
-- added to what it held before modulo 2^64, and the shortest and the longest interval so far. The
-- other records, and cut ones, change none of them.
pub on_events-Measures :
    (c : UvcCtx) (rs : List (UvcRaw × ℕ))
    → AreSmall c.frame_stats
    → Measures c.frame_stats (on_events c rs).frame_stats (frames_of rs)
unfolding on_events
on_events-Measures c [] h = no_frames c.frame_stats h
on_events-Measures c ((raw, len) ∷ rs) h =
    let same = on_event_stats c raw len in
    let t = (on_events (uvc_on_event c raw len) rs).frame_stats in
    if_Measures (is_frame raw len) c.frame_stats t raw.as_frame (frames_of rs) (
      subst (λ s. Measures s t (frames_of rs)) same
        (on_events-Measures (uvc_on_event c raw len) rs (
          subst AreSmall (sym same) (if_AreSmall (is_frame raw len) c.frame_stats raw.as_frame h))))
