-- ===== src/ClassStream/Tally.antt =====
-- The tally counts the class events of a session, and nothing else.
use usbtrace.Common.{
  ℕ, ◌+◌, ◌^◌, Bool, true, List, [], ◌∷◌, if◌then◌else◌, ◌==◌, ◌≡◌, ◌<◌, ◌∙◌, arith,
}
use usbtrace.Common.Word.{u64}
use usbtrace.Records.{ClassUrbEvent, evt_class, size_of_class_urb_event}
use usbtrace.ClassStream.{
  ClassStats, StreamCtx, has_isoc_err, has_status_err, tally_urb, stream_on_event, stream_all,
}

-- How many class events fit a test, and what they carry.
unfoldable pub count_if : (ClassUrbEvent → Bool) → List ClassUrbEvent → ℕ
count_if p [] = 0
count_if p (e ∷ es) =
    (if e.hdr.kind == evt_class then (if p e then 1 else 0) else 0) + count_if p es

unfoldable pub sum_bytes : List ClassUrbEvent → ℕ
sum_bytes [] = 0
sum_bytes (e ∷ es) = (if e.hdr.kind == evt_class then e.actual_length else 0) + sum_bytes es

-- The counters after one record of full length.
on_event_stats :
    (c : StreamCtx) (e : ClassUrbEvent)
    → (stream_on_event c e size_of_class_urb_event).stats
      ≡ (if e.hdr.kind == evt_class then tally_urb c.stats e else c.stats)
unfolding stream_on_event
on_event_stats c e = ground arith

-- The counters are those of a 64-bit machine.
pub record IsSmall (s : ClassStats) : Type 0 where
  pub urbs_in : s.urbs < 2 ^ 64
  pub isoc_in : s.isoc_err < 2 ^ 64
  pub status_in : s.status_err < 2 ^ 64
  pub bytes_in : s.bytes < 2 ^ 64

-- The counters of `t` are those of `s` and what the events add, modulo 2 ^ 64.
pub record Adds (s t : ClassStats) (es : List ClassUrbEvent) : Type 0 where
  pub urbs_added : t.urbs ≡ u64 (s.urbs + count_if (λ _. true) es)
  pub isoc_added : t.isoc_err ≡ u64 (s.isoc_err + count_if has_isoc_err es)
  pub status_added : t.status_err ≡ u64 (s.status_err + count_if has_status_err es)
  pub bytes_added : t.bytes ≡ u64 (s.bytes + sum_bytes es)

step_IsSmall :
    (c : StreamCtx) (e : ClassUrbEvent)
    → IsSmall c.stats
    → IsSmall (stream_on_event c e size_of_class_urb_event).stats
unfolding tally_urb
step_IsSmall c e h = rw (on_event_stats c e) (ground arith)

-- One record, then the rest.
step_Adds :
    (c : StreamCtx) (e : ClassUrbEvent) (es : List ClassUrbEvent) (t : ClassStats)
    → Adds (stream_on_event c e size_of_class_urb_event).stats t es
    → Adds c.stats t (e ∷ es)
unfolding count_if sum_bytes tally_urb
step_Adds c e es t h = record {
  urbs_added = h.urbs_added ∙ rw (on_event_stats c e) (ground arith);
  isoc_added = h.isoc_added ∙ rw (on_event_stats c e) (ground arith);
  status_added = h.status_added ∙ rw (on_event_stats c e) (ground arith);
  bytes_added = h.bytes_added ∙ rw (on_event_stats c e) (ground arith);
}

-- After any sequence of records the summary holds the number of class events, of those with packet
-- errors and of those that failed, and their bytes, each added to what it held before.
pub stream_all-Adds :
    (c : StreamCtx) (es : List ClassUrbEvent)
    → IsSmall c.stats
    → Adds c.stats (stream_all c es).stats es
unfolding stream_all count_if sum_bytes
stream_all-Adds c [] h = omega (arith, h.urbs_in, h.isoc_in, h.status_in, h.bytes_in)
stream_all-Adds c (e ∷ es) h =
    step_Adds c e es (stream_all c (e ∷ es)).stats
      (stream_all-Adds (stream_on_event c e size_of_class_urb_event) es (step_IsSmall c e h))
