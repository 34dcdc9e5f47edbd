-- ===== src/Uvc/Delay.antt =====
-- The sequence gaps and the delays that the vb2 records report.
use usbtrace.Common.{ℕ, ◌+◌, ◌%◌, ◌^◌, ◌≤◌, ◌<◌, ◌≡◌, ◌⊎◌, arith, some, ◌||◌, not, ◌==◌}
use usbtrace.Common.Word.{sub_u64}
use usbtrace.Bpf.{KeyMap}
use usbtrace.Uvc.State.{StreamCorr, QState, wire_vb2_max_ns}
use usbtrace.Uvc.Vb2.{World, vb2_seq_gap, wire_to_vb2_ns}

-- Two sequence numbers of 32 bits leave a gap unless the second is the first, or the one after it
-- modulo 2^32.
pub vb2_seq_gap_lem :
    (last cur : ℕ)
    → last < 2 ^ 32
    → vb2_seq_gap last cur ≡ not (cur == last || cur == (last + 1) % 2 ^ 32)
unfolding vb2_seq_gap
vb2_seq_gap_lem last cur h = ground arith

module _ (C : KeyMap StreamCorr) (D : KeyMap ℕ) (Q : KeyMap QState) where
  -- The delay from the wire to a vb2 buffer is reported only for a buffer of the size of the last
  -- wire frame, and is then the time since that frame, of at most 100 ms: no bit of it is lost.
  pub wire_to_vb2_ns_lem :
      (w : World C D Q) (now bytesused : ℕ) (c : StreamCorr)
      → C.lookup w.stream_corr 0 ≡ some c
      → ((wire_to_vb2_ns C D Q w now bytesused ≡ 0)
          ⊎ ((bytesused ≡ c.last_wire_bytes)
              × (wire_to_vb2_ns C D Q w now bytesused ≡ sub_u64 now c.last_wire_done_ns)))
        × (wire_to_vb2_ns C D Q w now bytesused ≤ wire_vb2_max_ns)
  unfolding wire_to_vb2_ns
  wire_to_vb2_ns_lem w now bytesused c l = ground (arith, l)
