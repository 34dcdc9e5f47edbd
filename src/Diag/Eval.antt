-- ===== src/Diag/Eval.antt =====
-- src/modules/diag/engine.c, evaluation of one `when` condition over a device window, and the
-- cooldown of a rule. The caller always hands `eval_when` an evidence buffer.
pub mod Spec
pub mod Refine
pub mod Cooldown
use usbtrace.Common.{
  ℕ, zero, suc, ◌+◌, ◌-◌, ◌*◌, ◌^◌, Bool, true, false, List, [], ◌∷◌, ◌++◌, if◌then◌else◌, ◌&&◌,
  ◌||◌, not, ltb, ◌==◌, length, update,
}
use usbtrace.Common.Int.{ℤ, pos, ltb_ℤ}
use usbtrace.Common.Word.{u64, sub_u64, cast_u64}
use usbtrace.Diag.Event.{DiagEvent}
use usbtrace.Diag.Rule.{Cond, cond_event_pred}
use usbtrace.Diag.Window.{DevWin, win_at, max_evidence, cooldown_ns}

-- `(uint64_t)ms * 1000000ULL`.
abbrev pub ms_to_ns : ℤ → ℕ
ms_to_ns ms = u64 (cast_u64 ms * 1000000)

-- `cluster_ns` of `eval_when`: 0 if the condition does not cluster.
unfoldable pub cluster_of : Cond → ℕ
cluster_of c = if c.has_cluster_ms && ltb_ℤ (pos 0) c.cluster_ms then ms_to_ns c.cluster_ms else 0

-- The three `continue` tests of the loop: the event is in the lookback and fits the condition.
unfoldable pub in_lookback : Cond → ℕ → DiagEvent → Bool
in_lookback c ref_ns x =
    if ltb ref_ns x.ts_ns
    then false
    else if c.has_within_ms && ltb (ms_to_ns c.within_ms) (sub_u64 ref_ns x.ts_ns)
    then false
    else cond_event_pred c x

-- The variables of the loop. `evidence` is the `ev` array up to `n`.
pub record Scan : Type 0 where
  pub cnt : ℕ
  pub nclus : ℕ
  pub oldest : ℕ
  pub newest : ℕ
  pub prev_ts : ℕ
  pub evidence : List DiagEvent

-- Is the event the first of a cluster, or do events not cluster?
abbrev pub takes : ℕ → Scan → DiagEvent → Bool
takes cluster_ns s x =
    if cluster_ns == 0 then true else s.nclus == 0 || ltb cluster_ns (sub_u64 s.prev_ts x.ts_ns)

-- The body of the loop for an event that passes the tests.
unfoldable pub take_event : ℕ → Scan → DiagEvent → Scan
take_event cluster_ns s x =
    let take = takes cluster_ns s x in
    record {
      cnt = s.cnt + 1;
      nclus = if cluster_ns == 0 then s.nclus else if take then s.nclus + 1 else s.nclus;
      oldest = if ltb x.ts_ns s.oldest then x.ts_ns else s.oldest;
      newest = if ltb s.newest x.ts_ns then x.ts_ns else s.newest;
      prev_ts = if cluster_ns == 0 then s.prev_ts else x.ts_ns;
      evidence =
          if take && ltb (length s.evidence) max_evidence
          then s.evidence ++ (x ∷ [])
          else s.evidence;
    }

-- One round of the loop.
unfoldable pub visit : Cond → ℕ → Scan → DiagEvent → Scan
unfolding take_event in_lookback
visit c ref_ns s x = if in_lookback c ref_ns x then take_event (cluster_of c) s x else s

-- The loop from index `i` on, with the rounds left.
unfoldable pub scan_from : DevWin → Cond → ℕ → Scan → ℕ → ℕ → Scan
unfolding visit
scan_from w c ref_ns s i zero = s
scan_from w c ref_ns s i (suc n) = scan_from w c ref_ns (visit c ref_ns s (win_at w i)) (suc i) n

-- The variables before the loop.
abbrev pub scan_start : List DiagEvent → Scan
scan_start ev = record {
  cnt = 0;
  nclus = 0;
  oldest = 2 ^ 64 - 1;
  newest = 0;
  prev_ts = 0;
  evidence = ev;
}

-- What follows the loop: the count, and the evidence, which a failed `min_span` takes back.
unfoldable pub conclude : Cond → List DiagEvent → Scan → ℕ × List DiagEvent
conclude c ev s =
    let cnt : ℕ = if cluster_of c == 0 then s.cnt else s.nclus in
    if c.has_min_span_ms && (ltb cnt 2 || ltb (sub_u64 s.newest s.oldest) (ms_to_ns c.min_span_ms))
    then (0, ev)
    else (cnt, s.evidence)

-- `eval_when`.
unfoldable pub eval_when : DevWin → Cond → ℕ → List DiagEvent → ℕ × List DiagEvent
unfolding scan_from conclude
eval_when w c ref_ns ev = conclude c ev (scan_from w c ref_ns (scan_start ev) 0 w.count)

-- `cooldown_ok`: the result, and the window with the time of the firing.
unfoldable pub cooldown_ok : DevWin → ℕ → ℕ → DevWin × Bool
cooldown_ok w ridx now =
    if not (w.last_fire_ns ridx == 0) && ltb (sub_u64 now (w.last_fire_ns ridx)) cooldown_ns
    then (w, false)
    else (record w { last_fire_ns = update w.last_fire_ns ridx now }, true)
