-- ===== src/Diag/Eval/Spec.antt =====
-- What `eval_when` computes, said of the list of the device's events with no loop variables.
use usbtrace.Common.{
  ℕ, ◌-◌, ◌^◌, min, max, List, [], ◌∷◌, Bool, true, false, if◌then◌else◌, ◌&&◌, ◌||◌, ltb, ◌==◌,
}
use usbtrace.Common.Word.{sub_u64}
use usbtrace.Diag.Event.{DiagEvent}
use usbtrace.Diag.Rule.{Cond}
use usbtrace.Diag.Eval.{ms_to_ns, in_lookback}

-- The events of the lookback that fit the condition, newest first.
unfoldable pub matching : Cond → ℕ → List DiagEvent → List DiagEvent
matching c ref_ns [] = []
matching c ref_ns (x ∷ xs) =
    let rest = matching c ref_ns xs in if in_lookback c ref_ns x then x ∷ rest else rest

-- Those that open a cluster: an event, newest first, that comes more than `gap` before the one
-- visited ahead of it.
unfoldable pub leaders_after : ℕ → ℕ → List DiagEvent → List DiagEvent
leaders_after gap t [] = []
leaders_after gap t (x ∷ xs) =
    let rest = leaders_after gap x.ts_ns xs in
    if ltb gap (sub_u64 t x.ts_ns) then x ∷ rest else rest

-- The first event, and each that opens a cluster after it. With no gap each event counts.
unfoldable pub episodes : ℕ → List DiagEvent → List DiagEvent
unfolding leaders_after
episodes gap [] = []
episodes gap (x ∷ xs) = if gap == 0 then x ∷ xs else x ∷ leaders_after gap x.ts_ns xs

-- The earliest and the latest time of the events, from a bound on.
unfoldable pub earliest : ℕ → List DiagEvent → ℕ
earliest t [] = t
earliest t (x ∷ xs) = earliest (min x.ts_ns t) xs

unfoldable pub latest : ℕ → List DiagEvent → ℕ
latest t [] = t
latest t (x ∷ xs) = latest (max x.ts_ns t) xs

-- Do the events span the time that the condition asks for?
unfoldable pub spans : Cond → List DiagEvent → ℕ → Bool
unfolding earliest latest
spans c ms n =
    if c.has_min_span_ms
      && (ltb n 2
          || ltb (sub_u64 (latest 0 ms) (earliest (2 ^ 64 - 1) ms)) (ms_to_ns c.min_span_ms))
    then false
    else true
