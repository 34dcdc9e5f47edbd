-- ===== src/Run/Tests.antt =====
-- A run of four polls, the second of them interrupted.
use usbtrace.Common.{◌≡◌, refl, true, false, List, [], ◌∷◌}
use usbtrace.Common.Int.{ℤ, pos}
use usbtrace.Evmux.{eintr, einval, is_transient}
use usbtrace.Run.{Setup, loaded, attached, new_mux, added, started, polled, freed, run_module}
use usbtrace.Run.Trace.{run_module-trace}

abbrev ready : Setup
ready = record {
  enabled = 2;
  load = pos 0;
  attach = pos 0;
  has_mux = true;
  add = pos 0;
  has_start = true;
  has_stop = false;
}

abbrev polls : List ℤ
polls = pos 5 ∷ eintr ∷ einval ∷ pos 1 ∷ []

run_module-trace_example :
    run_module ready polls
    ≡ (pos 1, loaded ∷ attached ∷ new_mux ∷ added ∷ started ∷ polled ∷ polled ∷ polled ∷ freed ∷ [])
unfolding is_transient
run_module-trace_example = run_module-trace ready polls refl refl refl refl refl
