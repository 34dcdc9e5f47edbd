-- ===== src/Diag/Engine/Run.antt =====
-- The engine over any sequence of calls that `diag_run` makes.
use usbtrace.Common.{ℕ, List, [], ◌∷◌, refl}
use usbtrace.Diag.Event.{DiagEvent}
use usbtrace.Diag.Rule.{Rule}
use usbtrace.Diag.Engine.{Engine, create, ingest, tick}
use usbtrace.Diag.Engine.WellFormed.{IsWellFormed, create-IsWellFormed, ingest-IsWellFormed}
use usbtrace.Diag.Engine.Deadline.{tick-IsWellFormed}
use usbtrace.Diag.Engine.Counts.{IsCounted, ingest-IsCounted, tick-IsCounted, hits}

-- An event with the clock readings of its rules, or a tick.
pub data Call : Type 0 where
  event : (ℕ → ℕ) → DiagEvent → Call
  timer : ℕ → Call

unfoldable pub step : Engine → Call → Engine
step e (event clock evt) = ingest clock e evt
step e (timer now) = tick e now

unfoldable pub run : Engine → List Call → Engine
unfolding step
run e [] = e
run e (c ∷ cs) = run (step e c) cs

step_keeps :
    (e : Engine) (c : Call)
    → IsWellFormed e × IsCounted e.tally
    → IsWellFormed (step e c) × IsCounted (step e c).tally
unfolding step
step_keeps e (event clock evt) h =
    (ingest-IsWellFormed clock e evt h.0, ingest-IsCounted clock e evt h.1)
step_keeps e (timer now) h = (tick-IsWellFormed e now h.0, tick-IsCounted e now h.1)

run_keeps :
    (e : Engine) (cs : List Call)
    → IsWellFormed e × IsCounted e.tally
    → IsWellFormed (run e cs) × IsCounted (run e cs).tally
unfolding run
run_keeps e [] h = h
run_keeps e (c ∷ cs) h = run_keeps (step e c) cs (step_keeps e c h)

create-IsCounted : (rules : List Rule) → IsCounted (create rules).tally
unfolding create hits
create-IsCounted rules = record { total = refl; each = λ ri. refl }

-- After any sequence of events and ticks the table has its 128 slots, no device has two windows,
-- every event ring is within its bounds, and the counters of the summary count the findings that
-- were printed.
pub run_invariant :
    (rules : List Rule) (cs : List Call)
    → IsWellFormed (run (create rules) cs) × IsCounted (run (create rules) cs).tally
run_invariant rules cs =
    run_keeps (create rules) cs (create-IsWellFormed rules, create-IsCounted rules)
