-- ===== src/Diag/Session/Tests.antt =====
-- A session with a camera that is stuck in DEFAULT: of two probes one fails to attach.
use mathlib.Core.List.{Mem}
use usbtrace.Common.{◌≤◌, ◌≡◌, refl, true, false, List, [], ◌∷◌, some, ◌==◌}
use usbtrace.Common.Int.{pos, negsuc}
use usbtrace.Evmux.{is_transient}
use usbtrace.Diag.Rule.{Rule}
use usbtrace.Diag.Window.{DevWin, fresh_win, win_push}
use usbtrace.Diag.Engine.{Engine, create, tick, observe, is_due, deadline_finding, track_state}
use usbtrace.Diag.Engine.Run.{run}
use usbtrace.Diag.Engine.Alarms.{IsPending, tick_reports}
use usbtrace.Diag.Session.{
  SourceProbe, bring_up, bring_up_from, add_sources, SessionPoll, Session, diag_run,
}
use usbtrace.Diag.Session.Pacing.{calls, readings, spaced_out, ticks, diag_run-reports}
use usbtrace.Diag.Session.Cleanup.{opens, closes, diag_run-destroys}
use usbtrace.Diag.Tests.{camera, to_default, urb_errors, stuck, no_findings}

abbrev good : SourceProbe
good = record { has_skeleton = true; enabled = 2; load = pos 0; attach = pos 0; add = pos 0 }

abbrev unattached : SourceProbe
unattached = record good { attach = negsuc 1 }

abbrev rules : List Rule
rules = urb_errors ∷ stuck ∷ []

abbrev session : Session
session = record {
  rules = some rules;
  has_engine = true;
  filt = (0, 0);
  probes = unattached ∷ good ∷ [];
  has_mux = true;
  start = 1000000000;
}

-- Two quiet polls, and one that a signal interrupts.
abbrev polls : List SessionPoll
polls =
    record { records = []; result = pos 0; now = 1200000000 }
    ∷ record { records = []; result = negsuc 3; now = 1600000000 }
    ∷ record { records = []; result = pos 0; now = 1700000000 }
    ∷ []

has_source : ((add_sources (bring_up_from session.filt 0 session.probes).0).0 == 0) ≡ false
unfolding add_sources bring_up_from bring_up
has_source = refl

one_tick : spaced_out session.start (readings polls) ≡ 1700000000 ∷ []
unfolding is_transient
one_tick = refl

diag_run-reports_example :
    ((diag_run session polls).1.0 ≡ some (run (create rules) (calls session.start polls)))
    × (ticks (diag_run session polls).1.1 ≡ spaced_out session.start (readings polls))
diag_run-reports_example = diag_run-reports session polls rules refl refl refl has_source

diag_run-destroys_example :
    (closes 0 (diag_run session polls).1.1 ≡ opens 0 (diag_run session polls).1.1)
    × (opens 0 (diag_run session polls).1.1 ≤ 1)
diag_run-destroys_example = diag_run-destroys session polls 0

-- The camera's window after it reached DEFAULT.
abbrev in_default : DevWin
in_default = observe (fresh_win camera) to_default

abbrev engine : Engine
engine = record { rules = rules; devs = in_default ∷ []; tally = no_findings }

stuck-IsPending : IsPending 7000000000 1 stuck in_default
unfolding observe track_state is_due fresh_win win_push
stuck-IsPending = record { deadline = refl; due = refl; unreported = refl }

in_use : in_default.used ≡ true
unfolding observe track_state fresh_win win_push
in_use = refl

tick_reports_example :
    Mem (deadline_finding 7000000000 1 stuck in_default) (tick engine 7000000000).tally.output
tick_reports_example =
    tick_reports engine 7000000000 0 1 in_default stuck refl in_use refl stuck-IsPending
