-- ===== src/Diag/Tests.antt =====
-- Runs of the engine on a small bus: one webcam that resets, and a rule of each type.
use usbtrace.Common.{
  ℕ, ◌+◌, ◌<◌, ◌≡◌, ◌≢◌, refl, ◌∙◌, true, false, List, [], ◌∷◌, ◌++◌, none, some, if◌then◌else◌,
  ◌&&◌, arith, length, length-set, get_elem?, set, take, codes,
}
use usbtrace.Common.Int.{pos, negsuc}
use usbtrace.Records.{evt_enum, evt_urb}
use usbtrace.Diag.Event.{DiagEvent, zero_event, DevKey}
use usbtrace.Diag.Rule.{
  Rule, Cond, rule_event, rule_deadline, sev_warn, f_status, op_ne, trigger_match, cond_event_pred,
}
use usbtrace.Diag.Window.{DevWin, win_get, win_push, fresh_win, find_key, zero_win, win_at}
use usbtrace.Diag.Window.Table.{Distinct-set, find_key-Absent, Gets, win_get_lem, SeenSince}
use usbtrace.Diag.Window.Recent.{recent, recent-push}
use usbtrace.Diag.Window.Recycle.{SeenAt, win_get_recycles}
use usbtrace.Diag.Window.States.{has_state}
use usbtrace.Diag.Window.Fades.{AllValid-set}
use usbtrace.Diag.Eval.{eval_when, cluster_of, cooldown_ok}
use usbtrace.Diag.Eval.Spec.{matching, episodes, spans}
use usbtrace.Diag.Eval.Refine.{eval_when_lem, room}
use usbtrace.Diag.Eval.Cooldown.{Spaced}
use usbtrace.Diag.Engine.Cooldown.{Turn, arrives, elapses, window_turn, fired_at, fired_at-Spaced}
use usbtrace.Diag.Engine.{
  tick_devs, ingest_at, ingest_rules, track_state, tick_dev, whens_from, fire_event, tick_rules,
  tick_rule, is_due, emit, Engine, Tally, create, zero_devs, ingest, tick, ingest_rule, is_event,
  observe, evict,
}
use usbtrace.Diag.Engine.WellFormed.{IsWellFormed, fresh_win-IsValid, zero_devs_lem}
use usbtrace.Diag.Engine.Ingest.{ingest_known}
use usbtrace.Diag.Engine.Fires.{ingest_rule_reports, all_met}
use usbtrace.Diag.Engine.Counts.{IsCounted, hits}
use usbtrace.Diag.Engine.Run.{event, timer, run, run_invariant}
use usbtrace.Diag.Engine.Latch.{tick_again}
use usbtrace.Diag.Engine.States.{starts_over, reached_after, observe_tracks}

abbrev pub camera : DevKey
camera = record { busnum = 1; devnum = 4 }

abbrev mouse : DevKey
mouse = record { busnum = 1; devnum = 7 }

-- The camera reaches the state DEFAULT.
abbrev pub to_default : DiagEvent
to_default = record zero_event {
  kind = evt_enum;
  ts_ns = 5000000000;
  vid = 0x046d;
  product = 0x082d;
  busnum = 1;
  devnum = 4;
  old_state = 3;
  new_state = 5;
}

-- A transfer of the camera that fails.
abbrev failed_urb : DiagEvent
failed_urb = record zero_event {
  kind = evt_urb;
  ts_ns = 5100000000;
  busnum = 1;
  devnum = 4;
  status = negsuc 70;
}

abbrev failed : Cond
failed = record {
  has_kind = true;
  kind = evt_urb;
  matches = record { field = f_status; value = pos 0; op = op_ne } ∷ [];
  status_in = [];
  has_within_ms = true;
  within_ms = pos 3000;
  has_count_gte = true;
  count_gte = pos 1;
  has_min_span_ms = false;
  min_span_ms = pos 0;
  has_cluster_ms = true;
  cluster_ms = pos 10;
}

abbrev pub urb_errors : Rule
urb_errors = record {
  id = some (codes "urb_errors");
  name = none;
  conclusion = none;
  fix = none;
  severity = sev_warn;
  type = rule_event;
  trigger = failed;
  when = failed ∷ [];
  dl_reached_state = pos 0;
  dl_without_state = pos 0;
  dl_timeout_ms = pos 0;
}

-- DEFAULT, and not ADDRESS within a second.
abbrev pub stuck : Rule
stuck = record urb_errors {
  id = some (codes "stuck");
  type = rule_deadline;
  dl_reached_state = pos 5;
  dl_without_state = pos 6;
  dl_timeout_ms = pos 1000;
}

abbrev pub clock : ℕ → ℕ
clock i = 6000000000 + i

run_invariant_example :
    let e =
      run
        (create (urb_errors ∷ stuck ∷ []))
        (event clock to_default ∷ event clock failed_urb ∷ timer 7000000000 ∷ []) in
    IsWellFormed e × IsCounted e.tally
run_invariant_example =
    run_invariant (urb_errors ∷ stuck ∷ [])
      (event clock to_default ∷ event clock failed_urb ∷ timer 7000000000 ∷ [])

-- The failed transfer sets off the event rule, and the tick the deadline rule.
run_reports :
    (run
      (create (urb_errors ∷ stuck ∷ []))
      (event clock to_default ∷ event clock failed_urb ∷ timer 7000000000 ∷ [])).tally.total_fired
    ≡ 2
unfolding run create ingest tick win_get observe win_push ingest_rule zero_devs zero_event
    trigger_match cooldown_ok tick_devs ingest_at ingest_rules track_state tick_dev whens_from
    eval_when cluster_of win_at cond_event_pred fire_event tick_rules tick_rule is_due emit
run_reports = refl

-- The camera's window after two events.
abbrev camera_window : DevWin
camera_window = win_push (win_push (fresh_win camera) to_default) failed_urb

eval_when_lem_example :
    let ms = matching failed 5100000000 (recent camera_window) in
    let found = episodes (cluster_of failed) ms in
    eval_when camera_window failed 5100000000 [] ≡ (
      if spans failed ms (length found)
      then (length found, [] ++ take (room []) found)
      else (0, []))
eval_when_lem_example = eval_when_lem camera_window failed 5100000000 []

abbrev pub no_findings : Tally
no_findings = record { fire_count = λ _. 0; total_fired = 0; output = [] }

ingest_rule_reports_example :
    length (ingest_rule 6000000000 failed_urb 0 urb_errors camera_window no_findings).1.output
    ≡ length no_findings.output
      + (if is_event urb_errors.type
            && trigger_match failed failed_urb
            && all_met camera_window 5100000000 (failed ∷ [])
            && (cooldown_ok camera_window 0 6000000000).1
          then 1
          else 0)
ingest_rule_reports_example =
    ingest_rule_reports 6000000000 failed_urb 0 urb_errors camera_window no_findings

-- A table with the camera in its first slot.
abbrev one_camera : List DevWin
one_camera = set (zero_devs 128) 0 (fresh_win camera)

no_camera : find_key (zero_devs 128) camera ≡ none
unfolding find_key zero_devs zero_win
no_camera = refl

camera_found : find_key one_camera camera ≡ some 0
unfolding find_key zero_devs fresh_win
camera_found = refl

camera_at : get_elem? one_camera 0 ≡ some (fresh_win camera)
unfolding zero_devs
camera_at = refl

abbrev camera_engine : Engine
camera_engine = record (create (urb_errors ∷ stuck ∷ [])) { devs = one_camera }

camera_engine-IsWellFormed : IsWellFormed camera_engine
camera_engine-IsWellFormed =
    let (l, d, v) = zero_devs_lem 128 in
    record {
      sized = length-set (zero_devs 128) 0 (fresh_win camera) ∙ l;
      distinct = Distinct-set (zero_devs 128) camera 0 (find_key-Absent _ camera no_camera) d;
      valid = AllValid-set (zero_devs 128) 0 (fresh_win camera) (fresh_win-IsValid camera) v;
    }

ingest_known_example :
    ((w' : DevWin) × (get_elem? (ingest clock camera_engine to_default).devs 0 ≡ some w')
      × (recent w' ≡ to_default ∷ take 1023 (recent (fresh_win camera))))
    × ((j : ℕ)
        → 0 ≢ j
        → get_elem? (ingest clock camera_engine to_default).devs j ≡ get_elem? one_camera j)
unfolding zero_event
ingest_known_example =
    ingest_known clock camera_engine to_default 0 (fresh_win camera) camera_engine-IsWellFormed
      camera_found camera_at

win_get_lem_example : (i : ℕ) × (i < length one_camera) × Gets one_camera mouse i
unfolding zero_devs
win_get_lem_example = win_get_lem one_camera mouse (omega arith) camera_engine-IsWellFormed.distinct

-- Two devices fill a table of two slots; the camera was seen first.
abbrev two_devices : List DevWin
two_devices =
    record (fresh_win mouse) { last_seen_ns = 9 }
    ∷ record (fresh_win camera) { last_seen_ns = 5 }
    ∷ []

abbrev keyboard : DevKey
keyboard = record { busnum = 2; devnum = 3 }

keyboard_new : find_key two_devices keyboard ≡ none
unfolding find_key fresh_win
keyboard_new = refl

win_get_recycles_example :
    (i t : ℕ) × ((win_get two_devices keyboard true).0 ≡ some i)
    × SeenAt two_devices i t
    × SeenSince t two_devices
unfolding fresh_win
win_get_recycles_example =
    win_get_recycles two_devices keyboard (omega arith) (refl, (refl, tt)) keyboard_new

mouse_new : find_key one_camera mouse ≡ none
unfolding find_key zero_devs fresh_win
mouse_new = refl

recent-push_example :
    recent (win_push (fresh_win camera) to_default)
    ≡ to_default ∷ take 1023 (recent (fresh_win camera))
recent-push_example = recent-push (fresh_win camera) to_default (fresh_win-IsValid camera)

-- Failed transfers, with a tick between the first two.
abbrev turns : List Turn
turns =
    arrives (λ _. 5200000000) failed_urb no_findings
    ∷ elapses 5600000000 no_findings
    ∷ arrives (λ _. 6200000000) failed_urb no_findings
    ∷ arrives (λ _. 8000000000) failed_urb no_findings
    ∷ []

fired_twice :
    fired_at 0 (urb_errors ∷ stuck ∷ []) (fresh_win camera) turns ≡ 5200000000 ∷ 8000000000 ∷ []
unfolding fired_at window_turn hits fresh_win observe win_push ingest_rule trigger_match cooldown_ok
    ingest_rules track_state tick_dev whens_from eval_when cluster_of win_at cond_event_pred
    fire_event tick_rules tick_rule is_due emit evict
fired_twice = refl

fired_at-Spaced_example : Spaced 0 (fired_at 0 (urb_errors ∷ stuck ∷ []) (fresh_win camera) turns)
unfolding fresh_win
fired_at-Spaced_example =
    fired_at-Spaced (urb_errors ∷ stuck ∷ []) 0 (fresh_win camera) turns (omega arith)

tick_again_example :
    let e = ingest clock camera_engine to_default in
    tick (tick e 7000000000) 7000000000 ≡ tick e 7000000000
tick_again_example = tick_again (ingest clock camera_engine to_default) 7000000000

observe_tracks_example :
    (has_state (observe (fresh_win camera) to_default).seen_states 5
      ≡ reached_after to_default (has_state (fresh_win camera).seen_states) 5)
    × ((observe (fresh_win camera) to_default).dl_fired 1
        ≡ (if starts_over to_default then false else (fresh_win camera).dl_fired 1))
unfolding fresh_win
observe_tracks_example =
    observe_tracks (fresh_win camera) to_default 5 1 (omega arith) (omega arith)
