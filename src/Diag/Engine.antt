-- ===== src/Diag/Engine.antt =====
-- src/modules/diag/engine.c: ingestion of an event, the periodic tick, and the tallies. What the
-- engine prints is a list of findings. `diag_now_ns` is read once for each rule that gets as far as
-- the cooldown: `clock i` is the reading at rule `i`.
pub mod WellFormed
pub mod Ingest
pub mod Deadline
pub mod Alarms
pub mod Latch
pub mod Counts
pub mod Run
pub mod States
pub mod Fires
pub mod Cooldown
use Prim.Native.Nat.{bit_or}
use usbtrace.Common.{
  ℕ, zero, suc, ◌+◌, ◌*◌, ◌^◌, Bool, true, false, List, [], ◌∷◌, ◌++◌, Option, none, some,
  if◌then◌else◌, ◌&&◌, ◌||◌, not, ltb, leb, ◌==◌, length, get_elem?, set, fill, update,
}
use usbtrace.Common.Int.{ℤ, pos, negsuc, ltb_ℤ}
use usbtrace.Common.Word.{u64, sub_u64}
use usbtrace.Records.{evt_enum, evt_lifecycle}
use usbtrace.Diag.Event.{DiagEvent, DevKey, event_key}
use usbtrace.Diag.Rule.{Cond, Rule, RuleType, rule_event, rule_deadline, trigger_match}
use usbtrace.Diag.Window.{DevWin, win_max_devs, win_get, win_push, zero_win, retention_ns}
use usbtrace.Diag.Window.States.{has_state}
use usbtrace.Diag.Eval.{ms_to_ns, eval_when, cooldown_ok}

-- A printed finding: the arguments of `print_finding`, and what it prints of the window.
pub record Finding : Type 0 where
  pub rule : ℕ
  pub key : DevKey
  pub vid : ℕ
  pub product : ℕ
  pub ref_ns : ℕ
  pub count : ℕ
  pub window_ms : ℤ
  pub comm : Option (List ℕ)
  pub evidence : List DiagEvent

-- The summary counters of `struct diag_engine`, and the findings printed so far, oldest first.
pub record Tally : Type 0 where
  pub fire_count : ℕ → ℕ  -- diag_max_rules entries
  pub total_fired : ℕ
  pub output : List Finding

-- `struct diag_engine`; `nrules` is the length of the list.
pub record Engine : Type 0 where
  pub rules : List Rule
  pub devs : List DevWin
  pub tally : Tally

-- `win_max_devs` zeroed slots.
unfoldable pub zero_devs : ℕ → List DevWin
zero_devs zero = []
zero_devs (suc n) = zero_win ∷ zero_devs n

-- `diag_engine_create`, where the allocation succeeds.
unfoldable pub create : List Rule → Engine
unfolding zero_devs
create rules = record {
  rules = rules;
  devs = zero_devs win_max_devs;
  tally = record { fire_count = fill 0; total_fired = 0; output = [] };
}

-- `emit`.
unfoldable pub emit : Finding → Tally → Tally
emit f t = record {
  fire_count = update t.fire_count f.rule (u64 (t.fire_count f.rule + 1));
  total_fired = u64 (t.total_fired + 1);
  output = t.output ++ (f ∷ []);
}

-- `dev_reset_enum`.
unfoldable pub dev_reset_enum : DevWin → DevWin
dev_reset_enum w = record w { seen_states = 0; state_ts = fill 0; dl_fired = fill false }

-- `seen_states |= 1u << state`, and the time of the first sight.
unfoldable pub see_state : DevWin → ℕ → ℕ → DevWin
see_state w state ts = record w {
  seen_states = bit_or w.seen_states (2 ^ state);
  state_ts = if w.state_ts state == 0 then update w.state_ts state ts else w.state_ts;
}

-- The state bookkeeping of `diag_engine_ingest`.
unfoldable pub track_state : DevWin → DiagEvent → DevWin
unfolding dev_reset_enum see_state
track_state w e =
    if e.kind == evt_enum && e.step == 0
    then (let w' = if e.new_state == 0 then dev_reset_enum w else w in
        if ltb e.new_state 9 then see_state w' e.new_state e.ts_ns else w')
    else if e.kind == evt_lifecycle && e.action == 1
    then dev_reset_enum w
    else w

-- What `diag_engine_ingest` writes to the device's window before it looks at the rules.
unfoldable pub observe : DevWin → DiagEvent → DevWin
observe w e =
    track_state
      (win_push
        (record w {
          last_seen_ns = e.ts_ns;
          vid = if e.vid == 0 then w.vid else e.vid;
          product = if e.product == 0 then w.product else e.product;
        })
        e)
      e

-- `count`, `window_ms` and `ev` of the loop over the conditions of a rule.
pub record WhenScan : Type 0 where
  pub count : ℕ
  pub window_ms : ℤ
  pub evidence : List DiagEvent

-- `need`: how many events a condition asks for.
abbrev pub need : Cond → ℤ
need c = if c.has_count_gte then c.count_gte else pos 1

-- What a condition that is met leaves in the variables.
unfoldable pub note_when : Cond → ℕ → List DiagEvent → WhenScan → WhenScan
note_when c n ev s = record {
  count = if ltb s.count n then n else s.count;
  window_ms = if c.has_within_ms && ltb_ℤ s.window_ms c.within_ms then c.within_ms else s.window_ms;
  evidence = ev;
}

-- The loop over the conditions; `none` is `ok = 0`.
unfoldable pub whens_from : DevWin → ℕ → List Cond → WhenScan → Option WhenScan
whens_from w ref_ns [] s = some s
whens_from w ref_ns (c ∷ cs) s =
    let (n, ev) = eval_when w c ref_ns s.evidence in
    let rest = whens_from w ref_ns cs (note_when c n ev s) in
    if ltb_ℤ (pos n) (need c) then none else rest

abbrev pub when_start : WhenScan
when_start = record { count = 0; window_ms = pos 0; evidence = [] }

-- The finding of an event rule.
abbrev pub event_finding : ℕ → DevWin → DiagEvent → WhenScan → Finding
event_finding ri w e s = record {
  rule = ri;
  key = w.key;
  vid = w.vid;
  product = w.product;
  ref_ns = e.ts_ns;
  count = s.count;
  window_ms = s.window_ms;
  comm = some e.comm;
  evidence = s.evidence;
}

abbrev pub is_event : RuleType → Bool
is_event rule_event = true
is_event rule_deadline = false

-- `if (ok && cooldown_ok(...)) emit(...)`.
unfoldable pub fire_event : ℕ → DiagEvent → ℕ → WhenScan → DevWin → Tally → DevWin × Tally
fire_event now e ri s w t =
    let (w', ok) = cooldown_ok w ri now in (w', if ok then emit (event_finding ri w e s) t else t)

-- The body of the loop over the rules.
unfoldable pub ingest_rule : ℕ → DiagEvent → ℕ → Rule → DevWin → Tally → DevWin × Tally
ingest_rule now e ri r w t =
    if not (is_event r.type)
    then (w, t)
    else if not (trigger_match r.trigger e)
    then (w, t)
    else elim (whens_from w e.ts_ns r.when when_start) [
      | none ↦ (w, t)
      | some s ↦ fire_event now e ri s w t
    ]

-- The loop over the rules from rule `ri` on.
unfoldable pub ingest_rules : (ℕ → ℕ) → DiagEvent → ℕ → List Rule → DevWin → Tally → DevWin × Tally
ingest_rules clock e ri [] w t = (w, t)
ingest_rules clock e ri (r ∷ rs) w t =
    let (w', t') = ingest_rule (clock ri) e ri r w t in ingest_rules clock e (suc ri) rs w' t'

-- `diag_engine_ingest` on the slot that `win_get` returned. An index out of range is undefined
-- behaviour in C, and leaves the engine as it is here.
unfoldable pub ingest_at : (ℕ → ℕ) → Engine → DiagEvent → ℕ → Engine
ingest_at clock e evt i = elim (get_elem? e.devs i) [
  | none ↦ e
  | some w ↦
      let (w', t) = ingest_rules clock evt 0 e.rules (observe w evt) e.tally in
      record e { devs = set e.devs i w'; tally = t }
]

-- `diag_engine_ingest`.
unfoldable pub ingest : (ℕ → ℕ) → Engine → DiagEvent → Engine
ingest clock e evt =
    let (slot, devs) = win_get e.devs (event_key evt) true in
    elim slot [ none ↦ e | some i ↦ ingest_at clock (record e { devs = devs }) evt i ]

-- A device state that a deadline rule may name, 0 to 8.
unfoldable pub state_index : ℤ → Option ℕ
state_index (pos n) = if leb n 8 then some n else none
state_index (negsuc n) = none

-- Has the device gone on to the state that calls the alarm off?
abbrev pub called_off : DevWin → Option ℕ → Bool
called_off w none = false
called_off w (some n) = has_state w.seen_states n

-- The tests of a deadline rule, up to the latch: is the alarm due?
unfoldable pub is_due : ℕ → Rule → DevWin → Bool
unfolding state_index has_state
is_due now r w = elim (state_index r.dl_reached_state) [
  | none ↦ false
  | some n ↦
      if not (has_state w.seen_states n)
      then false
      else if called_off w (state_index r.dl_without_state)
      then false
      else if ltb (sub_u64 now (w.state_ts n)) (ms_to_ns r.dl_timeout_ms)
      then false
      else true
]

abbrev pub deadline_finding : ℕ → ℕ → Rule → DevWin → Finding
deadline_finding now ri r w = record {
  rule = ri;
  key = w.key;
  vid = w.vid;
  product = w.product;
  ref_ns = now;
  count = 0;
  window_ms = r.dl_timeout_ms;
  comm = none;
  evidence = [];
}

-- The body of the loop over the deadline rules.
unfoldable pub tick_rule : ℕ → ℕ → Rule → DevWin → Tally → DevWin × Tally
tick_rule now ri r w t =
    if is_event r.type
    then (w, t)
    else if not (is_due now r w)
    then (w, t)
    else if w.dl_fired ri
    then (w, t)
    else (record w { dl_fired = update w.dl_fired ri true }, emit (deadline_finding now ri r w) t)

unfoldable pub tick_rules : ℕ → ℕ → List Rule → DevWin → Tally → DevWin × Tally
tick_rules now ri [] w t = (w, t)
tick_rules now ri (r ∷ rs) w t =
    let (w', t') = tick_rule now ri r w t in tick_rules now (suc ri) rs w' t'

-- The eviction of an idle device.
unfoldable pub evict : ℕ → DevWin → DevWin
evict now w = if ltb retention_ns (sub_u64 now w.last_seen_ns) then record w { used = false } else w

-- The body of the loop over the devices.
unfoldable pub tick_dev : ℕ → List Rule → DevWin → Tally → DevWin × Tally
tick_dev now rules w t =
    if not w.used then (w, t) else (let (w', t') = tick_rules now 0 rules w t in (evict now w', t'))

unfoldable pub tick_devs : ℕ → List Rule → List DevWin → Tally → List DevWin × Tally
tick_devs now rules [] t = ([], t)
tick_devs now rules (w ∷ ws) t =
    let (w', t') = tick_dev now rules w t in
    let (ws', t'') = tick_devs now rules ws t' in (w' ∷ ws', t'')

-- `diag_engine_tick`.
unfoldable pub tick : Engine → ℕ → Engine
tick e now =
    let (devs, t) = tick_devs now e.rules e.devs e.tally in record e { devs = devs; tally = t }
