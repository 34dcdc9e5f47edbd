-- ===== src/Diag/Session.antt =====
-- diag_run (src/modules/diag/diag.c): the rules, the probes, the poll loop with its timer, and the
-- clean-up.
pub mod Pacing
pub mod Cleanup
mod Tests
use usbtrace.Common.{
  ℕ, ◌+◌, ◌*◌, Bool, true, false, List, [], ◌∷◌, ◌++◌, Option, none, some, if◌then◌else◌, ◌||◌, not,
  ◌==◌, leb,
}
use usbtrace.Common.Int.{ℤ, pos, ltb_ℤ}
use usbtrace.Common.Word.{sub_u64, u16, ◌==ℤ◌}
use usbtrace.Evmux.{is_transient}
use usbtrace.Diag.Rule.{Rule}
use usbtrace.Diag.Engine.{Engine, create, tick}
use usbtrace.Diag.Normalize.{RawRecord, on_event}

-- `TICK_INTERVAL_NS`.
abbrev pub tick_interval_ns : ℕ
tick_interval_ns = 500 * 1000000

-- What the calls for one probe return: is there a skeleton, how many programs are left, the error
-- codes of `load` and `attach`, and that of adding its buffer to the mux.
pub record SourceProbe : Type 0 where
  pub has_skeleton : Bool
  pub enabled : ℕ
  pub load : ℤ
  pub attach : ℤ
  pub add : ℤ

-- What `diag_run` does, a probe by its number: urb, enum, lifecycle, power, hub, then the class
-- sources. `configured` writes `filter_vid`, `filter_pid` and, where the last argument is true,
-- `emit_submit` to the skeleton's `cfg`.
pub data SessionAction : Type 0 where
  opened loaded attached destroyed added : ℕ → SessionAction
  configured : ℕ → ℕ → ℕ → Bool → SessionAction
  new_mux freed_mux polled reported freed_engine freed_rules : SessionAction
  ticked : ℕ → SessionAction

-- The opening of the probe `i` with the ids of the filter. The urb probe, number 0, is told to emit
-- the submissions.
abbrev pub setup_probe : ℕ × ℕ → ℕ → List SessionAction → List SessionAction
setup_probe filt i acts = opened i ∷ configured i (u16 filt.0) (u16 filt.1) (i == 0) ∷ acts

-- Bring up the probe `i`: is it kept, and the actions.
unfoldable pub bring_up : ℕ × ℕ → ℕ → SourceProbe → Bool × List SessionAction
bring_up filt i p =
    if not p.has_skeleton
    then (false, [])
    else if p.enabled == 0
    then (false, setup_probe filt i (destroyed i ∷ []))
    else if not (p.load ==ℤ pos 0)
    then (false, setup_probe filt i (loaded i ∷ destroyed i ∷ []))
    else if not (p.attach ==ℤ pos 0)
    then (false, setup_probe filt i (loaded i ∷ attached i ∷ destroyed i ∷ []))
    else (true, setup_probe filt i (loaded i ∷ attached i ∷ []))

abbrev pub keep_if : Bool → ℕ × SourceProbe → List (ℕ × SourceProbe) → List (ℕ × SourceProbe)
keep_if b x xs = if b then x ∷ xs else xs

-- The probes from the number `i` on: those that are kept, and the actions.
unfoldable pub bring_up_from :
    ℕ × ℕ → ℕ → List SourceProbe → List (ℕ × SourceProbe) × List SessionAction
bring_up_from filt i [] = ([], [])
bring_up_from filt i (p ∷ ps) =
    let (up, acts) = bring_up filt i p in
    let (kept, rest) = bring_up_from filt (i + 1) ps in (keep_if up (i, p) kept, acts ++ rest)

-- The sources of the mux: `nsrc`, and the actions.
unfoldable pub add_sources : List (ℕ × SourceProbe) → ℕ × List SessionAction
add_sources [] = (0, [])
add_sources ((i, p) ∷ kept) =
    let (nsrc, acts) = add_sources kept in
    (if p.add ==ℤ pos 0 then nsrc + 1 else nsrc, added i ∷ acts)

-- One poll: the records it hands to `on_event`, with the clock of each and its length, what it
-- returns, and the clock after it.
pub record SessionPoll : Type 0 where
  pub records : List ((ℕ → ℕ) × (RawRecord × ℕ))
  pub result : ℤ
  pub now : ℕ

unfoldable pub deliver : Engine → List ((ℕ → ℕ) × (RawRecord × ℕ)) → Engine
deliver e [] = e
deliver e ((clock, (raw, len)) ∷ rs) = deliver (on_event clock e raw len) rs

abbrev pub tick_due : ℕ → ℕ → Bool
tick_due last now = leb tick_interval_ns (sub_u64 now last)

-- The loop, from `last_tick` and `err`: the engine and `err` at its end, and the actions. At the end
-- of the list the signal handler has cleared `*running`.
unfoldable pub session_loop : Engine → ℕ → ℤ → List SessionPoll → Engine × (ℤ × List SessionAction)
session_loop e last err [] = (e, (err, []))
session_loop e last err (p ∷ ps) =
    let e' = deliver e p.records in
    elim (ltb_ℤ p.result (pos 0)) [
      | true ↦ elim (is_transient p.result) [
        | true ↦
            (let (e'', (err', acts)) = session_loop e' last (pos 0) ps in
              (e'', (err', polled ∷ acts)))
        | false ↦ (e', (p.result, polled ∷ []))
      ]
      | false ↦ elim (tick_due last p.now) [
        | true ↦
            (let (e'', (err', acts)) = session_loop (tick e' p.now) p.now p.result ps in
              (e'', (err', polled ∷ ticked p.now ∷ acts)))
        | false ↦
            (let (e'', (err', acts)) = session_loop e' last p.result ps in
              (e'', (err', polled ∷ acts)))
      ]
    ]

-- The destroys of the probes that were kept.
unfoldable pub destroys : List (ℕ × SourceProbe) → List SessionAction
destroys [] = []
destroys ((i, p) ∷ kept) = destroyed i ∷ destroys kept

-- The label `cleanup`, after the mux.
abbrev pub cleanup : List (ℕ × SourceProbe) → List SessionAction
cleanup kept = destroys kept ++ (freed_engine ∷ [])

-- What `diag_run` starts from: the rules, unless they cannot be loaded; whether there is memory for
-- the engine and for the mux; the vid and the pid of the filter; the probes; and the clock before the loop.
pub record Session : Type 0 where
  pub rules : Option (List Rule)
  pub has_engine : Bool
  pub filt : ℕ × ℕ
  pub probes : List SourceProbe
  pub has_mux : Bool
  pub start : ℕ

-- From the loop on, with the probes that were kept: the exit code, the engine that reports, and the
-- actions.
unfoldable pub run_loop :
    List Rule
    → ℕ
    → List (ℕ × SourceProbe)
    → List SessionPoll
    → ℤ × (Option Engine × List SessionAction)
run_loop rules start kept polls =
    let (e, (err, acts)) = session_loop (create rules) start (pos 0) polls in
    (
      if ltb_ℤ err (pos 0) then pos 1 else pos 0,
      (some e, acts ++ (reported ∷ freed_mux ∷ cleanup kept)),
    )

-- From `usbtrace_evmux_new` on.
unfoldable pub run_sources :
    List Rule
    → Session
    → List (ℕ × SourceProbe)
    → List SessionPoll
    → ℤ × (Option Engine × List SessionAction)
run_sources rules s kept polls =
    if not s.has_mux
    then (pos 1, (none, cleanup kept))
    else (let (nsrc, adds) = add_sources kept in
        if nsrc == 0
        then (pos 1, (none, new_mux ∷ adds ++ (freed_mux ∷ cleanup kept)))
        else (let (code, (e, acts)) = run_loop rules s.start kept polls in
            (code, (e, new_mux ∷ adds ++ acts))))

-- `diag_run`.
unfoldable pub diag_run : Session → List SessionPoll → ℤ × (Option Engine × List SessionAction)
diag_run s polls = elim s.rules [
  | none ↦ (pos 1, (none, []))
  | some rules ↦
      if not s.has_engine
      then (pos 1, (none, freed_rules ∷ []))
      else (let (kept, ups) = bring_up_from s.filt 0 s.probes in
          let (code, (e, acts)) = run_sources rules s kept polls in (code, (e, ups ++ acts)))
]
