-- ===== src/Diag/Session/Pacing.antt =====
-- The timer of the poll loop, and the engine that reports.
use mathlib.Core.List.{append-nil}
use usbtrace.Common.{
  ℕ, ◌+◌, ◌≡◌, inl, inr, refl, sym, ap, ◌∙◌, arith, true, false, List, [], ◌∷◌, ◌++◌, Option, none,
  some, ◌==◌, leb, Bool-cases,
}
use usbtrace.Common.Int.{ℤ, pos, ltb_ℤ}
use usbtrace.Common.Word.{sub_u64}
use usbtrace.Evmux.{is_transient}
use usbtrace.Diag.Event.{DiagEvent}
use usbtrace.Diag.Rule.{Rule}
use usbtrace.Diag.Engine.{Engine, create, tick, ingest}
use usbtrace.Diag.Engine.Run.{Call, event, timer, step, run}
use usbtrace.Diag.Normalize.{RawRecord, normalize, on_event}
use usbtrace.Diag.Session.{
  SessionAction, ticked, freed_mux, reported, freed_engine, SourceProbe, bring_up, bring_up_from,
  add_sources, destroys, cleanup, SessionPoll, session_loop, deliver, tick_due, tick_interval_ns,
  Session, run_loop, run_sources, diag_run,
}

-- The calls of the engine that the records of one poll make: those that `normalize` rejects make
-- none.
abbrev pub events : List ((ℕ → ℕ) × (RawRecord × ℕ)) → List Call
events [] = []
events ((clock, (raw, len)) ∷ rs) = elim (normalize raw len) [
  | none ↦ events rs
  | some ev ↦ event clock ev ∷ events rs
]

-- The clock readings of the timer, up to the poll error that ends the loop.
abbrev pub readings : List SessionPoll → List ℕ
readings [] = []
readings (p ∷ ps) = elim (ltb_ℤ p.result (pos 0)) [
  | true ↦ elim (is_transient p.result) [ true ↦ readings ps | false ↦ [] ]
  | false ↦ p.now ∷ readings ps
]

-- Of some readings, each that is at least an interval after the one chosen before it, or after
-- `last`.
abbrev pub spaced_out : ℕ → List ℕ → List ℕ
spaced_out last [] = []
spaced_out last (t ∷ ts) = elim (leb tick_interval_ns (sub_u64 t last)) [
  | true ↦ t ∷ spaced_out t ts
  | false ↦ spaced_out last ts
]

-- The times of the ticks among the actions.
abbrev pub ticks : List SessionAction → List ℕ
ticks [] = []
ticks (ticked t ∷ acts) = t ∷ ticks acts
ticks (a ∷ acts) = ticks acts

-- The engine's calls in a loop: the records of each poll, then the tick if one is due.
abbrev pub calls : ℕ → List SessionPoll → List Call
calls last [] = []
calls last (p ∷ ps) = elim (ltb_ℤ p.result (pos 0)) [
  | true ↦ elim (is_transient p.result) [
    | true ↦ events p.records ++ calls last ps
    | false ↦ events p.records
  ]
  | false ↦ elim (tick_due last p.now) [
    | true ↦ events p.records ++ (timer p.now ∷ calls p.now ps)
    | false ↦ events p.records ++ calls last ps
  ]
]

ticks-session_loop :
    (e : Engine) (last : ℕ) (err : ℤ) (ps : List SessionPoll)
    → ticks (session_loop e last err ps).1.1 ≡ spaced_out last (readings ps)
unfolding session_loop
ticks-session_loop e last err [] = refl
ticks-session_loop e last err (p ∷ ps) = ground (
  arith,
  ticks-session_loop (deliver e p.records) last (pos 0) ps,
  ticks-session_loop (deliver e p.records) last p.result ps,
  ticks-session_loop (tick (deliver e p.records) p.now) p.now p.result ps,
)

run-append : (e : Engine) (xs ys : List Call) → run e (xs ++ ys) ≡ run (run e xs) ys
unfolding run
run-append e [] ys = refl
run-append e (c ∷ xs) ys = run-append (step e c) xs ys

deliver-run :
    (e : Engine) (rs : List ((ℕ → ℕ) × (RawRecord × ℕ))) → deliver e rs ≡ run e (events rs)
unfolding deliver run on_event step
deliver-run e [] = refl
deliver-run e ((clock, (raw, len)) ∷ rs) =
    go (normalize raw len) (deliver-run e rs) (λ ev. deliver-run (ingest clock e ev) rs)
  where
    go :
        (o : Option DiagEvent)
        → deliver e rs ≡ run e (events rs)
        → ((ev : DiagEvent) → deliver (ingest clock e ev) rs ≡ run (ingest clock e ev) (events rs))
        → deliver (elim o [ none ↦ e | some ev ↦ ingest clock e ev ]) rs
          ≡ run e (elim o [ none ↦ events rs | some ev ↦ event clock ev ∷ events rs ])
    go none h k = h
    go (some ev) h k = k ev

then_run :
    (e : Engine) (rs : List ((ℕ → ℕ) × (RawRecord × ℕ))) (cs : List Call) (e' : Engine)
    → e' ≡ run (deliver e rs) cs
    → e' ≡ run e (events rs ++ cs)
then_run e rs cs e' h =
    h ∙ (ap (λ x. run x cs) (deliver-run e rs) ∙ sym (run-append e (events rs) cs))

-- The loop is a run of the engine.
session_loop-run :
    (e : Engine) (last : ℕ) (err : ℤ) (ps : List SessionPoll)
    → (session_loop e last err ps).0 ≡ run e (calls last ps)
unfolding session_loop run step
session_loop-run e last err [] = refl
session_loop-run e last err (p ∷ ps) = elim (Bool-cases (ltb_ℤ p.result (pos 0))) [
  | inl n ↦ elim (Bool-cases (is_transient p.result)) [
    | inl t ↦
        rw (session_loop, calls, n, t)
          (then_run e p.records (calls last ps) _
            (session_loop-run (deliver e p.records) last (pos 0) ps))
    | inr t ↦ rw (session_loop, calls, n, t) (deliver-run e p.records)
  ]
  | inr n ↦ elim (Bool-cases (tick_due last p.now)) [
    | inl t ↦
        rw (session_loop, calls, n, t)
          (then_run e p.records (timer p.now ∷ calls p.now ps) _
            (session_loop-run (tick (deliver e p.records) p.now) p.now p.result ps))
    | inr t ↦
        rw (session_loop, calls, n, t)
          (then_run e p.records (calls last ps) _
            (session_loop-run (deliver e p.records) last p.result ps))
  ]
]

ticks-append : (xs ys : List SessionAction) → ticks (xs ++ ys) ≡ ticks xs ++ ticks ys
ticks-append [] ys = refl
ticks-append (a ∷ xs) ys = ground (arith, ticks-append xs ys)

ticks_quiet : (xs ys : List SessionAction) → ticks xs ≡ [] → ticks (xs ++ ys) ≡ ticks ys
ticks_quiet xs ys h = ticks-append xs ys ∙ ap (λ ts. ts ++ ticks ys) h

ticks-bring_up : (filt : ℕ × ℕ) (i : ℕ) (p : SourceProbe) → ticks (bring_up filt i p).1 ≡ []
unfolding bring_up
ticks-bring_up filt i p = ground arith

ticks-bring_up_from :
    (filt : ℕ × ℕ) (i : ℕ) (ps : List SourceProbe) → ticks (bring_up_from filt i ps).1 ≡ []
unfolding bring_up_from
ticks-bring_up_from filt i [] = refl
ticks-bring_up_from filt i (p ∷ ps) =
    ticks_quiet (bring_up filt i p).1 (bring_up_from filt (i + 1) ps).1 (ticks-bring_up filt i p)
    ∙ ticks-bring_up_from filt (i + 1) ps

ticks-add_sources : (kept : List (ℕ × SourceProbe)) → ticks (add_sources kept).1 ≡ []
unfolding add_sources
ticks-add_sources [] = refl
ticks-add_sources ((i, p) ∷ kept) = ticks-add_sources kept

ticks-destroys :
    (kept : List (ℕ × SourceProbe)) (ys : List SessionAction)
    → ticks (destroys kept ++ ys) ≡ ticks ys
unfolding destroys
ticks-destroys [] ys = refl
ticks-destroys ((i, p) ∷ kept) ys = ticks-destroys kept ys

run_loop_lem :
    (rules : List Rule) (start : ℕ) (kept : List (ℕ × SourceProbe)) (polls : List SessionPoll)
    → ((run_loop rules start kept polls).1.0 ≡ some (run (create rules) (calls start polls)))
      × (ticks (run_loop rules start kept polls).1.1 ≡ spaced_out start (readings polls))
unfolding run_loop
run_loop_lem rules start kept polls = (
  ap some (session_loop-run (create rules) start (pos 0) polls),
  ticks-append (session_loop (create rules) start (pos 0) polls).1.1
        (reported ∷ freed_mux ∷ cleanup kept)
      ∙ (ap (λ ts. ticks (session_loop (create rules) start (pos 0) polls).1.1 ++ ts)
            (ticks-destroys kept (freed_engine ∷ []))
          ∙ (append-nil _ ∙ ticks-session_loop (create rules) start (pos 0) polls)),
)

-- Once the rules are loaded, there is memory, and a source is active, diag_run reports, whatever the
-- polls return: the engine that it reports is the run of a new engine over the records that
-- `normalize` accepts, in the order of delivery, with the ticks in their places; and the times of
-- the ticks are the clock readings, each of the first one at least 500 ms after the tick before it.
pub diag_run-reports :
    (s : Session) (polls : List SessionPoll) (rules : List Rule)
    → s.rules ≡ some rules
    → s.has_engine ≡ true
    → s.has_mux ≡ true
    → ((add_sources (bring_up_from s.filt 0 s.probes).0).0 == 0) ≡ false
    → ((diag_run s polls).1.0 ≡ some (run (create rules) (calls s.start polls)))
      × (ticks (diag_run s polls).1.1 ≡ spaced_out s.start (readings polls))
unfolding diag_run run_sources
diag_run-reports s polls rules r m x z =
    let kept = (bring_up_from s.filt 0 s.probes).0 in
    let (report, times) = run_loop_lem rules s.start kept polls in
    rw (r, m, x, z)
      (
        report,
        ticks_quiet (bring_up_from s.filt 0 s.probes).1 _ (ticks-bring_up_from s.filt 0 s.probes)
            ∙ (ticks_quiet (add_sources kept).1 _ (ticks-add_sources kept) ∙ times),
      )
