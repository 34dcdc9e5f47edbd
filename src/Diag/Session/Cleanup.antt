-- ===== src/Diag/Session/Cleanup.antt =====
-- Every skeleton that diag_run opens is destroyed, on every path.
use usbtrace.Common.{
  ℕ, ◌+◌, ◌≤◌, ◌≡◌, ◌⊎◌, inl, inr, refl, arith, List, [], ◌∷◌, ◌++◌, if◌then◌else◌, ◌==◌,
  Bool-cases, Option-cases,
}
use usbtrace.Common.Int.{ℤ, pos}
use usbtrace.Diag.Rule.{Rule}
use usbtrace.Diag.Engine.{Engine, create, tick}
use usbtrace.Diag.Session.{
  SessionAction, opened, destroyed, new_mux, freed_mux, reported, freed_engine, SourceProbe,
  bring_up, bring_up_from, add_sources, destroys, cleanup, SessionPoll, session_loop, deliver,
  Session, run_loop, run_sources, diag_run,
}

-- How often the actions open the probe `k`, and destroy it.
abbrev pub opens : ℕ → List SessionAction → ℕ
opens k [] = 0
opens k (opened i ∷ acts) = (if i == k then 1 else 0) + opens k acts
opens k (a ∷ acts) = opens k acts

abbrev pub closes : ℕ → List SessionAction → ℕ
closes k [] = 0
closes k (destroyed i ∷ acts) = (if i == k then 1 else 0) + closes k acts
closes k (a ∷ acts) = closes k acts

-- How often a probe is among those that were kept.
abbrev holds : ℕ → List (ℕ × SourceProbe) → ℕ
holds k [] = 0
holds k ((i, p) ∷ kept) = (if i == k then 1 else 0) + holds k kept

opens-append : (k : ℕ) (xs ys : List SessionAction) → opens k (xs ++ ys) ≡ opens k xs + opens k ys
opens-append k [] ys = omega arith
opens-append k (a ∷ xs) ys = ground (arith, opens-append k xs ys)

closes-append :
    (k : ℕ) (xs ys : List SessionAction) → closes k (xs ++ ys) ≡ closes k xs + closes k ys
closes-append k [] ys = omega arith
closes-append k (a ∷ xs) ys = ground (arith, closes-append k xs ys)

bring_up_lem :
    (filt : ℕ × ℕ) (k i : ℕ) (p : SourceProbe)
    → (opens k (bring_up filt i p).1
        ≡ closes k (bring_up filt i p).1
          + (if (bring_up filt i p).0 then (if i == k then 1 else 0) else 0))
      × (opens k (bring_up filt i p).1 ≤ (if i == k then 1 else 0))
unfolding bring_up
bring_up_lem filt k i p = ground arith

-- The probes from `i` on: what is opened is destroyed at once or kept, no number twice.
bring_up_from_lem :
    (filt : ℕ × ℕ) (k i : ℕ) (ps : List SourceProbe)
    → (opens k (bring_up_from filt i ps).1
        ≡ closes k (bring_up_from filt i ps).1 + holds k (bring_up_from filt i ps).0)
      × ((opens k (bring_up_from filt i ps).1 ≤ 1)
          × ((opens k (bring_up_from filt i ps).1 ≡ 0) ⊎ (i ≤ k)))
unfolding bring_up_from
bring_up_from_lem filt k i [] = ground arith
bring_up_from_lem filt k i (p ∷ ps) = ground (
  arith,
  bring_up_lem filt k i p,
  bring_up_from_lem filt k (i + 1) ps,
  opens-append k (bring_up filt i p).1 (bring_up_from filt (i + 1) ps).1,
  closes-append k (bring_up filt i p).1 (bring_up_from filt (i + 1) ps).1,
)

destroys_lem :
    (k : ℕ) (kept : List (ℕ × SourceProbe))
    → (opens k (destroys kept) ≡ 0) × (closes k (destroys kept) ≡ holds k kept)
unfolding destroys
destroys_lem k [] = (refl, refl)
destroys_lem k ((i, p) ∷ kept) = ground (arith, destroys_lem k kept)

add_sources_lem :
    (k : ℕ) (kept : List (ℕ × SourceProbe))
    → (opens k (add_sources kept).1 ≡ 0) × (closes k (add_sources kept).1 ≡ 0)
unfolding add_sources
add_sources_lem k [] = (refl, refl)
add_sources_lem k ((i, p) ∷ kept) = ground (arith, add_sources_lem k kept)

session_loop_lem :
    (k : ℕ) (e : Engine) (last : ℕ) (err : ℤ) (ps : List SessionPoll)
    → (opens k (session_loop e last err ps).1.1 ≡ 0)
      × (closes k (session_loop e last err ps).1.1 ≡ 0)
unfolding session_loop
session_loop_lem k e last err [] = (refl, refl)
session_loop_lem k e last err (p ∷ ps) = ground (
  arith,
  session_loop_lem k (deliver e p.records) last (pos 0) ps,
  session_loop_lem k (deliver e p.records) last p.result ps,
  session_loop_lem k (tick (deliver e p.records) p.now) p.now p.result ps,
)

cleanup_lem :
    (k : ℕ) (kept : List (ℕ × SourceProbe))
    → (opens k (cleanup kept) ≡ 0) × (closes k (cleanup kept) ≡ holds k kept)
cleanup_lem k kept = ground (
  arith,
  destroys_lem k kept,
  opens-append k (destroys kept) (freed_engine ∷ []),
  closes-append k (destroys kept) (freed_engine ∷ []),
)

run_loop_lem :
    (k : ℕ) (rules : List Rule) (start : ℕ) (kept : List (ℕ × SourceProbe))
    (polls : List SessionPoll)
    → (opens k (run_loop rules start kept polls).1.1 ≡ 0)
      × (closes k (run_loop rules start kept polls).1.1 ≡ holds k kept)
unfolding run_loop
run_loop_lem k rules start kept polls =
    let looped = (session_loop (create rules) start (pos 0) polls).1.1 in
    ground (
      arith,
      cleanup_lem k kept,
      session_loop_lem k (create rules) start (pos 0) polls,
      opens-append k looped (reported ∷ freed_mux ∷ cleanup kept),
      closes-append k looped (reported ∷ freed_mux ∷ cleanup kept),
    )

after_adds :
    (k : ℕ) (kept : List (ℕ × SourceProbe)) (acts : List SessionAction)
    → (opens k acts ≡ 0) × (closes k acts ≡ holds k kept)
    → (opens k (new_mux ∷ (add_sources kept).1 ++ acts) ≡ 0)
      × (closes k (new_mux ∷ (add_sources kept).1 ++ acts) ≡ holds k kept)
after_adds k kept acts h = ground (
  arith,
  h,
  add_sources_lem k kept,
  opens-append k (add_sources kept).1 acts,
  closes-append k (add_sources kept).1 acts,
)

-- From the mux on, the probes that were kept are destroyed, and nothing is opened.
run_sources_lem :
    (k : ℕ) (rules : List Rule) (s : Session) (kept : List (ℕ × SourceProbe))
    (polls : List SessionPoll)
    → (opens k (run_sources rules s kept polls).1.1 ≡ 0)
      × (closes k (run_sources rules s kept polls).1.1 ≡ holds k kept)
unfolding run_sources
run_sources_lem k rules s kept polls = elim (Bool-cases s.has_mux) [
  | inl m ↦ elim (Bool-cases ((add_sources kept).0 == 0)) [
    | inl z ↦ rw (m, z) (after_adds k kept (freed_mux ∷ cleanup kept) (cleanup_lem k kept))
    | inr z ↦
        rw (m, z)
          (after_adds k kept (run_loop rules s.start kept polls).1.1
            (run_loop_lem k rules s.start kept polls))
  ]
  | inr m ↦ rw m (cleanup_lem k kept)
]

-- On every path of `diag_run` a probe is destroyed exactly as often as it was opened, which is once
-- at most: with rules that cannot be loaded, without memory, with a probe that is refused at any
-- step, with no source, after an error of a poll, and after a stop.
pub diag_run-destroys :
    (s : Session) (polls : List SessionPoll) (k : ℕ)
    → (closes k (diag_run s polls).1.1 ≡ opens k (diag_run s polls).1.1)
      × (opens k (diag_run s polls).1.1 ≤ 1)
unfolding diag_run
diag_run-destroys s polls k = elim (Option-cases s.rules) [
  | inl e ↦ rw e (ground arith)
  | inr (rules, e) ↦ rw e (
      ground (
        arith,
        bring_up_from_lem s.filt k 0 s.probes,
        run_sources_lem k rules s (bring_up_from s.filt 0 s.probes).0 polls,
        opens-append k (bring_up_from s.filt 0 s.probes).1
            (run_sources rules s (bring_up_from s.filt 0 s.probes).0 polls).1.1,
        closes-append k (bring_up_from s.filt 0 s.probes).1
            (run_sources rules s (bring_up_from s.filt 0 s.probes).0 polls).1.1,
      ))
]
