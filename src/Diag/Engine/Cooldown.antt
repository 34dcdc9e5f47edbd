-- ===== src/Diag/Engine/Cooldown.antt =====
-- The cooldown in diag_engine_ingest: how far the findings of a rule on the events of one device lie
-- apart, over the life of the device's window.
pub mod Turns
use usbtrace.Common.{
  ℕ, suc, ◌+◌, ◌^◌, ◌≤◌, ◌<◌, ◌≡◌, ◌≢◌, refl, sym, ◌∙◌, ap, subst, List, [], ◌∷◌, arith, true,
  false, if◌then◌else◌, ◌==◌, inl, inr, ◌⊎◌, Bool-cases,
}
use native.Mathlib.Nat.{le_trans}
use usbtrace.Diag.Event.{DiagEvent}
use usbtrace.Diag.Rule.{Rule}
use usbtrace.Diag.Window.{DevWin, win_push, cooldown_ns}
use usbtrace.Diag.Eval.{cooldown_ok}
use usbtrace.Diag.Eval.Cooldown.{Spaced, cooldown_cases, cooldown_ok_ne}
use usbtrace.Diag.Engine.{
  Tally, WhenScan, emit, event_finding, fire_event, ingest_rule, ingest_rules, observe, track_state,
  tick_rule, tick_rules, evict, tick_dev,
}
use usbtrace.Diag.Engine.WellFormed.{ingest_rule_cases}
use usbtrace.Diag.Engine.Counts.{hits, hits-append}
use usbtrace.Diag.Engine.Cooldown.Turns.{
  IsQuiet, IsFired, IsQuiet-trans, IsFired-after, ingest_rules_turn,
}

-- What comes to a device's window: an event of the device, with the clock readings of the rules, or
-- a tick; and the tally as the other devices have left it by then.
pub data Turn : Type 0 where
  arrives : (ℕ → ℕ) → DiagEvent → Tally → Turn
  elapses : ℕ → Tally → Turn

-- What `ingest_at` and `tick_devs` do with the window and the tally.
unfoldable pub window_turn : List Rule → DevWin → Turn → DevWin × Tally
window_turn rules w (arrives clock evt t) = ingest_rules clock evt 0 rules (observe w evt) t
window_turn rules w (elapses now t) = tick_dev now rules w t

-- The clock readings of rule `ri` at the events of the device on which a finding of it is printed.
unfoldable pub fired_at : ℕ → List Rule → DevWin → List Turn → List ℕ
fired_at ri rules w [] = []
fired_at ri rules w (arrives clock evt t ∷ cs) =
    let s' = window_turn rules w (arrives clock evt t) in
    let rest = fired_at ri rules s'.0 cs in
    if hits ri s'.1.output == hits ri t.output then rest else clock ri ∷ rest
fired_at ri rules w (elapses now t ∷ cs) =
    fired_at ri rules (window_turn rules w (elapses now t)).0 cs

-- The clock readings of rule `ri` from `t` on do not go back, and none is 0.
abbrev pub Rising : ℕ → ℕ → List Turn → Type 0
Rising ri last [] = Unit {0}
Rising ri last (arrives clock evt t ∷ cs) =
    (last ≤ clock ri) × (0 < clock ri) × (clock ri < 2 ^ 64) × Rising ri (clock ri) cs
Rising ri last (elapses now t ∷ cs) = Rising ri last cs

Rising-weaken : (ri : ℕ) (cs : List Turn) {t u : ℕ} → t ≤ u → Rising ri u cs → Rising ri t cs
Rising-weaken ri [] h r = tt
Rising-weaken ri (arrives clock evt t ∷ cs) h r = (le_trans h r.0, r.1, r.2, r.3)
Rising-weaken ri (elapses now t ∷ cs) h r = Rising-weaken ri cs h r

observe_time :
    (w : DevWin) (e : DiagEvent) (ri : ℕ) → (observe w e).last_fire_ns ri ≡ w.last_fire_ns ri
unfolding observe track_state win_push
observe_time w e ri = ground arith

tick_rule_time :
    (now rj : ℕ) (r : Rule) (w : DevWin) (t : Tally)
    → (tick_rule now rj r w t).0.last_fire_ns ≡ w.last_fire_ns
unfolding tick_rule
tick_rule_time now rj r w t = ground arith

tick_rules_time :
    (now rj : ℕ) (rs : List Rule) (w : DevWin) (t : Tally)
    → (tick_rules now rj rs w t).0.last_fire_ns ≡ w.last_fire_ns
unfolding tick_rules
tick_rules_time now rj [] w t = refl
tick_rules_time now rj (r ∷ rs) w t =
    let (w', t') = tick_rule now rj r w t in
    tick_rules_time now (suc rj) rs w' t' ∙ tick_rule_time now rj r w t

timer_time :
    (rules : List Rule) (ri now : ℕ) (w : DevWin) (t : Tally)
    → (window_turn rules w (elapses now t)).0.last_fire_ns ri ≡ w.last_fire_ns ri
unfolding window_turn tick_dev evict
timer_time rules ri now w t =
    let same = ap (λ f. f ri) (tick_rules_time now 0 rules w t) in ground (arith, same)

event_turn :
    (rules : List Rule) (ri : ℕ) (clock : ℕ → ℕ) (evt : DiagEvent) (w : DevWin) (t : Tally)
    → w.last_fire_ns ri ≤ clock ri
    → clock ri < 2 ^ 64
    → IsFired ri (clock ri) (w, t) (window_turn rules w (arrives clock evt t))
      ⊎ IsQuiet ri (w, t) (window_turn rules w (arrives clock evt t))
unfolding window_turn
event_turn rules ri clock evt w t h k =
    let q : IsQuiet ri (w, t) (observe w evt, t) = record {
      same_hits = refl;
      same_time = observe_time w evt ri;
    } in
    elim (ingest_rules_turn clock evt 0 ri rules (observe w evt) t
      (subst (λ x. x ≤ clock ri) (sym q.same_time) h) k) [
        | inl f ↦ inl (IsFired-after ri (clock ri) q f)
        | inr q' ↦ inr (IsQuiet-trans ri q q')
      ]

-- As long as a device keeps its window, which an eviction or another device's taking the slot ends,
-- the findings that one rule prints on events of the device lie at least two seconds apart, and the
-- first of them as far after the firing that the window holds, if it holds one. So it is whatever
-- other rules fire in between, whatever ticks come and whatever the other devices print. The times
-- are the clock readings of the rule, of which none is 0 and none goes back.
pub fired_at-Spaced :
    (rules : List Rule) (ri : ℕ) (w : DevWin) (cs : List Turn)
    → Rising ri (w.last_fire_ns ri) cs
    → Spaced (w.last_fire_ns ri) (fired_at ri rules w cs)
unfolding fired_at
fired_at-Spaced rules ri w [] h = tt
fired_at-Spaced rules ri w (arrives clock evt t ∷ cs) h =
    let s' = window_turn rules w (arrives clock evt t) in
    elim (event_turn rules ri clock evt w t h.0 h.2) [
      | inl f ↦
          let next =
            fired_at-Spaced rules ri s'.0 cs (subst (λ x. Rising ri x cs) (sym f.time_kept) h.3) in
          let more : (hits ri s'.1.output == hits ri t.output) ≡ false =
            ground (arith, f.one_hit) in
          rw more (f.gap, subst (λ x. Spaced x (fired_at ri rules s'.0 cs)) f.time_kept next)
      | inr q ↦
          let next =
            fired_at-Spaced rules ri s'.0 cs
              (subst (λ x. Rising ri x cs) (sym q.same_time) (Rising-weaken ri cs h.0 h.3)) in
          let none_more : (hits ri s'.1.output == hits ri t.output) ≡ true =
            ground (arith, q.same_hits) in
          rw none_more (subst (λ x. Spaced x (fired_at ri rules s'.0 cs)) q.same_time next)
    ]
fired_at-Spaced rules ri w (elapses now t ∷ cs) h =
    let s' = window_turn rules w (elapses now t) in
    let same = timer_time rules ri now w t in
    subst (λ x. Spaced x (fired_at ri rules s'.0 cs)) same
      (fired_at-Spaced rules ri s'.0 cs (subst (λ x. Rising ri x cs) (sym same) h))
