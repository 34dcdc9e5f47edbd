-- ===== src/Diag/Engine/Counts.antt =====
-- The summary counters count the findings that were printed.
use usbtrace.Common.{
  ℕ, suc, ◌+◌, ◌≡◌, sym, subst, List, [], ◌∷◌, ◌++◌, arith, true, none, length, length-append, inl,
  inr, Bool-cases, ◌⊎◌, Option-cases, if◌then◌else◌, ◌==◌, get_elem?,
}
use usbtrace.Common.Word.{u64}
use usbtrace.Diag.Event.{DiagEvent, event_key}
use usbtrace.Diag.Rule.{Rule}
use usbtrace.Diag.Window.{DevWin, win_get}
use usbtrace.Diag.Eval.{cooldown_ok}
use usbtrace.Diag.Engine.{
  Engine, Finding, Tally, WhenScan, emit, fire_event, ingest_rule, ingest_rules, ingest_at, ingest,
  observe, tick_rule, tick_rules, tick_dev, tick_devs, tick, deadline_finding,
}
use usbtrace.Diag.Engine.WellFormed.{ingest_rule_cases, ingest_at_lem, ingest_lem}
use usbtrace.Diag.Engine.Deadline.{tick_dev_used, tick_dev_unused}

-- How many of the findings are those of rule `ri`.
unfoldable pub hits : ℕ → List Finding → ℕ
hits ri [] = 0
hits ri (f ∷ fs) = if f.rule == ri then suc (hits ri fs) else hits ri fs

pub hits-append : (ri : ℕ) (fs gs : List Finding) → hits ri (fs ++ gs) ≡ hits ri fs + hits ri gs
unfolding hits
hits-append ri [] gs = omega arith
hits-append ri (f ∷ fs) gs = ground (arith, hits-append ri fs gs)

-- The counters agree with the findings, as far as an `unsigned long` counts.
pub record IsCounted (t : Tally) : Type 0 where
  pub total : t.total_fired ≡ u64 (length t.output)
  pub each : (ri : ℕ) → t.fire_count ri ≡ u64 (hits ri t.output)

emit_each :
    (f : Finding) (t : Tally) (ri : ℕ)
    → t.fire_count ri ≡ u64 (hits ri t.output)
    → (emit f t).fire_count ri ≡ u64 (hits ri (emit f t).output)
unfolding emit hits
emit_each f t ri h = ground (arith, hits-append ri t.output (f ∷ []))

pub emit-IsCounted : (f : Finding) (t : Tally) → IsCounted t → IsCounted (emit f t)
unfolding emit
emit-IsCounted f t h = record {
  total = omega (arith, h.total, length-append {0} t.output (f ∷ []));
  each = λ ri. emit_each f t ri (h.each ri);
}

fire_event-IsCounted :
    (now : ℕ) (e : DiagEvent) (ri : ℕ) (s : WhenScan) (w : DevWin) (t : Tally)
    → IsCounted t
    → IsCounted (fire_event now e ri s w t).1
unfolding fire_event
fire_event-IsCounted now e ri s w t h = elim (Bool-cases (cooldown_ok w ri now).1) [
  | inl ok ↦ rw ok (emit-IsCounted _ t h)
  | inr no_fire ↦ rw no_fire h
]

ingest_rule-IsCounted :
    (now : ℕ) (e : DiagEvent) (ri : ℕ) (r : Rule) (w : DevWin) (t : Tally)
    → IsCounted t
    → IsCounted (ingest_rule now e ri r w t).1
ingest_rule-IsCounted now e ri r w t h = elim (ingest_rule_cases now e ri r w t) [
  | inl q ↦ subst (λ x. IsCounted x.1) (sym q) h
  | inr (s, _, _, _, q) ↦ subst (λ x. IsCounted x.1) (sym q) (fire_event-IsCounted now e ri s w t h)
]

ingest_rules-IsCounted :
    (clock : ℕ → ℕ) (e : DiagEvent) (ri : ℕ) (rs : List Rule) (w : DevWin) (t : Tally)
    → IsCounted t
    → IsCounted (ingest_rules clock e ri rs w t).1
unfolding ingest_rules
ingest_rules-IsCounted clock e ri [] w t h = h
ingest_rules-IsCounted clock e ri (r ∷ rs) w t h =
    let (w', t') = ingest_rule (clock ri) e ri r w t in
    ingest_rules-IsCounted clock e (suc ri) rs w' t' (ingest_rule-IsCounted (clock ri) e ri r w t h)

ingest_at-IsCounted :
    (clock : ℕ → ℕ) (e : Engine) (evt : DiagEvent) (i : ℕ)
    → IsCounted e.tally
    → IsCounted (ingest_at clock e evt i).tally
unfolding ingest_at
ingest_at-IsCounted clock e evt i h = elim (Option-cases (get_elem? e.devs i)) [
  | inl q ↦ subst IsCounted (sym (ground arith)) h
  | inr (w, q) ↦
      rw (ingest_at_lem clock e evt i w q)
        (ingest_rules-IsCounted clock evt 0 e.rules (observe w evt) e.tally h)
]

ingest-none :
    (clock : ℕ → ℕ) (e : Engine) (evt : DiagEvent)
    → (win_get e.devs (event_key evt) true).0 ≡ none
    → ingest clock e evt ≡ e
unfolding ingest
ingest-none clock e evt h = ground arith

pub ingest-IsCounted :
    (clock : ℕ → ℕ) (e : Engine) (evt : DiagEvent)
    → IsCounted e.tally
    → IsCounted (ingest clock e evt).tally
ingest-IsCounted clock e evt h = elim (Option-cases (win_get e.devs (event_key evt) true).0) [
  | inl q ↦ subst (λ x. IsCounted x.tally) (sym (ingest-none clock e evt q)) h
  | inr (i, q) ↦
      subst (λ x. IsCounted x.tally) (sym (ingest_lem clock e evt i q))
        (ingest_at-IsCounted clock (record e { devs = (win_get e.devs (event_key evt) true).1 }) evt
          i h)
]

tick_rule_cases :
    (now ri : ℕ) (r : Rule) (w : DevWin) (t : Tally)
    → ((tick_rule now ri r w t).1 ≡ t)
      ⊎ ((tick_rule now ri r w t).1 ≡ emit (deadline_finding now ri r w) t)
unfolding tick_rule
tick_rule_cases now ri r w t = ground arith

tick_rule-IsCounted :
    (now ri : ℕ) (r : Rule) (w : DevWin) (t : Tally)
    → IsCounted t
    → IsCounted (tick_rule now ri r w t).1
tick_rule-IsCounted now ri r w t h = elim (tick_rule_cases now ri r w t) [
  | inl q ↦ subst IsCounted (sym q) h
  | inr q ↦ subst IsCounted (sym q) (emit-IsCounted (deadline_finding now ri r w) t h)
]

tick_rules-IsCounted :
    (now ri : ℕ) (rs : List Rule) (w : DevWin) (t : Tally)
    → IsCounted t
    → IsCounted (tick_rules now ri rs w t).1
unfolding tick_rules
tick_rules-IsCounted now ri [] w t h = h
tick_rules-IsCounted now ri (r ∷ rs) w t h =
    let (w', t') = tick_rule now ri r w t in
    tick_rules-IsCounted now (suc ri) rs w' t' (tick_rule-IsCounted now ri r w t h)

tick_dev-IsCounted :
    (now : ℕ) (rules : List Rule) (w : DevWin) (t : Tally)
    → IsCounted t
    → IsCounted (tick_dev now rules w t).1
tick_dev-IsCounted now rules w t h = elim (Bool-cases w.used) [
  | inl u ↦
      subst (λ x. IsCounted x.1) (sym (tick_dev_used now rules w t u))
        (tick_rules-IsCounted now 0 rules w t h)
  | inr u ↦ subst (λ x. IsCounted x.1) (sym (tick_dev_unused now rules w t u)) h
]

tick_devs-IsCounted :
    (now : ℕ) (rules : List Rule) (ws : List DevWin) (t : Tally)
    → IsCounted t
    → IsCounted (tick_devs now rules ws t).1
unfolding tick_devs
tick_devs-IsCounted now rules [] t h = h
tick_devs-IsCounted now rules (w ∷ ws) t h =
    tick_devs-IsCounted now rules ws (tick_dev now rules w t).1 (tick_dev-IsCounted now rules w t h)

pub tick-IsCounted : (e : Engine) (now : ℕ) → IsCounted e.tally → IsCounted (tick e now).tally
unfolding tick
tick-IsCounted e now h = tick_devs-IsCounted now e.rules e.devs e.tally h
