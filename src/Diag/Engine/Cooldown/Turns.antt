-- ===== src/Diag/Engine/Cooldown/Turns.antt =====
-- What the loop over the rules in diag_engine_ingest does to the findings and the last time of one
-- rule.
use usbtrace.Common.{
  ℕ, suc, ◌+◌, ◌^◌, ◌≤◌, ◌<◌, ◌≡◌, ◌≢◌, refl, sym, ◌∙◌, ap, subst, List, [], ◌∷◌, arith, ◌==◌, inl,
  inr, ◌⊎◌, Bool-cases,
}
use usbtrace.Diag.Event.{DiagEvent}
use usbtrace.Diag.Rule.{Rule}
use usbtrace.Diag.Window.{DevWin, cooldown_ns}
use usbtrace.Diag.Eval.{cooldown_ok}
use usbtrace.Diag.Eval.Cooldown.{cooldown_cases, cooldown_ok_ne}
use usbtrace.Diag.Engine.{
  Tally, WhenScan, emit, event_finding, fire_event, ingest_rule, ingest_rules,
}
use usbtrace.Diag.Engine.WellFormed.{ingest_rule_cases}
use usbtrace.Diag.Engine.Counts.{hits, hits-append}

-- No finding of rule `ri`, and its time stays.
pub record IsQuiet (ri : ℕ) (s s' : DevWin × Tally) : Type 0 where
  pub same_hits : hits ri s'.1.output ≡ hits ri s.1.output
  pub same_time : s'.0.last_fire_ns ri ≡ s.0.last_fire_ns ri

-- One finding of rule `ri`, at least the cooldown after the last, and its time is kept.
pub record IsFired (ri now : ℕ) (s s' : DevWin × Tally) : Type 0 where
  pub one_hit : hits ri s'.1.output ≡ suc (hits ri s.1.output)
  pub time_kept : s'.0.last_fire_ns ri ≡ now
  pub gap : s.0.last_fire_ns ri ≢ 0 → s.0.last_fire_ns ri + cooldown_ns ≤ now

pub IsQuiet-trans :
    (ri : ℕ) {s s' s'' : DevWin × Tally} → IsQuiet ri s s' → IsQuiet ri s' s'' → IsQuiet ri s s''
IsQuiet-trans ri p q = record {
  same_hits = q.same_hits ∙ p.same_hits;
  same_time = q.same_time ∙ p.same_time;
}

hits-emit_ne :
    (now rj ri : ℕ) (e : DiagEvent) (m : WhenScan) (w : DevWin) (t : Tally)
    → rj ≢ ri
    → hits ri (emit (event_finding rj w e m) t).output ≡ hits ri t.output
unfolding emit hits
hits-emit_ne now rj ri e m w t n =
    ground (arith, n, hits-append ri t.output (event_finding rj w e m ∷ []))

hits-emit :
    (ri : ℕ) (e : DiagEvent) (m : WhenScan) (w : DevWin) (t : Tally)
    → hits ri (emit (event_finding ri w e m) t).output ≡ suc (hits ri t.output)
unfolding emit hits
hits-emit ri e m w t = ground (arith, hits-append ri t.output (event_finding ri w e m ∷ []))

fire_event_ne :
    (now rj ri : ℕ) (e : DiagEvent) (m : WhenScan) (w : DevWin) (t : Tally)
    → rj ≢ ri
    → IsQuiet ri (w, t) (fire_event now e rj m w t)
unfolding fire_event
fire_event_ne now rj ri e m w t n = elim (Bool-cases (cooldown_ok w rj now).1) [
  | inl ok ↦ rw ok (record {
    same_hits = hits-emit_ne now rj ri e m w t n;
    same_time = cooldown_ok_ne w rj ri now n;
  })
  | inr no_fire ↦ rw no_fire (record { same_hits = refl; same_time = cooldown_ok_ne w rj ri now n })
]

-- A rule says nothing of another.
ingest_rule_ne :
    (now rj ri : ℕ) (e : DiagEvent) (r : Rule) (w : DevWin) (t : Tally)
    → rj ≢ ri
    → IsQuiet ri (w, t) (ingest_rule now e rj r w t)
ingest_rule_ne now rj ri e r w t n = elim (ingest_rule_cases now e rj r w t) [
  | inl q ↦ subst (λ x. IsQuiet ri (w, t) x) (sym q) (record { same_hits = refl; same_time = refl })
  | inr (m, _, _, _, q) ↦
      subst (λ x. IsQuiet ri (w, t) x) (sym q) (fire_event_ne now rj ri e m w t n)
]

-- A rule's own turn.
ingest_rule_turn :
    (now ri : ℕ) (e : DiagEvent) (r : Rule) (w : DevWin) (t : Tally)
    → w.last_fire_ns ri ≤ now
    → now < 2 ^ 64
    → IsFired ri now (w, t) (ingest_rule now e ri r w t)
      ⊎ IsQuiet ri (w, t) (ingest_rule now e ri r w t)
unfolding fire_event
ingest_rule_turn now ri e r w t h k = elim (ingest_rule_cases now e ri r w t) [
  | inl q ↦
      inr (subst (λ x. IsQuiet ri (w, t) x) (sym q) (record { same_hits = refl; same_time = refl }))
  | inr (m, _, _, _, q) ↦ elim (cooldown_cases w ri now h k) [
    | inl (ok, last, apart) ↦
        rw (q, fire_event, ok)
          (inl (record { one_hit = hits-emit ri e m w t; time_kept = last; gap = apart }))
    | inr (no_fire, last) ↦
        rw (q, fire_event, no_fire) (inr (record { same_hits = refl; same_time = last }))
  ]
]

-- The rules after it say nothing of a rule.
ingest_rules_later :
    (clock : ℕ → ℕ) (e : DiagEvent) (rj ri : ℕ) (rs : List Rule) (w : DevWin) (t : Tally)
    → ri < rj
    → IsQuiet ri (w, t) (ingest_rules clock e rj rs w t)
unfolding ingest_rules
ingest_rules_later clock e rj ri [] w t h = record { same_hits = refl; same_time = refl }
ingest_rules_later clock e rj ri (r ∷ rs) w t h =
    let (w', t') = ingest_rule (clock rj) e rj r w t in
    IsQuiet-trans ri (ingest_rule_ne (clock rj) rj ri e r w t (omega arith))
      (ingest_rules_later clock e (suc rj) ri rs w' t' (omega arith))

IsFired-later :
    (ri now : ℕ) {s s' s'' : DevWin × Tally}
    → IsFired ri now s s'
    → IsQuiet ri s' s''
    → IsFired ri now s s''
IsFired-later ri now f q = record {
  one_hit = q.same_hits ∙ f.one_hit;
  time_kept = q.same_time ∙ f.time_kept;
  gap = f.gap;
}

pub IsFired-after :
    (ri now : ℕ) {s s' s'' : DevWin × Tally}
    → IsQuiet ri s s'
    → IsFired ri now s' s''
    → IsFired ri now s s''
IsFired-after ri now q f = record {
  one_hit = f.one_hit ∙ ap suc q.same_hits;
  time_kept = f.time_kept;
  gap = subst (λ x. x ≢ 0 → x + cooldown_ns ≤ now) q.same_time f.gap;
}

-- The loop over the rules.
pub ingest_rules_turn :
    (clock : ℕ → ℕ) (e : DiagEvent) (rj ri : ℕ) (rs : List Rule) (w : DevWin) (t : Tally)
    → w.last_fire_ns ri ≤ clock ri
    → clock ri < 2 ^ 64
    → IsFired ri (clock ri) (w, t) (ingest_rules clock e rj rs w t)
      ⊎ IsQuiet ri (w, t) (ingest_rules clock e rj rs w t)
unfolding ingest_rules
ingest_rules_turn clock e rj ri [] w t h k = inr (record { same_hits = refl; same_time = refl })
ingest_rules_turn clock e rj ri (r ∷ rs) w t h k =
    let s = ingest_rule (clock rj) e rj r w t in
    elim (Bool-cases (rj == ri)) [
      | inl b ↦
          let same : rj ≡ ri = ground (arith, b) in
          let turn = ingest_rule_turn (clock ri) ri e r w t h k in
          let at =
            subst
              (λ x.
                IsFired ri (clock ri) (w, t) (ingest_rule (clock x) e x r w t)
                ⊎ IsQuiet ri (w, t) (ingest_rule (clock x) e x r w t))
              (sym same) turn in
          let later = ingest_rules_later clock e (suc rj) ri rs s.0 s.1 (omega arith) in
          elim at [
            | inl f ↦ inl (IsFired-later ri (clock ri) f later)
            | inr q ↦ inr (IsQuiet-trans ri q later)
          ]
      | inr b ↦
          let n : rj ≢ ri = ground (arith, b) in
          let q = ingest_rule_ne (clock rj) rj ri e r w t n in
          elim (ingest_rules_turn clock e (suc rj) ri rs s.0 s.1
            (subst (λ x. x ≤ clock ri) (sym q.same_time) h) k) [
              | inl f ↦ inl (IsFired-after ri (clock ri) q f)
              | inr q' ↦ inr (IsQuiet-trans ri q q')
            ]
    ]
