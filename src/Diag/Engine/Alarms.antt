-- ===== src/Diag/Engine/Alarms.antt =====
-- A deadline rule that is due is reported by the next tick.
use mathlib.Core.List.{Mem, mem-cons_self, mem-append_left, mem-append_right}
use usbtrace.Common.{
  ℕ, zero, suc, ◌+◌, ◌≡◌, ◌≢◌, ◌⊎◌, inl, inr, refl, sym, subst, arith, true, false, List, [], ◌∷◌,
  some, get_elem?, update, Bool-cases,
}
use usbtrace.Diag.Rule.{Rule}
use usbtrace.Diag.Window.{DevWin}
use usbtrace.Diag.Engine.{
  Engine, Finding, Tally, emit, is_event, is_due, deadline_finding, tick_rule, tick_rules, tick_dev,
  tick_devs, tick,
}
use usbtrace.Diag.Engine.Deadline.{tick_dev_used, tick_dev_unused}

-- The rule number `ri` of a device is due and has not been reported since the device came up.
pub record IsPending (now ri : ℕ) (r : Rule) (w : DevWin) : Type 0 where
  pub deadline : is_event r.type ≡ false
  pub due : is_due now r w ≡ true
  pub unreported : w.dl_fired ri ≡ false

-- What a step of the tick may do to the device and to the output.
tick_rule_cases :
    (now ri : ℕ) (r : Rule) (w : DevWin) (t : Tally)
    → (tick_rule now ri r w t ≡ (w, t))
      ⊎ (tick_rule now ri r w t ≡ (
        record w { dl_fired = update w.dl_fired ri true },
        emit (deadline_finding now ri r w) t,
      ))
unfolding tick_rule
tick_rule_cases now ri r w t = ground arith

emit_keeps : (f g : Finding) (t : Tally) → Mem f t.output → Mem f (emit g t).output
unfolding emit
emit_keeps f g t m = mem-append_left (g ∷ []) m

tick_rule_keeps :
    (now ri : ℕ) (r : Rule) (w : DevWin) (t : Tally) (f : Finding)
    → Mem f t.output
    → Mem f (tick_rule now ri r w t).1.output
tick_rule_keeps now ri r w t f m = elim (tick_rule_cases now ri r w t) [
  | inl e ↦ subst (λ x. Mem f x.1.output) (sym e) m
  | inr e ↦ subst (λ x. Mem f x.1.output) (sym e) (emit_keeps f (deadline_finding now ri r w) t m)
]

tick_rules_keeps :
    (now ri : ℕ) (rs : List Rule) (w : DevWin) (t : Tally) (f : Finding)
    → Mem f t.output
    → Mem f (tick_rules now ri rs w t).1.output
unfolding tick_rules
tick_rules_keeps now ri [] w t f m = m
tick_rules_keeps now ri (r ∷ rs) w t f m =
    let (w', t') = tick_rule now ri r w t in
    tick_rules_keeps now (suc ri) rs w' t' f (tick_rule_keeps now ri r w t f m)

tick_dev_keeps :
    (now : ℕ) (rules : List Rule) (w : DevWin) (t : Tally) (f : Finding)
    → Mem f t.output
    → Mem f (tick_dev now rules w t).1.output
tick_dev_keeps now rules w t f m = elim (Bool-cases w.used) [
  | inl u ↦
      subst (λ x. Mem f x.1.output) (sym (tick_dev_used now rules w t u))
        (tick_rules_keeps now 0 rules w t f m)
  | inr u ↦ subst (λ x. Mem f x.1.output) (sym (tick_dev_unused now rules w t u)) m
]

tick_devs_keeps :
    (now : ℕ) (rules : List Rule) (ws : List DevWin) (t : Tally) (f : Finding)
    → Mem f t.output
    → Mem f (tick_devs now rules ws t).1.output
unfolding tick_devs
tick_devs_keeps now rules [] t f m = m
tick_devs_keeps now rules (w ∷ ws) t f m =
    tick_devs_keeps now rules ws (tick_dev now rules w t).1 f (tick_dev_keeps now rules w t f m)

-- The step of another rule leaves a pending rule pending, and its finding the same.
tick_rule-IsPending :
    (now ri k : ℕ) (r r' : Rule) (w : DevWin) (t : Tally)
    → ri ≢ k
    → IsPending now k r' w
    → IsPending now k r' (tick_rule now ri r w t).0
      × (deadline_finding now k r' (tick_rule now ri r w t).0 ≡ deadline_finding now k r' w)
unfolding is_due
tick_rule-IsPending now ri k r r' w t n h = elim (tick_rule_cases now ri r w t) [
  | inl e ↦
      subst
        (λ x.
          IsPending now k r' x.0 × (deadline_finding now k r' x.0 ≡ deadline_finding now k r' w))
        (sym e) (h, refl)
  | inr e ↦
      subst
        (λ x.
          IsPending now k r' x.0 × (deadline_finding now k r' x.0 ≡ deadline_finding now k r' w))
        (sym e)
        (
          record {
            deadline = h.deadline;
            due = h.due;
            unreported = ground (arith, n, h.unreported);
          },
          refl,
        )
]

tick_rule_reports :
    (now ri : ℕ) (r : Rule) (w : DevWin) (t : Tally)
    → IsPending now ri r w
    → Mem (deadline_finding now ri r w) (tick_rule now ri r w t).1.output
unfolding tick_rule emit
tick_rule_reports now ri r w t h =
    rw (h.deadline, h.due, h.unreported) (mem-append_right t.output mem-cons_self)

first_reports :
    (now ri k : ℕ) (x r : Rule) (rs : List Rule) (w : DevWin) (t : Tally)
    → k ≡ ri
    → x ≡ r
    → IsPending now k r w
    → Mem
        (deadline_finding now k r w)
        (tick_rules now (suc ri) rs (tick_rule now ri x w t).0 (tick_rule now ri x w t).1).1.output
first_reports now ri k x r rs w t e f h =
    tick_rules_keeps now (suc ri) rs (tick_rule now ri x w t).0 (tick_rule now ri x w t).1
      (deadline_finding now k r w)
      (subst (λ j. Mem (deadline_finding now k r w) (tick_rule now j x w t).1.output) e
        (subst (λ y. Mem (deadline_finding now k r w) (tick_rule now k y w t).1.output) (sym f)
          (tick_rule_reports now k r w t h)))

tick_rules_reports :
    (now ri j k : ℕ) (rs : List Rule) (r : Rule) (w : DevWin) (t : Tally)
    → k ≡ ri + j
    → get_elem? rs j ≡ some r
    → IsPending now k r w
    → Mem (deadline_finding now k r w) (tick_rules now ri rs w t).1.output
unfolding tick_rules
tick_rules_reports now ri j k [] r w t e g h = absurd (ground (arith, g))
tick_rules_reports now ri zero k (x ∷ rs) r w t e g h =
    first_reports now ri k x r rs w t (omega (arith, e)) (ground (arith, g)) h
tick_rules_reports now ri (suc j) k (x ∷ rs) r w t e g h =
    let (pending, same) = tick_rule-IsPending now ri k x r w t (omega (arith, e)) h in
    let (w', t') = tick_rule now ri x w t in
    subst (λ f. Mem f (tick_rules now (suc ri) rs w' t').1.output) same
      (tick_rules_reports now (suc ri) j k rs r w' t' (omega (arith, e)) g pending)

tick_dev_reports :
    (now k : ℕ) (rules : List Rule) (r : Rule) (w : DevWin) (t : Tally)
    → w.used ≡ true
    → get_elem? rules k ≡ some r
    → IsPending now k r w
    → Mem (deadline_finding now k r w) (tick_dev now rules w t).1.output
tick_dev_reports now k rules r w t u g h =
    subst (λ x. Mem (deadline_finding now k r w) x.1.output) (sym (tick_dev_used now rules w t u))
      (tick_rules_reports now 0 k k rules r w t (omega arith) g h)

tick_devs_reports :
    (now i k : ℕ) (rules : List Rule) (ws : List DevWin) (r : Rule) (w : DevWin) (t : Tally)
    → get_elem? ws i ≡ some w
    → w.used ≡ true
    → get_elem? rules k ≡ some r
    → IsPending now k r w
    → Mem (deadline_finding now k r w) (tick_devs now rules ws t).1.output
unfolding tick_devs
tick_devs_reports now i k rules [] r w t d u g h = absurd (ground (arith, d))
tick_devs_reports now zero k rules (v ∷ ws) r w t d u g h =
    tick_devs_keeps now rules ws (tick_dev now rules v t).1 (deadline_finding now k r w) (
      subst (λ x. Mem (deadline_finding now k r w) (tick_dev now rules x t).1.output)
        (sym (ground (arith, d))) (tick_dev_reports now k rules r w t u g h))
tick_devs_reports now (suc i) k rules (v ∷ ws) r w t d u g h =
    tick_devs_reports now i k rules ws r w (tick_dev now rules v t).1 d u g h

-- No alarm is lost: if a device of the table has been in the state of a deadline rule for the
-- rule's time without having gone on, and the rule has not been reported since the device came up,
-- then the next tick prints the finding of this rule for this device, whatever the other rules and
-- devices do in the same tick.
pub tick_reports :
    (e : Engine) (now i k : ℕ) (w : DevWin) (r : Rule)
    → get_elem? e.devs i ≡ some w
    → w.used ≡ true
    → get_elem? e.rules k ≡ some r
    → IsPending now k r w
    → Mem (deadline_finding now k r w) (tick e now).tally.output
unfolding tick
tick_reports e now i k w r d u g h = tick_devs_reports now i k e.rules e.devs r w e.tally d u g h
