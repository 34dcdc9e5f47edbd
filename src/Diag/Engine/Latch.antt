-- ===== src/Diag/Engine/Latch.antt =====
-- A deadline rule reports once: a second tick at the same time changes nothing, and a latched rule
-- stays silent.
use usbtrace.Common.{
  ℕ, suc, ◌≡◌, refl, ap, sym, ◌∙◌, List, [], ◌∷◌, arith, true, false, Bool-cases, inl, inr, ◌⊎◌,
  ltb,
}
use usbtrace.Common.Word.{sub_u64}
use usbtrace.Diag.Rule.{Rule}
use usbtrace.Diag.Window.{DevWin, retention_ns}
use usbtrace.Diag.Engine.{
  Engine, Tally, is_event, is_due, tick_rule, tick_rules, evict, tick_dev, tick_devs, tick,
}
use usbtrace.Diag.Engine.WellFormed.{SameRing}
use usbtrace.Diag.Engine.Deadline.{
  tick_rule-SameRing, tick_rules-SameRing, tick_dev_used, tick_dev_unused,
}

-- A rule that has fired, is not due or is no deadline rule has nothing to report.
abbrev pub Settled : ℕ → ℕ → Rule → DevWin → Type 0
Settled now ri r w = (is_event r.type ≡ true) ⊎ ((is_due now r w ≡ false) ⊎ (w.dl_fired ri ≡ true))

tick_rule-Settled :
    (now ri : ℕ) (r : Rule) (w : DevWin) (t : Tally)
    → Settled now ri r w
    → tick_rule now ri r w t ≡ (w, t)
unfolding tick_rule
tick_rule-Settled now ri r w t h = ground arith

-- Whether a rule is due depends on the states alone.
is_due-SameRing :
    (now : ℕ) (r : Rule) {w w' : DevWin} → SameRing w w' → is_due now r w' ≡ is_due now r w
unfolding is_due
is_due-SameRing now r s = rw (s.states_same, s.times_same)

-- The latches only close.
tick_rule_latches :
    (now ri rj : ℕ) (r : Rule) (w : DevWin) (t : Tally)
    → w.dl_fired rj ≡ true
    → (tick_rule now ri r w t).0.dl_fired rj ≡ true
unfolding tick_rule
tick_rule_latches now ri rj r w t h = ground arith

-- After its turn a rule is settled.
tick_rule_settles :
    (now ri : ℕ) (r : Rule) (w : DevWin) (t : Tally)
    → (is_event r.type ≡ true)
      ⊎ ((is_due now r w ≡ false) ⊎ ((tick_rule now ri r w t).0.dl_fired ri ≡ true))
unfolding tick_rule
tick_rule_settles now ri r w t = ground arith

Settled-later :
    (now ri rj : ℕ) (r q : Rule) (w : DevWin) (t : Tally)
    → Settled now rj q w
    → Settled now rj q (tick_rule now ri r w t).0
Settled-later now ri rj r q w t (inl h) = inl h
Settled-later now ri rj r q w t (inr (inl h)) =
    inr (inl (is_due-SameRing now q (tick_rule-SameRing now ri r w t) ∙ h))
Settled-later now ri rj r q w t (inr (inr h)) = inr (inr (tick_rule_latches now ri rj r w t h))

-- Each rule of the list, from index `ri` on, is settled.
abbrev pub AllSettled : ℕ → ℕ → List Rule → DevWin → Type 0
AllSettled now ri [] w = Unit {0}
AllSettled now ri (r ∷ rs) w = Settled now ri r w × AllSettled now (suc ri) rs w

Settled-after :
    (now ri rj : ℕ) (q : Rule) (rs : List Rule) (w : DevWin) (t : Tally)
    → Settled now rj q w
    → Settled now rj q (tick_rules now ri rs w t).0
unfolding tick_rules
Settled-after now ri rj q [] w t h = h
Settled-after now ri rj q (r ∷ rs) w t h =
    let (w', t') = tick_rule now ri r w t in
    Settled-after now (suc ri) rj q rs w' t' (Settled-later now ri rj r q w t h)

settles :
    (now ri : ℕ) (r : Rule) (w : DevWin) (t : Tally) → Settled now ri r (tick_rule now ri r w t).0
settles now ri r w t = elim (tick_rule_settles now ri r w t) [
  | inl h ↦ inl h
  | inr (inl h) ↦ inr (inl (is_due-SameRing now r (tick_rule-SameRing now ri r w t) ∙ h))
  | inr (inr h) ↦ inr (inr h)
]

tick_rules-AllSettled :
    (now ri : ℕ) (rs : List Rule) (w : DevWin) (t : Tally)
    → AllSettled now ri rs (tick_rules now ri rs w t).0
unfolding tick_rules
tick_rules-AllSettled now ri [] w t = tt
tick_rules-AllSettled now ri (r ∷ rs) w t =
    let (w', t') = tick_rule now ri r w t in
    (
      Settled-after now (suc ri) ri r rs w' t' (settles now ri r w t),
      tick_rules-AllSettled now (suc ri) rs w' t',
    )

tick_rules_settled :
    (now ri : ℕ) (rs : List Rule) (w : DevWin) (t : Tally)
    → AllSettled now ri rs w
    → tick_rules now ri rs w t ≡ (w, t)
unfolding tick_rules
tick_rules_settled now ri [] w t h = refl
tick_rules_settled now ri (r ∷ rs) w t h =
    ap (λ x. tick_rules now (suc ri) rs x.0 x.1) (tick_rule-Settled now ri r w t h.0)
    ∙ tick_rules_settled now (suc ri) rs w t h.1

evict_cases : (now : ℕ) (w : DevWin) → ((evict now w).used ≡ false) ⊎ (evict now w ≡ w)
unfolding evict
evict_cases now w = elim (Bool-cases (ltb retention_ns (sub_u64 now w.last_seen_ns))) [
  | inl e ↦ inl (rw e)
  | inr e ↦ inr (rw e)
]

-- A settled device, evicted or not, has nothing to do.
tick_dev_settled :
    (now : ℕ) (rules : List Rule) (w : DevWin) (u : Tally)
    → w.used ≡ true
    → AllSettled now 0 rules w
    → tick_dev now rules (evict now w) u ≡ (evict now w, u)
tick_dev_settled now rules w u e h = elim (evict_cases now w) [
  | inl gone ↦ tick_dev_unused now rules (evict now w) u gone
  | inr here ↦
      ap (λ x. tick_dev now rules x u) here
      ∙ tick_dev_used now rules w u e
      ∙ ap (λ x. (evict now x.0, x.1)) (tick_rules_settled now 0 rules w u h)
]

-- A second turn of a device at the same time, on any tally.
tick_dev_again :
    (now : ℕ) (rules : List Rule) (w : DevWin) (t u : Tally)
    → tick_dev now rules (tick_dev now rules w t).0 u ≡ ((tick_dev now rules w t).0, u)
tick_dev_again now rules w t u = elim (Bool-cases w.used) [
  | inr e ↦
      let q = tick_dev_unused now rules w t e in
      ap (λ x. tick_dev now rules x.0 u) q
      ∙ tick_dev_unused now rules w u e
      ∙ ap (λ x. (x.0, u)) (sym q)
  | inl e ↦
      let q = tick_dev_used now rules w t e in
      let w' = (tick_rules now 0 rules w t).0 in
      let still : w'.used ≡ true = (tick_rules-SameRing now 0 rules w t).used_same ∙ e in
      ap (λ x. tick_dev now rules x.0 u) q
      ∙ tick_dev_settled now rules w' u still (tick_rules-AllSettled now 0 rules w t)
      ∙ ap (λ x. (x.0, u)) (sym q)
]

tick_devs_again :
    (now : ℕ) (rules : List Rule) (ws : List DevWin) (t u : Tally)
    → tick_devs now rules (tick_devs now rules ws t).0 u ≡ ((tick_devs now rules ws t).0, u)
unfolding tick_devs
tick_devs_again now rules [] t u = refl
tick_devs_again now rules (w ∷ ws) t u =
    let (w', t') = tick_dev now rules w t in
    ap
      (λ x. (
        x.0 ∷ (tick_devs now rules (tick_devs now rules ws t').0 x.1).0,
        (tick_devs now rules (tick_devs now rules ws t').0 x.1).1,
      ))
      (tick_dev_again now rules w t u)
    ∙ ap (λ x. (w' ∷ x.0, x.1)) (tick_devs_again now rules ws t' u)

-- A second tick at the same time changes nothing: each alarm is reported once, and an evicted
-- device stays evicted.
pub tick_again : (e : Engine) (now : ℕ) → tick (tick e now) now ≡ tick e now
unfolding tick
tick_again e now =
    let (devs, t) = tick_devs now e.rules e.devs e.tally in
    ap (λ x. record e { devs = x.0; tally = x.1 }) (tick_devs_again now e.rules e.devs e.tally t)

-- A latched rule reports nothing, at any time.
pub tick_rule_latched :
    (now ri : ℕ) (r : Rule) (w : DevWin) (t : Tally)
    → w.dl_fired ri ≡ true
    → tick_rule now ri r w t ≡ (w, t)
tick_rule_latched now ri r w t h = tick_rule-Settled now ri r w t (inr (inr h))
