-- ===== src/Diag/Engine/Deadline.antt =====
-- The periodic tick: deadline rules report once for each bring-up of a device, idle devices leave
-- the table, and the engine stays well-formed.
use usbtrace.Common.{
  ℕ, suc, ◌≡◌, sym, subst, ◌∙◌, List, [], ◌∷◌, arith, true, false, Bool-cases, inl, inr,
}
use usbtrace.Diag.Rule.{Rule}
use usbtrace.Diag.Window.{DevWin}
use usbtrace.Diag.Window.Recent.{IsValid}
use usbtrace.Diag.Window.Fades.{Fade, Fades, Fade-refl, length-Fades, Distinct-Fades, AllValid}
use usbtrace.Diag.Engine.{Engine, Tally, tick_rule, tick_rules, evict, tick_dev, tick_devs, tick}
use usbtrace.Diag.Engine.WellFormed.{
  IsWellFormed, SameRing, SameRing-refl, SameRing-trans, SameRing-IsValid, SameRing-Fade,
  Fade-trans,
}

pub tick_rule-SameRing :
    (now ri : ℕ) (r : Rule) (w : DevWin) (t : Tally) → SameRing w (tick_rule now ri r w t).0
unfolding tick_rule
tick_rule-SameRing now ri r w t = ground arith

pub tick_rules-SameRing :
    (now ri : ℕ) (rs : List Rule) (w : DevWin) (t : Tally) → SameRing w (tick_rules now ri rs w t).0
unfolding tick_rules
tick_rules-SameRing now ri [] w t = SameRing-refl w
tick_rules-SameRing now ri (r ∷ rs) w t =
    let (w', t') = tick_rule now ri r w t in
    SameRing-trans (tick_rule-SameRing now ri r w t) (tick_rules-SameRing now (suc ri) rs w' t')

evict-Fade : (now : ℕ) (w : DevWin) → Fade w (evict now w)
unfolding evict
evict-Fade now w = ground arith

evict-IsValid : (now : ℕ) (w : DevWin) → IsValid w → IsValid (evict now w)
unfolding evict
evict-IsValid now w v = ground arith

pub tick_dev_used :
    (now : ℕ) (rules : List Rule) (w : DevWin) (t : Tally)
    → w.used ≡ true
    → tick_dev now rules w t
      ≡ (evict now (tick_rules now 0 rules w t).0, (tick_rules now 0 rules w t).1)
unfolding tick_dev
tick_dev_used now rules w t u = ground arith

pub tick_dev_unused :
    (now : ℕ) (rules : List Rule) (w : DevWin) (t : Tally)
    → w.used ≡ false
    → tick_dev now rules w t ≡ (w, t)
unfolding tick_dev
tick_dev_unused now rules w t u = ground arith

-- One device: it keeps its key, and its ring stays within its bounds.
tick_dev-Fade :
    (now : ℕ) (rules : List Rule) (w : DevWin) (t : Tally) → Fade w (tick_dev now rules w t).0
tick_dev-Fade now rules w t = elim (Bool-cases w.used) [
  | inl u ↦
      subst (λ x. Fade w x.0) (sym (tick_dev_used now rules w t u))
        (Fade-trans (SameRing-Fade (tick_rules-SameRing now 0 rules w t))
          (evict-Fade now (tick_rules now 0 rules w t).0))
  | inr u ↦ subst (λ x. Fade w x.0) (sym (tick_dev_unused now rules w t u)) (Fade-refl w)
]

tick_dev-IsValid :
    (now : ℕ) (rules : List Rule) (w : DevWin) (t : Tally)
    → IsValid w
    → IsValid (tick_dev now rules w t).0
tick_dev-IsValid now rules w t v = elim (Bool-cases w.used) [
  | inl u ↦
      subst (λ x. IsValid x.0) (sym (tick_dev_used now rules w t u))
        (evict-IsValid now (tick_rules now 0 rules w t).0
          (SameRing-IsValid (tick_rules-SameRing now 0 rules w t) v))
  | inr u ↦ subst (λ x. IsValid x.0) (sym (tick_dev_unused now rules w t u)) v
]

tick_devs_lem :
    (now : ℕ) (rules : List Rule) (ws : List DevWin) (t : Tally)
    → AllValid ws
    → Fades ws (tick_devs now rules ws t).0 × AllValid (tick_devs now rules ws t).0
unfolding tick_devs
tick_devs_lem now rules [] t v = (tt, tt)
tick_devs_lem now rules (w ∷ ws) t v =
    let (f, a) = tick_devs_lem now rules ws (tick_dev now rules w t).1 v.1 in
    ((tick_dev-Fade now rules w t, f), (tick_dev-IsValid now rules w t v.0, a))

-- Every tick keeps the engine well-formed.
pub tick-IsWellFormed : (e : Engine) (now : ℕ) → IsWellFormed e → IsWellFormed (tick e now)
unfolding tick
tick-IsWellFormed e now h =
    let (f, a) = tick_devs_lem now e.rules e.devs e.tally h.valid in
    record {
      sized = length-Fades e.devs (tick_devs now e.rules e.devs e.tally).0 f ∙ h.sized;
      distinct = Distinct-Fades e.devs (tick_devs now e.rules e.devs e.tally).0 f h.distinct;
      valid = a;
    }
