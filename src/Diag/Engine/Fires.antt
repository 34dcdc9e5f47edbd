-- ===== src/Diag/Engine/Fires.antt =====
-- When an event rule reports.
use usbtrace.Common.{
  is_some, ℕ, ◌+◌, ◌≡◌, refl, ap, sym, ◌∙◌, List, [], ◌∷◌, arith, Bool, true, false, length, ◌&&◌,
  if◌then◌else◌, Bool-cases, inl, inr, Option-cases, length-append,
}
use native.Mathlib.Nat.{add-zero}
use usbtrace.Common.Int.{pos, ltb_ℤ}
use usbtrace.Common.Word.{leb_ℤ}
use usbtrace.Diag.Event.{DiagEvent}
use usbtrace.Diag.Rule.{Cond, Rule, trigger_match}
use usbtrace.Diag.Window.{DevWin}
use usbtrace.Diag.Window.Recent.{recent}
use usbtrace.Diag.Eval.{eval_when, cluster_of, cooldown_ok}
use usbtrace.Diag.Eval.Spec.{matching, episodes, spans}
use usbtrace.Diag.Eval.Refine.{eval_when_lem}
use usbtrace.Diag.Engine.{
  Tally, WhenScan, when_start, need, note_when, whens_from, is_event, emit, fire_event,
  event_finding, ingest_rule,
}

-- How often a condition is met in the window: its episodes, if they span long enough.
unfoldable pub occurrences : DevWin → ℕ → Cond → ℕ
occurrences w ref_ns c =
    let ms = matching c ref_ns (recent w) in
    let n = length (episodes (cluster_of c) ms) in if spans c ms n then n else 0

-- Every condition is met as often as it asks for.
unfoldable pub all_met : DevWin → ℕ → List Cond → Bool
all_met w ref_ns [] = true
all_met w ref_ns (c ∷ cs) = leb_ℤ (need c) (pos (occurrences w ref_ns c)) && all_met w ref_ns cs

if_fst {ℓ} :
    {A : Type ℓ} (b : Bool) (n : ℕ) (x y : A)
    → (let p : ℕ × A = if b then (n, x) else (0, y) in p.0) ≡ (if b then n else 0)
if_fst true n x y = refl
if_fst false n x y = refl

-- The count does not depend on the evidence gathered so far.
eval_when-occurrences :
    (w : DevWin) (c : Cond) (ref_ns : ℕ) (ev : List DiagEvent)
    → (eval_when w c ref_ns ev).0 ≡ occurrences w ref_ns c
unfolding occurrences
eval_when-occurrences w c ref_ns ev =
    let ms = matching c ref_ns (recent w) in
    let n = length (episodes (cluster_of c) ms) in
    ap (λ x. x.0) (eval_when_lem w c ref_ns ev) ∙ if_fst (spans c ms n) n _ ev

whens_from-all_met :
    (w : DevWin) (ref_ns : ℕ) (cs : List Cond) (s : WhenScan)
    → is_some (whens_from w ref_ns cs s) ≡ all_met w ref_ns cs
unfolding whens_from all_met
whens_from-all_met w ref_ns [] s = refl
whens_from-all_met w ref_ns (c ∷ cs) s =
    let (n, ev) = eval_when w c ref_ns s.evidence in
    rw (← eval_when-occurrences w c ref_ns s.evidence) (elim (Bool-cases (ltb_ℤ (pos n) (need c))) [
      | inl few ↦ rw few
      | inr enough ↦ rw enough (whens_from-all_met w ref_ns cs (note_when c n ev s))
    ])

fire_event_reports :
    (now : ℕ) (e : DiagEvent) (ri : ℕ) (s : WhenScan) (w : DevWin) (t : Tally)
    → length (fire_event now e ri s w t).1.output
      ≡ length t.output + (if (cooldown_ok w ri now).1 then 1 else 0)
unfolding fire_event emit
fire_event_reports now e ri s w t =
    ground (arith, length-append {0} t.output (event_finding ri w e s ∷ []))

-- An event rule prints one finding exactly if it is an event rule, its trigger fits the event, each
-- condition is met as often as it asks for, and the cooldown has passed; else it prints none.
pub ingest_rule_reports :
    (now : ℕ) (e : DiagEvent) (ri : ℕ) (r : Rule) (w : DevWin) (t : Tally)
    → length (ingest_rule now e ri r w t).1.output
      ≡ length t.output
        + (if is_event r.type
              && trigger_match r.trigger e
              && all_met w e.ts_ns r.when
              && (cooldown_ok w ri now).1
            then 1
            else 0)
unfolding ingest_rule
ingest_rule_reports now e ri r w t = elim (Bool-cases (is_event r.type)) [
  | inr a ↦ rw (a, add-zero (length t.output))
  | inl a ↦ elim (Bool-cases (trigger_match r.trigger e)) [
    | inr b ↦ rw (a, b, add-zero (length t.output))
    | inl b ↦ elim (Option-cases (whens_from w e.ts_ns r.when when_start)) [
      | inl c ↦
          let unmet : all_met w e.ts_ns r.when ≡ false =
            sym (whens_from-all_met w e.ts_ns r.when when_start) ∙ ap is_some c in
          ground arith
      | inr (s, c) ↦
          let met : all_met w e.ts_ns r.when ≡ true =
            sym (whens_from-all_met w e.ts_ns r.when when_start) ∙ ap is_some c in
          ground (arith, fire_event_reports now e ri s w t)
    ]
  ]
]
