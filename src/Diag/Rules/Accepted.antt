-- ===== src/Diag/Rules/Accepted.antt =====
-- rules.c: every rule that the loader accepts can be run by the engine.
use usbtrace.Common.{
  ℕ, ◌≤◌, ◌≡◌, refl, ◌∙◌, if◌then◌else◌, Bool, true, List, [], ◌∷◌, ◌++◌, Option, none, some, leb,
  length, length-append, arith, ◌≢◌, sym, subst, codes,
}
use usbtrace.Diag.Rule.{Rule, Cond}
use usbtrace.Diag.Rules.Symbols.{Strtol, resolve_value}
use usbtrace.Diag.Rules.Conds.{
  YamlNode, scalar, sequence, mapping, ok, fail, out_of_memory, no_rules, parse_when, parse_trigger,
  parse_flow, zero_cond, map_get, node_scalar, when_kind, when_match, when_status, is_mapping,
}
use usbtrace.Diag.Rules.Limits.{
  CondFits, AllFit, RuleFits, AllRulesFit, Yields, Yields-ok, Yields-fail, Yields-bind, Yields-some,
  Yields-if, fits_push, zero_cond-CondFits, when_kind-CondFits, when_match-CondFits,
  when_status-CondFits, when_numbers_keeps, parse_flow-CondFits,
}
use usbtrace.Diag.Rules.{
  Loaded, init_failed, load_failed, document, diag_rules_parse, parse_rules, parse_rule,
  parse_event_rule, parse_deadline, parse_whens, parse_when_items, rule_head, dup_scalar,
}

-- At most eight conditions, all within their arrays.
WhensFit : List Cond → Type 0
WhensFit cs = (length cs ≤ 8) × AllFit cs

-- At most 64 rules, all within their arrays.
pub RulesFit : List Rule → Type 0
RulesFit rs = (length rs ≤ 64) × AllRulesFit rs

-- What a trigger has: its lists fit, and its kind is given.
TriggerFits : Cond → Type 0
TriggerFits c = CondFits c × (c.has_kind ≡ true)

AllFit-append : (cs : List Cond) (c : Cond) → AllFit cs → CondFits c → AllFit (cs ++ (c ∷ []))
unfolding AllFit
AllFit-append [] c h k = (k, tt)
AllFit-append (d ∷ cs) c (p, h) k = (p, AllFit-append cs c h k)

AllRulesFit-append :
    (rs : List Rule) (r : Rule) → AllRulesFit rs → RuleFits r → AllRulesFit (rs ++ (r ∷ []))
unfolding AllRulesFit
AllRulesFit-append [] r h k = (k, tt)
AllRulesFit-append (s ∷ rs) r (p, h) k = (p, AllRulesFit-append rs r h k)

module _ (strtol : List ℕ → Strtol) (get_node : ℕ → Option YamlNode) where
  parse_when-CondFits :
      (i : Option YamlNode) (c : Cond)
      → CondFits c
      → Yields CondFits (parse_when strtol get_node i c)
  unfolding parse_when
  parse_when-CondFits i c h =
      Yields-if CondFits (is_mapping strtol get_node i) _ _
        (λ _.
          Yields-bind CondFits CondFits (when_kind strtol get_node i c) _
            (when_kind-CondFits strtol get_node i c h)
            (λ c1 h1.
              Yields-bind CondFits CondFits (when_match strtol get_node i c1) _
                (when_match-CondFits strtol get_node i c1 h1)
                (λ c2 h2.
                  Yields-bind CondFits CondFits (when_status strtol get_node i c2) _
                    (when_status-CondFits strtol get_node i c2 h2)
                    (λ c3 h3. Yields-ok CondFits _ (
                      let (p, q) = when_numbers_keeps strtol get_node i c3 in
                      record {
                        matches_in = subst (λ x. length x ≤ 8) (sym p) h3.matches_in;
                        status_in = subst (λ x. length x ≤ 16) (sym q) h3.status_in;
                      })))))
        (λ _. Yields-fail CondFits _)

  parse_trigger-TriggerFits :
      (i : Option YamlNode) (c : Cond)
      → CondFits c
      → Yields TriggerFits (parse_trigger strtol get_node i c)
  unfolding parse_trigger TriggerFits
  parse_trigger-TriggerFits (some (mapping ps)) c h =
      Yields-bind TriggerFits CondFits (parse_flow strtol get_node ps c) _
        (parse_flow-CondFits strtol get_node ps c h)
        (λ c' h'.
          Yields-if TriggerFits c'.has_kind _ _ (λ e. Yields-ok TriggerFits c' (h', e))
            (λ _. Yields-fail TriggerFits _))
  parse_trigger-TriggerFits (some (scalar s)) c h = Yields-fail TriggerFits _
  parse_trigger-TriggerFits (some (sequence s)) c h = Yields-fail TriggerFits _
  parse_trigger-TriggerFits none c h = Yields-fail TriggerFits _

  parse_when_items-WhensFit :
      (is : List ℕ) (cs : List Cond)
      → WhensFit cs
      → Yields WhensFit (parse_when_items strtol get_node is cs)
  unfolding parse_when_items WhensFit
  parse_when_items-WhensFit [] cs h = Yields-ok WhensFit cs h
  parse_when_items-WhensFit (i ∷ is) cs (n, h) =
      Yields-if WhensFit (leb 8 (length cs)) _ _ (λ _. Yields-fail WhensFit _)
        (λ b.
          Yields-bind WhensFit CondFits (parse_when strtol get_node (get_node i) zero_cond) _
            (parse_when-CondFits (get_node i) zero_cond zero_cond-CondFits)
            (λ c k. parse_when_items-WhensFit is (cs ++ (c ∷ [])) (
              omega (arith, length-append cs (c ∷ []), fits_push (length cs) 8 b),
              AllFit-append cs c h k,
            )))

  no_whens-WhensFit : WhensFit []
  unfolding WhensFit AllFit
  no_whens-WhensFit = (omega arith, tt)

  parse_whens-WhensFit : (n : Option YamlNode) → Yields WhensFit (parse_whens strtol get_node n)
  unfolding parse_whens
  parse_whens-WhensFit none = Yields-ok WhensFit [] no_whens-WhensFit
  parse_whens-WhensFit (some (sequence is)) = parse_when_items-WhensFit is [] no_whens-WhensFit
  parse_whens-WhensFit (some (scalar s)) = Yields-fail WhensFit _
  parse_whens-WhensFit (some (mapping ps)) = Yields-fail WhensFit _

  some-not-none : {A : Type 0} (o : Option A) (a : A) → o ≡ some a → o ≢ none
  some-not-none o a h k = cc

  parse_event_rule-RuleFits :
      (rn : Option YamlNode) (r : Rule)
      → r.id ≢ none
      → CondFits r.trigger
      → Yields RuleFits (parse_event_rule strtol get_node rn r)
  unfolding parse_event_rule TriggerFits WhensFit
  parse_event_rule-RuleFits rn r i h =
      Yields-bind RuleFits TriggerFits
        (parse_trigger strtol get_node (map_get get_node rn (codes "trigger")) r.trigger) _
        (parse_trigger-TriggerFits (map_get get_node rn (codes "trigger")) r.trigger h)
        (λ t (th, tk).
          Yields-bind RuleFits WhensFit
            (parse_whens strtol get_node (map_get get_node rn (codes "when"))) _
            (parse_whens-WhensFit (map_get get_node rn (codes "when")))
            (λ cs (n, wh). Yields-ok RuleFits _ record {
              has_id = i;
              trigger_in = th;
              when_in = n;
              whens_in = wh;
              kind_set = λ _. tk;
            }))

  parse_deadline-RuleFits :
      (dl : Option YamlNode) (r : Rule)
      → r.id ≢ none
      → CondFits r.trigger
      → WhensFit r.when
      → Yields RuleFits (parse_deadline strtol get_node dl r)
  unfolding parse_deadline WhensFit
  parse_deadline-RuleFits dl r i h (n, wh) =
      Yields-some RuleFits (node_scalar (map_get get_node dl (codes "reached_state"))) _ _
        (λ _. Yields-fail RuleFits _)
        (λ s _.
          Yields-some RuleFits (resolve_value strtol s) _ _ (λ _. Yields-fail RuleFits _)
            (λ v _.
              Yields-some RuleFits (node_scalar (map_get get_node dl (codes "timeout_ms"))) _ _
                (λ _. Yields-fail RuleFits _)
                (λ t _. Yields-ok RuleFits _ record {
                  has_id = i;
                  trigger_in = h;
                  when_in = n;
                  whens_in = wh;
                  kind_set = λ e. ground arith;
                })))

  rule_head_lem :
      (rn : Option YamlNode)
      → ((rule_head strtol get_node rn).id ≡ dup_scalar strtol get_node rn (codes "id"))
        × CondFits (rule_head strtol get_node rn).trigger
        × WhensFit (rule_head strtol get_node rn).when
  unfolding rule_head
  rule_head_lem rn = (refl, zero_cond-CondFits, no_whens-WhensFit)

  parse_rule-RuleFits : (rn : Option YamlNode) → Yields RuleFits (parse_rule strtol get_node rn)
  unfolding parse_rule
  parse_rule-RuleFits rn =
      let (i, t, w) = rule_head_lem rn in
      Yields-some RuleFits (dup_scalar strtol get_node rn (codes "id")) _ _
        (λ _. Yields-fail RuleFits _)
        (λ a e.
          let named = some-not-none _ a (i ∙ e) in
          Yields-some RuleFits (map_get get_node rn (codes "deadline")) _ _
            (λ _. parse_event_rule-RuleFits rn (rule_head strtol get_node rn) named t)
            (λ dl _. parse_deadline-RuleFits (some dl) (rule_head strtol get_node rn) named t w))

  parse_rules-RulesFit :
      (is : List ℕ) (rs : List Rule)
      → RulesFit rs
      → Yields RulesFit (parse_rules strtol get_node is rs)
  unfolding parse_rules RulesFit
  parse_rules-RulesFit [] rs h = Yields-ok RulesFit rs h
  parse_rules-RulesFit (i ∷ is) rs (n, h) =
      Yields-if RulesFit (leb 64 (length rs)) _ _ (λ _. Yields-ok RulesFit rs (n, h))
        (λ b.
          Yields-bind RulesFit RuleFits (parse_rule strtol get_node (get_node i)) _
            (parse_rule-RuleFits (get_node i))
            (λ r k. parse_rules-RulesFit is (rs ++ (r ∷ [])) (
              omega (arith, length-append rs (r ∷ []), fits_push (length rs) 64 b),
              AllRulesFit-append rs r h k,
            )))

  no_rules-RulesFit : RulesFit []
  unfolding RulesFit AllRulesFit
  no_rules-RulesFit = (omega arith, tt)

  root_rules-RulesFit :
      (n : Option YamlNode) (m : Bool)
      → Yields RulesFit (elim n [
        | some (sequence is) ↦ if m then parse_rules strtol get_node is [] else fail out_of_memory
        | some (scalar s) ↦ fail no_rules
        | some (mapping ps) ↦ fail no_rules
        | none ↦ fail no_rules
      ])
  root_rules-RulesFit none m = Yields-fail RulesFit _
  root_rules-RulesFit (some (sequence is)) m =
      Yields-if RulesFit m _ _ (λ _. parse_rules-RulesFit is [] no_rules-RulesFit)
        (λ _. Yields-fail RulesFit _)
  root_rules-RulesFit (some (scalar s)) m = Yields-fail RulesFit _
  root_rules-RulesFit (some (mapping ps)) m = Yields-fail RulesFit _

  -- The promise holds for every document and outcome of `calloc`.
  diag_rules_parse-RulesFit :
      (l : Loaded) (m : Bool) → Yields RulesFit (diag_rules_parse strtol get_node l m)
  unfolding diag_rules_parse
  diag_rules_parse-RulesFit init_failed m = Yields-fail RulesFit _
  diag_rules_parse-RulesFit (load_failed line problem) m = Yields-fail RulesFit _
  diag_rules_parse-RulesFit (document none) m = Yields-fail RulesFit _
  diag_rules_parse-RulesFit (document (some root)) m =
      root_rules-RulesFit (map_get get_node (some root) (codes "rules")) m

  -- For every document, `strtol` and outcome of `calloc`: if `diag_rules_parse` accepts the document,
  -- there are at most 64 rules; every rule has an id; its trigger and each of its at most eight
  -- conditions hold at most 8 matches and 16 statuses; and every event rule's trigger names a kind.
  pub accepted-RulesFit :
      (l : Loaded) (m : Bool) {rs : List Rule}
      → diag_rules_parse strtol get_node l m ≡ ok rs
      → RulesFit rs
  unfolding Yields
  accepted-RulesFit l m h = subst (Yields RulesFit) h (diag_rules_parse-RulesFit l m)
