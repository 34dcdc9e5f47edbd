-- ===== src/Diag/Rules.antt =====
-- src/modules/diag/rules.c: the rules of a YAML document. The document is libyaml's, so it is a
-- parameter: its nodes by number. A pointer to a node that may be NULL is an option.
pub mod Symbols
pub mod Conds
pub mod Limits
pub mod Accepted
pub mod Names
pub mod Operators
mod Tests
use usbtrace.Common.{
  ℕ, suc, Bool, true, false, List, [], ◌∷◌, ◌++◌, Option, none, some, if◌then◌else◌, leb, ◌||◌,
  length, codes, text_eq,
}
use usbtrace.Common.Int.{ℤ, pos, negsuc}
use usbtrace.Common.Word.{cast_i32}
use usbtrace.Diag.Rule.{
  Rule, Cond, Severity, sev_info, sev_warn, sev_error, rule_event, rule_deadline, diag_max_rules,
  diag_max_when,
}
use usbtrace.Diag.Rules.Symbols.{Strtol, resolve_value}
use usbtrace.Diag.Rules.Conds.{
  YamlNode, scalar, sequence, mapping, RuleError, rule_missing_id, no_reached_state, no_timeout_ms,
  when_not_list, too_many_when, no_parser, no_load, empty_document, no_rules, out_of_memory, Result,
  ok, fail, node_scalar, map_get, zero_cond, parse_when, parse_trigger,
}

-- `parse_severity`.
unfoldable pub parse_severity : Option (List ℕ) → Severity
parse_severity none = sev_info
parse_severity (some s) =
    if text_eq s (codes "warn") || text_eq s (codes "warning")
    then sev_warn
    else if text_eq s (codes "error") || text_eq s (codes "err")
    then sev_error
    else sev_info

-- What the loader gets of libyaml: no parser, a parse error with its line and problem, or a document
-- with its root node.
pub data Loaded : Type 0 where
  init_failed : Loaded
  load_failed : ℕ → List ℕ → Loaded
  document : Option YamlNode → Loaded

module _ (strtol : List ℕ → Strtol) (get_node : ℕ → Option YamlNode) where
  -- `dup_scalar`, where `strdup` gets its memory.
  unfoldable pub dup_scalar : Option YamlNode → List ℕ → Option (List ℕ)
  dup_scalar m key = node_scalar (map_get get_node m key)

  -- The first lines of `parse_rule`: a zeroed rule with its texts and its severity.
  unfoldable pub rule_head : Option YamlNode → Rule
  unfolding dup_scalar parse_severity
  rule_head rn = record {
    id = dup_scalar rn (codes "id");
    name = dup_scalar rn (codes "name");
    conclusion = dup_scalar rn (codes "conclusion");
    fix = dup_scalar rn (codes "fix");
    severity = parse_severity (node_scalar (map_get get_node rn (codes "severity")));
    type = rule_event;
    trigger = zero_cond;
    when = [];
    dl_reached_state = pos 0;
    dl_without_state = pos 0;
    dl_timeout_ms = pos 0;
  }

  -- The `without_state` of `parse_deadline`: a missing or a bad one leaves -1.
  unfoldable pub without_state : Option YamlNode → ℤ
  without_state dl = elim (node_scalar (map_get get_node dl (codes "without_state"))) [
    | none ↦ negsuc 0
    | some w ↦ elim (resolve_value strtol w) [ none ↦ negsuc 0 | some x ↦ cast_i32 x ]
  ]

  -- `parse_deadline`.
  unfoldable pub parse_deadline : Option YamlNode → Rule → Result Rule
  unfolding without_state
  parse_deadline dl r = elim (node_scalar (map_get get_node dl (codes "reached_state"))) [
    | none ↦ fail no_reached_state
    | some s ↦ elim (resolve_value strtol s) [
      | none ↦ fail no_reached_state
      | some v ↦ elim (node_scalar (map_get get_node dl (codes "timeout_ms"))) [
        | none ↦ fail no_timeout_ms
        | some t ↦ ok (record r {
          type = rule_deadline;
          dl_reached_state = cast_i32 v;
          dl_without_state = without_state dl;
          dl_timeout_ms = (strtol t).value;
        })
      ]
    ]
  ]

  -- The loop of `parse_rule` over the `when` items.
  unfoldable pub parse_when_items : List ℕ → List Cond → Result (List Cond)
  parse_when_items [] cs = ok cs
  parse_when_items (i ∷ is) cs =
      if leb diag_max_when (length cs)
      then fail too_many_when
      else (elim (parse_when strtol get_node (get_node i) zero_cond) [
        | fail e ↦ fail e
        | ok c ↦ parse_when_items is (cs ++ (c ∷ []))
      ])

  -- The `when` list of `parse_rule`: without one there are no conditions.
  unfoldable pub parse_whens : Option YamlNode → Result (List Cond)
  unfolding parse_when_items
  parse_whens none = ok []
  parse_whens (some (sequence is)) = parse_when_items is []
  parse_whens (some (scalar s)) = fail when_not_list
  parse_whens (some (mapping ps)) = fail when_not_list

  -- The rest of `parse_rule` for a rule without a deadline.
  unfoldable pub parse_event_rule : Option YamlNode → Rule → Result Rule
  unfolding parse_whens
  parse_event_rule rn r =
      elim (parse_trigger strtol get_node (map_get get_node rn (codes "trigger")) r.trigger) [
        | fail e ↦ fail e
        | ok t ↦ elim (parse_whens (map_get get_node rn (codes "when"))) [
          | fail e ↦ fail e
          | ok cs ↦ ok (record r { type = rule_event; trigger = t; when = cs })
        ]
      ]

  -- `parse_rule`.
  unfoldable pub parse_rule : Option YamlNode → Result Rule
  unfolding rule_head parse_deadline parse_event_rule
  parse_rule rn =
      let r = rule_head rn in
      elim (dup_scalar rn (codes "id")) [
        | none ↦ fail rule_missing_id
        | some _ ↦ elim (map_get get_node rn (codes "deadline")) [
          | some dl ↦ parse_deadline (some dl) r
          | none ↦ parse_event_rule rn r
        ]
      ]

  -- The loop of `diag_rules_parse`: rules past the limit are ignored.
  unfoldable pub parse_rules : List ℕ → List Rule → Result (List Rule)
  parse_rules [] rs = ok rs
  parse_rules (i ∷ is) rs =
      if leb diag_max_rules (length rs) then ok rs else (elim (parse_rule (get_node i)) [
        | fail e ↦ fail e
        | ok r ↦ parse_rules is (rs ++ (r ∷ []))
      ])

  -- `diag_rules_parse`; `has_memory` says whether `calloc` finds room for the rules.
  unfoldable pub diag_rules_parse : Loaded → Bool → Result (List Rule)
  unfolding parse_rules
  diag_rules_parse init_failed has_memory = fail no_parser
  diag_rules_parse (load_failed line problem) has_memory = fail (no_load (suc line) problem)
  diag_rules_parse (document none) has_memory = fail empty_document
  diag_rules_parse (document (some root)) has_memory =
      elim (map_get get_node (some root) (codes "rules")) [
        | some (sequence is) ↦ if has_memory then parse_rules is [] else fail out_of_memory
        | some (scalar s) ↦ fail no_rules
        | some (mapping ps) ↦ fail no_rules
        | none ↦ fail no_rules
      ]
