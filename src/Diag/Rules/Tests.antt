-- ===== src/Diag/Rules/Tests.antt =====
-- A small rule file, and a `strtol` that reads plain decimals.
use usbtrace.Common.{
  ℕ, ◌+◌, ◌-◌, ◌*◌, ◌≡◌, refl, true, List, [], ◌∷◌, ◌++◌, Option, some, if◌then◌else◌, ◌&&◌, leb,
  arith, get_elem?, codes, text_eq,
}
use usbtrace.Common.Int.{pos}
use usbtrace.Diag.Rule.{Rule, op_gte, f_latency_ns}
use usbtrace.Diag.Rules.Symbols.{Strtol, resolve_value, kind_syms, field_syms, sym_lookup}
use usbtrace.Diag.Rules.Conds.{
  YamlNode, scalar, sequence, mapping, Result, ok, add_match, zero_cond, map_get, node_scalar,
  parse_trigger, set_kind,
}
use usbtrace.Diag.Rules.{Loaded, document, diag_rules_parse, parse_rule}
use usbtrace.Diag.Rules.Accepted.{RulesFit, accepted-RulesFit}
use usbtrace.Diag.Rules.Names.{resolve_value-names}
use usbtrace.Diag.Rules.Operators.{op_prefix, is_plain, add_match-op_prefix}

abbrev decimal_from : ℕ → List ℕ → Strtol
decimal_from acc [] = record { value = pos acc; no_errno = true; rest = [] }
decimal_from acc (c ∷ cs) =
    let more = decimal_from (10 * acc + (c - b'0')) cs in
    if leb b'0' c && leb c b'9'
    then more
    else record { value = pos acc; no_errno = true; rest = c ∷ cs }

abbrev decimal : List ℕ → Strtol
decimal s = decimal_from 0 s

-- `rules: [{ id: slow, trigger: { kind: urb, status: "!0" } }]`, its nodes by number.
abbrev nodes : List YamlNode
nodes =
    mapping ((1, 2) ∷ [])
    ∷ scalar (codes "rules")
    ∷ sequence (3 ∷ [])
    ∷ mapping ((4, 5) ∷ (6, 7) ∷ [])
    ∷ scalar (codes "id")
    ∷ scalar (codes "slow")
    ∷ scalar (codes "trigger")
    ∷ mapping ((8, 9) ∷ (10, 11) ∷ [])
    ∷ scalar (codes "kind")
    ∷ scalar (codes "urb")
    ∷ scalar (codes "status")
    ∷ scalar (codes "!0")
    ∷ []

abbrev node_at : ℕ → Option YamlNode
node_at i = get_elem? nodes i

abbrev rule_file : Loaded
rule_file = document (node_at 0)

abbrev loaded : Result (List Rule)
loaded = diag_rules_parse decimal node_at rule_file true

abbrev rules_of : Result (List Rule) → List Rule
rules_of (ok rs) = rs
rules_of other = []

accepted-RulesFit_example : RulesFit (rules_of loaded)
unfolding diag_rules_parse map_get node_scalar text_eq parse_rule parse_trigger set_kind
    resolve_value add_match field_syms zero_cond
accepted-RulesFit_example = accepted-RulesFit decimal node_at rule_file true refl

resolve_value-names_example : resolve_value decimal (codes "hub") ≡ some (pos 9)
unfolding kind_syms
resolve_value-names_example = resolve_value-names decimal 7 b'h' (codes "ub") (pos 9) refl refl

add_match-op_prefix_example :
    add_match decimal zero_cond (codes "latency_ns") (op_prefix op_gte ++ codes "500")
    ≡ ok (record zero_cond {
      matches =
          zero_cond.matches ++ (record { field = f_latency_ns; value = pos 500; op = op_gte } ∷ []);
    })
unfolding sym_lookup field_syms text_eq is_plain resolve_value zero_cond
add_match-op_prefix_example =
    add_match-op_prefix decimal zero_cond (codes "latency_ns") (codes "500") op_gte f_latency_ns
      (pos 500) refl refl refl (omega arith)
