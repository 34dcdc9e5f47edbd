-- ===== src/Diag/Rules/Conds.antt =====
-- rules.c: the conditions of a rule.
use usbtrace.Common.{
  ℕ, Bool, true, false, List, [], ◌∷◌, ◌++◌, Option, none, some, if◌then◌else◌, leb, ◌==◌, length,
  codes, text_eq,
}
use usbtrace.Common.Int.{pos}
use usbtrace.Common.Word.{cast_u32}
use usbtrace.Diag.Rule.{Cond, CmpOp, op_eq, op_ne, op_gte, op_lte, diag_max_match, diag_max_status}
use usbtrace.Diag.Rules.Symbols.{Strtol, field_syms, sym_lookup, resolve_value}

-- A `yaml_node_t`: a scalar's text, the numbers of a sequence's items, those of a mapping's pairs.
pub data YamlNode : Type 0 where
  scalar : List ℕ → YamlNode
  sequence : List ℕ → YamlNode
  mapping : List (ℕ × ℕ) → YamlNode

-- The messages that the loader writes to `err`, with the texts they quote.
pub data RuleError : Type 0 where
  status_not_list bad_status too_many_status too_many_match : RuleError
  match_not_mapping match_not_scalar when_not_mapping when_not_list too_many_when : RuleError
  trigger_not_mapping trigger_not_scalar no_kind rule_missing_id : RuleError
  no_reached_state no_timeout_ms no_parser empty_document no_rules out_of_memory : RuleError
  unknown_field bad_kind : List ℕ → RuleError
  bad_value : List ℕ → List ℕ → RuleError
  no_load : ℕ → List ℕ → RuleError

pub data Result {ℓ} (A : Type ℓ) : Type ℓ where
  fail : RuleError → Result A
  ok : A → Result A

-- `node_scalar`.
unfoldable pub node_scalar : Option YamlNode → Option (List ℕ)
node_scalar (some (scalar s)) = some s
node_scalar (some (sequence is)) = none
node_scalar (some (mapping ps)) = none
node_scalar none = none

-- The zeroed `struct diag_cond`.
unfoldable pub zero_cond : Cond
zero_cond = record {
  has_kind = false;
  kind = 0;
  matches = [];
  status_in = [];
  has_within_ms = false;
  within_ms = pos 0;
  has_count_gte = false;
  count_gte = pos 0;
  has_min_span_ms = false;
  min_span_ms = pos 0;
  has_cluster_ms = false;
  cluster_ms = pos 0;
}

-- The operator that a value's first bytes choose, and the value without them.
unfoldable pub split_op : List ℕ → CmpOp × List ℕ
split_op [] = (op_eq, [])
split_op (c ∷ []) = if c == b'!' then (op_ne, []) else (op_eq, c ∷ [])
split_op (c ∷ d ∷ s) =
    if c == b'!'
    then (op_ne, d ∷ s)
    else if c == b'>'
    then (if d == b'=' then (op_gte, s) else (op_eq, c ∷ d ∷ s))
    else if c == b'<'
    then (if d == b'=' then (op_lte, s) else (op_eq, c ∷ d ∷ s))
    else (op_eq, c ∷ d ∷ s)

-- The loop of `map_get` from one pair on.
module _ (get_node : ℕ → Option YamlNode) where
  unfoldable pub pairs_get : List (ℕ × ℕ) → List ℕ → Option YamlNode
  pairs_get [] key = none
  pairs_get ((k, v) ∷ ps) key = elim (node_scalar (get_node k)) [
    | none ↦ pairs_get ps key
    | some ks ↦ if text_eq ks key then get_node v else pairs_get ps key
  ]

  -- `map_get`.
  unfoldable pub map_get : Option YamlNode → List ℕ → Option YamlNode
  unfolding pairs_get
  map_get (some (mapping ps)) key = pairs_get ps key
  map_get (some (scalar s)) key = none
  map_get (some (sequence is)) key = none
  map_get none key = none

module _ (strtol : List ℕ → Strtol) where
  -- `add_match`.
  unfoldable pub add_match : Cond → List ℕ → List ℕ → Result Cond
  unfolding split_op
  add_match c field valstr = elim (sym_lookup field_syms field) [
    | none ↦ fail (unknown_field field)
    | some fid ↦
        let (op, s) = split_op valstr in
        elim (resolve_value strtol s) [
          | none ↦ fail (bad_value s field)
          | some val ↦
              if leb diag_max_match (length c.matches)
              then fail too_many_match
              else ok (record c {
                matches = c.matches ++ (record { field = fid; value = val; op = op } ∷ []);
              })
        ]
  ]

  -- The kind of a trigger or of a `when` item.
  unfoldable pub set_kind : Cond → List ℕ → Result Cond
  set_kind c s = elim (resolve_value strtol s) [
    | none ↦ fail (bad_kind s)
    | some v ↦ ok (record c { has_kind = true; kind = cast_u32 v })
  ]

  module _ (get_node : ℕ → Option YamlNode) where
    -- The loop of `parse_status_in`.
    unfoldable pub parse_statuses : List ℕ → Cond → Result Cond
    parse_statuses [] c = ok c
    parse_statuses (i ∷ is) c = elim (node_scalar (get_node i)) [
      | none ↦ fail bad_status
      | some s ↦ elim (resolve_value strtol s) [
        | none ↦ fail bad_status
        | some v ↦
            if leb diag_max_status (length c.status_in)
            then fail too_many_status
            else parse_statuses is (record c { status_in = c.status_in ++ (v ∷ []) })
      ]
    ]

    -- `parse_status_in`.
    unfoldable pub parse_status_in : YamlNode → Cond → Result Cond
    unfolding parse_statuses
    parse_status_in (sequence is) c = parse_statuses is c
    parse_status_in (scalar s) c = fail status_not_list
    parse_status_in (mapping ps) c = fail status_not_list

    -- The loop of `parse_match_map`.
    unfoldable pub parse_matches : List (ℕ × ℕ) → Cond → Result Cond
    parse_matches [] c = ok c
    parse_matches ((k, v) ∷ ps) c = elim (node_scalar (get_node k)) [
      | none ↦ fail match_not_scalar
      | some ks ↦ elim (node_scalar (get_node v)) [
        | none ↦ fail match_not_scalar
        | some vs ↦ elim (add_match c ks vs) [ fail e ↦ fail e | ok c' ↦ parse_matches ps c' ]
      ]
    ]

    -- `parse_match_map`.
    unfoldable pub parse_match_map : YamlNode → Cond → Result Cond
    unfolding parse_matches
    parse_match_map (mapping ps) c = parse_matches ps c
    parse_match_map (scalar s) c = fail match_not_mapping
    parse_match_map (sequence is) c = fail match_not_mapping

    -- The optional parts of a `when` item, in the order they are read.
    unfoldable pub when_kind : Option YamlNode → Cond → Result Cond
    when_kind item c = elim (node_scalar (map_get get_node item (codes "kind"))) [
      | none ↦ ok c
      | some s ↦ set_kind c s
    ]

    unfoldable pub when_match : Option YamlNode → Cond → Result Cond
    when_match item c = elim (map_get get_node item (codes "match")) [
      | none ↦ ok c
      | some n ↦ parse_match_map n c
    ]

    unfoldable pub when_status : Option YamlNode → Cond → Result Cond
    when_status item c = elim (map_get get_node item (codes "status_in")) [
      | none ↦ ok c
      | some n ↦ parse_status_in n c
    ]

    unfoldable pub when_within : Option YamlNode → Cond → Cond
    when_within item c = elim (node_scalar (map_get get_node item (codes "within_ms"))) [
      | none ↦ c
      | some s ↦ record c { has_within_ms = true; within_ms = (strtol s).value }
    ]

    unfoldable pub when_count : Option YamlNode → Cond → Cond
    when_count item c = elim (node_scalar (map_get get_node item (codes "count_gte"))) [
      | none ↦ c
      | some s ↦ record c { has_count_gte = true; count_gte = (strtol s).value }
    ]

    unfoldable pub when_span : Option YamlNode → Cond → Cond
    when_span item c = elim (node_scalar (map_get get_node item (codes "min_span_ms"))) [
      | none ↦ c
      | some s ↦ record c { has_min_span_ms = true; min_span_ms = (strtol s).value }
    ]

    unfoldable pub when_cluster : Option YamlNode → Cond → Cond
    when_cluster item c = elim (node_scalar (map_get get_node item (codes "cluster_ms"))) [
      | none ↦ c
      | some s ↦ record c { has_cluster_ms = true; cluster_ms = (strtol s).value }
    ]

    -- The four numbers of a `when` item.
    unfoldable pub when_numbers : Option YamlNode → Cond → Cond
    unfolding when_within when_count when_span when_cluster
    when_numbers item c = when_cluster item (when_span item (when_count item (when_within item c)))

    abbrev pub is_mapping : Option YamlNode → Bool
    is_mapping (some (mapping ps)) = true
    is_mapping (some (scalar s)) = false
    is_mapping (some (sequence is)) = false
    is_mapping none = false

    -- `parse_when`.
    unfoldable pub parse_when : Option YamlNode → Cond → Result Cond
    unfolding when_kind when_match when_status when_numbers
    parse_when item c =
        if is_mapping item
        then (elim (when_kind item c) [
          | fail e ↦ fail e
          | ok c1 ↦ elim (when_match item c1) [
            | fail e ↦ fail e
            | ok c2 ↦ elim (when_status item c2) [
              | fail e ↦ fail e
              | ok c3 ↦ ok (when_numbers item c3)
            ]
          ]
        ])
        else fail when_not_mapping

    -- The loop of `parse_trigger`.
    unfoldable pub parse_flow : List (ℕ × ℕ) → Cond → Result Cond
    parse_flow [] c = ok c
    parse_flow ((k, v) ∷ ps) c = elim (node_scalar (get_node k)) [
      | none ↦ fail trigger_not_scalar
      | some ks ↦ elim (node_scalar (get_node v)) [
        | none ↦ fail trigger_not_scalar
        | some vs ↦ elim (if text_eq ks (codes "kind") then set_kind c vs else add_match c ks vs) [
          | fail e ↦ fail e
          | ok c' ↦ parse_flow ps c'
        ]
      ]
    ]

    -- `parse_trigger`.
    unfoldable pub parse_trigger : Option YamlNode → Cond → Result Cond
    unfolding parse_flow
    parse_trigger (some (mapping ps)) c = elim (parse_flow ps c) [
      | fail e ↦ fail e
      | ok c' ↦ if c'.has_kind then ok c' else fail no_kind
    ]
    parse_trigger (some (scalar s)) c = fail trigger_not_mapping
    parse_trigger (some (sequence is)) c = fail trigger_not_mapping
    parse_trigger none c = fail trigger_not_mapping
