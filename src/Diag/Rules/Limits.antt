-- ===== src/Diag/Rules/Limits.antt =====
-- rules.c: what the loader promises of the rules it accepts.
use usbtrace.Common.{
  ℕ, ◌+◌, ◌≤◌, ◌≡◌, refl, Bool, true, false, List, [], ◌∷◌, Option, none, some, if◌then◌else◌, leb,
  length, length-append, arith, ◌≢◌, text_eq, codes,
}
use usbtrace.Diag.Rule.{Rule, Cond, rule_event}
use usbtrace.Diag.Rules.Symbols.{Strtol, resolve_value, field_syms, sym_lookup}
use usbtrace.Diag.Rules.Conds.{
  YamlNode, scalar, sequence, mapping, Result, RuleError, ok, fail, split_op, add_match, set_kind,
  parse_statuses, parse_matches, parse_flow, zero_cond, map_get, node_scalar, when_kind, when_match,
  when_status, when_numbers, parse_match_map, parse_status_in, when_within, when_count, when_span,
  when_cluster,
}

-- A condition within the arrays of `struct diag_cond`.
pub record CondFits (c : Cond) : Type 0 where
  pub matches_in : length c.matches ≤ 8
  pub status_in : length c.status_in ≤ 16

-- Every condition of a list fits.
unfoldable pub AllFit : List Cond → Type 0
AllFit [] = Unit {0}
AllFit (c ∷ cs) = CondFits c × AllFit cs

-- A rule that the engine can run: it has an id, its conditions fit their arrays, and an event rule is
-- triggered by one kind of event.
pub record RuleFits (r : Rule) : Type 0 where
  pub has_id : r.id ≢ none
  pub trigger_in : CondFits r.trigger
  pub when_in : length r.when ≤ 8
  pub whens_in : AllFit r.when
  pub kind_set : r.type ≡ rule_event → r.trigger.has_kind ≡ true

unfoldable pub AllRulesFit : List Rule → Type 0
AllRulesFit [] = Unit {0}
AllRulesFit (r ∷ rs) = RuleFits r × AllRulesFit rs

-- A result that, where it is one, satisfies a predicate.
unfoldable pub Yields : {A : Type 0} → (A → Type 0) → Result A → Type 0
Yields P (ok a) = P a
Yields P (fail e) = Unit {0}

-- A promise is kept through an early return, an absent value and a test.
pub Yields-ok : {A : Type 0} (P : A → Type 0) (a : A) → P a → Yields P (ok a)
unfolding Yields
Yields-ok P a p = p

pub Yields-fail : {A : Type 0} (P : A → Type 0) (e : RuleError) → Yields P (fail e)
unfolding Yields
Yields-fail P e = tt

module _ {A B : Type 0} (Q : B → Type 0) where
  pub Yields-bind :
      (P : A → Type 0) (r : Result A) (f : A → Result B)
      → Yields P r
      → ((a : A) → P a → Yields Q (f a))
      → Yields Q (elim r [ fail e ↦ fail e | ok a ↦ f a ])
  unfolding Yields
  Yields-bind P (ok a) f p k = k a p
  Yields-bind P (fail e) f p k = tt

  pub Yields-some :
      (o : Option A) (r : Result B) (f : A → Result B)
      → (o ≡ none → Yields Q r)
      → ((a : A) → o ≡ some a → Yields Q (f a))
      → Yields Q (elim o [ none ↦ r | some a ↦ f a ])
  Yields-some none r f h k = h refl
  Yields-some (some a) r f h k = k a refl

pub Yields-if :
    {B : Type 0} (Q : B → Type 0) (b : Bool) (r s : Result B)
    → (b ≡ true → Yields Q r)
    → (b ≡ false → Yields Q s)
    → Yields Q (if b then r else s)
Yields-if Q true r s h k = h refl
Yields-if Q false r s h k = k refl

pub fits_push : (n b : ℕ) → leb b n ≡ false → n + 1 ≤ b
fits_push n b h = ground arith

pub zero_cond-CondFits : CondFits zero_cond
unfolding zero_cond
zero_cond-CondFits = record { matches_in = omega arith; status_in = omega arith }

module _ (strtol : List ℕ → Strtol) where
  add_match-CondFits :
      (c : Cond) (f v : List ℕ) → CondFits c → Yields CondFits (add_match strtol c f v)
  unfolding add_match
  add_match-CondFits c f v h =
      Yields-some CondFits (sym_lookup field_syms f) _ _ (λ _. Yields-fail CondFits _)
        (λ fid _.
          Yields-some CondFits (resolve_value strtol (split_op v).1) _ _
            (λ _. Yields-fail CondFits _)
            (λ val _.
              Yields-if CondFits (leb 8 (length c.matches)) _ _ (λ _. Yields-fail CondFits _)
                (λ b. Yields-ok CondFits _ record {
                  matches_in = omega (
                    arith,
                    length-append c.matches
                        (record { field = fid; value = val; op = (split_op v).0 } ∷ []),
                    fits_push (length c.matches) 8 b,
                  );
                  status_in = h.status_in;
                })))

  set_kind-CondFits : (c : Cond) (s : List ℕ) → CondFits c → Yields CondFits (set_kind strtol c s)
  unfolding set_kind
  set_kind-CondFits c s h =
      Yields-some CondFits (resolve_value strtol s) _ _ (λ _. Yields-fail CondFits _)
        (λ v _. Yields-ok CondFits _ record { matches_in = h.matches_in; status_in = h.status_in })

  module _ (get_node : ℕ → Option YamlNode) where
    parse_statuses-CondFits :
        (is : List ℕ) (c : Cond)
        → CondFits c
        → Yields CondFits (parse_statuses strtol get_node is c)
    unfolding parse_statuses
    parse_statuses-CondFits [] c h = Yields-ok CondFits c h
    parse_statuses-CondFits (i ∷ is) c h =
        Yields-some CondFits (node_scalar (get_node i)) _ _ (λ _. Yields-fail CondFits _)
          (λ s _.
            Yields-some CondFits (resolve_value strtol s) _ _ (λ _. Yields-fail CondFits _)
              (λ v _.
                Yields-if CondFits (leb 16 (length c.status_in)) _ _ (λ _. Yields-fail CondFits _)
                  (λ b. parse_statuses-CondFits is _ record {
                    matches_in = h.matches_in;
                    status_in = omega (
                      arith,
                      length-append c.status_in (v ∷ []),
                      fits_push (length c.status_in) 16 b,
                    );
                  })))

    parse_matches-CondFits :
        (ps : List (ℕ × ℕ)) (c : Cond)
        → CondFits c
        → Yields CondFits (parse_matches strtol get_node ps c)
    unfolding parse_matches
    parse_matches-CondFits [] c h = Yields-ok CondFits c h
    parse_matches-CondFits ((k, v) ∷ ps) c h =
        Yields-some CondFits (node_scalar (get_node k)) _ _ (λ _. Yields-fail CondFits _)
          (λ ks _.
            Yields-some CondFits (node_scalar (get_node v)) _ _ (λ _. Yields-fail CondFits _)
              (λ vs _.
                Yields-bind CondFits CondFits (add_match strtol c ks vs) _
                  (add_match-CondFits c ks vs h) (λ c' h'. parse_matches-CondFits ps c' h')))

    pub parse_flow-CondFits :
        (ps : List (ℕ × ℕ)) (c : Cond)
        → CondFits c
        → Yields CondFits (parse_flow strtol get_node ps c)
    unfolding parse_flow
    parse_flow-CondFits [] c h = Yields-ok CondFits c h
    parse_flow-CondFits ((k, v) ∷ ps) c h =
        Yields-some CondFits (node_scalar (get_node k)) _ _ (λ _. Yields-fail CondFits _)
          (λ ks _.
            Yields-some CondFits (node_scalar (get_node v)) _ _ (λ _. Yields-fail CondFits _)
              (λ vs _.
                Yields-bind CondFits CondFits
                  (if text_eq ks (codes "kind")
                    then set_kind strtol c vs
                    else add_match strtol c ks vs)
                  _
                  (Yields-if CondFits (text_eq ks (codes "kind")) _ _
                    (λ _. set_kind-CondFits c vs h) (λ _. add_match-CondFits c ks vs h))
                  (λ c' h'. parse_flow-CondFits ps c' h')))

    parse_match_map-CondFits :
        (n : YamlNode) (c : Cond)
        → CondFits c
        → Yields CondFits (parse_match_map strtol get_node n c)
    unfolding parse_match_map
    parse_match_map-CondFits (mapping ps) c h = parse_matches-CondFits ps c h
    parse_match_map-CondFits (scalar s) c h = Yields-fail CondFits _
    parse_match_map-CondFits (sequence is) c h = Yields-fail CondFits _

    parse_status_in-CondFits :
        (n : YamlNode) (c : Cond)
        → CondFits c
        → Yields CondFits (parse_status_in strtol get_node n c)
    unfolding parse_status_in
    parse_status_in-CondFits (sequence is) c h = parse_statuses-CondFits is c h
    parse_status_in-CondFits (scalar s) c h = Yields-fail CondFits _
    parse_status_in-CondFits (mapping ps) c h = Yields-fail CondFits _

    pub when_kind-CondFits :
        (i : Option YamlNode) (c : Cond)
        → CondFits c
        → Yields CondFits (when_kind strtol get_node i c)
    unfolding when_kind
    when_kind-CondFits i c h =
        Yields-some CondFits (node_scalar (map_get get_node i (codes "kind"))) _ _
          (λ _. Yields-ok CondFits c h) (λ s _. set_kind-CondFits c s h)

    pub when_match-CondFits :
        (i : Option YamlNode) (c : Cond)
        → CondFits c
        → Yields CondFits (when_match strtol get_node i c)
    unfolding when_match
    when_match-CondFits i c h =
        Yields-some CondFits (map_get get_node i (codes "match")) _ _ (λ _. Yields-ok CondFits c h)
          (λ n _. parse_match_map-CondFits n c h)

    pub when_status-CondFits :
        (i : Option YamlNode) (c : Cond)
        → CondFits c
        → Yields CondFits (when_status strtol get_node i c)
    unfolding when_status
    when_status-CondFits i c h =
        Yields-some CondFits (map_get get_node i (codes "status_in")) _ _
          (λ _. Yields-ok CondFits c h) (λ n _. parse_status_in-CondFits n c h)

    -- The numbers leave the two lists alone.
    pub when_numbers_keeps :
        (i : Option YamlNode) (c : Cond)
        → ((when_numbers strtol get_node i c).matches ≡ c.matches)
          × ((when_numbers strtol get_node i c).status_in ≡ c.status_in)
    unfolding when_numbers when_within when_count when_span when_cluster
    when_numbers_keeps i c = ground arith
