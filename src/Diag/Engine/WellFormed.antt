-- ===== src/Diag/Engine/WellFormed.antt =====
-- What holds of the engine between two calls: the table keeps its size, no device has two windows,
-- and every event ring is within its bounds.
use usbtrace.Common.{
  ℕ, zero, suc, ◌<◌, ◌≡◌, refl, ap, sym, subst, ◌∙◌, List, [], ◌∷◌, arith, true, none, some, length,
  get_elem?, set, Bool-cases, Option-cases, ◌⊎◌, ◌==◌, inl, inr, if◌then◌else◌,
}
use usbtrace.Diag.Event.{DiagEvent, DevKey, event_key}
use usbtrace.Diag.Rule.{Rule, trigger_match}
use usbtrace.Diag.Window.{
  DevWin, win_max_devs, win_get, win_push, zero_win, fresh_win, find_key, pick_slot,
}
use usbtrace.Diag.Window.States.{bit_or_bound}
use usbtrace.Diag.Window.Recent.{IsValid, win_push-IsValid}
use usbtrace.Diag.Window.Table.{Distinct, win_get_lem, win_get_known, win_get_new, win_get_full}
use usbtrace.Diag.Window.Fades.{
  Fade, Fades-set, length-Fades, Distinct-Fades, AllValid, AllValid-set, AllValid-get,
}
use usbtrace.Diag.Eval.{cooldown_ok}
use usbtrace.Diag.Engine.{
  Engine, Tally, WhenScan, when_start, is_event, whens_from, zero_devs, create, track_state,
  observe, fire_event, ingest_rule, ingest_rules, ingest_at, ingest,
}

pub record IsWellFormed (e : Engine) : Type 0 where
  pub sized : length e.devs ≡ win_max_devs
  pub distinct : Distinct e.devs
  pub valid : AllValid e.devs

-- The window but for what the cooldown and the latch write.
pub record SameRing (w w' : DevWin) : Type 0 where
  pub used_same : w'.used ≡ w.used
  pub key_same : w'.key ≡ w.key
  pub ev_same : w'.ev ≡ w.ev
  pub head_same : w'.head ≡ w.head
  pub count_same : w'.count ≡ w.count
  pub states_same : w'.seen_states ≡ w.seen_states
  pub times_same : w'.state_ts ≡ w.state_ts
  pub seen_same : w'.last_seen_ns ≡ w.last_seen_ns

pub SameRing-refl : (w : DevWin) → SameRing w w
SameRing-refl w = ground arith

pub SameRing-trans : {u v w : DevWin} → SameRing u v → SameRing v w → SameRing u w
SameRing-trans p q = record {
  used_same = q.used_same ∙ p.used_same;
  key_same = q.key_same ∙ p.key_same;
  ev_same = q.ev_same ∙ p.ev_same;
  head_same = q.head_same ∙ p.head_same;
  count_same = q.count_same ∙ p.count_same;
  states_same = q.states_same ∙ p.states_same;
  times_same = q.times_same ∙ p.times_same;
  seen_same = q.seen_same ∙ p.seen_same;
}

pub SameRing-IsValid : {w w' : DevWin} → SameRing w w' → IsValid w → IsValid w'
SameRing-IsValid s v = omega (arith, s.head_same, s.count_same, s.states_same)

pub cooldown_ok-SameRing : (w : DevWin) (ri now : ℕ) → SameRing w (cooldown_ok w ri now).0
unfolding cooldown_ok
cooldown_ok-SameRing w ri now = ground arith

pub fire_event-SameRing :
    (now : ℕ) (e : DiagEvent) (ri : ℕ) (s : WhenScan) (w : DevWin) (t : Tally)
    → SameRing w (fire_event now e ri s w t).0
unfolding fire_event
fire_event-SameRing now e ri s w t = cooldown_ok-SameRing w ri now

-- An event rule that is not triggered, or whose conditions fail, changes nothing.
pub ingest_rule_cases :
    (now : ℕ) (e : DiagEvent) (ri : ℕ) (r : Rule) (w : DevWin) (t : Tally)
    → (ingest_rule now e ri r w t ≡ (w, t))
      ⊎ ((s : WhenScan) × (is_event r.type ≡ true)
          × (trigger_match r.trigger e ≡ true)
          × (whens_from w e.ts_ns r.when when_start ≡ some s)
          × (ingest_rule now e ri r w t ≡ fire_event now e ri s w t))
unfolding ingest_rule
ingest_rule_cases now e ri r w t = elim (Bool-cases (is_event r.type)) [
  | inr a ↦ inl (rw a)
  | inl a ↦ elim (Bool-cases (trigger_match r.trigger e)) [
    | inr b ↦ inl (rw (a, b))
    | inl b ↦ elim (Option-cases (whens_from w e.ts_ns r.when when_start)) [
      | inl c ↦ inl (ground arith)
      | inr (s, c) ↦ inr (s, a, b, c, ground arith)
    ]
  ]
]

pub ingest_rule-SameRing :
    (now : ℕ) (e : DiagEvent) (ri : ℕ) (r : Rule) (w : DevWin) (t : Tally)
    → SameRing w (ingest_rule now e ri r w t).0
ingest_rule-SameRing now e ri r w t = elim (ingest_rule_cases now e ri r w t) [
  | inl q ↦ subst (λ x. SameRing w x.0) (sym q) (SameRing-refl w)
  | inr (s, _, _, _, q) ↦ subst (λ x. SameRing w x.0) (sym q) (fire_event-SameRing now e ri s w t)
]

pub ingest_rules-SameRing :
    (clock : ℕ → ℕ) (e : DiagEvent) (ri : ℕ) (rs : List Rule) (w : DevWin) (t : Tally)
    → SameRing w (ingest_rules clock e ri rs w t).0
unfolding ingest_rules
ingest_rules-SameRing clock e ri [] w t = SameRing-refl w
ingest_rules-SameRing clock e ri (r ∷ rs) w t =
    let (w', t') = ingest_rule (clock ri) e ri r w t in
    SameRing-trans (ingest_rule-SameRing (clock ri) e ri r w t)
      (ingest_rules-SameRing clock e (suc ri) rs w' t')

-- The state bookkeeping leaves the ring alone.
track_state-IsValid : (w : DevWin) (e : DiagEvent) → IsValid w → IsValid (track_state w e)
unfolding track_state
track_state-IsValid w e v =
    ground (arith, bit_or_bound w.seen_states e.new_state, bit_or_bound 0 e.new_state)

pub track_state-Fade : (w : DevWin) (e : DiagEvent) → Fade w (track_state w e)
unfolding track_state
track_state-Fade w e = ground arith

-- The window with the event's time and identity, before the push.
abbrev pub identified : DevWin → DiagEvent → DevWin
identified w e = record w {
  last_seen_ns = e.ts_ns;
  vid = if e.vid == 0 then w.vid else e.vid;
  product = if e.product == 0 then w.product else e.product;
}

pub observe_lem :
    (w : DevWin) (e : DiagEvent) → observe w e ≡ track_state (win_push (identified w e) e) e
unfolding observe
observe_lem w e = refl

pub observe-IsValid : (w : DevWin) (e : DiagEvent) → IsValid w → IsValid (observe w e)
observe-IsValid w e v = rw (observe_lem w e) (
    track_state-IsValid (win_push (identified w e) e) e
      (win_push-IsValid (identified w e) e (omega (arith, v.head_in, v.count_in, v.states_in))))

win_push-Fade : (w : DevWin) (e : DiagEvent) → Fade w (win_push w e)
unfolding win_push
win_push-Fade w e = ground arith

pub Fade-trans : {u v w : DevWin} → Fade u v → Fade v w → Fade u w
Fade-trans p q = record {
  key_same = q.key_same ∙ p.key_same;
  used_before = λ h. p.used_before (q.used_before h);
}

pub observe-Fade : (w : DevWin) (e : DiagEvent) → Fade w (observe w e)
observe-Fade w e = rw (observe_lem w e) (
    Fade-trans
      (let known : Fade w (identified w e) = record { key_same = refl; used_before = λ h. h } in
        known)
      (Fade-trans (win_push-Fade (identified w e) e)
        (track_state-Fade (win_push (identified w e) e) e)))

pub SameRing-Fade : {w w' : DevWin} → SameRing w w' → Fade w w'
SameRing-Fade s = record { key_same = s.key_same; used_before = λ h. sym s.used_same ∙ h }

-- The window after the rules have run over an observed event.
abbrev pub ingested : (ℕ → ℕ) → Engine → DiagEvent → DevWin → DevWin × Tally
ingested clock e evt w = ingest_rules clock evt 0 e.rules (observe w evt) e.tally

pub ingest_at_lem :
    (clock : ℕ → ℕ) (e : Engine) (evt : DiagEvent) (i : ℕ) (w : DevWin)
    → get_elem? e.devs i ≡ some w
    → ingest_at clock e evt i ≡ record e {
      devs = set e.devs i (ingested clock e evt w).0;
      tally = (ingested clock e evt w).1;
    }
unfolding ingest_at
ingest_at_lem clock e evt i w h = ground arith

ingest_at-IsWellFormed :
    (clock : ℕ → ℕ) (e : Engine) (evt : DiagEvent) (i : ℕ) (w : DevWin)
    → get_elem? e.devs i ≡ some w
    → IsWellFormed e
    → IsWellFormed (ingest_at clock e evt i)
ingest_at-IsWellFormed clock e evt i w at h =
    let w' = (ingested clock e evt w).0 in
    let rules_kept = ingest_rules-SameRing clock evt 0 e.rules (observe w evt) e.tally in
    let stays : Fade w w' = Fade-trans (observe-Fade w evt) (SameRing-Fade rules_kept) in
    let same = Fades-set e.devs i w w' at stays in
    let ring : IsValid w' =
      SameRing-IsValid rules_kept (observe-IsValid w evt (AllValid-get e.devs i w at h.valid)) in
    rw (ingest_at_lem clock e evt i w at) (record {
      sized = length-Fades e.devs (set e.devs i w') same ∙ h.sized;
      distinct = Distinct-Fades e.devs (set e.devs i w') same h.distinct;
      valid = AllValid-set e.devs i w' ring h.valid;
    })

-- A slot of the table holds a window.
pub get_elem?_total :
    (ws : List DevWin) (i : ℕ) → i < length ws → (w : DevWin) × (get_elem? ws i ≡ some w)
get_elem?_total [] i h = elim h [ ]
get_elem?_total (w ∷ ws) zero h = (w, refl)
get_elem?_total (w ∷ ws) (suc i) h = get_elem?_total ws i (omega arith)

pub fresh_win-IsValid : (k : DevKey) → IsValid (fresh_win k)
unfolding fresh_win
fresh_win-IsValid k = omega arith

-- A new window is an empty ring.
win_get-AllValid :
    (devs : List DevWin) (k : DevKey) → AllValid devs → AllValid (win_get devs k true).1
win_get-AllValid devs k v = elim (Option-cases (find_key devs k)) [
  | inr (i, e) ↦ subst (λ x. AllValid x.1) (sym (win_get_known devs k i true e)) v
  | inl e ↦ elim (Option-cases (pick_slot 0 none devs)) [
    | inl p ↦ subst (λ x. AllValid x.1) (sym (win_get_full devs k e p)) v
    | inr (i, p) ↦
        subst (λ x. AllValid x.1) (sym (win_get_new devs k i e p))
          (AllValid-set devs i (fresh_win k) (fresh_win-IsValid k) v)
  ]
]

pub ingest_lem :
    (clock : ℕ → ℕ) (e : Engine) (evt : DiagEvent) (i : ℕ)
    → (win_get e.devs (event_key evt) true).0 ≡ some i
    → ingest clock e evt
      ≡ ingest_at clock (record e { devs = (win_get e.devs (event_key evt) true).1 }) evt i
unfolding ingest
ingest_lem clock e evt i h = ground arith

-- Every event keeps the engine well-formed.
pub ingest-IsWellFormed :
    (clock : ℕ → ℕ) (e : Engine) (evt : DiagEvent)
    → IsWellFormed e
    → IsWellFormed (ingest clock e evt)
ingest-IsWellFormed clock e evt h =
    let (i, bound, got) = win_get_lem e.devs (event_key evt) (omega (arith, h.sized)) h.distinct in
    let e' : Engine = record e { devs = (win_get e.devs (event_key evt) true).1 } in
    let (w, at) = get_elem?_total e'.devs i (omega (arith, got.same_size)) in
    rw (ingest_lem clock e evt i got.found) (
      ingest_at-IsWellFormed clock e' evt i w at (record {
        sized = got.same_size ∙ h.sized;
        distinct = got.distinct;
        valid = win_get-AllValid e.devs (event_key evt) h.valid;
      }))

pub zero_devs_lem :
    (n : ℕ) → (length (zero_devs n) ≡ n) × Distinct (zero_devs n) × AllValid (zero_devs n)
unfolding zero_devs zero_win
zero_devs_lem zero = (refl, tt, tt)
zero_devs_lem (suc n) =
    let (l, d, v) = zero_devs_lem n in (ap suc l, ((λ u. cc), d), (omega arith, v))

-- A new engine is well-formed.
pub create-IsWellFormed : (rules : List Rule) → IsWellFormed (create rules)
unfolding create
create-IsWellFormed rules =
    let (l, d, v) = zero_devs_lem win_max_devs in record { sized = l; distinct = d; valid = v }
