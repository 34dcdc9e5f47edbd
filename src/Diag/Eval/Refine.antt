-- ===== src/Diag/Eval/Refine.antt =====
-- The loop of `eval_when` computes what Spec says: by the loop on a list, then on the matching
-- events, then field by field.
use usbtrace.Common.{
  ℕ, zero, suc, ◌+◌, ◌-◌, ◌^◌, ◌<◌, min, max, ◌≡◌, refl, sym, ap, ap₂, ◌∙◌, List, [], ◌∷◌, ◌++◌,
  arith, Bool, true, false, if◌then◌else◌, ◌&&◌, ◌||◌, ltb, ◌==◌, length, take, inl, inr,
  Bool-cases, tests, ==_iff, length-append, take-nil,
}
use mathlib.Core.List.{append_assoc, append-nil}
use native.Mathlib.Nat.{zero-add}
use usbtrace.Common.Word.{sub_u64}
use usbtrace.Diag.Event.{DiagEvent}
use usbtrace.Diag.Rule.{Cond}
use usbtrace.Diag.Window.{DevWin, win_at, max_evidence}
use usbtrace.Diag.Window.Recent.{recent, events_from}
use usbtrace.Diag.Eval.{
  ms_to_ns, cluster_of, in_lookback, Scan, take_event, visit, scan_from, scan_start, conclude,
  eval_when,
}
use usbtrace.Diag.Eval.Spec.{matching, leaders_after, episodes, earliest, latest, spans}

-- The loop goes over the events of the window, newest first.
scan_list : Cond → ℕ → Scan → List DiagEvent → Scan
scan_list c ref_ns s [] = s
scan_list c ref_ns s (x ∷ xs) = scan_list c ref_ns (visit c ref_ns s x) xs

scan_from-events_from :
    (w : DevWin) (c : Cond) (ref_ns : ℕ) (s : Scan) (i n : ℕ)
    → scan_from w c ref_ns s i n ≡ scan_list c ref_ns s (events_from w i n)
unfolding scan_from scan_list events_from
scan_from-events_from w c ref_ns s i zero = refl
scan_from-events_from w c ref_ns s i (suc n) =
    scan_from-events_from w c ref_ns (visit c ref_ns s (win_at w i)) (suc i) n

-- The loop visits the matching events only.
take_all : ℕ → Scan → List DiagEvent → Scan
take_all gap s [] = s
take_all gap s (x ∷ xs) = take_all gap (take_event gap s x) xs

visit_lem :
    (c : Cond) (ref_ns : ℕ) (s : Scan) (x : DiagEvent)
    → visit c ref_ns s x ≡ (if in_lookback c ref_ns x then take_event (cluster_of c) s x else s)
unfolding visit
visit_lem c ref_ns s x = refl

scan_list-matching :
    (c : Cond) (ref_ns : ℕ) (s : Scan) (xs : List DiagEvent)
    → scan_list c ref_ns s xs ≡ take_all (cluster_of c) s (matching c ref_ns xs)
unfolding scan_list matching take_all
scan_list-matching c ref_ns s [] = refl
scan_list-matching c ref_ns s (x ∷ xs) = elim (Bool-cases (in_lookback c ref_ns x)) [
  | inl e ↦
      rw (visit_lem c ref_ns s x, e)
        (scan_list-matching c ref_ns (take_event (cluster_of c) s x) xs)
  | inr e ↦ rw (visit_lem c ref_ns s x, e) (scan_list-matching c ref_ns s xs)
]

-- What one taken event adds to the evidence.
abbrev push_evidence : List DiagEvent → DiagEvent → List DiagEvent
push_evidence ev x = if ltb (length ev) max_evidence then ev ++ (x ∷ []) else ev

-- The room that is left in the evidence.
abbrev pub room : List DiagEvent → ℕ
room ev = max_evidence - length ev

push_evidence-take :
    (ev : List DiagEvent) (x : DiagEvent) (xs : List DiagEvent)
    → push_evidence ev x ++ take (room (push_evidence ev x)) xs ≡ ev ++ take (room ev) (x ∷ xs)
push_evidence-take ev x xs = elim (Bool-cases (ltb (length ev) max_evidence)) [
  | inl e ↦ rw e (append_assoc ev (x ∷ []) _ ∙ ap (λ k. ev ++ k) (fits e))
  | inr e ↦ rw e (ap (λ k. ev ++ k) (full e))
]
  where
    fits :
        ltb (length ev) max_evidence ≡ true
        → (x ∷ take (room (ev ++ (x ∷ []))) xs) ≡ take (room ev) (x ∷ xs)
    fits e =
        ap (λ n. x ∷ take n xs) (omega (tests, ==_iff, length-append {0} ev (x ∷ [])))
        ∙ sym (ap (λ n. take n (x ∷ xs)) (one_more e))
      where
        one_more : ltb (length ev) max_evidence ≡ true → room ev ≡ suc (5 - length ev)
        one_more t = omega tests

    full : ltb (length ev) max_evidence ≡ false → take (room ev) xs ≡ take (room ev) (x ∷ xs)
    full e =
        let none_left : room ev ≡ 0 = omega tests in
        ap (λ n. take n xs) none_left ∙ sym (ap (λ n. take n (x ∷ xs)) none_left)

take_event_counts :
    (gap : ℕ) (s : Scan) (x : DiagEvent)
    → ((take_event gap s x).cnt ≡ s.cnt + 1)
      × ((take_event gap s x).oldest ≡ min x.ts_ns s.oldest)
      × ((take_event gap s x).newest ≡ max x.ts_ns s.newest)
unfolding take_event
take_event_counts gap s x = (refl, ground arith, ground arith)

take_event_plain :
    (s : Scan) (x : DiagEvent) → (take_event 0 s x).evidence ≡ push_evidence s.evidence x
unfolding take_event
take_event_plain s x = refl

-- One taken event where a cluster is open.
take_event_led :
    (gap : ℕ) (s : Scan) (x : DiagEvent)
    → 0 < gap
    → 0 < s.nclus
    → let far = ltb gap (sub_u64 s.prev_ts x.ts_ns) in
      ((take_event gap s x).nclus ≡ (if far then s.nclus + 1 else s.nclus))
      × ((take_event gap s x).prev_ts ≡ x.ts_ns)
      × ((take_event gap s x).evidence ≡ (if far then push_evidence s.evidence x else s.evidence))
unfolding take_event
take_event_led gap s x g n = (ground arith, ground arith, ground arith)

-- The first taken event opens a cluster.
take_event_first :
    (gap : ℕ) (s : Scan) (x : DiagEvent)
    → 0 < gap
    → s.nclus ≡ 0
    → ((take_event gap s x).nclus ≡ 1)
      × ((take_event gap s x).prev_ts ≡ x.ts_ns)
      × ((take_event gap s x).evidence ≡ push_evidence s.evidence x)
unfolding take_event
take_event_first gap s x g n = (ground arith, ground arith, ground arith)

-- The count and the time bounds after the matching events.
take_all-counts :
    (gap : ℕ) (s : Scan) (ms : List DiagEvent)
    → ((take_all gap s ms).cnt ≡ s.cnt + length ms)
      × ((take_all gap s ms).oldest ≡ earliest s.oldest ms)
      × ((take_all gap s ms).newest ≡ latest s.newest ms)
unfolding take_all earliest latest
take_all-counts gap s [] = (omega arith, refl, refl)
take_all-counts gap s (x ∷ ms) =
    let (n, o, l) = take_all-counts gap (take_event gap s x) ms in
    let (cnt, oldest, newest) = take_event_counts gap s x in
    (omega (arith, n, cnt), o ∙ ap (λ t. earliest t ms) oldest, l ∙ ap (λ t. latest t ms) newest)

-- With no clustering each matching event goes into the evidence, while there is room.
take_all-evidence :
    (s : Scan) (ms : List DiagEvent)
    → (take_all 0 s ms).evidence ≡ s.evidence ++ take (room s.evidence) ms
unfolding take_all
take_all-evidence s [] =
    sym (ap (λ k. s.evidence ++ k) (take-nil (room s.evidence)) ∙ append-nil s.evidence)
take_all-evidence s (x ∷ ms) =
    take_all-evidence (take_event 0 s x) ms
    ∙ ap (λ k. k ++ take (room k) ms) (take_event_plain s x)
    ∙ push_evidence-take s.evidence x ms

-- An open cluster stays open.
take_event_opened :
    (gap : ℕ) (s : Scan) (x : DiagEvent) → 0 < gap → 0 < s.nclus → 0 < (take_event gap s x).nclus
unfolding take_event
take_event_opened gap s x g n = ground arith

-- With clustering only those that open a cluster are counted and kept.
take_all-leaders :
    (gap : ℕ) (s : Scan) (ms : List DiagEvent)
    → 0 < gap
    → 0 < s.nclus
    → let leaders = leaders_after gap s.prev_ts ms in
      ((take_all gap s ms).nclus ≡ s.nclus + length leaders)
      × ((take_all gap s ms).evidence ≡ s.evidence ++ take (room s.evidence) leaders)
unfolding take_all leaders_after
take_all-leaders gap s [] g n = (
  omega arith,
  sym (ap (λ k. s.evidence ++ k) (take-nil (room s.evidence)) ∙ append-nil s.evidence),
)
take_all-leaders gap s (x ∷ ms) g n =
    let (nclus, prev_ts, evidence) = take_event_led gap s x g n in
    let (total, kept) =
      take_all-leaders gap (take_event gap s x) ms g (take_event_opened gap s x g n) in
    let counted = total ∙ ap₂ (λ a t. a + length (leaders_after gap t ms)) nclus prev_ts in
    let shown = kept ∙ ap₂ (λ v t. v ++ take (room v) (leaders_after gap t ms)) evidence prev_ts in
    elim (Bool-cases (ltb gap (sub_u64 s.prev_ts x.ts_ns))) [
      | inl e ↦ (
        counted ∙ rw e (omega arith),
        shown ∙ rw e (push_evidence-take s.evidence x (leaders_after gap x.ts_ns ms)),
      )
      | inr e ↦ (counted ∙ rw e, shown ∙ rw e)
    ]

-- From the start of the loop on, with clustering.
take_all-episodes :
    (gap : ℕ) (ev ms : List DiagEvent)
    → 0 < gap
    → ((take_all gap (scan_start ev) ms).nclus ≡ length (episodes gap ms))
      × ((take_all gap (scan_start ev) ms).evidence ≡ ev ++ take (room ev) (episodes gap ms))
unfolding take_all episodes
take_all-episodes gap ev [] g = (refl, sym (ap (λ k. ev ++ k) (take-nil (room ev)) ∙ append-nil ev))
take_all-episodes gap ev (x ∷ ms) g =
    let (nclus, prev_ts, evidence) = take_event_first gap (scan_start ev) x g refl in
    let (total, kept) =
      take_all-leaders gap (take_event gap (scan_start ev) x) ms g (omega (arith, nclus)) in
    let clustered : (gap == 0) ≡ false = ground arith in
    rw clustered (
      total ∙ ap₂ (λ a t. a + length (leaders_after gap t ms)) nclus prev_ts ∙ omega arith,
      kept
          ∙ ap₂ (λ v t. v ++ take (room v) (leaders_after gap t ms)) evidence prev_ts
          ∙ push_evidence-take ev x (leaders_after gap x.ts_ns ms),
    )

episodes_plain : (ms : List DiagEvent) → episodes 0 ms ≡ ms
unfolding episodes
episodes_plain [] = refl
episodes_plain (x ∷ ms) = refl

-- After the loop: the number of episodes and the evidence, as `cluster_of` decides.
take_all_result :
    (gap : ℕ) (ev ms : List DiagEvent)
    → let s = take_all gap (scan_start ev) ms in
      ((if gap == 0 then s.cnt else s.nclus) ≡ length (episodes gap ms))
      × (s.evidence ≡ ev ++ take (room ev) (episodes gap ms))
take_all_result gap ev ms = elim (Bool-cases (gap == 0)) [
  | inl e ↦
      let none_set : gap ≡ 0 = (==_iff gap 0).0 e in
      rw none_set (
        (take_all-counts 0 (scan_start ev) ms).0
            ∙ zero-add (length ms)
            ∙ sym (ap length (episodes_plain ms)),
        take_all-evidence (scan_start ev) ms
            ∙ sym (ap (λ k. ev ++ take (room ev) k) (episodes_plain ms)),
      )
  | inr e ↦ rw e (take_all-episodes gap ev ms (ground arith))
]

scan_from-take_all :
    (w : DevWin) (c : Cond) (ref_ns : ℕ) (ev : List DiagEvent)
    → scan_from w c ref_ns (scan_start ev) 0 w.count
      ≡ take_all (cluster_of c) (scan_start ev) (matching c ref_ns (recent w))
unfolding recent
scan_from-take_all w c ref_ns ev =
    scan_from-events_from w c ref_ns (scan_start ev) 0 w.count
    ∙ scan_list-matching c ref_ns (scan_start ev) (events_from w 0 w.count)

-- `conclude` reads the scan through four numbers only.
conclude_lem :
    (c : Cond) (ev : List DiagEvent) (s : Scan) (n o l : ℕ) (kept : List DiagEvent)
    → (if cluster_of c == 0 then s.cnt else s.nclus) ≡ n
    → s.oldest ≡ o
    → s.newest ≡ l
    → s.evidence ≡ kept
    → conclude c ev s ≡ (
        if c.has_min_span_ms && (ltb n 2 || ltb (sub_u64 l o) (ms_to_ns c.min_span_ms))
        then (0, ev)
        else (n, kept))
unfolding conclude
conclude_lem c ev s n o l kept p q r t = rw (← p, ← q, ← r, ← t)

if_swap {ℓ} :
    {A : Type ℓ} (b : Bool) (x y : A)
    → (if b then x else y) ≡ (if (if b then false else true) then y else x)
if_swap true x y = refl
if_swap false x y = refl

eval_when-conclude :
    (w : DevWin) (c : Cond) (ref_ns : ℕ) (ev : List DiagEvent)
    → eval_when w c ref_ns ev ≡ conclude c ev (scan_from w c ref_ns (scan_start ev) 0 w.count)
unfolding eval_when
eval_when-conclude w c ref_ns ev = refl

-- `eval_when` returns the number of episodes among the matching events of the window, and adds the
-- first of them to the evidence up to six entries; if the condition asks for a span, and
-- the matching events fall short of it or make up fewer than two episodes, it returns 0 and leaves
-- the evidence as it was.
pub eval_when_lem :
    (w : DevWin) (c : Cond) (ref_ns : ℕ) (ev : List DiagEvent)
    → let ms = matching c ref_ns (recent w) in
      let found = episodes (cluster_of c) ms in
      eval_when w c ref_ns ev
      ≡ (if spans c ms (length found) then (length found, ev ++ take (room ev) found) else (0, ev))
unfolding spans
eval_when_lem w c ref_ns ev =
    let ms = matching c ref_ns (recent w) in
    let found = episodes (cluster_of c) ms in
    let (n, kept) = take_all_result (cluster_of c) ev ms in
    let (_, o, l) = take_all-counts (cluster_of c) (scan_start ev) ms in
    let short =
      c.has_min_span_ms
      && (ltb (length found) 2
          || ltb (sub_u64 (latest 0 ms) (earliest (2 ^ 64 - 1) ms)) (ms_to_ns c.min_span_ms)) in
    eval_when-conclude w c ref_ns ev
    ∙ ap (conclude c ev) (scan_from-take_all w c ref_ns ev)
    ∙ conclude_lem c ev (take_all (cluster_of c) (scan_start ev) ms) (length found)
        (earliest (2 ^ 64 - 1) ms) (latest 0 ms) (ev ++ take (room ev) found) n o l kept
    ∙ if_swap short (0, ev) (length found, ev ++ take (room ev) found)
