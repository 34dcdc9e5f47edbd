-- ===== src/Diag/Engine/Ingest.antt =====
-- What an event does to the windows: it joins the history of its own device, and no other device
-- that stays in the table notices.
use usbtrace.Common.{
  ℕ, zero, suc, ◌≡◌, ◌≢◌, refl, ap, ap₂, ◌∙◌, ◌∷◌, arith, true, some, take, get_elem?, set,
  get_elem?-set_self, get_elem?-set_ne,
}
use usbtrace.Diag.Event.{DiagEvent, event_key}
use usbtrace.Diag.Window.{DevWin, win_at, win_push, find_key}
use usbtrace.Diag.Window.Recent.{IsValid, recent, events_from, recent-push}
use usbtrace.Diag.Window.Table.{win_get_known, find_key-Holds, lt_of_Holds}
use usbtrace.Diag.Window.Fades.{AllValid-get}
use usbtrace.Diag.Engine.{Engine, track_state, observe, ingest, ingest_at}
use usbtrace.Diag.Engine.WellFormed.{
  IsWellFormed, identified, observe_lem, ingested, ingest_lem, ingest_at_lem, ingest_rules-SameRing,
}

events_from_same :
    (w w' : DevWin) (i n : ℕ)
    → w'.ev ≡ w.ev
    → w'.head ≡ w.head
    → events_from w' i n ≡ events_from w i n
unfolding events_from win_at
events_from_same w w' i zero p q = refl
events_from_same w w' i (suc n) p q = ap₂ ◌∷◌ (rw (p, q)) (events_from_same w w' (suc i) n p q)

recent_same :
    (w w' : DevWin) → w'.ev ≡ w.ev → w'.head ≡ w.head → w'.count ≡ w.count → recent w' ≡ recent w
unfolding recent
recent_same w w' p q r = ap (events_from w' 0) r ∙ events_from_same w w' 0 w.count p q

track_state-recent : (w : DevWin) (e : DiagEvent) → recent (track_state w e) ≡ recent w
unfolding track_state
track_state-recent w e =
    recent_same w (track_state w e) (ground arith) (ground arith) (ground arith)

-- The device's history after the event.
ingested-recent :
    (clock : ℕ → ℕ) (e : Engine) (evt : DiagEvent) (w : DevWin)
    → IsValid w
    → recent (ingested clock e evt w).0 ≡ evt ∷ take 1023 (recent w)
ingested-recent clock e evt w v =
    let s = ingest_rules-SameRing clock evt 0 e.rules (observe w evt) e.tally in
    let ready : IsValid (identified w evt) = omega (arith, v.head_in, v.count_in, v.states_in) in
    recent_same (observe w evt) (ingested clock e evt w).0 s.ev_same s.head_same s.count_same
    ∙ ap recent (observe_lem w evt)
    ∙ track_state-recent (win_push (identified w evt) evt) evt
    ∙ recent-push (identified w evt) evt ready
    ∙ ap (λ h. evt ∷ take 1023 h) (recent_same w (identified w evt) refl refl refl)

-- An event of a known device: its window now holds the event and the 1023 newest before it, and
-- every other slot of the table is as it was.
pub ingest_known :
    (clock : ℕ → ℕ) (e : Engine) (evt : DiagEvent) (i : ℕ) (w : DevWin)
    → IsWellFormed e
    → find_key e.devs (event_key evt) ≡ some i
    → get_elem? e.devs i ≡ some w
    → ((w' : DevWin) × (get_elem? (ingest clock e evt).devs i ≡ some w')
        × (recent w' ≡ evt ∷ take 1023 (recent w)))
      × ((j : ℕ) → i ≢ j → get_elem? (ingest clock e evt).devs j ≡ get_elem? e.devs j)
ingest_known clock e evt i w h found at =
    let got = win_get_known e.devs (event_key evt) i true found in
    let w' = (ingested clock e evt w).0 in
    let after : (ingest clock e evt).devs ≡ set e.devs i w' =
      ap (λ x. x.devs)
        (ingest_lem clock e evt i (ap (λ x. x.0) got)
          ∙ ap (λ x. ingest_at clock (record e { devs = x.1 }) evt i) got
          ∙ ingest_at_lem clock e evt i w at) in
    let bound =
      lt_of_Holds e.devs (event_key evt) i (find_key-Holds e.devs (event_key evt) i found) in
    (
      (
        w',
        ap (λ x. get_elem? x i) after ∙ get_elem?-set_self e.devs i w' bound,
        ingested-recent clock e evt w (AllValid-get e.devs i w at h.valid),
      ),
      λ j n. ap (λ x. get_elem? x j) after ∙ get_elem?-set_ne e.devs w' n,
    )
