-- ===== src/Diag/Window/Recent.antt =====
-- The event ring of a window holds the last 1024 events of the device, newest first.
use usbtrace.Common.{
  ℕ, zero, suc, ◌+◌, ◌%◌, ◌≤◌, ◌<◌, ◌≡◌, ◌≢◌, refl, sym, ap, ◌∙◌, List, [], ◌∷◌, arith, take, min,
  ap₂, update_ne, update_self, length,
}
use usbtrace.Diag.Event.{DiagEvent}
use usbtrace.Diag.Window.{DevWin, win_max_events, win_push, win_pos, win_at}

-- `n` events of the window from age `idx` on.
unfoldable pub events_from : DevWin → ℕ → ℕ → List DiagEvent
events_from w idx zero = []
events_from w idx (suc n) = win_at w idx ∷ events_from w (suc idx) n

-- All events of the window, in the order in which `eval_when` visits them.
unfoldable pub recent : DevWin → List DiagEvent
unfolding events_from
recent w = events_from w 0 w.count

-- Head and count stay within the array, and the states within nine bits.
pub record IsValid (w : DevWin) : Type 0 where
  pub head_in : w.head < win_max_events
  pub count_in : w.count ≤ win_max_events
  pub states_in : w.seen_states < 512

length-events_from : (w : DevWin) (i n : ℕ) → length (events_from w i n) ≡ n
unfolding events_from
length-events_from w i zero = refl
length-events_from w i (suc n) = ap suc (length-events_from w (suc i) n)

pub length-recent : (w : DevWin) → length (recent w) ≡ w.count
unfolding recent
length-recent w = length-events_from w 0 w.count

-- A push moves each event one step further into the past.
win_at-push :
    (w : DevWin) (e : DiagEvent) (i : ℕ)
    → IsValid w
    → i < 1023
    → win_at (win_push w e) (suc i) ≡ win_at w i
unfolding win_at win_push
win_at-push w e i v h =
    ap (λ p. (win_push w e).ev p) same ∙ update_ne w.ev w.head (win_pos w.head i) e other
  where
    same : win_pos ((w.head + 1) % 1024) (suc i) ≡ win_pos w.head i
    same = omega arith

    other : win_pos w.head i ≢ w.head
    other = omega arith

win_at-push_newest : (w : DevWin) (e : DiagEvent) → IsValid w → win_at (win_push w e) 0 ≡ e
unfolding win_at win_push
win_at-push_newest w e v = ap (λ p. (win_push w e).ev p) same ∙ update_self w.ev w.head e
  where
    same : win_pos ((w.head + 1) % 1024) 0 ≡ w.head
    same = omega arith

events_from-push :
    (w : DevWin) (e : DiagEvent) (i n : ℕ)
    → IsValid w
    → i + n ≤ 1023
    → events_from (win_push w e) (suc i) n ≡ events_from w i n
unfolding events_from
events_from-push w e i zero v h = refl
events_from-push w e i (suc n) v h =
    ap₂ ◌∷◌ (win_at-push w e i v (omega arith)) (events_from-push w e (suc i) n v (omega arith))

take-events_from : (w : DevWin) (i k n : ℕ) → take k (events_from w i n) ≡ events_from w i (min k n)
unfolding events_from
take-events_from w i zero n = ap (events_from w i) (sym none_left)
  where
    none_left : min 0 n ≡ 0
    none_left = omega arith
take-events_from w i (suc k) zero = ap (events_from w i) (sym none_left)
  where
    none_left : min (suc k) 0 ≡ 0
    none_left = omega arith
take-events_from w i (suc k) (suc n) =
    ap (◌∷◌ (win_at w i)) (take-events_from w (suc i) k n) ∙ ap (events_from w i) (sym one_more)
  where
    one_more : min (suc k) (suc n) ≡ suc (min k n)
    one_more = omega arith

-- The count after a push: one more, up to the size of the ring.
count-push :
    (w : DevWin) (e : DiagEvent) → IsValid w → (win_push w e).count ≡ suc (min 1023 w.count)
unfolding win_push
count-push w e v = ground arith

-- A push puts the event in front and keeps the 1023 newest of the rest.
pub recent-push :
    (w : DevWin) (e : DiagEvent) → IsValid w → recent (win_push w e) ≡ e ∷ take 1023 (recent w)
unfolding recent
recent-push w e v =
    ap (events_from (win_push w e) 0) (count-push w e v)
    ∙ (ap₂ ◌∷◌ (win_at-push_newest w e v) (
        events_from-push w e 0 (min 1023 w.count) v (omega arith)
        ∙ sym (take-events_from w 0 1023 w.count)))

pub win_push-IsValid : (w : DevWin) (e : DiagEvent) → IsValid w → IsValid (win_push w e)
unfolding win_push
win_push-IsValid w e v = ground arith

-- Every index that `win_push` and `win_at` use lies in the array.
pub win_pos_bounds : (w : DevWin) (i : ℕ) → (win_pos w.head i < win_max_events)
win_pos_bounds w i = omega arith
