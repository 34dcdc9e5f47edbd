-- ===== src/Diag/Eval/Cooldown.antt =====
-- What one question to the cooldown of a rule does.
use usbtrace.Common.{ℕ, ◌+◌, ◌^◌, ◌≤◌, ◌<◌, ◌≡◌, ◌≢◌, List, [], ◌∷◌, arith, true, false, ◌⊎◌}
use usbtrace.Diag.Window.{DevWin, cooldown_ns}
use usbtrace.Diag.Eval.{cooldown_ok}

-- Each time is at least the cooldown after the one before it; 0 stands for none.
abbrev pub Spaced : ℕ → List ℕ → Type 0
Spaced t [] = Unit {0}
Spaced t (now ∷ rest) = (t ≢ 0 → t + cooldown_ns ≤ now) × Spaced now rest

-- What one question to the cooldown does.
pub cooldown_cases :
    (w : DevWin) (ri now : ℕ)
    → w.last_fire_ns ri ≤ now
    → now < 2 ^ 64
    → (((cooldown_ok w ri now).1 ≡ true)
        × ((cooldown_ok w ri now).0.last_fire_ns ri ≡ now)
        × (w.last_fire_ns ri ≢ 0 → w.last_fire_ns ri + cooldown_ns ≤ now))
      ⊎ (((cooldown_ok w ri now).1 ≡ false)
          × ((cooldown_ok w ri now).0.last_fire_ns ri ≡ w.last_fire_ns ri))
unfolding cooldown_ok
cooldown_cases w ri now h k = ground arith

-- It does not touch the times of the other rules.
pub cooldown_ok_ne :
    (w : DevWin) (rj ri now : ℕ)
    → rj ≢ ri
    → (cooldown_ok w rj now).0.last_fire_ns ri ≡ w.last_fire_ns ri
unfolding cooldown_ok
cooldown_ok_ne w rj ri now n = ground (arith, n)
