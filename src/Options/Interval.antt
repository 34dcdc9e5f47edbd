-- ===== src/Options/Interval.antt =====
-- The window of the report-rate meter.
use usbtrace.Common.{ℕ, ◌≡◌, ◌≤◌, ◌<◌, ◌*◌, ◌^◌, refl, arith, List, [], ◌∷◌}
use usbtrace.Common.Int.{ℤ, pos, negsuc}
use usbtrace.Cli.{filter_getopt}
use usbtrace.Options.{
  Round, next, asks_help, rejects, HidOptions, hid_round, hid_parse_args, parse_loop,
}

-- The rule of a loop of options: what each round keeps, the loop keeps.
parse_loop_keeps {ℓ κ} :
    {O : Type ℓ} (P : O → Type κ) (round : ℕ → List ℕ → O → Round O)
    → ((c : ℕ) (arg : List ℕ) (o o' : O) → P o → round c arg o ≡ next o' → P o')
    → (cs : List (ℕ × List ℕ)) (o : O) → P o
    → P (parse_loop round cs o).1
unfolding parse_loop
parse_loop_keeps {O = O} P round keep [] o h = h
parse_loop_keeps {O = O} P round keep ((c, arg) ∷ cs) o h =
    go (round c arg o) (λ o' e. parse_loop_keeps P round keep cs o' (keep c arg o o' h e)) refl
  where
    go :
        (r : Round O)
        → ((o' : O) → round c arg o ≡ next o' → P (parse_loop round cs o').1)
        → round c arg o ≡ r
        → P
            (elim r as (λ _. ℤ × O) [
              | next o' ↦ parse_loop round cs o'
              | asks_help ↦ (pos 1, o)
              | rejects ↦ (negsuc 0, o)
            ]).1
    go (next o') k e = k o' e
    go asks_help k e = h
    go rejects k e = h

-- The length of the window in seconds is one that the option allows.
abbrev pub IsInterval : HidOptions → Type 0
IsInterval o = (1 ≤ o.rate_sec) × (o.rate_sec ≤ 3600)

hid_round-IsInterval :
    (strtoul : List ℕ → ℕ) (c : ℕ) (arg : List ℕ) (o o' : HidOptions)
    → IsInterval o
    → hid_round strtoul c arg o ≡ next o'
    → IsInterval o'
unfolding filter_getopt
hid_round-IsInterval strtoul c arg o o' h e = ground (arith, h, e)

-- Whatever the command line, also one that is rejected half-way, the window of the report-rate meter
-- stays between one second and an hour, so that it is never empty and its length in nanoseconds
-- fits 64 bits.
pub hid_parse_args-IsInterval :
    (strtoul : List ℕ → ℕ) (cs : List (ℕ × List ℕ)) (o : HidOptions)
    → IsInterval o
    → IsInterval (hid_parse_args strtoul cs o).1
      × ((hid_parse_args strtoul cs o).1.rate_sec * 1000 * 1000 * 1000 < 2 ^ 64)
unfolding hid_parse_args
hid_parse_args-IsInterval strtoul cs o h =
    let (low, high) =
      parse_loop_keeps IsInterval (hid_round strtoul) (hid_round-IsInterval strtoul) cs o h in
    ((low, high), omega (arith, high))
