-- ===== src/Options/Tests.antt =====
-- Command lines of the hid and urb modules; every argument reads as 10.
use usbtrace.Common.{ℕ, ◌≡◌, refl, true, false, List, [], ◌∷◌, codes}
use usbtrace.Common.Int.{pos, negsuc}
use usbtrace.Cli.{filter_getopt}
use usbtrace.Options.{HidOptions, parse_loop, hid_parse_args, urb_parse_args}

abbrev ten : List ℕ → ℕ
ten arg = 10

abbrev defaults : HidOptions
defaults = record { filt = record { vid = 0; product = 0 }; all = false; rate = true; rate_sec = 5 }

abbrev line : List (ℕ × List ℕ)
line = (b'N', []) ∷ (b'I', codes "10") ∷ (b'?', []) ∷ []

rejected_late :
    hid_parse_args ten line defaults ≡ (negsuc 0, record defaults { rate = false; rate_sec = 10 })
unfolding hid_parse_args parse_loop filter_getopt
rejected_late = refl

help_asked :
    (urb_parse_args ten
      ((b'c', []) ∷ (b'h', []) ∷ [])
      (record { filt = record { vid = 0; product = 0 }; emit_submit = false; ctrl_only = false })).0
    ≡ pos 1
unfolding urb_parse_args parse_loop filter_getopt
help_asked = refl
