-- ===== src/Options.antt =====
-- The option parsers of the modules: urb_parse_args, hid_parse_args and diag_parse_args, over what
-- `getopt_long` reports, each option with its argument.
pub mod Interval
mod Tests
use usbtrace.Common.{
  ℕ, Bool, true, false, List, [], ◌∷◌, Option, none, some, if◌then◌else◌, ◌==◌, ◌||◌, ltb,
}
use usbtrace.Common.Int.{ℤ, pos, negsuc}
use usbtrace.Common.Word.{u32}
use usbtrace.Cli.{Filter, filter_getopt}

-- One round of the `switch`: the next options, a request for help, or an error.
pub data Round {ℓ} (O : Type ℓ) : Type ℓ where
  next : O → Round O
  asks_help : Round O
  rejects : Round O

-- The loop over the options: 0, 1 for help, -1 for an error.
unfoldable pub parse_loop {ℓ} :
    {O : Type ℓ} → (ℕ → List ℕ → O → Round O) → List (ℕ × List ℕ) → O → ℤ × O
parse_loop round [] o = (pos 0, o)
parse_loop round ((c, arg) ∷ rest) o = elim (round c arg o) [
  | next o' ↦ parse_loop round rest o'
  | asks_help ↦ (pos 1, o)
  | rejects ↦ (negsuc 0, o)
]

-- `opts` of urb.c.
pub record UrbOptions : Type 0 where
  pub filt : Filter
  pub emit_submit : Bool
  pub ctrl_only : Bool

-- The static variables of hid.c that are options; `all` is `g_ctx.all`.
pub record HidOptions : Type 0 where
  pub filt : Filter
  pub all : Bool
  pub rate : Bool
  pub rate_sec : ℕ

-- `opts` of diag.c.
pub record DiagOptions : Type 0 where
  pub filt : Filter
  pub rules_path : Option (List ℕ)

-- `strtoul` of the C library, at base 0, is a parameter.
module _ (strtoul : List ℕ → ℕ) where
  abbrev pub urb_round : ℕ → List ℕ → UrbOptions → Round UrbOptions
  urb_round c arg o =
      let (consumed, filt) = filter_getopt strtoul c arg o.filt in
      if consumed
      then next (record o { filt = filt })
      else if c == b's'
      then next (record o { emit_submit = true })
      else if c == b'c'
      then next (record o { ctrl_only = true })
      else if c == b'h'
      then asks_help
      else rejects

  unfoldable pub urb_parse_args : List (ℕ × List ℕ) → UrbOptions → ℤ × UrbOptions
  urb_parse_args = parse_loop urb_round

  -- The case `--interval`.
  abbrev pub interval_round : ℕ → HidOptions → Round HidOptions
  interval_round v o =
      if v == 0 || ltb 3600 v then rejects else next (record o { rate_sec = u32 v })

  abbrev pub hid_round : ℕ → List ℕ → HidOptions → Round HidOptions
  hid_round c arg o =
      let (consumed, filt) = filter_getopt strtoul c arg o.filt in
      if consumed
      then next (record o { filt = filt })
      else if c == b'a'
      then next (record o { all = true })
      else if c == b'R'
      then next (record o { rate = true })
      else if c == b'N'
      then next (record o { rate = false })
      else if c == b'I'
      then interval_round (strtoul arg) o
      else if c == b'h'
      then asks_help
      else rejects

  unfoldable pub hid_parse_args : List (ℕ × List ℕ) → HidOptions → ℤ × HidOptions
  hid_parse_args = parse_loop hid_round

  abbrev pub diag_round : ℕ → List ℕ → DiagOptions → Round DiagOptions
  diag_round c arg o =
      let (consumed, filt) = filter_getopt strtoul c arg o.filt in
      if consumed
      then next (record o { filt = filt })
      else if c == b'r'
      then next (record o { rules_path = some arg })
      else if c == b'h'
      then asks_help
      else rejects

  unfoldable pub diag_parse_args : List (ℕ × List ℕ) → DiagOptions → ℤ × DiagOptions
  diag_parse_args = parse_loop diag_round
