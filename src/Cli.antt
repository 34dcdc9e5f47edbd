-- ===== src/Cli.antt =====
-- src/usbtrace_cli.c: JSON escaping, the option filter and the speed names. A C string is the list
-- of its bytes before the NUL.
pub mod Escape
mod Tests
use usbtrace.Common.{
  ℕ, ◌+◌, ◌/◌, ◌%◌, Bool, true, false, List, [], ◌∷◌, ◌++◌, Option, none, some, if◌then◌else◌, ◌==◌,
  ◌||◌, ◌&&◌, ltb, not, length, codes,
}
use usbtrace.Common.Int.{ℤ, pos, negsuc}
use usbtrace.Common.Word.{u32}

-- A digit of `%04x`.
abbrev pub hex_digit : ℕ → ℕ
hex_digit d = if ltb d 10 then d + b'0' else d + 87

-- The bytes that the `switch` of `usbtrace_json_escape` writes for a byte.
unfoldable pub escape_byte : ℕ → List ℕ
escape_byte c =
    if c == b'"' || c == 92
    then 92 ∷ c ∷ []
    else if c == 10
    then 92 ∷ b'n' ∷ []
    else if c == 9
    then 92 ∷ b't' ∷ []
    else if c == 13
    then 92 ∷ b'r' ∷ []
    else if ltb c 32
    then 92 ∷ b'u' ∷ b'0' ∷ b'0' ∷ hex_digit (c / 16) ∷ hex_digit (c % 16) ∷ []
    else c ∷ []

-- Does the byte take the `\uXXXX` form?
abbrev pub is_control : ℕ → Bool
is_control c = ltb c 32 && not (c == 10 || c == 9 || c == 13)

-- The loop test `o + 2 < dstsz`, and the test `o + 6 >= dstsz` of the `\uXXXX` form.
unfoldable pub fits : ℕ → ℕ → ℕ → Bool
unfolding escape_byte
fits dstsz o c = ltb (o + 2) dstsz && (if is_control c then ltb (o + 6) dstsz else true)

-- The loop with `o` bytes written: what it writes from there on.
unfoldable pub escape_from : ℕ → ℕ → List ℕ → List ℕ
unfolding fits escape_byte
escape_from dstsz o [] = []
escape_from dstsz o (c ∷ cs) =
    let rest = escape_from dstsz (o + length (escape_byte c)) cs in
    if fits dstsz o c then escape_byte c ++ rest else []

-- `usbtrace_json_escape`: the string in `dst`; `none` if there is no room for the NUL and `dst` is
-- left as it is.
unfoldable pub json_escape : List ℕ → ℕ → Option (List ℕ)
unfolding escape_from
json_escape src dstsz = if dstsz == 0 then none else some (escape_from dstsz 0 src)

-- `struct usbtrace_filter`.
pub record Filter : Type 0 where
  pub vid : ℕ
  pub product : ℕ

abbrev pub opt_vid : ℕ
opt_vid = 0x1001

abbrev pub opt_pid : ℕ
opt_pid = 0x1002

-- `strtoul` of the C library, at base 0, is a parameter.
module _ (strtoul : List ℕ → ℕ) where
  -- `usbtrace_filter_getopt`: was the option consumed, and the filter.
  unfoldable pub filter_getopt : ℕ → List ℕ → Filter → Bool × Filter
  filter_getopt optchar arg f =
      if optchar == opt_vid
      then (true, record f { vid = u32 (strtoul arg) })
      else if optchar == opt_pid
      then (true, record f { product = u32 (strtoul arg) })
      else (false, f)

  -- The loop of `usbtrace_filter_parse` over the options that `getopt_long` reports, each with its
  -- argument: 0 for a good command line, 1 for a request for help, -1 for anything else.
  unfoldable pub filter_parse : List (ℕ × List ℕ) → Filter → ℤ × Filter
  unfolding filter_getopt
  filter_parse [] f = (pos 0, f)
  filter_parse ((c, arg) ∷ rest) f =
      let (consumed, f') = filter_getopt c arg f in
      let next = filter_parse rest f' in
      if consumed then next else if c == b'h' then (pos 1, f') else (negsuc 0, f')

-- `usbtrace_speed_str`.
unfoldable pub speed_str : ℕ → List ℕ
speed_str speed =
    if speed == 1
    then codes "low"
    else if speed == 2
    then codes "full"
    else if speed == 3
    then codes "high"
    else if speed == 4
    then codes "wireless"
    else if speed == 5
    then codes "super"
    else if speed == 6
    then codes "super+"
    else codes "?"
