-- ===== src/Diag/Expand.antt =====
-- expand (src/modules/diag/engine.c): the placeholders of a rule's texts, written into a buffer.
pub mod Substitute
mod Tests
use usbtrace.Common.{
  ℕ, zero, suc, ◌+◌, ◌-◌, ◌*◌, ◌/◌, ◌%◌, ◌^◌, true, false, List, [], ◌∷◌, ◌++◌, Option, none, some,
  if◌then◌else◌, not, ◌==◌, ltb, length, take, codes, text_eq,
}
use usbtrace.Common.Int.{ℤ, pos, negsuc}
use usbtrace.Cli.{hex_digit}
use usbtrace.Urb.Setup.{digits, u_text}
use usbtrace.Diag.Window.{DevWin}

-- `%ld` of a 64-bit `long`.
abbrev pub ld_text : ℤ → List ℕ
ld_text (pos n) = digits 20 n []
ld_text (negsuc n) = b'-' ∷ digits 20 (suc n) []

-- `%04x` of 16 bits.
abbrev pub x04_text : ℕ → List ℕ
x04_text n =
    hex_digit (n / 16 ^ 3 % 16)
    ∷ hex_digit (n / 16 ^ 2 % 16)
    ∷ hex_digit (n / 16 % 16)
    ∷ hex_digit (n % 16)
    ∷ []

abbrev pub comm_text : Option (List ℕ) → List ℕ
comm_text none = []
comm_text (some comm) = comm

-- `val`, with its buffer of 64 bytes.
unfoldable pub value_of : DevWin → ℤ → ℤ → Option (List ℕ) → List ℕ → List ℕ
value_of w count window_ms comm key = take 63 (
    if text_eq key (codes "vid")
    then x04_text w.vid
    else if text_eq key (codes "pid")
    then x04_text w.product
    else if text_eq key (codes "bus")
    then u_text w.key.busnum
    else if text_eq key (codes "dev")
    then u_text w.key.devnum
    else if text_eq key (codes "count")
    then ld_text count
    else if text_eq key (codes "window")
    then ld_text window_ms
    else if text_eq key (codes "comm")
    then comm_text comm
    else b'{' ∷ key ++ (b'}' ∷ []))

-- `strchr(p, '}')`: the bytes before the first brace, and those after it.
unfoldable pub split_close : List ℕ → Option (List ℕ × List ℕ)
split_close [] = none
split_close (c ∷ cs) =
    let rest = split_close cs in
    if c == b'}'
    then some ([], cs)
    else elim rest [ none ↦ none | some (key, after) ↦ some (c ∷ key, after) ]

-- The placeholder that `p` is at, if it is at one whose key fits `key[16]`: the key, and what
-- follows.
unfoldable pub placeholder : ℕ → List ℕ → Option (List ℕ × List ℕ)
placeholder c cs = if not (c == b'{') then none else elim (split_close cs) [
  | none ↦ none
  | some (key, after) ↦ if ltb (length key) 16 then some (key, after) else none
]

-- The loop, for a buffer of `outsz` bytes: `o`, and the bytes written before it. `none` is a loop
-- that has run out of fuel.
unfoldable pub expand_loop : ℕ → (List ℕ → List ℕ) → ℕ → List ℕ → ℕ → List ℕ → Option (ℕ × List ℕ)
expand_loop zero value outsz p o text = none
expand_loop (suc fuel) value outsz [] o text = some (o, text)
expand_loop (suc fuel) value outsz (c ∷ cs) o text = elim (ltb (o + 1) outsz) [
  | false ↦ some (o, text)
  | true ↦ elim (placeholder c cs) [
    | some (key, after) ↦
        expand_loop fuel value outsz after (o + length (value key))
          (text ++ take (outsz - o - 1) (value key))
    | none ↦ expand_loop fuel value outsz cs (o + 1) (text ++ (c ∷ []))
  ]
]

-- Where the terminating NUL goes.
abbrev pub terminator : ℕ → ℕ → ℕ
terminator o outsz = if ltb o outsz then o else outsz - 1

-- `tmpl ? tmpl : ""`.
abbrev pub template : Option (List ℕ) → List ℕ
template none = []
template (some tmpl) = tmpl

-- `expand`: the string in `out`.
unfoldable pub expand : Option (List ℕ) → DevWin → ℤ → ℤ → Option (List ℕ) → ℕ → Option (List ℕ)
expand tmpl w count window_ms comm outsz =
    elim (expand_loop (suc (length (template tmpl))) (value_of w count window_ms comm) outsz
      (template tmpl) 0 []) [ none ↦ none | some (o, text) ↦ some (take (terminator o outsz) text) ]
