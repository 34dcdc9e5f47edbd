-- ===== src/Cli/Escape.antt =====
-- The string that `usbtrace_json_escape` writes fits its buffer, and a JSON reader gets back the
-- source, or as much of it as there was room for.
use usbtrace.Common.{
  ℕ, suc, ◌+◌, ◌*◌, ◌-◌, ◌<◌, ◌≤◌, ◌≡◌, refl, ap, sym, ◌∙◌, arith, Bool, true, false, List, [], ◌∷◌,
  ◌++◌, Option, none, some, if◌then◌else◌, ◌==◌, ◌||◌, ◌&&◌, ltb, leb, length, length-append, take,
  Bool-cases, Option-cases, take-length, inl, inr, all_below, all_below_sound, text_eq,
  text_eq_sound,
}
use mathlib.Core.List.{append_assoc}
use usbtrace.Cli.{escape_byte, fits, escape_from, json_escape, is_control}

-- Where a reader of a JSON string stands: between characters, after a backslash, or in a `\uXXXX`
-- with so many digits read.
pub data Mode : Type 0 where
  plain : Mode
  escaped : Mode
  hex : ℕ → ℕ → Mode

abbrev pub hex_value : ℕ → Option ℕ
hex_value c =
    if leb b'0' c && leb c b'9'
    then some (c - b'0')
    else if leb b'a' c && leb c b'f'
    then some (c - 87)
    else none

-- One byte: the next mode and the characters that are complete; `none` is no JSON.
unfoldable pub read_byte : Mode → ℕ → Option (Mode × List ℕ)
read_byte plain c =
    if c == 92
    then some (escaped, [])
    else if ltb c 32 || c == b'"'
    then none
    else some (plain, c ∷ [])
read_byte escaped c =
    if c == 92 || c == b'"'
    then some (plain, c ∷ [])
    else if c == b'n'
    then some (plain, 10 ∷ [])
    else if c == b't'
    then some (plain, 9 ∷ [])
    else if c == b'r'
    then some (plain, 13 ∷ [])
    else if c == b'u'
    then some (hex 0 0, [])
    else none
read_byte (hex k acc) c = elim (hex_value c) [
  | none ↦ none
  | some d ↦
      if k == 3 then some (plain, (16 * acc + d) ∷ []) else some (hex (k + 1) (16 * acc + d), [])
]

-- The characters of a JSON string body, from a mode on.
unfoldable pub unescape_from : Mode → List ℕ → Option (List ℕ)
unfolding read_byte
unescape_from plain [] = some []
unescape_from escaped [] = none
unescape_from (hex k acc) [] = none
unescape_from m (c ∷ cs) = elim (read_byte m c) [
  | none ↦ none
  | some (m', out) ↦ elim (unescape_from m' cs) [ none ↦ none | some rest ↦ some (out ++ rest) ]
]

-- What a reader makes of some bytes in the middle of a string.
feed : Mode → List ℕ → Option (Mode × List ℕ)
feed m [] = some (m, [])
feed m (c ∷ cs) = elim (read_byte m c) [
  | none ↦ none
  | some (m', out) ↦ elim (feed m' cs) [ none ↦ none | some (m'', out') ↦ some (m'', out ++ out') ]
]

abbrev prefix_with : List ℕ → Option (List ℕ) → Option (List ℕ)
prefix_with out none = none
prefix_with out (some rest) = some (out ++ rest)

-- A reader's step, without the cases of `unescape_from`.
unescape_step :
    (m m' : Mode) (c : ℕ) (out cs : List ℕ)
    → read_byte m c ≡ some (m', out)
    → unescape_from m (c ∷ cs) ≡ prefix_with out (unescape_from m' cs)
unfolding unescape_from
unescape_step plain m' c out cs h = ground arith
unescape_step escaped m' c out cs h = ground arith
unescape_step (hex k acc) m' c out cs h = ground arith

prefix_nil : (r : Option (List ℕ)) → r ≡ prefix_with [] r
prefix_nil none = refl
prefix_nil (some x) = refl

prefix_append :
    (xs ys : List ℕ) (r : Option (List ℕ))
    → prefix_with xs (prefix_with ys r) ≡ prefix_with (xs ++ ys) r
prefix_append xs ys none = refl
prefix_append xs ys (some r) = ap some (sym (append_assoc xs ys r))

unescape_from-feed :
    (m m' : Mode) (p out rest : List ℕ)
    → feed m p ≡ some (m', out)
    → unescape_from m (p ++ rest) ≡ prefix_with out (unescape_from m' rest)
unfolding feed
unescape_from-feed m m' [] out rest h = cc (prefix_nil (unescape_from m rest))
unescape_from-feed m m' (c ∷ p) out rest h = elim (Option-cases (read_byte m c)) [
  | inl e ↦ ground arith
  | inr ((m1, o1), e) ↦ elim (Option-cases (feed m1 p)) [
    | inl q ↦ ground arith
    | inr ((m2, o2), q) ↦
        let same : ◌≡◌ {A = Option (Mode × List ℕ)} (some (m2, o1 ++ o2)) (some (m', out)) =
          ground arith in
        unescape_step m m1 c o1 (p ++ rest) e
        ∙ ap (prefix_with o1) (unescape_from-feed m1 m2 p o2 rest q)
        ∙ prefix_append o1 o2 (unescape_from m2 rest)
        ∙ joined m2 (o1 ++ o2) same
  ]
]
  where
    joined :
        (n : Mode) (o : List ℕ)
        → ◌≡◌ {A = Option (Mode × List ℕ)} (some (n, o)) (some (m', out))
        → prefix_with o (unescape_from n rest) ≡ prefix_with out (unescape_from m' rest)
    joined n o q = ground arith

-- Is it a reader between characters, with just the character `c` read?
just_read : Option (Mode × List ℕ) → ℕ → Bool
just_read none c = false
just_read (some (plain, out)) c = text_eq out (c ∷ [])
just_read (some (escaped, out)) c = false
just_read (some (hex k acc, out)) c = false

just_read_sound :
    (r : Option (Mode × List ℕ)) (c : ℕ) → just_read r c ≡ true → r ≡ some (plain, c ∷ [])
unfolding just_read
just_read_sound none c h = cc
just_read_sound (some (plain, out)) c h = ap (λ o. some (plain, o)) (text_eq_sound out (c ∷ []) h)
just_read_sound (some (escaped, out)) c h = cc
just_read_sound (some (hex k acc, out)) c h = cc

reads_back : ℕ → Bool
reads_back c = just_read (feed plain (escape_byte c)) c

reads_back_table : all_below 256 reads_back ≡ true
unfolding all_below reads_back just_read feed read_byte escape_byte text_eq
reads_back_table = refl

-- Each byte is written so that a reader gets it back.
feed-escape_byte : (c : ℕ) → c < 256 → feed plain (escape_byte c) ≡ some (plain, c ∷ [])
unfolding reads_back
feed-escape_byte c h =
    just_read_sound (feed plain (escape_byte c)) c
      (all_below_sound 256 reads_back c reads_back_table h)

-- A C string holds bytes.
abbrev pub AllBytes : List ℕ → Type 0
AllBytes [] = Unit {0}
AllBytes (c ∷ cs) = (c < 256) × AllBytes cs

-- What a byte takes is at most six bytes, and what the loop tests leave room for.
length-escape_byte : (c : ℕ) → length (escape_byte c) ≤ (if is_control c then 6 else 2)
unfolding escape_byte
length-escape_byte c = ground arith

fits_bound : (dstsz o c : ℕ) → fits dstsz o c ≡ true → o + length (escape_byte c) < dstsz
unfolding fits
fits_bound dstsz o c h = ground (arith, length-escape_byte c)

-- The loop never writes up to the end of the buffer, so that the NUL has its place.
escape_from_bound :
    (dstsz o : ℕ) (cs : List ℕ) → o < dstsz → o + length (escape_from dstsz o cs) < dstsz
unfolding escape_from
escape_from_bound dstsz o [] h = omega arith
escape_from_bound dstsz o (c ∷ cs) h = elim (Bool-cases (fits dstsz o c)) [
  | inl e ↦ rw e (
      omega (
        arith,
        length-append {0} (escape_byte c) (escape_from dstsz (o + length (escape_byte c)) cs),
        escape_from_bound dstsz (o + length (escape_byte c)) cs (fits_bound dstsz o c e),
      ))
  | inr e ↦ rw e (omega arith)
]

-- How many source bytes the loop has room for.
unfoldable pub taken : ℕ → ℕ → List ℕ → ℕ
taken dstsz o [] = 0
taken dstsz o (c ∷ cs) =
    let rest = taken dstsz (o + length (escape_byte c)) cs in if fits dstsz o c then suc rest else 0

unescape_nil : unescape_from plain [] ≡ some []
unfolding unescape_from
unescape_nil = refl

escape_from_reads :
    (dstsz o : ℕ) (cs : List ℕ)
    → AllBytes cs
    → unescape_from plain (escape_from dstsz o cs) ≡ some (take (taken dstsz o cs) cs)
unfolding escape_from taken
escape_from_reads dstsz o [] h = unescape_nil
escape_from_reads dstsz o (c ∷ cs) h = elim (Bool-cases (fits dstsz o c)) [
  | inl e ↦ rw e (
      unescape_from-feed plain plain (escape_byte c) (c ∷ [])
        (escape_from dstsz (o + length (escape_byte c)) cs) (feed-escape_byte c h.0)
      ∙ ap (prefix_with (c ∷ [])) (escape_from_reads dstsz (o + length (escape_byte c)) cs h.1))
  | inr e ↦ rw e unescape_nil
]

length-escape_byte_six : (c : ℕ) → length (escape_byte c) ≤ 6
unfolding escape_byte
length-escape_byte_six c = ground arith

fits_room : (dstsz o c : ℕ) → o + 8 ≤ dstsz → fits dstsz o c ≡ true
unfolding fits
fits_room dstsz o c h = ground arith

-- With six bytes for each source byte, and two more, the loop has room for all.
taken_all :
    (dstsz o : ℕ) (cs : List ℕ) → o + 6 * length cs + 2 ≤ dstsz → taken dstsz o cs ≡ length cs
unfolding taken
taken_all dstsz o [] h = refl
taken_all dstsz o (c ∷ cs) h = rw (fits_room dstsz o c (omega arith)) (
    ap suc
      (taken_all dstsz (o + length (escape_byte c)) cs (omega (arith, length-escape_byte_six c))))

-- The escaped string and its NUL fit the buffer, and a JSON reader gets back a prefix of the source,
-- all of it where the buffer has six bytes for each source byte and two more.
pub json_escape_lem :
    (src : List ℕ) (dstsz : ℕ)
    → AllBytes src
    → 0 < dstsz
    → (out : List ℕ) × (json_escape src dstsz ≡ some out)
      × (length out < dstsz)
      × (unescape_from plain out ≡ some (take (taken dstsz 0 src) src))
      × (6 * length src + 2 ≤ dstsz → unescape_from plain out ≡ some src)
unfolding json_escape
json_escape_lem src dstsz h n =
    let some_room : (dstsz == 0) ≡ false = ground arith in
    let reads = escape_from_reads dstsz 0 src h in
    (
      escape_from dstsz 0 src,
      rw some_room,
      omega (arith, escape_from_bound dstsz 0 src n),
      reads,
      λ room.
          reads
          ∙ ap some (ap (λ k. take k src) (taken_all dstsz 0 src (omega arith)) ∙ take-length src),
    )
