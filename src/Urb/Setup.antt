-- ===== src/Urb/Setup.antt =====
-- urb.c: the decoder of setup packets.
use usbtrace.Common.{
  ℕ, suc, zero, ◌+◌, ◌*◌, ◌/◌, ◌%◌, ◌^◌, ◌-◌, List, [], ◌∷◌, ◌++◌, Option, none, some,
  if◌then◌else◌, ◌&&◌, ◌||◌, ◌==◌, ltb, codes, take,
}
use usbtrace.Cli.{hex_digit}
use usbtrace.Urb.Names.{feature_name, link_state_name, desc_type_name, request_name}

-- `setup_le16`.
unfoldable pub setup_le16 : (ℕ → ℕ) → ℕ → ℕ
setup_le16 s off = s off + 2 ^ 8 * s (off + 1)

-- `%u`, with the digits that are left: an `unsigned` has ten of them.
abbrev pub digits : ℕ → ℕ → List ℕ → List ℕ
digits zero n acc = acc
digits (suc k) n acc =
    let rest = digits k (n / 10) ((n % 10 + b'0') ∷ acc) in
    if ltb n 10 then (n + b'0') ∷ acc else rest

abbrev pub u_text : ℕ → List ℕ
u_text n = digits 10 n []

-- `%02x` of a byte.
abbrev pub x02_text : ℕ → List ℕ
x02_text n = hex_digit (n / 16) ∷ hex_digit (n % 16) ∷ []

-- A request on the link state of a port, with `ls`.
abbrev pub link_text : List ℕ → List ℕ → ℕ → Option (List ℕ) → List ℕ
link_text rname fname index none =
    rname ++ codes " " ++ fname ++ codes " port" ++ u_text (index % 256)
link_text rname fname index (some ls) =
    rname ++ codes " " ++ fname ++ codes " " ++ ls ++ codes " port" ++ u_text (index % 256)

-- A request on a feature, with `fname`.
abbrev pub feature_text : List ℕ → ℕ → ℕ → ℕ → ℕ → Option (List ℕ) → List ℕ
feature_text rname type recip value index none =
    rname ++ codes " val=" ++ u_text value ++ codes " idx=" ++ u_text index
feature_text rname type recip value index (some fname) =
    if value == 5 && (type == 1 && recip == 3)
    then link_text rname fname index (link_state_name index)
    else if recip == 1 && value == 0
    then rname
      ++ codes " "
      ++ fname
      ++ (if index / 2 ^ 8 % 2 == 1 then codes "+LP" else [])
      ++ (if index / 2 ^ 9 % 2 == 1 then codes "+RW" else [])
      ++ codes " iface"
      ++ u_text (index % 256)
    else rname ++ codes " " ++ fname

-- A request on a descriptor, with `dname`.
abbrev pub descriptor_text : List ℕ → ℕ → Option (List ℕ) → List ℕ
descriptor_text rname value none = rname ++ codes " dt=" ++ u_text (value / 2 ^ 8)
descriptor_text rname value (some dname) = rname ++ codes " " ++ dname

-- Any other request with a name.
unfoldable pub other_text : List ℕ → ℕ → ℕ → ℕ → ℕ → ℕ → ℕ → List ℕ
other_text rname type recip req value index length =
    if type == 0 && req == 0x09
    then rname ++ codes " " ++ u_text value
    else if type == 0 && req == 0x0b
    then rname ++ codes " iface" ++ u_text index ++ codes " alt" ++ u_text value
    else if type == 0 && req == 0x05
    then rname ++ codes " " ++ u_text value
    else if req == 0x00 && recip == 3
    then rname ++ codes " port" ++ u_text index
    else if req == 0x00
    then rname ++ codes " recip=" ++ u_text recip
    else rname
      ++ codes " val="
      ++ u_text value
      ++ codes " idx="
      ++ u_text index
      ++ codes " len="
      ++ u_text length

-- A request without a name.
unfoldable pub raw_text : ℕ → ℕ → ℕ → ℕ → ℕ → List ℕ
raw_text rt req value index length =
    codes "rt=0x"
    ++ x02_text rt
    ++ codes " req=0x"
    ++ x02_text req
    ++ codes " val="
    ++ u_text value
    ++ codes " idx="
    ++ u_text index
    ++ codes " len="
    ++ u_text length

-- The rest of `format_setup`, with `rname`.
abbrev pub request_text : ℕ → ℕ → ℕ → ℕ → ℕ → Option (List ℕ) → List ℕ
request_text rt req value index length none = raw_text rt req value index length
request_text rt req value index length (some rname) =
    let type = rt / 2 ^ 5 % 4 in
    let recip = rt % 2 ^ 5 in
    if req == 0x03 || req == 0x01
    then feature_text rname type recip value index (feature_name type recip value)
    else if type == 0 && (req == 0x06 || req == 0x07)
    then descriptor_text rname value (desc_type_name (value / 2 ^ 8))
    else other_text rname type recip req value index length

-- The text that the `snprintf` of `format_setup` is to print.
unfoldable pub setup_text : (ℕ → ℕ) → List ℕ
setup_text s =
    request_text (s 0) (s 1) (setup_le16 s 2) (setup_le16 s 4) (setup_le16 s 6)
      (request_name (s 0 / 2 ^ 5 % 4) (s 0 % 2 ^ 5) (s 1))

-- `format_setup` with a buffer of `n` bytes, which is not 0: a text that is too long is cut.
unfoldable pub format_setup : (ℕ → ℕ) → ℕ → List ℕ
format_setup s n = take (n - 1) (setup_text s)
