-- ===== src/Urb/Fits.antt =====
-- The buffer of `print_text` and `print_json` holds any decoded setup packet.
use usbtrace.Common.{
  ℕ, suc, zero, ◌+◌, ◌/◌, ◌%◌, ◌≤◌, ◌≡◌, ◌^◌, List, [], ◌∷◌, Option, none, some, length,
  length-append, take_short, arith,
}
use usbtrace.Urb.Names.{
  std_req_name, desc_type_name, device_feature, port_feature, hub_feature, feature_name,
  link_state_name, request_name,
}
use usbtrace.Urb.Setup.{
  digits, u_text, setup_le16, link_text, feature_text, descriptor_text, request_text, other_text,
  raw_text, setup_text, format_setup,
}

-- The length of a text that there may be.
abbrev opt_length : Option (List ℕ) → ℕ
opt_length none = 0
opt_length (some t) = length t

digits-length : (k n : ℕ) (acc : List ℕ) → length (digits k n acc) ≤ k + length acc
digits-length zero n acc = omega arith
digits-length (suc k) n acc =
    let ih = digits-length k (n / 10) ((n % 10 + b'0') ∷ acc) in ground (arith, ih)

std_req_name-length : (req : ℕ) → opt_length (std_req_name req) ≤ 17
unfolding std_req_name
std_req_name-length req = ground arith

request_name-length : (type recip req : ℕ) → opt_length (request_name type recip req) ≤ 17
unfolding request_name
request_name-length type recip req = ground arith

desc_type_name-length : (dt : ℕ) → opt_length (desc_type_name dt) ≤ 16
unfolding desc_type_name
desc_type_name-length dt = ground arith

feature_name-length : (type recip value : ℕ) → opt_length (feature_name type recip value) ≤ 20
unfolding feature_name device_feature port_feature hub_feature
feature_name-length type recip value = ground arith

link_state_name-length : (index : ℕ) → opt_length (link_state_name index) ≤ 2
unfolding link_state_name
link_state_name-length index = ground arith

u_text-length : (n : ℕ) → length (u_text n) ≤ 10
u_text-length n = digits-length 10 n []

link_text-length :
    (rname fname : List ℕ) (index : ℕ) (ls : Option (List ℕ))
    → length rname ≤ 17
    → length fname ≤ 20
    → opt_length ls ≤ 2
    → length (link_text rname fname index ls) ≤ 72
link_text-length rname fname index none hr hf hl =
    let p = u_text-length (index % 256) in grind (arith, length-append)
link_text-length rname fname index (some ls) hr hf hl =
    let p = u_text-length (index % 256) in grind (arith, length-append)

feature_text-length :
    (rname : List ℕ) (type recip value index : ℕ) (fname : Option (List ℕ))
    → length rname ≤ 17
    → opt_length fname ≤ 20
    → length (feature_text rname type recip value index fname) ≤ 72
feature_text-length rname type recip value index none hr hf =
    let v = u_text-length value in let i = u_text-length index in grind (arith, length-append)
feature_text-length rname type recip value index (some fname) hr hf =
    let p = u_text-length (index % 256) in
    let l =
      link_text-length rname fname index (link_state_name index) hr hf
        (link_state_name-length index) in
    grind (arith, length-append)

descriptor_text-length :
    (rname : List ℕ) (value : ℕ) (dname : Option (List ℕ))
    → length rname ≤ 17
    → opt_length dname ≤ 16
    → length (descriptor_text rname value dname) ≤ 72
descriptor_text-length rname value none hr hd =
    let v = u_text-length (value / 2 ^ 8) in grind (arith, length-append)
descriptor_text-length rname value (some dname) hr hd = grind (arith, length-append)

other_text-length :
    (rname : List ℕ) (type recip req value index len : ℕ)
    → length rname ≤ 17
    → length (other_text rname type recip req value index len) ≤ 72
unfolding other_text
other_text-length rname type recip req value index len short =
    let v = u_text-length value in
    let i = u_text-length index in
    let l = u_text-length len in let r = u_text-length recip in grind (arith, length-append)

raw_text-length : (rt req value index len : ℕ) → length (raw_text rt req value index len) ≤ 72
unfolding raw_text
raw_text-length rt req value index len =
    let v = u_text-length value in
    let i = u_text-length index in let l = u_text-length len in grind (arith, length-append)

request_text-length :
    (rt req value index len : ℕ) (rname : Option (List ℕ))
    → opt_length rname ≤ 17
    → length (request_text rt req value index len rname) ≤ 72
request_text-length rt req value index len none h = raw_text-length rt req value index len
request_text-length rt req value index len (some rname) h =
    let type = rt / 2 ^ 5 % 4 in
    let recip = rt % 2 ^ 5 in
    let f =
      feature_text-length rname type recip value index (feature_name type recip value) h
        (feature_name-length type recip value) in
    let d =
      descriptor_text-length rname value (desc_type_name (value / 2 ^ 8)) h
        (desc_type_name-length (value / 2 ^ 8)) in
    let o = other_text-length rname type recip req value index len h in ground (arith, f, d, o)

setup_text-length : (s : ℕ → ℕ) → length (setup_text s) ≤ 72
unfolding setup_text
setup_text-length s =
    request_text-length (s 0) (s 1) (setup_le16 s 2) (setup_le16 s 4) (setup_le16 s 6)
      (request_name (s 0 / 2 ^ 5 % 4) (s 0 % 2 ^ 5) (s 1))
      (request_name-length (s 0 / 2 ^ 5 % 4) (s 0 % 2 ^ 5) (s 1))

-- The 96 bytes of `req` hold the whole text of any setup packet, so `snprintf` never cuts it.
pub format_setup-whole : (s : ℕ → ℕ) → format_setup s 96 ≡ setup_text s
unfolding format_setup
format_setup-whole s = take_short 95 (setup_text s) (omega (arith, setup_text-length s))
