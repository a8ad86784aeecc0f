-- ===== src/Session/Qr.antt =====
-- desktop/core/src/qr.rs: the text of the QR code that a phone scans, with the texts of a fingerprint
-- (fingerprint.rs) and of a token (pairing.rs). The hexadecimal and base32 of their crate, and the
-- text of a socket address, are parameters. A text is its bytes.
pub mod Examples
pub mod Printed
use anyflow.Prelude.{
  ℕ, Bool, true, not, ◌&&◌, ◌||◌, Option, none, some, List, [], ◌∷◌, ◌++◌, length, all, map, keep,
  is_nil, is_some, leb, ltb, ◌==◌, if◌then◌else◌, Bytes, bytes_key, ◌=?◌, Result, ok, err,
}
use anyflow.Session.Handshake.{from_hex}

-- b"omnibridge1"
abbrev pub qr_scheme : Bytes
qr_scheme = b'o' ∷ b'm' ∷ b'n' ∷ b'i' ∷ b'b' ∷ b'r' ∷ b'i' ∷ b'd' ∷ b'g' ∷ b'e' ∷ b'1' ∷ []

abbrev pub max_qr_payload_len : ℕ
max_qr_payload_len = 512

-- The `HEXLOWER` and `BASE32_NOPAD` of `data_encoding`, and the standard library's texts of an address.
pub record Codec (Address : Type 0) : Type 0 where
  pub hex_encode : Bytes → Bytes
  pub hex_decode : Bytes → Option Bytes
  pub base32_encode : Bytes → Bytes
  pub base32_decode : Bytes → Option Bytes
  pub print : Address → Bytes
  pub parse_address : Bytes → Option Address

pub data Error : Type 0 where
  payload_too_large unknown_scheme malformed_fingerprint malformed_token malformed_device_id : Error

pub record QrPayload (Address : Type 0) : Type 0 where
  pub fingerprint : Bytes
  pub token_base32 : Bytes
  pub device_id : Bytes
  pub addresses : List Address

-- `join(",")`
pub join : List Bytes → Bytes
join [] = []
join (x ∷ []) = x
join (x ∷ y ∷ rest) = x ++ b',' ∷ join (y ∷ rest)

abbrev to_front : ℕ → Bytes × Option Bytes → Bytes × Option Bytes
to_front c (part, rest) = (c ∷ part, rest)

-- What stands before the first colon, and what is left after it.
pub cut : Bytes → Bytes × Option Bytes
cut [] = ([], none)
cut (c ∷ cs) = if c == b':' then ([], some cs) else to_front c (cut cs)

-- `parts.next().unwrap_or_default()` of `splitn(5, ':')`, for the first four parts.
abbrev pub next : Option Bytes → Bytes × Option Bytes
next none = ([], none)
next (some text) = cut text

abbrev to_first : ℕ → List Bytes → List Bytes
to_first c [] = (c ∷ []) ∷ []
to_first c (part ∷ rest) = (c ∷ part) ∷ rest

-- `split(',')`
pub split : Bytes → List Bytes
split [] = [] ∷ []
split (c ∷ cs) = let rest = split cs in if c == b',' then [] ∷ rest else to_first c rest

pub is_ascii_hexdigit : ℕ → Bool
is_ascii_hexdigit b =
    (leb b'0' b && leb b b'9') || (leb b'a' b && leb b b'f') || (leb b'A' b && leb b b'F')

pub is_hex : Bytes → Bool
unfolding is_ascii_hexdigit
is_hex s = all is_ascii_hexdigit s

abbrev pub or_empty : Option Bytes → Bytes
or_empty none = []
or_empty (some text) = text

-- `parts.next()` four times, and what is left of the text.
abbrev pub parts : Bytes → Bytes × Bytes × Bytes × Bytes × Option Bytes
parts input =
    let (scheme, after_scheme) = next (some input) in
    let (hex, after_hex) = next after_scheme in
    let (token, after_token) = next after_hex in
    let (device_id, after_device) = next after_token in
    (scheme, hex, token, device_id, after_device)

abbrev pub token_len : ℕ
token_len = 20

module _ {Address : Type 0} (c : Codec Address) where
  pub to_hex : Bytes → Bytes
  to_hex fingerprint = c.hex_encode fingerprint

  pub to_base32 : Bytes → Bytes
  to_base32 token = c.base32_encode token

  pub from_base32 : Bytes → Option Bytes
  from_base32 s = elim (c.base32_decode s) [
    | some raw ↦ if length raw == token_len then some raw else none
    | none ↦ none
  ]

  pub encode : Bytes → Bytes → Bytes → List Address → Bytes
  unfolding to_hex to_base32
  encode fingerprint token device_id addresses =
      qr_scheme
      ++ b':'
        ∷ (to_hex fingerprint
            ++ b':'
              ∷ (to_base32 token ++ b':' ∷ (device_id ++ b':' ∷ join (map c.print addresses))))

  abbrev and_before : Option Address → List Address → List Address
  and_before none rest = rest
  and_before (some a) rest = a ∷ rest

  -- `filter_map(|s| s.parse().ok())`
  pub parse_all : List Bytes → List Address
  parse_all [] = []
  parse_all (s ∷ rest) = and_before (c.parse_address s) (parse_all rest)

  pub parse_addresses : Bytes → List Address
  unfolding split parse_all
  parse_addresses text = parse_all (keep (λ s. not (is_nil s)) (split text))

  abbrev pub parse_parts :
      Bytes → Bytes × Bytes × Bytes × Bytes × Option Bytes → Result (QrPayload Address) Error
  unfolding from_base32 from_hex
  parse_parts input (scheme, hex, token, device_id, after_device) =
      if ltb max_qr_payload_len (length input)
      then err payload_too_large
      else if not (scheme =? qr_scheme)
      then err unknown_scheme
      else elim (from_hex c.hex_decode hex) [
        | none ↦ err malformed_fingerprint
        | some fingerprint ↦
            if not (is_some (from_base32 token))
            then err malformed_token
            else if is_nil device_id || ltb 64 (length device_id) || not (is_hex device_id)
            then err malformed_device_id
            else ok record {
              fingerprint = fingerprint;
              token_base32 = token;
              device_id = device_id;
              addresses = parse_addresses (or_empty after_device);
            }
      ]

  pub parse : Bytes → Result (QrPayload Address) Error
  parse input = parse_parts input (parts input)
