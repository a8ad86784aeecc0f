-- ===== src/Session/Qr/Printed.antt =====
-- A code that was printed is read back (qr.rs).
use anyflow.Prelude.{
  ℕ, ◌≤◌, ◌≡◌, refl, ◌∙◌, ap, ==_iff, Bool, true, false, not, some, List, [], ◌∷◌, ◌++◌, length,
  all, map, is_nil, ltb, ◌==◌, Bytes, bytes_key, =?_refl, ok, arith,
}
use anyflow.Session.Handshake.{from_hex}
use anyflow.Session.Qr.{
  qr_scheme, max_qr_payload_len, Codec, join, cut, next, split, is_ascii_hexdigit, is_hex, encode,
  parse_all, parse_addresses, parse, parts, parse_parts, to_hex, to_base32, from_base32, token_len,
}

abbrev pub has_no : ℕ → Bytes → Bool
has_no d text = all (λ b. not (b == d)) text

cut-part :
    (part rest : Bytes) → has_no b':' part ≡ true → cut (part ++ b':' ∷ rest) ≡ (part, some rest)
unfolding cut
cut-part [] rest h = refl
cut-part (c ∷ cs) rest h = ground (arith, cut-part cs rest)

split-part :
    (part rest : Bytes) → has_no b',' part ≡ true → split (part ++ b',' ∷ rest) ≡ part ∷ split rest
unfolding split
split-part [] rest h = refl
split-part (c ∷ cs) rest h = ground (arith, split-part cs rest)

split-last : (part : Bytes) → has_no b',' part ≡ true → split part ≡ part ∷ []
unfolding split
split-last [] h = refl
split-last (c ∷ cs) h = ground (arith, split-last cs)

hex-has_no_colon : (text : Bytes) → is_hex text ≡ true → has_no b':' text ≡ true
unfolding is_hex is_ascii_hexdigit
hex-has_no_colon [] h = refl
hex-has_no_colon (c ∷ cs) h = ground (arith, hex-has_no_colon cs)

-- Numbers that are bytes.
abbrev pub are_bytes : Bytes → Bool
are_bytes bs = all (λ b. ltb b 256) bs

-- What is documented of the texts: hexadecimal and base32 of bytes are read back and have no colon;
-- an address is read back, is not empty and has no comma.
pub record Reads {Address : Type 0} (c : Codec Address) : Type 0 where
  pub hex : (f : Bytes) → are_bytes f ≡ true → c.hex_decode (c.hex_encode f) ≡ some f
  pub hex_plain : (f : Bytes) → are_bytes f ≡ true → has_no b':' (c.hex_encode f) ≡ true
  pub base32 : (t : Bytes) → are_bytes t ≡ true → c.base32_decode (c.base32_encode t) ≡ some t
  pub base32_plain : (t : Bytes) → are_bytes t ≡ true → has_no b':' (c.base32_encode t) ≡ true
  pub address : (a : Address) → c.parse_address (c.print a) ≡ some a
  pub address_plain : (a : Address) → has_no b',' (c.print a) ≡ true
  pub address_there : (a : Address) → is_nil (c.print a) ≡ false

module _ {Address : Type 0} (c : Codec Address) (r : Reads c) where
  addresses-printed : (xs : List Address) → parse_addresses c (join (map c.print xs)) ≡ xs
  unfolding parse_addresses join parse_all split
  addresses-printed [] = refl
  addresses-printed (a ∷ []) =
      ground (arith, split-last (c.print a) (r.address_plain a), r.address_there a, r.address a)
  addresses-printed (a ∷ b ∷ xs) = ground (
    arith,
    split-part (c.print a) (join (map c.print (b ∷ xs))) (r.address_plain a),
    r.address_there a,
    r.address a,
    addresses-printed (b ∷ xs),
  )

  fingerprint-read :
      (f : Bytes)
      → are_bytes f ≡ true
      → length f ≡ 32
      → from_hex c.hex_decode (c.hex_encode f) ≡ some f
  unfolding from_hex
  fingerprint-read f bytes len = rw (from_hex, r.hex f bytes, (==_iff (length f) 32).1 len) refl

  token-read :
      (t : Bytes)
      → are_bytes t ≡ true
      → length t ≡ token_len
      → from_base32 c (c.base32_encode t) ≡ some t
  unfolding from_base32
  token-read t bytes len =
      rw (from_base32, r.base32 t bytes, (==_iff (length t) token_len).1 len) refl

  parts-encode :
      (fingerprint token device_id : Bytes) (addresses : List Address)
      → are_bytes fingerprint ≡ true
      → are_bytes token ≡ true
      → is_hex device_id ≡ true
      → parts (encode c fingerprint token device_id addresses) ≡ (
        qr_scheme,
        c.hex_encode fingerprint,
        c.base32_encode token,
        device_id,
        some (join (map c.print addresses)),
      )
  unfolding encode to_hex to_base32
  parts-encode fingerprint token device_id addresses f_bytes t_bytes hex =
      let text = encode c fingerprint token device_id addresses in
      let addrs = join (map c.print addresses) in
      let after_token = device_id ++ b':' ∷ addrs in
      let after_hex = c.base32_encode token ++ b':' ∷ after_token in
      let after_scheme = c.hex_encode fingerprint ++ b':' ∷ after_hex in
      let e1 : next (some text) ≡ (qr_scheme, some after_scheme) =
        cut-part qr_scheme after_scheme refl in
      let e2 : next (next (some text)).1 ≡ (c.hex_encode fingerprint, some after_hex) =
        ap (λ p. next p.1) e1
        ∙ cut-part (c.hex_encode fingerprint) after_hex (r.hex_plain fingerprint f_bytes) in
      let e3 : next (next (next (some text)).1).1 ≡ (c.base32_encode token, some after_token) =
        ap (λ p. next p.1) e2
        ∙ cut-part (c.base32_encode token) after_token (r.base32_plain token t_bytes) in
      let e4 : next (next (next (next (some text)).1).1).1 ≡ (device_id, some addrs) =
        ap (λ p. next p.1) e3 ∙ cut-part device_id addrs (hex-has_no_colon device_id hex) in
      λ i. ((e1 i).0, (e2 i).0, (e3 i).0, (e4 i).0, (e4 i).1)

  -- Where the crates' texts are read back, the text that is made of a fingerprint of 32 bytes, a
  -- token of 20, a device id of one to 64 hexadecimal digits and some addresses is parsed to them
  -- again, if it is not too long.
  pub parse-encode :
      (fingerprint token device_id : Bytes) (addresses : List Address)
      → are_bytes fingerprint ≡ true
      → length fingerprint ≡ 32
      → are_bytes token ≡ true
      → length token ≡ token_len
      → is_nil device_id ≡ false
      → length device_id ≤ 64
      → is_hex device_id ≡ true
      → length (encode c fingerprint token device_id addresses) ≤ max_qr_payload_len
      → parse c (encode c fingerprint token device_id addresses)
        ≡ ok record {
          fingerprint = fingerprint;
          token_base32 = to_base32 c token;
          device_id = device_id;
          addresses = addresses;
        }
  unfolding parse to_base32 parse_parts
  parse-encode fingerprint token device_id addresses f_bytes f_len t_bytes t_len there short hex
        fits =
      let small : ltb max_qr_payload_len (length (encode c fingerprint token device_id addresses))
          ≡ false =
        ground arith in
      let narrow : ltb 64 (length device_id) ≡ false = ground arith in
      ap (parse_parts c (encode c fingerprint token device_id addresses))
        (parts-encode fingerprint token device_id addresses f_bytes t_bytes hex)
      ∙ rw
          (
            small,
            =?_refl qr_scheme,
            fingerprint-read fingerprint f_bytes f_len,
            token-read token t_bytes t_len,
            there,
            narrow,
            hex,
            addresses-printed addresses,
          )
          refl
