-- ===== src/Session/Qr/Examples.antt =====
-- A code for a small device (qr.rs).
use anyflow.Prelude.{
  ℕ, ◌≡◌, refl, Bool, true, false, Option, none, some, [], ◌∷◌, ◌+◌, ◌-◌, ◌*◌, ◌/◌, ◌%◌, ◌&&◌, ◌||◌,
  leb, ltb, ◌==◌, replicate, if◌then◌else◌, Bytes, bytes_key, ok, arith,
}
use anyflow.Session.Qr.{Codec, encode, is_hex, join, parse, to_hex, to_base32}
use anyflow.Session.Qr.Printed.{are_bytes, has_no, Reads, parse-encode}

-- Lowercase hexadecimal.
abbrev digit : ℕ → ℕ
digit n = if ltb n 10 then b'0' + n else 87 + n

abbrev is_digit : ℕ → Bool
is_digit c = (leb b'0' c && leb c b'9') || (leb b'a' c && leb c b'f')

abbrev value : ℕ → ℕ
value c = if leb c b'9' then c - b'0' else c - 87

hexed : Bytes → Bytes
hexed [] = []
hexed (b ∷ bs) = digit (b / 16) ∷ digit (b % 16) ∷ hexed bs

abbrev and_then : ℕ → Option Bytes → Option Bytes
and_then b none = none
and_then b (some bs) = some (b ∷ bs)

unhexed : Bytes → Option Bytes
unhexed [] = some []
unhexed (c ∷ []) = none
unhexed (c ∷ d ∷ rest) =
    let later = unhexed rest in
    if is_digit c && is_digit d then and_then (value c * 16 + value d) later else none

digit-value : (n : ℕ) → ltb n 16 ≡ true → (is_digit (digit n) ≡ true) × (value (digit n) ≡ n)
digit-value n h = ground arith

digit-colon : (n : ℕ) → (digit n == b':') ≡ false
digit-colon n = ground arith

unhexed-hexed : (bs : Bytes) → are_bytes bs ≡ true → unhexed (hexed bs) ≡ some bs
unfolding hexed unhexed
unhexed-hexed [] h = refl
unhexed-hexed (b ∷ bs) h =
    let (high_digit, high) = digit-value (b / 16) (ground arith) in
    let (low_digit, low) = digit-value (b % 16) (ground arith) in
    let whole : b / 16 * 16 + b % 16 ≡ b = omega arith in
    rw (high_digit, low_digit, high, low, whole, unhexed-hexed bs (ground arith)) refl

hexed-has_no : (bs : Bytes) → are_bytes bs ≡ true → has_no b':' (hexed bs) ≡ true
unfolding hexed
hexed-has_no [] h = refl
hexed-has_no (b ∷ bs) h =
    rw (digit-colon (b / 16), digit-colon (b % 16)) (hexed-has_no bs (ground arith))

-- An address is one byte, printed as a number above the comma.
abbrev read_one : Bytes → Option ℕ
read_one [] = none
read_one (b ∷ bs) = some (b - 45)

abbrev codec : Codec ℕ
codec = record {
  hex_encode = hexed;
  hex_decode = unhexed;
  base32_encode = hexed;
  base32_decode = unhexed;
  print = λ a. (a + 45) ∷ [];
  parse_address = read_one;
}

codec-Reads : Reads codec
codec-Reads = record {
  hex = unhexed-hexed;
  hex_plain = hexed-has_no;
  base32 = unhexed-hexed;
  base32_plain = hexed-has_no;
  address = λ a. ground arith;
  address_plain = λ a. ground arith;
  address_there = λ a. refl;
}

-- The two addresses 4 and 5, and the device id "a1".
parse-encode_example :
    parse codec (encode codec (replicate 32 171) (replicate 20 3) (b'a' ∷ b'1' ∷ []) (4 ∷ 5 ∷ []))
    ≡ ok record {
      fingerprint = replicate 32 171;
      token_base32 = to_base32 codec (replicate 20 3);
      device_id = b'a' ∷ b'1' ∷ [];
      addresses = 4 ∷ 5 ∷ [];
    }
unfolding encode hexed is_hex join to_hex to_base32
parse-encode_example =
    parse-encode codec codec-Reads (replicate 32 171) (replicate 20 3) (b'a' ∷ b'1' ∷ [])
      (4 ∷ 5 ∷ []) refl refl refl refl refl (omega arith) refl (omega arith)
