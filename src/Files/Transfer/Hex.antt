-- ===== src/Files/Transfer/Hex.antt =====
-- A transfer's id and its hexadecimal text (transfer.rs, `to_hex` and `from_hex`).
use anyflow.Prelude.{
  ℕ, ◌+◌, ◌*◌, ◌/◌, ◌%◌, ◌<◌, ◌≡◌, ◌≢◌, sym, refl, Bool, true, not, ◌||◌, none, some, [], ◌∷◌,
  length, all, map, ltb, ◌==◌, ==_iff, if◌then◌else◌, Bytes, arith, ap, ◌∙◌, Option-cases, inl, inr,
}
use anyflow.Files.Transfer.{
  TransferId, transfer_id_len, digit, hex_of, to_hex, is_between, is_ascii_hexdigit, value,
  from_str_radix, parse_pairs, put_first, in_base_16, id_of, from_hex,
}

abbrev pub is_byte : ℕ → Bool
is_byte b = ltb b 256

radix-digit : (b : ℕ) → b < 256 → from_str_radix (digit (b / 16)) (digit (b % 16)) ≡ some b
radix-digit b small = ground arith

digit-hex : (n : ℕ) → n < 16 → is_ascii_hexdigit (digit n) ≡ true
digit-hex n small = ground arith

parse-hex_of : (bs : Bytes) → all is_byte bs ≡ true → parse_pairs (hex_of bs) ≡ some bs
unfolding parse_pairs hex_of
parse-hex_of [] h = refl
parse-hex_of (b ∷ bs) h =
    ap (λ o. put_first o (parse_pairs (hex_of bs))) (radix-digit b (ground arith))
    ∙ ap (put_first (some b)) (parse-hex_of bs (ground arith))

length-hex_of : (bs : Bytes) → length (hex_of bs) ≡ length bs * 2
unfolding hex_of
length-hex_of [] = refl
length-hex_of (b ∷ bs) = omega (arith, length-hex_of bs)

hexdigits-hex_of : (bs : Bytes) → all is_byte bs ≡ true → all is_ascii_hexdigit (hex_of bs) ≡ true
unfolding hex_of
hexdigits-hex_of [] h = refl
hexdigits-hex_of (b ∷ bs) h =
    let high = digit-hex (b / 16) (ground arith) in
    let low = digit-hex (b % 16) (omega arith) in
    let rest = hexdigits-hex_of bs (ground arith) in rw (high, low, rest) refl

-- An id of sixteen bytes is read back from its text.
pub from_hex-to_hex :
    (id : TransferId)
    → length id.bytes ≡ transfer_id_len
    → all is_byte id.bytes ≡ true
    → from_hex (to_hex id) ≡ some id
unfolding from_hex to_hex
from_hex-to_hex id n h =
    let shape : (length (hex_of id.bytes) == transfer_id_len * 2) ≡ true =
      (==_iff (length (hex_of id.bytes)) 32).1 (omega (arith, length-hex_of id.bytes)) in
    ap
      (λ b.
        if not b || not (all is_ascii_hexdigit (hex_of id.bytes))
        then none
        else id_of (parse_pairs (hex_of id.bytes)))
      shape
    ∙ ap (λ b. if not b then none else id_of (parse_pairs (hex_of id.bytes)))
        (hexdigits-hex_of id.bytes h)
    ∙ ap id_of (parse-hex_of id.bytes h)

none-ne-some : {A : Type 0} (b : A) → none ≢ some b
none-ne-some b e = cc

some-injective : {A : Type 0} (a b : A) → some a ≡ some b → a ≡ b
some-injective a b e = cc

abbrev pub to_ascii_lowercase : ℕ → ℕ
to_ascii_lowercase b = if is_between b'A' b'F' b then b + 32 else b

digit-value : (h x : ℕ) → value h ≡ some x → (digit x ≡ to_ascii_lowercase h) × (x < 16)
digit-value h x e = ground arith

radix-inverse :
    (h l b : ℕ)
    → from_str_radix h l ≡ some b
    → (digit (b / 16) ≡ to_ascii_lowercase h) × (digit (b % 16) ≡ to_ascii_lowercase l)
radix-inverse h l b e = elim (Option-cases (value h)) [
  | inl n ↦ absurd (none-ne-some b (sym (ap (λ o. in_base_16 o (value l)) n) ∙ e))
  | inr (x, n) ↦ elim (Option-cases (value l)) [
    | inl m ↦
        absurd (
          none-ne-some b
            (sym (ap (λ o. in_base_16 o (value l)) n ∙ ap (in_base_16 (some x)) m) ∙ e))
    | inr (y, m) ↦
        let whole : b ≡ x * 16 + y =
          some-injective b (x * 16 + y)
            (sym e ∙ (ap (λ o. in_base_16 o (value l)) n ∙ ap (in_base_16 (some x)) m)) in
        let (dx, small_x) = digit-value h x n in
        let (dy, small_y) = digit-value l y m in
        let high : b / 16 ≡ x = omega arith in
        let low : b % 16 ≡ y = omega arith in (ap digit high ∙ dx, ap digit low ∙ dy)
  ]
]

hex_of-parsed :
    (text bs : Bytes) → parse_pairs text ≡ some bs → hex_of bs ≡ map to_ascii_lowercase text
unfolding parse_pairs hex_of
hex_of-parsed [] bs e = ap hex_of (sym (some-injective [] bs e))
hex_of-parsed (h ∷ []) bs e = cc
hex_of-parsed (h ∷ l ∷ rest) bs e = elim (Option-cases (from_str_radix h l)) [
  | inl n ↦ absurd (none-ne-some bs (sym (ap (λ o. put_first o (parse_pairs rest)) n) ∙ e))
  | inr (b, n) ↦ elim (Option-cases (parse_pairs rest)) [
    | inl m ↦ absurd (
        none-ne-some bs
          (sym (ap (λ o. put_first o (parse_pairs rest)) n ∙ ap (put_first (some b)) m) ∙ e))
    | inr (parsed, m) ↦
        let whole : b ∷ parsed ≡ bs =
          some-injective (b ∷ parsed) bs
            (sym (ap (λ o. put_first o (parse_pairs rest)) n ∙ ap (put_first (some b)) m) ∙ e) in
        let (high, low) = radix-inverse h l b n in
        let tail = hex_of-parsed rest parsed m in
        ap hex_of (sym whole)
        ∙ (ap (λ x. x ∷ digit (b % 16) ∷ hex_of parsed) high
            ∙ (ap (λ x. to_ascii_lowercase h ∷ x ∷ hex_of parsed) low
                ∙ ap (λ xs. to_ascii_lowercase h ∷ to_ascii_lowercase l ∷ xs) tail))
  ]
]

-- A text that is read as an id is the text of that id, up to the case of its letters: there is no
-- other spelling.
pub from_hex-spelling :
    (text : Bytes) (id : TransferId)
    → from_hex text ≡ some id
    → to_hex id ≡ map to_ascii_lowercase text
unfolding from_hex to_hex
from_hex-spelling text id e = elim (Option-cases (parse_pairs text)) [
  | inl n ↦ absurd (ground arith)
  | inr (bs, n) ↦
      let whole : bs ≡ id.bytes = ground arith in ap hex_of (sym whole) ∙ hex_of-parsed text bs n
]
