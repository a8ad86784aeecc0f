-- ===== src/Files/Filename/Cut.antt =====
-- Cutting a name to its limit (filename.rs, `truncate_preserving_extension`): the cut falls between
-- two characters, and what is left is a part of the name with the extension behind it.
use anyflow.Prelude.{
  ℕ, zero, suc, ◌+◌, ◌-◌, ◌*◌, ◌≤◌, ◌≡◌, refl, sym, ap, ◌∙◌, true, false, [], ◌∷◌, ◌++◌, length,
  leb, ltb, arith, Bool-cases, inl, inr,
}
use anyflow.Files.Filename.{
  Text, len_utf8, byte_len, is_char_boundary, walk_back, floor_char_boundary, slice_to,
}

len_utf8_bounds : (c : ℕ) → (1 ≤ len_utf8 c) × (len_utf8 c ≤ 4)
len_utf8_bounds c = ground arith

pub byte_len-append : (s t : Text) → byte_len (s ++ t) ≡ byte_len s + byte_len t
byte_len-append [] t = omega arith
byte_len-append (c ∷ cs) t = omega (arith, byte_len-append cs t)

pub byte_len-le : (s : Text) → byte_len s ≤ 4 * length s
byte_len-le [] = omega arith
byte_len-le (c ∷ cs) = omega (arith, byte_len-le cs, len_utf8_bounds c)

pub slice_to-le : (n : ℕ) (s : Text) → byte_len (slice_to n s) ≤ n
unfolding slice_to
slice_to-le n [] = omega arith
slice_to-le n (c ∷ cs) = elim (Bool-cases (leb (len_utf8 c) n)) [
  | inl fits ↦ rw fits (ground (arith, slice_to-le (n - len_utf8 c) cs))
  | inr over ↦ rw over (omega arith)
]

-- No more than three bytes are lost at the cut.
pub slice_to-near : (n : ℕ) (s : Text) → n ≤ byte_len s → n ≤ byte_len (slice_to n s) + 3
unfolding slice_to
slice_to-near n [] h = omega arith
slice_to-near n (c ∷ cs) h = elim (Bool-cases (leb (len_utf8 c) n)) [
  | inl fits ↦ rw fits (ground (arith, slice_to-near (n - len_utf8 c) cs))
  | inr over ↦ rw over (ground (arith, len_utf8_bounds c))
]

slice_to-all : (n : ℕ) (s : Text) → byte_len s ≤ n → slice_to n s ≡ s
unfolding slice_to
slice_to-all n [] h = refl
slice_to-all n (c ∷ cs) h = ground (arith, slice_to-all (n - len_utf8 c) cs)

boundary-slice : (n : ℕ) (s : Text) → is_char_boundary s n ≡ true → byte_len (slice_to n s) ≡ n
unfolding slice_to is_char_boundary
boundary-slice zero [] h = refl
boundary-slice (suc n) [] h = cc
boundary-slice zero (c ∷ cs) h = ground (arith, len_utf8_bounds c)
boundary-slice (suc n) (c ∷ cs) h = ground (arith, boundary-slice (suc n - len_utf8 c) cs)

past-slice :
    (n : ℕ) (s : Text) → is_char_boundary s (suc n) ≡ false → slice_to (suc n) s ≡ slice_to n s
unfolding slice_to is_char_boundary
past-slice n [] h = refl
past-slice n (c ∷ cs) h = elim (Bool-cases (leb (len_utf8 c) n)) [
  | inl fits ↦
      let e : suc n - len_utf8 c ≡ suc (n - len_utf8 c) = ground arith in
      ground (arith, past-slice (n - len_utf8 c) cs, e)
  | inr over ↦ elim (Bool-cases (ltb (suc n) (len_utf8 c))) [
    | inl beyond ↦ ground arith
    | inr exact ↦
        let e : suc n - len_utf8 c ≡ 0 = ground arith in
        let b : is_char_boundary cs (suc n - len_utf8 c) ≡ true = rw e refl in absurd (ground arith)
  ]
]

walk_back-slice : (s : Text) (n : ℕ) → walk_back s n ≡ byte_len (slice_to n s)
unfolding walk_back
walk_back-slice s zero = let h : byte_len (slice_to 0 s) ≤ 0 = slice_to-le 0 s in omega arith
walk_back-slice s (suc n) =
    ground (arith, boundary-slice (suc n) s, past-slice n s, walk_back-slice s n)

slice_to-again : (n : ℕ) (s : Text) → slice_to (byte_len (slice_to n s)) s ≡ slice_to n s
unfolding slice_to
slice_to-again n [] = refl
slice_to-again n (c ∷ cs) = elim (Bool-cases (leb (len_utf8 c) n)) [
  | inl fits ↦
      let e : len_utf8 c + byte_len (slice_to (n - len_utf8 c) cs) - len_utf8 c
          ≡ byte_len (slice_to (n - len_utf8 c) cs) =
        omega arith in
      rw fits (ground (arith, e, slice_to-again (n - len_utf8 c) cs))
  | inr over ↦ rw over (ground (arith, len_utf8_bounds c))
]

-- The position that the loop finds is a boundary, so the slice does not panic, and cuts off what
-- does not fit.
pub slice-floor :
    (s : Text) (n : ℕ)
    → (slice_to (floor_char_boundary s n) s ≡ slice_to n s)
      × (byte_len (slice_to n s) ≡ floor_char_boundary s n)
unfolding floor_char_boundary
slice-floor s n = elim (Bool-cases (leb (byte_len s) n)) [
  | inl fits ↦
      let whole : byte_len s ≤ n = ground arith in
      rw fits (
        slice_to-all (byte_len s) s (omega arith) ∙ sym (slice_to-all n s whole),
        ap byte_len (slice_to-all n s whole),
      )
  | inr over ↦
      rw over (
        ap (λ k. slice_to k s) (walk_back-slice s n) ∙ slice_to-again n s,
        sym (walk_back-slice s n),
      )
]
