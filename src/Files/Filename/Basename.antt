-- ===== src/Files/Filename/Basename.antt =====
-- `sanitize` on a path of the peer with a safe name at its end (filename.rs).
use anyflow.Prelude.{
  ℕ, ◌<◌, ◌≡◌, refl, ap, true, false, some, [], ◌∷◌, ◌++◌, any, all, keep, leb, arith, Bool-cases,
  inl, inr, ◌=?◌, =?_iff, bytes_key,
}
use anyflow.Files.Filename.{
  Text, is_dot_directory, byte_len, is_kept, is_separator, last_component, trim_start, trim_end,
  trimmed, judge, sanitize, truncate_preserving_extension,
}
use anyflow.Files.Filename.Safe.{IsSafe}

no_separator : (s : Text) → all is_kept s ≡ true → any is_separator s ≡ false
unfolding is_kept
no_separator [] h = refl
no_separator (c ∷ cs) h = ground (arith, no_separator cs)

last_component_self : (s : Text) → any is_separator s ≡ false → last_component s ≡ s
unfolding last_component
last_component_self [] h = refl
last_component_self (c ∷ cs) h = rw h refl

any-end :
    (sep : ℕ) (dir s : Text) → is_separator sep ≡ true → any is_separator (dir ++ sep ∷ s) ≡ true
any-end sep [] s h = ground arith
any-end sep (c ∷ cs) s h = ground (arith, any-end sep cs s h)

last_component-path :
    (sep : ℕ) (dir s : Text)
    → is_separator sep ≡ true
    → any is_separator s ≡ false
    → last_component (dir ++ sep ∷ s) ≡ s
unfolding last_component
last_component-path sep [] s h n = ground (arith, last_component_self s n)
last_component-path sep (c ∷ cs) s h n =
    ground (arith, any-end sep cs s h, last_component-path sep cs s h n)

keep_self : (s : Text) → all is_kept s ≡ true → keep is_kept s ≡ s
keep_self [] h = refl
keep_self (c ∷ cs) h = ground (arith, keep_self cs)

not_dots : (s : Text) → trim_end s ≡ s → 0 < byte_len s → is_dot_directory s ≡ false
unfolding trim_end
not_dots s e n = elim (Bool-cases (s =? (b'.' ∷ []))) [
  | inl one ↦
      let p = (=?_iff s (b'.' ∷ [])).0 one in
      absurd (omega (arith, ap byte_len e, ap (λ q. byte_len (trim_end q)) p))
  | inr no_one ↦ elim (Bool-cases (s =? (b'.' ∷ b'.' ∷ []))) [
    | inl two ↦
        let p = (=?_iff s (b'.' ∷ b'.' ∷ [])).0 two in
        absurd (omega (arith, ap byte_len e, ap (λ q. byte_len (trim_end q)) p))
    | inr no_two ↦ rw (no_one, no_two) refl
  ]
]

judge_self : (s : Text) → IsSafe s → trim_end s ≡ s → judge s ≡ some s
unfolding judge truncate_preserving_extension
judge_self [] h e = absurd (omega (arith, h.nonempty))
judge_self (c ∷ cs) h e =
    let short : leb (byte_len (c ∷ cs)) 255 ≡ true = ground (arith, h.fits) in
    rw (not_dots (c ∷ cs) e h.nonempty, h.unreserved, short) refl

-- A safe name with no space to trim is returned as it is, whatever directory the peer puts before it
-- with either separator.
pub sanitize_basename :
    (dir : Text) (sep : ℕ) (s : Text)
    → is_separator sep ≡ true
    → IsSafe s
    → trim_start s ≡ s
    → trim_end s ≡ s
    → sanitize (dir ++ sep ∷ s) ≡ some s
unfolding sanitize trimmed
sanitize_basename dir sep s p h l r =
    rw (last_component-path sep dir s p (no_separator s h.kept), keep_self s h.kept, l, r)
      (judge_self s h r)
