-- ===== src/Files/Filename/Harmless.antt =====
-- What the characters that `sanitize` keeps are not (filename.rs).
use anyflow.Prelude.{
  ℕ, ◌≤◌, ◌<◌, ◌≡◌, ◌≢◌, Bool, true, ◌&&◌, [], ◌∷◌, any, all, ◌==◌, ==_iff, arith, Bool-cases, inl,
  inr,
}
use anyflow.Files.Filename.{Text, is_kept, is_control, is_format_char, windows_illegal}

-- No character of the name is a path separator, a colon, a control character or one of the marks
-- that turn the direction of the text that follows.
pub record IsHarmless (s : Text) : Type 0 where
  pub harmless :
      (c : ℕ)
      → any (λ x. x == c) s ≡ true
      → (32 ≤ c)
        × (c ≢ b'/')
        × (c ≢ 92)
        × (c ≢ b':')
        × (127 ≤ c → 159 < c)
        × (0x202A ≤ c → 0x202E < c)

pub kept-harmless :
    (c : ℕ)
    → is_kept c ≡ true
    → (32 ≤ c)
      × (c ≢ b'/')
      × (c ≢ 92)
      × (c ≢ b':')
      × (127 ≤ c → 159 < c)
      × (0x202A ≤ c → 0x202E < c)
unfolding is_kept is_control is_format_char windows_illegal
kept-harmless c h = (
  ground arith,
  λ e. ground arith,
  λ e. ground arith,
  λ e. ground arith,
  λ l. ground arith,
  λ l. ground arith,
)

and-left : (a b : Bool) → (a && b) ≡ true → a ≡ true
and-left a b h = ground arith

and-right : (a b : Bool) → (a && b) ≡ true → b ≡ true
and-right a b h = ground arith

pub all-any :
    (c : ℕ) (s : Text) → all is_kept s ≡ true → any (λ x. x == c) s ≡ true → is_kept c ≡ true
all-any c [] h m = cc
all-any c (x ∷ xs) h m = elim (Bool-cases (x == c)) [
  | inl same ↦
      let e : x ≡ c = (==_iff x c).0 same in
      let k : is_kept x ≡ true = and-left (is_kept x) (all is_kept xs) h in rw e at k
  | inr differs ↦ all-any c xs (and-right (is_kept x) (all is_kept xs) h) (rw differs at m)
]
