-- ===== src/Notifications/Text/Harmless.antt =====
-- What the notification server is given (text.rs).
use anyflow.Prelude.{
  leb, ◌||◌, ℕ, zero, suc, ◌-◌, ◌≤◌, ◌<◌, ◌≡◌, refl, ◌∙◌, Bool, true, false, not, ◌&&◌, [], ◌∷◌,
  length, length-append, length-take-le, all, all-append, keep, take, ◌==◌, Bool-cases, inl, inr,
  arith,
}
use anyflow.Files.Filename.{Text, is_control, trim_start}
use anyflow.Notifications.Text.{
  max_summary_chars, max_body_chars, usize_max, is_format_char, ellipsis, truncate_chars, trim_end,
  trim, is_line_char, is_block_char, sanitize_line, sanitize_block, escaped, escape_markup, summary,
  body, presented,
}

all-keep : (p : ℕ → Bool) (cs : Text) → all p (keep p cs) ≡ true
all-keep p [] = refl
all-keep p (c ∷ cs) = elim (Bool-cases (p c)) [
  | inl y ↦ ground (arith, all-keep p cs)
  | inr n ↦ ground (arith, all-keep p cs)
]

all-trim_start : (p : ℕ → Bool) (cs : Text) → all p cs ≡ true → all p (trim_start cs) ≡ true
unfolding trim_start
all-trim_start p [] h = refl
all-trim_start p (c ∷ cs) h = ground (arith, all-trim_start p cs)

all-trim_end : (p : ℕ → Bool) (cs : Text) → all p cs ≡ true → all p (trim_end cs) ≡ true
unfolding trim_end
all-trim_end p [] h = refl
all-trim_end p (c ∷ cs) h = ground (arith, all-trim_end p cs)

all-take : (p : ℕ → Bool) (n : ℕ) (cs : Text) → all p cs ≡ true → all p (take n cs) ≡ true
all-take p zero cs h = refl
all-take p (suc n) [] h = refl
all-take p (suc n) (c ∷ cs) h = ground (arith, all-take p n cs)

all-truncate_chars :
    (p : ℕ → Bool) (cs : Text) (max : ℕ)
    → p ellipsis ≡ true
    → all p cs ≡ true
    → all p (truncate_chars cs max) ≡ true
unfolding truncate_chars
all-truncate_chars p cs max dots h =
    ground (arith, all-append p (take (max - 1) cs) (ellipsis ∷ []), all-take p (max - 1) cs h)

length-truncate_chars : (cs : Text) (max : ℕ) → 0 < max → length (truncate_chars cs max) ≤ max
unfolding truncate_chars
length-truncate_chars cs max some_room =
    ground (arith, length-append (take (max - 1) cs) (ellipsis ∷ []), length-take-le (max - 1) cs)

all-trim : (p : ℕ → Bool) (cs : Text) → all p cs ≡ true → all p (trim cs) ≡ true
unfolding trim
all-trim p cs h = all-trim_end p (trim_start cs) (all-trim_start p cs h)

dots_line : is_line_char ellipsis ≡ true
unfolding is_line_char is_control is_format_char
dots_line = refl

dots_block : is_block_char ellipsis ≡ true
unfolding is_block_char is_control is_format_char
dots_block = refl

-- A character that is no control character (a line feed is one), no space or joiner of zero width,
-- and no mark, override or isolate of direction.
abbrev pub is_visible : ℕ → Bool
is_visible c =
    leb 32 c
    && not (leb 127 c && leb c 159)
    && not (leb 0x200B c && leb c 0x200F)
    && not (leb 0x202A c && leb c 0x202E)
    && not (leb 0x2066 c && leb c 0x2069)
    && not (leb 0x2060 c && leb c 0x2064)
    && not (c == 0x061C)
    && not (c == 0x180E)
    && not (c == 0xFEFF)

abbrev pub is_visible_in_block : ℕ → Bool
is_visible_in_block c = c == 10 || c == 9 || is_visible c

line-visible : (c : ℕ) → is_line_char c ≡ true → is_visible c ≡ true
unfolding is_line_char is_control is_format_char
line-visible c h = ground arith

block-visible : (c : ℕ) → is_block_char c ≡ true → is_visible_in_block c ≡ true
unfolding is_block_char is_control is_format_char
block-visible c h = ground arith

all-weaken :
    (p q : ℕ → Bool)
    → ((c : ℕ) → p c ≡ true → q c ≡ true)
    → (cs : Text) → all p cs ≡ true
    → all q cs ≡ true
all-weaken p q h [] k = refl
all-weaken p q h (c ∷ cs) k = ground (arith, h c, all-weaken p q h cs)

line-harmless :
    (raw : Text) (max : ℕ)
    → 0 < max
    → (length (sanitize_line raw max) ≤ max) × (all is_visible (sanitize_line raw max) ≡ true)
unfolding sanitize_line
line-harmless raw max room = (
  length-truncate_chars (trim (keep is_line_char raw)) max room,
  all-weaken is_line_char is_visible line-visible
      (truncate_chars (trim (keep is_line_char raw)) max)
      (all-truncate_chars is_line_char (trim (keep is_line_char raw)) max dots_line
        (all-trim is_line_char (keep is_line_char raw) (all-keep is_line_char raw))),
)

-- Of a body, one that does not open or close a tag either.
abbrev pub is_inert : ℕ → Bool
is_inert c = is_visible_in_block c && not (c == 60) && not (c == 62)

dots_inert : is_inert ellipsis ≡ true
dots_inert = refl

all-escaped : (c : ℕ) → is_block_char c ≡ true → all is_inert (escaped c) ≡ true
unfolding escaped
all-escaped c h = let seen = block-visible c h in ground arith

all-escape_markup :
    (cs : Text) → all is_block_char cs ≡ true → all is_inert (escape_markup cs) ≡ true
unfolding escape_markup
all-escape_markup [] h = refl
all-escape_markup (c ∷ cs) h =
    all-append is_inert (escaped c) (escape_markup cs)
    ∙ ground (arith, all-escaped c, all-escape_markup cs)

block-harmless : (raw : Text) → all is_block_char (sanitize_block raw usize_max) ≡ true
unfolding sanitize_block
block-harmless raw =
    all-truncate_chars is_block_char (trim (keep is_block_char raw)) usize_max dots_block
      (all-trim is_block_char (keep is_block_char raw) (all-keep is_block_char raw))

-- Whatever an application writes, the server is given a summary of at most 120 characters and a
-- body of at most 2000. Neither has a control character, but that a body keeps its line feeds and
-- tabs, nor one of the zero-width characters and the marks, overrides and isolates of direction
-- that is_visible names; and the body for a server that parses markup has no angle bracket.
pub presented-harmless :
    (title raw_body : Text)
    → ((length (presented title raw_body true).0 ≤ max_summary_chars)
        × (all is_visible (presented title raw_body true).0 ≡ true))
      × (((length (presented title raw_body true).1 ≤ max_body_chars)
            × (all is_inert (presented title raw_body true).1 ≡ true))
          × ((length (presented title raw_body false).1 ≤ max_body_chars)
              × (all is_visible_in_block (presented title raw_body false).1 ≡ true)))
unfolding presented summary body
presented-harmless title raw_body =
    let cleaned = sanitize_block raw_body usize_max in
    (
      line-harmless title max_summary_chars (omega arith),
      (
        (
          length-truncate_chars (escape_markup cleaned) max_body_chars (omega arith),
          all-truncate_chars is_inert (escape_markup cleaned) max_body_chars dots_inert
              (all-escape_markup cleaned (block-harmless raw_body)),
        ),
        (
          length-truncate_chars cleaned max_body_chars (omega arith),
          all-weaken is_block_char is_visible_in_block block-visible
              (truncate_chars cleaned max_body_chars)
              (all-truncate_chars is_block_char cleaned max_body_chars dots_block
                (block-harmless raw_body)),
        ),
      ),
    )
