-- ===== src/Notifications/Text.antt =====
-- desktop/capabilities/notifications/src/text.rs: the text of an application on the phone, made fit
-- for the desktop's notification server. A text is the list of its characters.
pub mod Harmless
pub mod Examples
use anyflow.Prelude.{
  ℕ, ◌-◌, ◌^◌, Bool, not, ◌&&◌, ◌||◌, List, [], ◌∷◌, ◌++◌, length, keep, take, is_nil, leb, ◌==◌,
  if◌then◌else◌,
}
use anyflow.Files.Filename.{Text, within, is_control, is_whitespace, trim_start}

abbrev pub max_summary_chars : ℕ
max_summary_chars = 120

abbrev pub max_body_chars : ℕ
max_body_chars = 2000

abbrev pub max_app_name_chars : ℕ
max_app_name_chars = 64

-- `usize::MAX`
abbrev pub usize_max : ℕ
usize_max = 2 ^ 64 - 1

pub is_format_char : ℕ → Bool
is_format_char c =
    c == 0x00AD
    || within 0x0600 0x0605 c
    || c == 0x061C
    || c == 0x06DD
    || c == 0x070F
    || within 0x0890 0x0891 c
    || c == 0x08E2
    || c == 0x180E
    || within 0x200B 0x200F c
    || within 0x202A 0x202E c
    || within 0x2060 0x2064 c
    || within 0x2066 0x206F c
    || c == 0xFEFF
    || within 0xFFF9 0xFFFB c
    || c == 0x110BD
    || c == 0x110CD
    || within 0x13430 0x1343F c
    || within 0x1BCA0 0x1BCA3 c
    || within 0x1D173 0x1D17A c
    || c == 0xE0001
    || within 0xE0020 0xE007F c

-- U+2026, HORIZONTAL ELLIPSIS
abbrev pub ellipsis : ℕ
ellipsis = 0x2026

pub truncate_chars : Text → ℕ → Text
truncate_chars value max =
    if leb (length value) max then value else take (max - 1) value ++ ellipsis ∷ []

pub trim_end : Text → Text
unfolding is_whitespace
trim_end [] = []
trim_end (c ∷ cs) =
    let rest = trim_end cs in if is_nil rest && is_whitespace c then [] else c ∷ rest

-- `str::trim`
pub trim : Text → Text
unfolding trim_start trim_end
trim cs = trim_end (trim_start cs)

pub is_line_char : ℕ → Bool
unfolding is_control is_format_char
is_line_char c = not (is_control c) && not (is_format_char c)

pub sanitize_line : Text → ℕ → Text
unfolding is_line_char trim truncate_chars
sanitize_line raw max_chars = truncate_chars (trim (keep is_line_char raw)) max_chars

-- Line feeds and tabs stay.
pub is_block_char : ℕ → Bool
unfolding is_control is_format_char
is_block_char c = (not (is_control c) || c == 10 || c == 9) && not (is_format_char c)

pub sanitize_block : Text → ℕ → Text
unfolding is_block_char trim truncate_chars
sanitize_block raw max_chars = truncate_chars (trim (keep is_block_char raw)) max_chars

-- What a character becomes: `&amp;`, `&lt;`, `&gt;`, or itself.
pub escaped : ℕ → Text
escaped c =
    if c == b'&'
    then b'&' ∷ b'a' ∷ b'm' ∷ b'p' ∷ b';' ∷ []
    else if c == 60
    then b'&' ∷ b'l' ∷ b't' ∷ b';' ∷ []
    else if c == 62
    then b'&' ∷ b'g' ∷ b't' ∷ b';' ∷ []
    else c ∷ []

pub escape_markup : Text → Text
unfolding escaped
escape_markup [] = []
escape_markup (c ∷ cs) = escaped c ++ escape_markup cs

pub app_name : Text → Text → Text
unfolding sanitize_line
app_name label app_id =
    let line = sanitize_line label max_app_name_chars in
    if not (is_nil line) then line else sanitize_line app_id max_app_name_chars

pub summary : Text → Text
unfolding sanitize_line
summary title = sanitize_line title max_summary_chars

pub body : Text → Bool → Text
unfolding sanitize_block escape_markup truncate_chars
body raw markup =
    let cleaned = sanitize_block raw usize_max in
    truncate_chars (if markup then escape_markup cleaned else cleaned) max_body_chars

pub presented : Text → Text → Bool → Text × Text
unfolding summary body
presented title raw_body markup = (summary title, body raw_body markup)
