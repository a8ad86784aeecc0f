-- ===== src/Files/Filename.antt =====
-- desktop/capabilities/files/src/filename.rs: the safe name of a received file. A `str` is the list
-- of its characters, and its length in bytes is that of their UTF-8 form.
pub mod Cut
pub mod Harmless
pub mod Safe
pub mod Basename
pub mod Examples
use anyflow.Prelude.{
  ℕ, zero, suc, ◌+◌, ◌-◌, Bool, true, false, not, ◌&&◌, ◌||◌, Option, none, some, List, [], ◌∷◌,
  ◌++◌, map, any, keep, is_nil, leb, ltb, ◌==◌, if◌then◌else◌, ◌=?◌, bytes_key,
}

-- A `str`, by its code points.
abbrev pub Text : Type 0
Text = List ℕ

abbrev pub max_filename_bytes : ℕ
max_filename_bytes = 255

-- `char::len_utf8`
abbrev pub len_utf8 : ℕ → ℕ
len_utf8 c = if ltb c 0x80 then 1 else if ltb c 0x800 then 2 else if ltb c 0x10000 then 3 else 4

-- `str::len`
abbrev pub byte_len : Text → ℕ
byte_len [] = 0
byte_len (c ∷ cs) = len_utf8 c + byte_len cs

abbrev pub within : ℕ → ℕ → ℕ → Bool
within low high c = leb low c && leb c high

abbrev com_port : ℕ → Text
com_port d = b'c' ∷ b'o' ∷ b'm' ∷ d ∷ []

abbrev lpt_port : ℕ → Text
lpt_port d = b'l' ∷ b'p' ∷ b't' ∷ d ∷ []

abbrev nonzero_digits : Text
nonzero_digits = b'1' ∷ b'2' ∷ b'3' ∷ b'4' ∷ b'5' ∷ b'6' ∷ b'7' ∷ b'8' ∷ b'9' ∷ []

pub reserved_stems : List Text
reserved_stems =
    (b'c' ∷ b'o' ∷ b'n' ∷ [])
    ∷ (b'p' ∷ b'r' ∷ b'n' ∷ [])
    ∷ (b'a' ∷ b'u' ∷ b'x' ∷ [])
    ∷ (b'n' ∷ b'u' ∷ b'l' ∷ [])
    ∷ (map com_port nonzero_digits
        ++ (map lpt_port nonzero_digits
            ++ (b'c' ∷ b'o' ∷ b'n' ∷ b'i' ∷ b'n' ∷ b'$' ∷ [])
              ∷ (b'c' ∷ b'o' ∷ b'n' ∷ b'o' ∷ b'u' ∷ b't' ∷ b'$' ∷ [])
              ∷ []))

-- `<`, `>`, `:`, `"`, `|`, `?` and `*`
pub windows_illegal : Text
windows_illegal = 60 ∷ 62 ∷ 58 ∷ 34 ∷ 124 ∷ 63 ∷ 42 ∷ []

pub is_format_char : ℕ → Bool
is_format_char c =
    c == 0x00AD
    || within 0x0600 0x0605 c
    || c == 0x061C
    || c == 0x06DD
    || c == 0x070F
    || within 0x0890 0x0891 c
    || c == 0x08E2
    || c == 0x180E
    || within 0x200B 0x200F c
    || within 0x202A 0x202E c
    || within 0x2060 0x2064 c
    || within 0x2066 0x206F c
    || c == 0xFEFF
    || within 0xFFF9 0xFFFB c
    || c == 0x110BD
    || c == 0x110CD
    || within 0x13430 0x1343F c
    || within 0x1BCA0 0x1BCA3 c
    || within 0x1D173 0x1D17A c
    || c == 0xE0001
    || within 0xE0020 0xE007F c

-- `char::is_control`: the general category Cc.
unfoldable pub is_control : ℕ → Bool
is_control c = leb c 0x1F || within 0x7F 0x9F c

-- `char::is_whitespace`: the property White_Space.
unfoldable pub is_whitespace : ℕ → Bool
is_whitespace c =
    within 0x9 0xD c
    || c == 0x20
    || c == 0x85
    || c == 0xA0
    || c == 0x1680
    || within 0x2000 0x200A c
    || c == 0x2028
    || c == 0x2029
    || c == 0x202F
    || c == 0x205F
    || c == 0x3000

-- `/` and `\`
abbrev pub is_separator : ℕ → Bool
is_separator c = c == b'/' || c == 92

abbrev pub is_dot : ℕ → Bool
is_dot c = c == b'.'

-- The characters that `sanitize` keeps.
pub is_kept : ℕ → Bool
unfolding is_control is_format_char windows_illegal
is_kept c =
    not (is_control c)
    && not (c == b'/')
    && not (c == 92)
    && not (is_format_char c)
    && not (any (λ w. w == c) windows_illegal)

-- `rsplit(['/', '\\']).next()`: what follows the last separator.
pub last_component : Text → Text
last_component [] = []
last_component (c ∷ cs) = if any is_separator (c ∷ cs) then last_component cs else c ∷ cs

unfoldable pub trim_start : Text → Text
unfolding is_whitespace
trim_start [] = []
trim_start (c ∷ cs) = if is_whitespace c then trim_start cs else c ∷ cs

-- `[' ', '.', '\t']`
abbrev pub is_trailing : ℕ → Bool
is_trailing c = c == 32 || c == b'.' || c == 9

pub trim_end : Text → Text
trim_end [] = []
trim_end (c ∷ cs) = let rest = trim_end cs in if is_nil rest && is_trailing c then [] else c ∷ rest

-- `split('.').next()`
pub stem_of : Text → Text
stem_of [] = []
stem_of (c ∷ cs) = if is_dot c then [] else c ∷ stem_of cs

abbrev pub to_ascii_lowercase : ℕ → ℕ
to_ascii_lowercase c = if within b'A' b'Z' c then c + 32 else c

pub is_reserved : Text → Bool
unfolding reserved_stems
is_reserved stem = any (λ r. r =? map to_ascii_lowercase stem) reserved_stems

-- `rfind('.')`: what comes before the last dot, and the rest with it.
unfoldable pub rfind_dot : Text → Option (Text × Text)
rfind_dot [] = none
rfind_dot (c ∷ cs) = elim (rfind_dot cs) [
  | some (before, rest) ↦ some (c ∷ before, rest)
  | none ↦ if is_dot c then some ([], c ∷ cs) else none
]

-- `str::is_char_boundary`
pub is_char_boundary : Text → ℕ → Bool
is_char_boundary s zero = true
is_char_boundary [] (suc i) = false
is_char_boundary (c ∷ cs) (suc i) =
    if ltb (suc i) (len_utf8 c) then false else is_char_boundary cs (suc i - len_utf8 c)

-- `while i > 0 && !s.is_char_boundary(i) { i -= 1; }`
pub walk_back : Text → ℕ → ℕ
unfolding is_char_boundary
walk_back s zero = zero
walk_back s (suc i) = if is_char_boundary s (suc i) then suc i else walk_back s i

pub floor_char_boundary : Text → ℕ → ℕ
unfolding walk_back
floor_char_boundary s index = if leb (byte_len s) index then byte_len s else walk_back s index

-- `&s[..n]`: the characters that end within the first `n` bytes. Rust panics unless `n` is a
-- boundary.
pub slice_to : ℕ → Text → Text
slice_to n [] = []
slice_to n (c ∷ cs) = if leb (len_utf8 c) n then c ∷ slice_to (n - len_utf8 c) cs else []

-- The stem that is cut, and the extension that is kept.
pub split_for_cut : Text → Option (Text × Text) → Text × Text
split_for_cut name (some (before, rest)) =
    if not (is_nil before) && leb (byte_len rest) 16 then (before, rest) else (name, [])
split_for_cut name none = (name, [])

pub truncate_preserving_extension : Text → Text
unfolding rfind_dot floor_char_boundary slice_to split_for_cut
truncate_preserving_extension name =
    if leb (byte_len name) max_filename_bytes
    then name
    else let (stem, extension) = split_for_cut name (rfind_dot name) in
      let cut = floor_char_boundary stem (max_filename_bytes - byte_len extension) in
      slice_to cut stem ++ extension

abbrev pub is_dot_directory : Text → Bool
is_dot_directory t = t =? (b'.' ∷ []) || t =? (b'.' ∷ b'.' ∷ [])

-- What is left of a name before it is judged.
pub trimmed : Text → Text
unfolding last_component is_kept trim_start trim_end
trimmed raw = trim_end (trim_start (keep is_kept (last_component raw)))

pub judge : Text → Option Text
unfolding stem_of is_reserved truncate_preserving_extension
judge t =
    if is_nil t || is_dot_directory t
    then none
    else if is_reserved (stem_of t)
    then none
    else let capped = truncate_preserving_extension t in if is_nil capped then none else some capped

pub sanitize : Text → Option Text
unfolding trimmed judge
sanitize raw = judge (trimmed raw)
