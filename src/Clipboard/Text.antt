-- ===== src/Clipboard/Text.antt =====
-- desktop/capabilities/clipboard/src/text.rs: what counts as clipboard text. A text is its UTF-8
-- bytes; SHA-256 is the crate's.
use anyflow.Prelude.{ℕ, ◌*◌, length, any, is_nil, ltb, ◌==◌, if◌then◌else◌, Bytes, Result, ok, err}

abbrev pub max_clipboard_text_bytes : ℕ
max_clipboard_text_bytes = 32 * 1024

pub data TextRejection : Type 0 where
  empty : TextRejection
  too_large : ℕ → TextRejection
  contains_nul : TextRejection

pub record ClipboardText : Type 0 where
  pub text : Bytes
  pub hash : Bytes

unfoldable pub validate : (Bytes → Bytes) → Bytes → Result ClipboardText TextRejection
validate sha256 text =
    if is_nil text
    then err empty
    else if ltb max_clipboard_text_bytes (length text)
    then err (too_large (length text))
    else if any (λ b. b == 0) text
    then err contains_nul
    else ok record { text = text; hash = sha256 text }
