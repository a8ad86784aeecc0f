-- ===== src/Notifications/Text/Examples.antt =====
-- Titles and bodies of a phone's applications (text.rs).
use anyflow.Prelude.{◌≤◌, ◌≡◌, refl, true, false, [], ◌∷◌, ◌++◌, length, all, replicate}
use anyflow.Files.Filename.{Text}
use anyflow.Notifications.Text.{
  max_summary_chars, max_body_chars, ellipsis, sanitize_line, body, presented,
}
use anyflow.Notifications.Text.Harmless.{
  is_inert, is_visible, is_visible_in_block, presented-harmless,
}

abbrev bold : Text
bold = 60 ∷ b'b' ∷ 62 ∷ 10 ∷ b'&' ∷ 0x202E ∷ []

-- The last is cut inside the entity of its last character.
tests :
    (sanitize_line (32 ∷ b'a' ∷ 10 ∷ b'b' ∷ 32 ∷ []) 64 ≡ b'a' ∷ b'b' ∷ [])
    × (body (60 ∷ b'b' ∷ 62 ∷ []) true
        ≡ b'&' ∷ b'l' ∷ b't' ∷ b';' ∷ b'b' ∷ b'&' ∷ b'g' ∷ b't' ∷ b';' ∷ [])
    × (body (60 ∷ b'b' ∷ 62 ∷ []) false ≡ 60 ∷ b'b' ∷ 62 ∷ [])
    × (body (replicate 1998 b'a' ++ 60 ∷ []) true ≡ replicate 1998 b'a' ++ b'&' ∷ ellipsis ∷ [])
unfolding sanitize_line body
tests = (refl, refl, refl, refl)

presented-harmless_example :
    ((length (presented bold bold true).0 ≤ max_summary_chars)
      × (all is_visible (presented bold bold true).0 ≡ true))
    × (((length (presented bold bold true).1 ≤ max_body_chars)
          × (all is_inert (presented bold bold true).1 ≡ true))
        × ((length (presented bold bold false).1 ≤ max_body_chars)
            × (all is_visible_in_block (presented bold bold false).1 ≡ true)))
presented-harmless_example = presented-harmless bold bold
