-- ===== src/Files/Filename/Examples.antt =====
-- Tests and instances of the safe file names (filename.rs).
use anyflow.Prelude.{arith, ◌≡◌, refl, none, some, [], ◌∷◌, ◌++◌, replicate, cmp_bytes}
use anyflow.Files.Filename.{Text, sanitize, is_kept, is_reserved, stem_of}
use anyflow.Files.Filename.Safe.{IsSafe, sanitize-IsSafe}
use anyflow.Files.Filename.Harmless.{IsHarmless}

abbrev passwd : Text
passwd = b'p' ∷ b'a' ∷ b's' ∷ b's' ∷ b'w' ∷ b'd' ∷ []

tests :
    (sanitize (b'.' ∷ b'.' ∷ b'/' ∷ b'e' ∷ 92 ∷ passwd) ≡ some passwd)
    × (sanitize (b'C' ∷ b'o' ∷ b'N' ∷ b'.' ∷ b't' ∷ []) ≡ none)
    × (sanitize (b'.' ∷ b'.' ∷ b' ' ∷ []) ≡ none)
    × (sanitize (b'a' ∷ 0x202E ∷ b'.' ∷ 0 ∷ b'b' ∷ b'.' ∷ b' ' ∷ [])
        ≡ some (b'a' ∷ b'.' ∷ b'b' ∷ []))
    × (sanitize (replicate 254 b'a' ++ b'.' ∷ replicate 20 b'b')
        ≡ some (replicate 254 b'a' ++ b'.' ∷ []))
unfolding sanitize cmp_bytes
tests = (refl, refl, refl, refl, refl)

abbrev note : Text
note = b'a' ∷ b'.' ∷ b'b' ∷ []

note-IsSafe : IsSafe note
unfolding is_kept is_reserved stem_of cmp_bytes
note-IsSafe = record { kept = refl; unreserved = refl; nonempty = omega arith; fits = omega arith }

sanitize-IsSafe_example : IsSafe note × IsHarmless note
unfolding sanitize cmp_bytes
sanitize-IsSafe_example = sanitize-IsSafe (b'/' ∷ b'a' ∷ b'.' ∷ b'b' ∷ b'.' ∷ []) note refl
