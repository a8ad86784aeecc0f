-- ===== src/Files/Destination/Examples.antt =====
-- A name that is taken (destination.rs).
use anyflow.Prelude.{◌≡◌, refl, true, [], ◌∷◌, cmp_bytes, ok}
use anyflow.Collections.BTreeMap
use anyflow.Files.Filename.{Text}
use anyflow.Files.Destination.{Directory, candidate, reserve_within, promote}
use anyflow.Files.Destination.Kept.{Promoted, promote-Promoted}

abbrev photo : Text
photo = b'p' ∷ b'.' ∷ b'g' ∷ []

abbrev part : Text
part = b'.' ∷ b'o' ∷ []

abbrev directory : Directory
directory = record {
  files = (part, 9 ∷ []) ∷ (photo, 7 ∷ []) ∷ [];
  is_child = λ name. true;
  creates = λ name. true;
  prepares = true;
  renames = true;
  removes = true;
}

tests :
    (candidate photo 12 ≡ b'p' ∷ b' ' ∷ b'(' ∷ b'1' ∷ b'2' ∷ b')' ∷ b'.' ∷ b'g' ∷ [])
    × ((reserve_within 5 directory photo).1 ≡ ok (candidate photo 1))
unfolding candidate reserve_within cmp_bytes
tests = (refl, refl)

promote-Promoted_example :
    Promoted directory part photo (promote directory part photo).0 (promote directory part photo).1
unfolding BTreeMap.get cmp_bytes
promote-Promoted_example = promote-Promoted directory part photo (9 ∷ []) refl
