-- ===== src/Files/Destination/Kept.antt =====
-- A received file overwrites nothing (destination.rs).
use anyflow.Prelude.{
  ℕ, zero, suc, ◌+◌, ◌≡◌, ◌≢◌, refl, sym, ap, ◌∙◌, Bool, true, false, not, Option, none, some, [],
  if◌then◌else◌, Bytes, bytes_key, ◌=?◌, =?_iff, =?_refl, Result, ok, err, arith, Bool-cases,
  Option-cases, inl, inr,
}
use anyflow.Collections.BTreeMap
use anyflow.Collections.BTreeMap.{BTreeMap, get-insert, get-remove}
use anyflow.Files.Filename.{Text}
use anyflow.Files.Destination.{
  Directory, IoError, outside_directory, too_many_files, other, candidate, reserve_loop,
  reserve_within, reserve, rename, onto, promote, max_duplicate_suffix,
}

-- Nothing was done, and it failed; or an empty file was created under a candidate that was free.
data Reserved (d : Directory) (name : Text) (r : Directory × Result Text IoError) : Type 0 where
  refused : (e : IoError) → r ≡ (d, err e) → Reserved d name r
  created :
      (attempt : ℕ)
      → BTreeMap.get (candidate name attempt) d.files ≡ none
      → r ≡ (
        record d { files = BTreeMap.insert (candidate name attempt) [] d.files },
        ok (candidate name attempt),
      )
      → Reserved d name r

loop-Reserved :
    (d : Directory) (name : Text) (left attempt : ℕ)
    → Reserved d name (reserve_loop d name left attempt)
unfolding reserve_loop BTreeMap.contains_key
loop-Reserved d name zero attempt = refused too_many_files refl
loop-Reserved d name (suc left) attempt =
    let path = candidate name attempt in
    elim (Bool-cases (d.is_child path)) [
      | inr outside ↦ refused outside_directory (rw outside refl)
      | inl child ↦ elim (Option-cases (BTreeMap.get path d.files)) [
        | inr (v, taken) ↦ rw (child, taken) (loop-Reserved d name left (attempt + 1))
        | inl free ↦ elim (Bool-cases (d.creates path)) [
          | inr failed ↦ refused other (rw (child, free, failed) refl)
          | inl made ↦ created attempt free (rw (child, free, made) refl)
        ]
      ]
    ]

if-Reserved :
    (b : Bool) (d : Directory) (name : Text) (x y : Directory × Result Text IoError)
    → Reserved d name x
    → Reserved d name y
    → Reserved d name (if b then x else y)
if-Reserved true d name x y h k = h
if-Reserved false d name x y h k = k

within-Reserved :
    (attempts : ℕ) (d : Directory) (name : Text) → Reserved d name (reserve_within attempts d name)
unfolding reserve_within
within-Reserved attempts d name =
    if-Reserved (not d.prepares) d name (d, err other) (reserve_loop d name attempts 0)
      (refused other refl) (loop-Reserved d name attempts 0)

reserve-Reserved : (d : Directory) (name : Text) → Reserved d name (reserve d name)
unfolding reserve
reserve-Reserved d name = within-Reserved (max_duplicate_suffix + 1) d name

abbrev pub look : Directory → Text → Option Bytes
look d k = BTreeMap.get k d.files

-- What `promote` does to the directory, by its result.
pub data Promoted (d : Directory) (temp name : Text) (after : Directory)
    : Result Text IoError → Type 0 where
  failed :
      (e : IoError) → ((k : Text) → look after k ≡ look d k) → Promoted d temp name after (err e)
  left_behind :
      (e : IoError) (attempt : ℕ)
      → d.removes ≡ false
      → look d (candidate name attempt) ≡ none
      → look after (candidate name attempt) ≡ some []
      → ((k : Text) → k ≢ candidate name attempt → look after k ≡ look d k)
      → Promoted d temp name after (err e)
  moved :
      (attempt : ℕ)
      → look d (candidate name attempt) ≡ none
      → look after (candidate name attempt) ≡ look d temp
      → look after temp ≡ none
      → ((k : Text) → k ≢ temp → k ≢ candidate name attempt → look after k ≡ look d k)
      → Promoted d temp name after (ok (candidate name attempt))

module _ (d : Directory) (temp name : Text) (content : Bytes)
    (there : look d temp ≡ some content) where
  not_free : (path : Text) → look d path ≡ none → (temp =? path) ≡ false
  not_free path free = elim (Bool-cases (temp =? path)) [
    | inr differs ↦ differs
    | inl same ↦
        let e : look d temp ≡ look d path = ap (look d) ((=?_iff temp path).0 same) in absurd (cc)
  ]

  abbrev placed : Text → BTreeMap Text Bytes
  placed path = BTreeMap.insert path [] d.files

  undone :
      (path k : Text)
      → look d path ≡ none
      → BTreeMap.get k (BTreeMap.remove path (placed path)) ≡ look d k
  undone path k free = elim (Bool-cases (k =? path)) [
    | inl same ↦
        let e : look d k ≡ none = ap (look d) ((=?_iff k path).0 same) ∙ free in
        ground (arith, get-remove path k (placed path))
    | inr differs ↦ ground (arith, get-remove path k (placed path), get-insert path k [] d.files)
  ]

  abbrev settled : Text → BTreeMap Text Bytes
  settled path = BTreeMap.insert path content (BTreeMap.remove temp (placed path))

  settled-get :
      (path k : Text)
      → BTreeMap.get k (settled path)
        ≡ (if k =? path then some content else if k =? temp then none else look d k)
  settled-get path k = ground (
    arith,
    get-insert path k content (BTreeMap.remove temp (placed path)),
    get-remove temp k (placed path),
    get-insert path k [] d.files,
  )

  renamed :
      (attempt : ℕ)
      → look d (candidate name attempt) ≡ none
      → let r =
          rename
            (record d { files = placed (candidate name attempt) })
            temp
            (candidate name attempt)
            (some content) in
        Promoted d temp name r.0 r.1
  unfolding rename
  renamed attempt free =
      let path = candidate name attempt in
      let differs = not_free path free in
      elim (Bool-cases d.renames) [
        | inr broken ↦ elim (Bool-cases d.removes) [
          | inl gone ↦ rw (broken, gone) (failed other (λ k. undone path k free))
          | inr stuck ↦
              rw (broken, stuck)
                (left_behind other attempt refl free
                  (get-insert path path [] d.files ∙ rw (=?_refl path) refl)
                  (λ k not_path. ground (arith, get-insert path k [] d.files, =?_iff k path)))
        ]
        | inl renames ↦ rw renames (
            moved attempt free (settled-get path path ∙ rw (=?_refl path) (sym there))
              (settled-get path temp ∙ rw (differs, =?_refl temp) refl)
              (λ k not_temp not_path.
                ground (arith, settled-get path k, =?_iff k path, =?_iff k temp)))
      ]

  onto-Promoted :
      (r : Directory × Result Text IoError)
      → Reserved d name r
      → Promoted d temp name (onto temp r).0 (onto temp r).1
  unfolding onto
  onto-Promoted r (refused e p) = rw p (failed e (λ k. refl))
  onto-Promoted r (created attempt free p) =
      let path = candidate name attempt in
      let same : BTreeMap.get temp (placed path) ≡ some content =
        get-insert path temp [] d.files ∙ rw (not_free path free) there in
      rw (p, same) (renamed attempt free)

  -- Promoting a temporary file that is there overwrites nothing. Where it fails, every file is as
  -- it was, but that an empty file stays under a name that was free where it could not be removed;
  -- where it succeeds, the name that it returns is one of the candidates and was free, the
  -- temporary file's content stands there and the temporary file is gone, and every other file is
  -- as it was.
  pub promote-Promoted : Promoted d temp name (promote d temp name).0 (promote d temp name).1
  unfolding promote
  promote-Promoted = onto-Promoted (reserve d name) (reserve-Reserved d name)
