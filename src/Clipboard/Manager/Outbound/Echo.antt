-- ===== src/Clipboard/Manager/Outbound/Echo.antt =====
-- A text from a peer is not sent on (lib.rs, `apply` and `on_local_change`).
use anyflow.Prelude.{
  ℕ, ◌+◌, ◌-◌, ◌<◌, ◌≡◌, refl, ap, ◌∙◌, Bool, true, not, ◌&&◌, Option, none, some, List, [], ◌∷◌,
  length, all, ltb, is_some, subst, Bytes, bytes_key, ◌=?◌, ok, err, Result, Bool-cases, inl, inr,
  arith,
}
use anyflow.Clipboard.Suppressions.{take, arm}
use anyflow.Clipboard.Suppressions.Between.{
  Keeps, take-Keeps, arm-Keeps, weaken-Keeps, take-kept, armed-Keeps,
}
use anyflow.Clipboard.Text.{ClipboardText}
use anyflow.Clipboard.Manager.{ClipboardManager, Env, applied, apply}
use anyflow.Clipboard.Manager.Outbound.{push_out, on_local_change}

-- What may come between: another text is put on the clipboard on a peer's behalf, or a change of the
-- clipboard is looked at.
pub data Turn : Type 0 where
  puts : Env → ClipboardText → Bool → Bytes → Turn
  sees : Env → Turn

abbrev pub turn : Turn → ClipboardManager → ClipboardManager
turn (puts e text sensitive origin) m = (apply e text sensitive origin m).0
turn (sees e) m = (on_local_change e m).0

unfoldable pub turns : List Turn → ClipboardManager → ClipboardManager
turns [] m = m
turns (t ∷ ts) m = turns ts (turn t m)

abbrev pub time_of : Turn → ℕ
time_of (puts e text sensitive origin) = e.now
time_of (sees e) = e.now

abbrev reads_other : Bytes → Result (Option ClipboardText) (Unit {0}) → Bool
reads_other hash (err why) = true
reads_other hash (ok none) = true
reads_other hash (ok (some text)) = not (hash =? text.hash)

-- Whether it is about a text of another digest.
abbrev pub is_other : Bytes → Turn → Bool
is_other hash (puts e text sensitive origin) = not (hash =? text.hash)
is_other hash (sees e) = reads_other hash e.reads

quiet :
    (e : Env) (text : ClipboardText) (m : ClipboardManager) (o : Option Bytes)
    → is_some o ≡ true
    → push_out e text m o ≡ []
unfolding push_out
quiet e text m none h = absurd (ground arith)
quiet e text m (some origin) h = refl

echo-quiet :
    (e : Env) (text : ClipboardText) (m : ClipboardManager)
    → e.reads ≡ ok (some text)
    → is_some (take e.now text.hash m.suppression).1 ≡ true
    → (on_local_change e m).1 ≡ []
unfolding on_local_change
echo-quiet e text m back held =
    rw (on_local_change, back)
      (quiet e text (record m { suppression = (take e.now text.hash m.suppression).0 })
        (take e.now text.hash m.suppression).1 held)

module _ (capacity ttl : ℕ) (hash : Bytes) (at : ℕ) where
  abbrev Holds : ℕ → ClipboardManager → Type 0
  Holds k m = Keeps capacity ttl hash at k m.suppression

  sees-Holds :
      (k : ℕ) (e : Env) (m : ClipboardManager) (o : Result (Option ClipboardText) (Unit {0}))
      → e.reads ≡ o
      → e.now - at < ttl
      → reads_other hash o ≡ true
      → Holds k m
      → Holds k (on_local_change e m).0
  unfolding on_local_change
  sees-Holds k e m (err why) came fresh other h = rw (on_local_change, came) h
  sees-Holds k e m (ok none) came fresh other h = rw (on_local_change, came) h
  sees-Holds k e m (ok (some text)) came fresh other h =
      rw (on_local_change, came)
        (take-Keeps capacity ttl hash at k e.now text.hash m.suppression (ground arith) fresh h)

  puts-Holds :
      (k : ℕ) (e : Env) (text : ClipboardText) (sensitive : Bool) (origin : Bytes)
      (m : ClipboardManager)
      → e.now - at < ttl
      → k + 1 < capacity
      → not (hash =? text.hash) ≡ true
      → Holds k m
      → Holds (k + 1) (apply e text sensitive origin m).0
  unfolding apply
  puts-Holds k e text sensitive origin m fresh room other h =
      let armed = arm e.now text.hash origin m.suppression in
      let kept =
        arm-Keeps capacity ttl hash at k e.now text.hash origin m.suppression fresh room h in
      elim (Bool-cases (e.writes text)) [
        | inl done ↦ rw (apply, done) kept
        | inr broken ↦
            rw (apply, broken)
              (take-Keeps capacity ttl hash at (k + 1) e.now text.hash armed (ground arith) fresh
                kept)
      ]

  turn-Holds :
      (k : ℕ) (t : Turn) (m : ClipboardManager)
      → time_of t - at < ttl
      → k + 1 < capacity
      → is_other hash t ≡ true
      → Holds k m
      → Holds (k + 1) (turn t m)
  turn-Holds k (puts e text sensitive origin) m fresh room other h =
      puts-Holds k e text sensitive origin m fresh room other h
  turn-Holds k (sees e) m fresh room other h =
      weaken-Keeps capacity ttl hash at k (on_local_change e m).0.suppression
        (sees-Holds k e m e.reads refl fresh other h)

  turns-Holds :
      (k : ℕ) (ts : List Turn) (m : ClipboardManager)
      → all (λ t. ltb (time_of t - at) ttl && is_other hash t) ts ≡ true
      → k + length ts < capacity
      → Holds k m
      → Holds (k + length ts) (turns ts m)
  unfolding turns
  turns-Holds k [] m calm room h =
      subst (λ n. Holds n m) (let same : k ≡ k + 0 = omega arith in same) h
  turns-Holds k (t ∷ ts) m calm room h =
      let now : (ltb (time_of t - at) ttl && is_other hash t) ≡ true = ground arith in
      let rest : all (λ t. ltb (time_of t - at) ttl && is_other hash t) ts ≡ true = ground arith in
      let next = turn-Holds k t m (ground arith) (omega arith) (ground arith) h in
      subst (λ n. Holds n (turns ts (turn t m)))
        (let same : (k + 1) + length ts ≡ k + length (t ∷ ts) = omega arith in same)
        (turns-Holds (k + 1) ts (turn t m) rest (omega arith) next)

-- The first change of the local clipboard that brings a text which was written on a peer's behalf
-- is sent to nobody, where it is seen within the suppression's time to live, whatever texts of
-- other digests are put there or seen there in between, within that time and fewer than the cache
-- holds.
pub applied_not_relayed :
    (e later : Env) (text : ClipboardText) (sensitive : Bool) (origin : Bytes) (between : List Turn)
    (m : ClipboardManager)
    → all (λ t. ltb (time_of t - e.now) m.suppression.ttl && is_other text.hash t) between ≡ true
    → length between < m.suppression.capacity
    → later.now - e.now < m.suppression.ttl
    → (apply e text sensitive origin m).1.0 ≡ applied
    → later.reads ≡ ok (some text)
    → (on_local_change later (turns between (apply e text sensitive origin m).0)).1 ≡ []
unfolding apply
applied_not_relayed e later text sensitive origin between m calm room live was back =
    let cap = m.suppression.capacity in
    let ttl = m.suppression.ttl in
    elim (Bool-cases (e.writes text)) [
      | inr broken ↦ absurd (ground arith)
      | inl done ↦
          let m' : ClipboardManager = record m {
            suppression = arm e.now text.hash origin m.suppression;
          } in
          let m'' = turns between m' in
          let start : (apply e text sensitive origin m).0 ≡ m' = rw (apply, done) refl in
          let held =
            turns-Holds cap ttl text.hash e.now 0 between m' calm (omega arith)
              (armed-Keeps e.now text.hash origin m.suppression (omega arith)) in
          ap (λ x. (on_local_change later (turns between x)).1) start
          ∙ echo-quiet later text m'' back (
              take-kept cap ttl text.hash e.now (0 + length between) later.now m''.suppression live
                held)
    ]
