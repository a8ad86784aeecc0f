-- ===== src/Session/Framing/Stream.antt =====
-- What framing.rs writes, it reads back, one envelope after another.
use anyflow.Prelude.{
  ℕ, suc, ◌≤◌, ◌<◌, ◌≡◌, refl, ap, ◌∙◌, some, List, [], ◌∷◌, ◌++◌, length, length-append, take,
  drop, Bytes, Result, ok, to_be_bytes, from_be_bytes-to_be_bytes, arith, ◌>>=◌, zero,
}
use mathlib.Core.List.{append_assoc}
use anyflow.Session.Wire.{Envelope}
use anyflow.Session.Framing.{
  Codec, FrameError, max_frame_len, write_envelope, read_envelope, read_body, decoded,
}

take-front : (bs rest : Bytes) → take (length bs) (bs ++ rest) ≡ bs
take-front [] rest = refl
take-front (b ∷ bs) rest = ap (λ xs. b ∷ xs) (take-front bs rest)

drop-front : (bs rest : Bytes) → drop (length bs) (bs ++ rest) ≡ rest
drop-front [] rest = refl
drop-front (b ∷ bs) rest = drop-front bs rest

module _ (c : Codec) where
  -- An envelope that can be sent: its encoding is neither empty nor longer than a frame, and prost
  -- decodes it again.
  pub record Fits (e : Envelope) : Type 0 where
    pub some_body : 0 < length (c.encode_to_vec e)
    pub short : length (c.encode_to_vec e) ≤ max_frame_len
    pub decodes : c.decode (c.encode_to_vec e) ≡ some e

  frame : Envelope → Bytes
  frame e = to_be_bytes (length (c.encode_to_vec e)) ++ c.encode_to_vec e

  write-frame : (e : Envelope) → Fits e → write_envelope c e ≡ ok (frame e)
  unfolding write_envelope frame
  write-frame e f = ground (arith, f.short)

  read_body-fits :
      (len : ℕ) (stream : Bytes)
      → 0 < len
      → len ≤ max_frame_len
      → len ≤ length stream
      → read_body c len stream ≡ decoded c (c.decode (take len stream)) (drop len stream)
  unfolding read_body
  read_body-fits len stream some_body short there = ground arith

  read_body-encoded :
      (e : Envelope) (rest : Bytes)
      → Fits e
      → read_body c (length (c.encode_to_vec e)) (c.encode_to_vec e ++ rest) ≡ ok (e, rest)
  read_body-encoded e rest f =
      let body = c.encode_to_vec e in
      read_body-fits (length body) (body ++ rest) f.some_body f.short
        (omega (arith, length-append body rest))
      ∙ ap (λ b. decoded c (c.decode b) (drop (length body) (body ++ rest))) (take-front body rest)
      ∙ ap (λ o. decoded c o (drop (length body) (body ++ rest))) f.decodes
      ∙ ap (λ r. ok (e, r)) (drop-front body rest)

  read-frame :
      (e : Envelope) (rest : Bytes) → Fits e → read_envelope c (frame e ++ rest) ≡ ok (e, rest)
  unfolding read_envelope frame to_be_bytes
  read-frame e rest f =
      let body = c.encode_to_vec e in
      ap (λ n. read_body c n (body ++ rest))
        (from_be_bytes-to_be_bytes (length body) (omega (arith, f.short)))
      ∙ read_body-encoded e rest f

  -- Everything that is written, one envelope after another; the first error ends it.
  pub write_all : List Envelope → Result Bytes FrameError
  write_all [] = ok []
  write_all (e ∷ es) = write_envelope c e >>= λ bytes. write_all es >>= λ more. ok (bytes ++ more)

  -- As many envelopes as are asked for, and what is left of the stream.
  pub read_all : ℕ → Bytes → Result (List Envelope × Bytes) FrameError
  read_all zero stream = ok ([], stream)
  read_all (suc n) stream =
      read_envelope c stream >>= λ (e, rest). read_all n rest >>= λ (es, left). ok (e ∷ es, left)

  pub data AllFit : List Envelope → Type 0 where
    nothing : AllFit []
    first : {e : Envelope} {es : List Envelope} → Fits e → AllFit es → AllFit (e ∷ es)

  -- Envelopes that can be sent are all written, and read back from the stream in order, whatever
  -- follows them.
  pub read_all-write_all :
      (es : List Envelope) (rest : Bytes)
      → AllFit es
      → (wire : Bytes) × (write_all es ≡ ok wire)
        × (read_all (length es) (wire ++ rest) ≡ ok (es, rest))
  unfolding write_all read_all
  read_all-write_all [] rest nothing = ([], refl, refl)
  read_all-write_all (e ∷ es) rest (first f fs) =
      let (wire, written, back) = read_all-write_all es rest fs in
      let joined = append_assoc (frame e) wire rest in
      (
        frame e ++ wire,
        ap (λ r. r >>= λ bytes. write_all es >>= λ more. ok (bytes ++ more)) (write-frame e f)
            ∙ ap (λ r. r >>= λ more. ok (frame e ++ more)) written,
        ap (λ s. read_all (suc (length es)) s) joined
            ∙ ap
                (λ r. r >>= λ (x : Envelope × Bytes).
                  read_all (length es) x.1 >>= λ (y : List Envelope × Bytes). ok (x.0 ∷ y.0, y.1))
                (read-frame e (wire ++ rest) f)
            ∙ ap (λ r. r >>= λ (y : List Envelope × Bytes). ok (e ∷ y.0, y.1)) back,
      )
