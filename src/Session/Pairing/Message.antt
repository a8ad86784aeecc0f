-- ===== src/Session/Pairing/Message.antt =====
-- The message under the MAC of pairing.rs is unambiguous.
use anyflow.Prelude.{
  to_be_bytes, ℕ, ◌^◌, ◌<◌, ◌≡◌, ◌≢◌, refl, ap, List, [], ◌∷◌, ◌++◌, length, Bytes, arith,
}
use anyflow.Session.Pairing.{
  proof_domain, confirm_domain, domain_head, update_len_prefixed, mac_message,
}

pub append_injective {ℓ} :
    {A : Type ℓ} (xs ys : List A) {us vs : List A}
    → length xs ≡ length ys
    → xs ++ us ≡ ys ++ vs
    → (xs ≡ ys) × (us ≡ vs)
append_injective [] [] n e = (refl, e)
append_injective [] (y ∷ ys) n e = absurd (omega arith)
append_injective (x ∷ xs) [] n e = absurd (omega arith)
append_injective (x ∷ xs) (y ∷ ys) {us} {vs} n e =
    let rest : xs ++ us ≡ ys ++ vs = cc in
    let (same, tails) = append_injective xs ys (omega arith) rest in
    let front : x ≡ y = cc in (cc, tails)

heads {ℓ} : {A : Type ℓ} {x y : A} {xs ys : List A} → x ∷ xs ≡ y ∷ ys → (x ≡ y) × (xs ≡ ys)
heads e = (cc, cc)

-- A `u32` is given back by its four bytes.
to_be_bytes-injective : (m n : ℕ) → m < 2 ^ 32 → n < 2 ^ 32 → to_be_bytes m ≡ to_be_bytes n → m ≡ n
unfolding to_be_bytes
to_be_bytes-injective m n hm hn e =
    let (a, e1) = heads e in
    let (b, e2) = heads e1 in let (c, e3) = heads e2 in let (d, e4) = heads e3 in omega arith

-- A field with its length in front ends where it says it does.
update_len_prefixed-injective :
    (a b : Bytes) {x y : Bytes}
    → length a < 2 ^ 32
    → length b < 2 ^ 32
    → update_len_prefixed a ++ x ≡ update_len_prefixed b ++ y
    → (a ≡ b) × (x ≡ y)
unfolding update_len_prefixed to_be_bytes
update_len_prefixed-injective a b {x} {y} ha hb e =
    let (la, e1) = heads e in
    let (lb, e2) = heads e1 in
    let (lc, e3) = heads e2 in let (ld, e4) = heads e3 in append_injective a b (omega arith) e4

-- Two proofs over the same bytes are over the same two devices and the same nonce.
pub mac_message-injective :
    (domain : Bytes) (r i n r' i' n' : Bytes)
    → length r < 2 ^ 32
    → length i < 2 ^ 32
    → length n < 2 ^ 32
    → length r' < 2 ^ 32
    → length i' < 2 ^ 32
    → length n' < 2 ^ 32
    → mac_message domain r i n ≡ mac_message domain r' i' n'
    → (r ≡ r') × ((i ≡ i') × (n ≡ n'))
unfolding mac_message
mac_message-injective domain r i n r' i' n' hr hi hn hr' hi' hn' e =
    let (_, e1) = append_injective domain domain refl e in
    let (same_r, e2) = update_len_prefixed-injective r r' hr hr' e1 in
    let (same_i, e3) = update_len_prefixed-injective i i' hi hi' e2 in
    let padded : update_len_prefixed n ++ [] ≡ update_len_prefixed n' ++ [] =
      ap (λ l. l ++ []) e3 in
    (same_r, (same_i, (update_len_prefixed-injective n n' hn hn' padded).0))

-- No message of the proof is a message of the confirmation.
pub mac_message-domains :
    (r i n r' i' n' : Bytes) → mac_message proof_domain r i n ≢ mac_message confirm_domain r' i' n'
unfolding mac_message
mac_message-domains r i n r' i' n' e =
    let (_, e1) = append_injective domain_head domain_head refl e in
    let (h, _) = heads e1 in omega arith
