-- ===== src/Crypto/Laws.antt =====
-- What the constructor and decryption of a token promise for every input.
use rns.Prelude.{
  ℕ, ◌+◌, ◌-◌, ◌%◌, ◌≤◌, ◌<◌, ◌≡◌, ◌∙◌, refl, sym, ap, ◌⊎◌, inl, inr, List, ◌++◌, Bool, true, false,
  arith, ltb, ◌==◌, if◌then◌else◌, Bool-cases, Result, ok, throw, fault, stuck, ◌>>=◌, length, drop,
  min, length-take, length-drop, bind-ok, length-append, take-append-drop,
}
use rns.Bytes.{left, right, mid, mid_to_end, same_bytes→eq, length-left}
use rns.Crypto.Primitives.{Mbedtls, aes_cbc, aes_128_decrypt, aes_256_decrypt}
use rns.Crypto.Pkcs7.{unpad}
use rns.Crypto.Token.{
  Token, token_128, token_256, Mode, mode_aes, mode_aes_128_cbc, mode_aes_256_cbc, split_key,
  open_token, verify_hmac, decrypt_padded, Mode-cases, open_parts, catch_decrypt, decrypt,
}
use rns.Crypto.RoundTrip.{IsToken, has_128, has_256}

left-mid_to_end :
    (bytes : List ℕ) (n : ℕ) → n < length bytes → left bytes n ++ mid_to_end bytes n ≡ bytes
unfolding left mid_to_end
left-mid_to_end bytes n h = ground (arith, take-append-drop n bytes)

length-mid_to_end :
    (bytes : List ℕ) (n : ℕ) → n < length bytes → length (mid_to_end bytes n) ≡ length bytes - n
length-mid_to_end bytes n h =
    let e : length bytes ≡ length (left bytes n) + length (mid_to_end bytes n) =
      ap length (sym (left-mid_to_end bytes n h))
      ∙ length-append (left bytes n) (mid_to_end bytes n) in
    omega (arith, length-left bytes n)

split_key-cases :
    (key : List ℕ) (t : Token)
    → split_key key ≡ ok t
    → ((length key ≡ 32) × (t ≡ token_128 key)) ⊎ ((length key ≡ 64) × (t ≡ token_256 key))
unfolding split_key
split_key-cases key t h = elim (Bool-cases (length key == 32)) [
  | inl e ↦ inl (ground arith)
  | inr e ↦ inr (ground arith)
]

open_token-cases :
    (key : List ℕ) (mode : Mode) (t : Token) → open_token key mode ≡ ok t → split_key key ≡ ok t
unfolding open_token
open_token-cases key mode_aes t h = ground arith
open_token-cases key mode_aes_128_cbc t h = ground arith
open_token-cases key mode_aes_256_cbc t h = ground arith

-- A token that the constructor makes has the two halves of its key as the signing and the
-- encryption key, with the mode that their size asks for.
pub open_token-splits :
    (key : List ℕ) (mode : Mode) (t : Token)
    → open_token key mode ≡ ok t
    → (t.signing_key ++ t.encryption_key ≡ key)
      × (length t.signing_key ≡ length t.encryption_key)
      × IsToken t
open_token-splits key mode t h = elim (split_key-cases key t (open_token-cases key mode t h)) [
  | inl (size, e) ↦ rw e (
    left-mid_to_end key 16 (omega arith),
    omega (arith, length-left key 16, length-mid_to_end key 16 (omega arith)),
    has_128 refl (omega (arith, length-mid_to_end key 16 (omega arith))),
  )
  | inr (size, e) ↦ rw e (
    left-mid_to_end key 32 (omega arith),
    omega (arith, length-left key 32, length-mid_to_end key 32 (omega arith)),
    has_256 refl (omega (arith, length-mid_to_end key 32 (omega arith))),
  )
]

length-mid : (bytes : List ℕ) (n len : ℕ) → length (mid bytes n len) ≡ min len (length bytes - n)
unfolding mid
length-mid bytes n len = ground (
  arith,
  length-take len (drop n bytes),
  length-drop n bytes,
  length-take (length bytes - n) (drop n bytes),
)

catch_decrypt-ok :
    (r : Result (List ℕ)) (plaintext : List ℕ) → catch_decrypt r ≡ ok plaintext → r ≡ ok plaintext
unfolding catch_decrypt
catch_decrypt-ok (ok p) plaintext h = h
catch_decrypt-ok (throw e) plaintext h = ground arith
catch_decrypt-ok fault plaintext h = ground arith
catch_decrypt-ok stuck plaintext h = ground arith

module _ {C : Type 0} (m : Mbedtls C) where
  -- A token whose digest is right.
  unfoldable pub IsSigned : Token → List ℕ → Type 0
  IsSigned t token = right token 32 ≡ m.hmac_sha256 t.signing_key (left token (length token - 32))

  verify_hmac-IsSigned :
      (t : Token) (token : List ℕ) → verify_hmac m t token ≡ ok true → IsSigned t token
  unfolding verify_hmac IsSigned
  verify_hmac-IsSigned t token h = same_bytes→eq _ _ (ground arith)

  aes_cbc-blocks :
      (mode : Bool) (input key iv output : List ℕ) (keybits : ℕ)
      → aes_cbc m mode input key iv keybits ≡ ok output
      → (length input % 16 ≡ 0) × (0 < length input)
  unfolding aes_cbc
  aes_cbc-blocks mode input key iv output keybits h = ground arith

  decrypt_padded-blocks :
      (t : Token) (input iv output : List ℕ)
      → decrypt_padded m t input iv ≡ ok output
      → (length input % 16 ≡ 0) × (0 < length input)
  unfolding decrypt_padded aes_128_decrypt aes_256_decrypt
  decrypt_padded-blocks t input iv output h = elim (Mode-cases t.mode) [
    | inl e ↦ absurd (ground arith)
    | inr (inl e) ↦ aes_cbc-blocks false input t.encryption_key iv output 128 (ground arith)
    | inr (inr e) ↦ aes_cbc-blocks false input t.encryption_key iv output 256 (ground arith)
  ]

  open_parts-blocks :
      (t : Token) (token plaintext : List ℕ)
      → open_parts m t token ≡ ok plaintext
      → 48 ≤ length token
      → (64 ≤ length token) × (length token % 16 ≡ 0)
  unfolding open_parts catch_decrypt
  open_parts-blocks t token plaintext h long =
      let sealed : List ℕ = mid token 16 (length token - 48) in
      let iv : List ℕ = left token 16 in
      let (padded, e, f) =
        bind-ok (decrypt_padded m t sealed iv) unpad plaintext (catch_decrypt-ok _ _ h) in
      let (whole, some_block) = decrypt_padded-blocks t sealed iv padded e in
      let size : length sealed ≡ length token - 48 =
        omega (arith, length-mid token 16 (length token - 48)) in
      omega arith

  -- A token that is decrypted ends with the digest of the rest under the signing key, has at
  -- least 64 bytes, and is whole blocks.
  pub decrypt-IsSigned :
      (t : Token) (token plaintext : List ℕ)
      → decrypt m t token ≡ ok plaintext
      → IsSigned t token × (64 ≤ length token) × (length token % 16 ≡ 0)
  unfolding decrypt
  decrypt-IsSigned t token plaintext h = elim (Bool-cases (ltb (length token) 48)) [
    | inl e ↦ absurd (ground arith)
    | inr e ↦
        let open_valid : Bool → Result (List ℕ) =
          λ valid. if valid then open_parts m t token else throw "Token token HMAC was invalid" in
        let bound : (verify_hmac m t token >>= open_valid) ≡ ok plaintext = ground arith in
        let (valid, v, opened) = bind-ok (verify_hmac m t token) open_valid plaintext bound in
        elim (Bool-cases valid) [
          | inl y ↦
              let (long, whole) =
                open_parts-blocks t token plaintext (ground arith) (ground arith) in
              (verify_hmac-IsSigned t token (ground arith), long, whole)
          | inr n ↦ absurd (ground arith)
        ]
  ]
