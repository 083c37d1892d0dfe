-- ===== src/Crypto/Token.antt =====
-- Token.cpp: authenticated encryption under one key.
use rns.Prelude.{
  ℕ, ◌-◌, ◌≡◌, refl, ◌⊎◌, inl, inr, List, ◌++◌, Bool, leb, ltb, ◌==◌, if◌then◌else◌, Result, ok,
  throw, fault, stuck, ◌>>=◌, length,
}
use rns.Bytes.{left, right, mid, mid_to_end, same_bytes}
use rns.Crypto.Primitives.{
  Mbedtls, aes_128_encrypt, aes_128_decrypt, aes_256_encrypt, aes_256_decrypt,
}
use rns.Crypto.Pkcs7.{pad, unpad}

-- token_mode.
pub data Mode : Type 0 where
  mode_aes mode_aes_128_cbc mode_aes_256_cbc : Mode

pub Mode-cases : (x : Mode) → (x ≡ mode_aes) ⊎ (x ≡ mode_aes_128_cbc) ⊎ (x ≡ mode_aes_256_cbc)
Mode-cases mode_aes = inl refl
Mode-cases mode_aes_128_cbc = inr (inl refl)
Mode-cases mode_aes_256_cbc = inr (inr refl)

pub record Token : Type 0 where
  pub mode : Mode
  pub signing_key : List ℕ
  pub encryption_key : List ℕ

abbrev pub token_128 : List ℕ → Token
token_128 key = record {
  mode = mode_aes_128_cbc;
  signing_key = left key 16;
  encryption_key = mid_to_end key 16;
}

abbrev pub token_256 : List ℕ → Token
token_256 key = record {
  mode = mode_aes_256_cbc;
  signing_key = left key 32;
  encryption_key = mid_to_end key 32;
}

-- The constructor for a key whose mode is MODE_AES.
unfoldable pub split_key : List ℕ → Result Token
split_key key =
    if length key == 32
    then ok (token_128 key)
    else if length key == 64
    then ok (token_256 key)
    else throw "Token key must be 128 or 256 bits"

unfoldable pub open_token : List ℕ → Mode → Result Token
open_token key mode = if length key == 0 then throw "Token key cannot be None" else elim mode [
  | mode_aes ↦ split_key key
  | mode_aes_128_cbc ↦ throw "Invalid token mode"
  | mode_aes_256_cbc ↦ throw "Invalid token mode"
]

-- A `std::exception` of the `try` block is thrown again as one message.
unfoldable pub catch_decrypt : Result (List ℕ) → Result (List ℕ)
catch_decrypt (ok plaintext) = ok plaintext
catch_decrypt (throw e) = throw "Could not decrypt Token token"
catch_decrypt fault = fault
catch_decrypt stuck = stuck

module _ {C : Type 0} (m : Mbedtls C) where
  unfoldable pub verify_hmac : Token → List ℕ → Result Bool
  verify_hmac t token =
      if leb (length token) 32
      then throw "Cannot verify HMAC on token"
      else ok (
          same_bytes (right token 32)
            (m.hmac_sha256 t.signing_key (left token (length token - 32))))

  -- The AES class that the mode names.
  unfoldable pub encrypt_padded : Token → List ℕ → List ℕ → Result (List ℕ)
  encrypt_padded t plaintext iv = elim t.mode [
    | mode_aes_128_cbc ↦ aes_128_encrypt m plaintext t.encryption_key iv
    | mode_aes_256_cbc ↦ aes_256_encrypt m plaintext t.encryption_key iv
    | mode_aes ↦ throw "Invalid token mode"
  ]

  unfoldable pub decrypt_padded : Token → List ℕ → List ℕ → Result (List ℕ)
  decrypt_padded t ciphertext iv = elim t.mode [
    | mode_aes_128_cbc ↦ aes_128_decrypt m ciphertext t.encryption_key iv
    | mode_aes_256_cbc ↦ aes_256_decrypt m ciphertext t.encryption_key iv
    | mode_aes ↦ throw "Invalid token mode"
  ]

  -- `iv` is the result of `random(16)`.
  unfoldable pub encrypt : Token → List ℕ → List ℕ → Result (List ℕ)
  encrypt t iv plaintext = do
    ciphertext ← encrypt_padded t (pad plaintext) iv
    let signed_parts : List ℕ = iv ++ ciphertext
    ok (signed_parts ++ m.hmac_sha256 t.signing_key signed_parts)

  -- The `try` block: the token without its initial vector and its digest.
  unfoldable pub open_parts : Token → List ℕ → Result (List ℕ)
  open_parts t token =
      catch_decrypt (decrypt_padded t (mid token 16 (length token - 48)) (left token 16) >>= unpad)

  unfoldable pub decrypt : Token → List ℕ → Result (List ℕ)
  decrypt t token =
      if ltb (length token) 48
      then throw "Cannot decrypt token"
      else verify_hmac t token >>= λ valid.
          if valid then open_parts t token else throw "Token token HMAC was invalid"
