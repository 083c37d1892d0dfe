-- ===== src/Crypto/Primitives.antt =====
-- AES.h over what it calls of mbedtls, and the key derivation of HKDF.cpp.
use rns.Prelude.{
  ℕ, ◌≡◌, ◌%◌, ◌*◌, ◌||◌, not, List, true, false, Bool, Option, none, some, Result, ok, throw, ◌⊎◌,
  ◌==◌, if◌then◌else◌, length,
}

-- mbedtls: the key schedules (`none` where the call does not return 0), AES-CBC, HMAC-SHA256 and
-- HKDF-SHA256. `C` is the type of a context with a key.
pub record Mbedtls (C : Type 0) : Type 0 where
  pub setkey_enc : List ℕ → ℕ → Option C
  pub setkey_dec : List ℕ → ℕ → Option C
  pub crypt_cbc : C → Bool → List ℕ → List ℕ → Option (List ℕ)
  pub hmac_sha256 : List ℕ → List ℕ → List ℕ
  pub hkdf_sha256 : List ℕ → List ℕ → List ℕ → ℕ → Option (List ℕ)

-- What is documented of them: a digest has 32 bytes, CBC keeps the length of its input, and it
-- decrypts what it encrypted with the same key (of 128 or 256 bits) and initial vector.
pub record IsMbedtls {C : Type 0} (m : Mbedtls C) : Type 0 where
  pub length-hmac : (key msg : List ℕ) → length (m.hmac_sha256 key msg) ≡ 32
  pub length-cbc :
      (c : C) (mode : Bool) (iv input output : List ℕ)
      → m.crypt_cbc c mode iv input ≡ some output
      → length output ≡ length input
  pub cbc_round_trip :
      (key iv input : List ℕ) (keybits : ℕ)
      → (keybits ≡ 128) ⊎ (keybits ≡ 256)
      → length key * 8 ≡ keybits
      → length iv ≡ 16
      → length input % 16 ≡ 0
      → (enc : C) × (dec : C) × (output : List ℕ) × (m.setkey_enc key keybits ≡ some enc)
        × (m.setkey_dec key keybits ≡ some dec)
        × (m.crypt_cbc enc true iv input ≡ some output)
        × (m.crypt_cbc dec false iv output ≡ some input)

module _ {C : Type 0} (m : Mbedtls C) where
  -- The end of `aes_cbc`, with the key set; the mode is true to encrypt.
  unfoldable pub run_cbc : Bool → List ℕ → List ℕ → Option C → Result (List ℕ)
  run_cbc mode iv input none = throw "mbedtls_aes_setkey failed"
  run_cbc mode iv input (some c) = elim (m.crypt_cbc c mode iv input) [
    | none ↦ throw "mbedtls_aes_crypt_cbc failed"
    | some output ↦ ok output
  ]

  unfoldable pub aes_cbc : Bool → List ℕ → List ℕ → List ℕ → ℕ → Result (List ℕ)
  aes_cbc mode input key iv keybits =
      if (length input == 0) || not (length input % 16 == 0)
      then throw "AES-CBC input must be a non-empty multiple of 16 bytes"
      else if not (length key * 8 == keybits)
      then throw "AES-CBC key has wrong size for requested mode"
      else if not (length iv == 16)
      then throw "AES-CBC IV must be 16 bytes"
      else run_cbc mode iv input
          (if mode then m.setkey_enc key keybits else m.setkey_dec key keybits)

  unfoldable pub aes_128_encrypt : List ℕ → List ℕ → List ℕ → Result (List ℕ)
  aes_128_encrypt plaintext key iv = aes_cbc true plaintext key iv 128

  unfoldable pub aes_128_decrypt : List ℕ → List ℕ → List ℕ → Result (List ℕ)
  aes_128_decrypt ciphertext key iv = aes_cbc false ciphertext key iv 128

  unfoldable pub aes_256_encrypt : List ℕ → List ℕ → List ℕ → Result (List ℕ)
  aes_256_encrypt plaintext key iv = aes_cbc true plaintext key iv 256

  unfoldable pub aes_256_decrypt : List ℕ → List ℕ → List ℕ → Result (List ℕ)
  aes_256_decrypt ciphertext key iv = aes_cbc false ciphertext key iv 256

  -- An empty salt or context is passed as null with length 0.
  unfoldable pub hkdf : ℕ → List ℕ → List ℕ → List ℕ → Result (List ℕ)
  hkdf len derive_from salt context =
      if len == 0
      then throw "Invalid output key length"
      else if length derive_from == 0
      then throw "Cannot derive key from empty input material"
      else elim (m.hkdf_sha256 salt derive_from context len) [
        | none ↦ throw "mbedtls_hkdf failed"
        | some derived ↦ ok derived
      ]
