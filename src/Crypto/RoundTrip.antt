-- ===== src/Crypto/RoundTrip.antt =====
-- A token is decrypted to what was encrypted.
use rns.Prelude.{
  ℕ, ◌+◌, ◌-◌, ◌*◌, ◌/◌, ◌%◌, ◌≤◌, ◌<◌, ◌≡◌, refl, ◌⊎◌, inl, inr, List, ◌++◌, true, false, arith,
  leb, ltb, ok, length, length-append, take-append_self, drop-append_self, append_assoc,
}
use rns.Bytes.{left, right, mid, same_bytes_refl, left-append, right-append}
use rns.Crypto.Primitives.{
  Mbedtls, IsMbedtls, run_cbc, aes_cbc, aes_128_encrypt, aes_128_decrypt, aes_256_encrypt,
  aes_256_decrypt,
}
use rns.Crypto.Pkcs7.{pad, unpad, length-pad, unpad-pad}
use rns.Crypto.Token.{
  Token, mode_aes_128_cbc, mode_aes_256_cbc, verify_hmac, encrypt_padded, decrypt_padded, encrypt,
  open_parts, catch_decrypt, decrypt,
}

-- A token object that the constructor made: its mode and the size of its encryption key.
pub data IsToken (t : Token) : Type 0 where
  has_128 : t.mode ≡ mode_aes_128_cbc → length t.encryption_key ≡ 16 → IsToken t
  has_256 : t.mode ≡ mode_aes_256_cbc → length t.encryption_key ≡ 32 → IsToken t

mid_append : (a b c : List ℕ) → mid (a ++ (b ++ c)) (length a) (length b) ≡ b
unfolding mid
mid_append a b c = ground (
  arith,
  length-append a (b ++ c),
  length-append b c,
  drop-append_self a (b ++ c),
  take-append_self b c,
)

module _ {C : Type 0} (m : Mbedtls C) (laws : IsMbedtls m) where
  cbc-cbc :
      (key iv input : List ℕ) (keybits : ℕ)
      → (keybits ≡ 128) ⊎ (keybits ≡ 256)
      → length key * 8 ≡ keybits
      → length iv ≡ 16
      → length input % 16 ≡ 0
      → 16 ≤ length input
      → (output : List ℕ) × (aes_cbc m true input key iv keybits ≡ ok output)
        × (length output ≡ length input)
        × (aes_cbc m false output key iv keybits ≡ ok input)
  unfolding aes_cbc run_cbc
  cbc-cbc key iv input keybits size fits iv_16 blocks some_block =
      let (enc, dec, output, sets, sets', there, back) =
        laws.cbc_round_trip key iv input keybits size fits iv_16 blocks in
      let same : length output ≡ length input = laws.length-cbc enc true iv input output there in
      (output, ground arith, same, ground arith)

  encrypt_padded-decrypt_padded :
      (t : Token) (iv input : List ℕ)
      → IsToken t
      → length iv ≡ 16
      → length input % 16 ≡ 0
      → 16 ≤ length input
      → (output : List ℕ) × (encrypt_padded m t input iv ≡ ok output)
        × (length output ≡ length input)
        × (decrypt_padded m t output iv ≡ ok input)
  unfolding encrypt_padded decrypt_padded aes_128_encrypt aes_128_decrypt aes_256_encrypt
      aes_256_decrypt
  encrypt_padded-decrypt_padded t iv input (has_128 e k) h blocks some_block =
      rw e (cbc-cbc t.encryption_key iv input 128 (inl refl) (omega arith) h blocks some_block)
  encrypt_padded-decrypt_padded t iv input (has_256 e k) h blocks some_block =
      rw e (cbc-cbc t.encryption_key iv input 256 (inr refl) (omega arith) h blocks some_block)

  verify_hmac-signed :
      (t : Token) (parts : List ℕ)
      → 0 < length parts
      → verify_hmac m t (parts ++ m.hmac_sha256 t.signing_key parts) ≡ ok true
  unfolding verify_hmac
  verify_hmac-signed t parts h =
      let mac : List ℕ = m.hmac_sha256 t.signing_key parts in
      let size : length mac ≡ 32 = laws.length-hmac t.signing_key parts in
      let whole : length (parts ++ mac) ≡ length parts + 32 =
        omega (arith, length-append parts mac) in
      let shorter : length parts + 32 - 32 ≡ length parts = omega arith in
      let long : leb (length parts + 32) 32 ≡ false = ground arith in
      let back : right (parts ++ mac) 32 ≡ mac = rw (← size) (right-append parts mac) in
      rw (whole, long, shorter, left-append parts mac, back, same_bytes_refl mac) refl

  open_parts-sealed :
      (t : Token) (iv output padded mac plaintext : List ℕ)
      → length iv ≡ 16
      → length mac ≡ 32
      → decrypt_padded m t output iv ≡ ok padded
      → unpad padded ≡ ok plaintext
      → open_parts m t ((iv ++ output) ++ mac) ≡ ok plaintext
  unfolding open_parts catch_decrypt
  open_parts-sealed t iv output padded mac plaintext iv_16 mac_32 back padding =
      let size : length (iv ++ (output ++ mac)) - 48 ≡ length output =
        omega (arith, length-append iv (output ++ mac), length-append output mac) in
      let front : left (iv ++ (output ++ mac)) 16 ≡ iv = rw (← iv_16) (left-append iv _) in
      let middle : mid (iv ++ (output ++ mac)) 16 (length output) ≡ output =
        rw (← iv_16) (mid_append iv output mac) in
      rw (append_assoc iv output mac, size, front, middle, back, padding) refl

  -- With a token whose mode and key size agree, and a cipher and a digest that keep their
  -- documented laws, every plaintext is encrypted under a 16-byte initial vector, to the next
  -- multiple of 16 above its length and 48 bytes more, and decrypted to itself.
  pub decrypt-encrypt :
      (t : Token) (iv plaintext : List ℕ)
      → IsToken t
      → length iv ≡ 16
      → (token : List ℕ) × (encrypt m t iv plaintext ≡ ok token)
        × (length token ≡ length plaintext / 16 * 16 + 64)
        × (decrypt m t token ≡ ok plaintext)
  unfolding encrypt decrypt
  decrypt-encrypt t iv plaintext made iv_16 =
      let padded : length (pad plaintext) ≡ length plaintext / 16 * 16 + 16 =
        length-pad plaintext in
      let (output, there, same, back) =
        encrypt_padded-decrypt_padded t iv (pad plaintext) made iv_16 (omega arith) (omega arith) in
      let parts : List ℕ = iv ++ output in
      let mac : List ℕ = m.hmac_sha256 t.signing_key parts in
      let size : length (parts ++ mac) ≡ length plaintext / 16 * 16 + 64 = omega (
        arith,
        length-append parts mac,
        length-append iv output,
        laws.length-hmac t.signing_key parts,
      ) in
      let long : ltb (length (parts ++ mac)) 48 ≡ false = ground arith in
      let signed : verify_hmac m t (parts ++ mac) ≡ ok true =
        verify_hmac-signed t parts (omega (arith, length-append iv output)) in
      let opened : open_parts m t (parts ++ mac) ≡ ok plaintext =
        open_parts-sealed t iv output (pad plaintext) mac plaintext iv_16
          (laws.length-hmac t.signing_key parts) back (unpad-pad plaintext) in
      (parts ++ mac, rw there refl, size, rw (long, signed) opened)
