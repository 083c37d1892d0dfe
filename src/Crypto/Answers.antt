-- ===== src/Crypto/Answers.antt =====
-- Decryption answers on every input: it gives a plaintext or throws, and reads no byte outside its buffers.
use rns.Prelude.{
  ℕ, ◌-◌, ◌<◌, ◌≡◌, refl, inl, inr, List, Bool, true, false, Option, none, some, arith, ltb,
  if◌then◌else◌, Bool-cases, Option-cases, Result, ok, throw, fault, stuck, ◌>>=◌, byte, length,
  bind-is_answer, is_answer, get_elem?-some,
}
use rns.Bytes.{left, mid}
use rns.Crypto.Primitives.{Mbedtls, IsMbedtls, run_cbc, aes_cbc, aes_128_decrypt, aes_256_decrypt}
use rns.Crypto.Pkcs7.{unpad, inplace_unpad}
use rns.Crypto.Token.{
  Token, verify_hmac, decrypt_padded, Mode-cases, open_parts, catch_decrypt, decrypt,
}

catch_decrypt-is_answer :
    (r : Result (List ℕ)) → is_answer r ≡ true → is_answer (catch_decrypt r) ≡ true
unfolding catch_decrypt
catch_decrypt-is_answer (ok p) h = refl
catch_decrypt-is_answer (throw e) h = refl
catch_decrypt-is_answer fault h = h
catch_decrypt-is_answer stuck h = h

unpad-is_answer : (bytes : List ℕ) → 0 < length bytes → is_answer (unpad bytes) ≡ true
unfolding unpad inplace_unpad
unpad-is_answer bytes h =
    let (b, e) = get_elem?-some bytes (length bytes - 1) (omega arith) in
    rw (byte, e)
      (elim (Bool-cases (ltb 16 b)) [
        | inl y ↦ rw y refl
        | inr n ↦ elim (Bool-cases (ltb (length bytes) b)) [
          | inl y ↦ rw (n, y) refl
          | inr k ↦ rw (n, k) refl
        ]
      ])

module _ {C : Type 0} (m : Mbedtls C) where
  run_cbc-length :
      IsMbedtls m
      → (mode : Bool) (iv input output : List ℕ) (o : Option C)
      → run_cbc m mode iv input o ≡ ok output
      → length output ≡ length input
  unfolding run_cbc
  run_cbc-length laws mode iv input output none h = ground arith
  run_cbc-length laws mode iv input output (some c) h =
      laws.length-cbc c mode iv input output (ground arith)

  run_cbc-is_answer :
      (mode : Bool) (iv input : List ℕ) (o : Option C)
      → is_answer (run_cbc m mode iv input o) ≡ true
  unfolding run_cbc
  run_cbc-is_answer mode iv input none = refl
  run_cbc-is_answer mode iv input (some c) = elim (Option-cases (m.crypt_cbc c mode iv input)) [
    | inl e ↦ ground arith
    | inr (o, e) ↦ ground arith
  ]

  aes_cbc-length :
      IsMbedtls m
      → (mode : Bool) (input key iv output : List ℕ) (keybits : ℕ)
      → aes_cbc m mode input key iv keybits ≡ ok output
      → (length output ≡ length input) × (0 < length input)
  unfolding aes_cbc
  aes_cbc-length laws mode input key iv output keybits h = (
    run_cbc-length laws mode iv input output
        (if mode then m.setkey_enc key keybits else m.setkey_dec key keybits) (ground arith),
    ground arith,
  )

  aes_cbc-is_answer :
      (mode : Bool) (input key iv : List ℕ) (keybits : ℕ)
      → is_answer (aes_cbc m mode input key iv keybits) ≡ true
  unfolding aes_cbc
  aes_cbc-is_answer mode input key iv keybits = ground (
    arith,
    run_cbc-is_answer mode iv input
        (if mode then m.setkey_enc key keybits else m.setkey_dec key keybits),
  )

  aes_cbc-opens :
      IsMbedtls m
      → (input key iv : List ℕ) (keybits : ℕ)
      → is_answer (catch_decrypt (aes_cbc m false input key iv keybits >>= unpad)) ≡ true
  aes_cbc-opens laws input key iv keybits = catch_decrypt-is_answer _ (
      bind-is_answer (aes_cbc m false input key iv keybits) unpad
        (aes_cbc-is_answer false input key iv keybits)
        (λ padded e.
          let (same, some_byte) = aes_cbc-length laws false input key iv padded keybits e in
          unpad-is_answer padded (omega arith)))

  open_parts-is_answer :
      IsMbedtls m → (t : Token) (token : List ℕ) → is_answer (open_parts m t token) ≡ true
  unfolding open_parts decrypt_padded aes_128_decrypt aes_256_decrypt catch_decrypt
  open_parts-is_answer laws t token =
      let sealed : List ℕ = mid token 16 (length token - 48) in
      let iv : List ℕ = left token 16 in
      elim (Mode-cases t.mode) [
        | inl e ↦ rw e refl
        | inr (inl e) ↦ rw e (aes_cbc-opens laws sealed t.encryption_key iv 128)
        | inr (inr e) ↦ rw e (aes_cbc-opens laws sealed t.encryption_key iv 256)
      ]

  -- Decryption of any bytes under any token gives a plaintext or throws; it reads no byte outside
  -- its buffers. The cipher keeps the length of its input.
  pub decrypt-is_answer :
      IsMbedtls m → (t : Token) (token : List ℕ) → is_answer (decrypt m t token) ≡ true
  unfolding decrypt verify_hmac
  decrypt-is_answer laws t token =
      let opened : is_answer (open_parts m t token) ≡ true = open_parts-is_answer laws t token in
      ground arith
