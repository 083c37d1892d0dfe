-- ===== src/Crypto/Tests.antt =====
-- Runs of the token with a cipher that is the identity and digests of zeros, and the theorems there.
use rns.Prelude.{
  ℕ, ◌%◌, ◌≤◌, ◌≡◌, refl, List, [], ◌∷◌, ◌++◌, true, some, arith, ok, length, replicate, is_answer,
}
use rns.Bytes.{left, right, mid, mid_to_end, same_bytes}
use rns.Crypto.Primitives.{Mbedtls, IsMbedtls, aes_cbc, run_cbc, aes_128_decrypt}
use rns.Crypto.Pkcs7.{pad, unpad, inplace_pad, inplace_unpad}
use rns.Crypto.Token.{
  mode_aes, token_128, split_key, open_token, encrypt, decrypt, verify_hmac, open_parts,
  decrypt_padded, catch_decrypt,
}
use rns.Crypto.RoundTrip.{IsToken, has_128, decrypt-encrypt}
use rns.Crypto.Laws.{open_token-splits, decrypt-IsSigned, IsSigned}
use rns.Crypto.Answers.{decrypt-is_answer}

-- The context of the cipher is its key.
abbrev plain_cipher : Mbedtls (List ℕ)
plain_cipher = record {
  setkey_enc = λ key keybits. some key;
  setkey_dec = λ key keybits. some key;
  crypt_cbc = λ c mode iv input. some input;
  hmac_sha256 = λ key msg. replicate 32 0;
  hkdf_sha256 = λ salt ikm info len. some (replicate len 0);
}

plain_cipher-IsMbedtls : IsMbedtls plain_cipher
plain_cipher-IsMbedtls = record {
  length-hmac = λ key msg. refl;
  length-cbc = λ c mode iv input output h. ground arith;
  cbc_round_trip = λ key iv input keybits s k i b. (key, key, input, refl, refl, refl, refl);
}

abbrev zero_key : List ℕ
zero_key = replicate 32 0

abbrev hello : List ℕ
hello = 104 ∷ 101 ∷ 108 ∷ 108 ∷ 111 ∷ []

pad-hello : pad hello ≡ hello ++ replicate 11 11
unfolding pad inplace_pad
pad-hello = refl

unpad-zeros : unpad (replicate 16 0) ≡ ok (replicate 16 0)
unfolding unpad inplace_unpad
unpad-zeros = refl

token_128-IsToken : IsToken (token_128 zero_key)
unfolding mid_to_end
token_128-IsToken = has_128 refl refl

abbrev hello_token : List ℕ
hello_token = replicate 16 7 ++ hello ++ replicate 11 11 ++ replicate 32 0

hello_token_opens : decrypt plain_cipher (token_128 zero_key) hello_token ≡ ok hello
unfolding decrypt verify_hmac open_parts decrypt_padded catch_decrypt aes_128_decrypt aes_cbc
    run_cbc unpad inplace_unpad left right mid mid_to_end same_bytes
hello_token_opens = refl

decrypt-encrypt_example :
    (token : List ℕ) × (encrypt plain_cipher (token_128 zero_key) (replicate 16 7) hello ≡ ok token)
    × (length token ≡ 64)
    × (decrypt plain_cipher (token_128 zero_key) token ≡ ok hello)
decrypt-encrypt_example =
    decrypt-encrypt plain_cipher plain_cipher-IsMbedtls (token_128 zero_key) (replicate 16 7) hello
      token_128-IsToken refl

decrypt-IsSigned_example :
    IsSigned plain_cipher (token_128 zero_key) hello_token
    × (64 ≤ length hello_token)
    × (length hello_token % 16 ≡ 0)
decrypt-IsSigned_example =
    decrypt-IsSigned plain_cipher (token_128 zero_key) hello_token hello hello_token_opens

open_token_zero : open_token zero_key mode_aes ≡ ok (token_128 zero_key)
unfolding open_token split_key
open_token_zero = refl

open_token-splits_example :
    (left zero_key 16 ++ mid_to_end zero_key 16 ≡ zero_key)
    × (length (left zero_key 16) ≡ length (mid_to_end zero_key 16))
    × IsToken (token_128 zero_key)
open_token-splits_example = open_token-splits zero_key mode_aes (token_128 zero_key) open_token_zero

decrypt-is_answer_example :
    is_answer (decrypt plain_cipher (token_128 zero_key) (replicate 64 0)) ≡ true
decrypt-is_answer_example =
    decrypt-is_answer plain_cipher plain_cipher-IsMbedtls (token_128 zero_key) (replicate 64 0)
