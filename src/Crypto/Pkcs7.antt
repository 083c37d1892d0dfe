-- ===== src/Crypto/Pkcs7.antt =====
-- PKCS7.h: the padding to whole blocks.
use rns.Prelude.{
  ℕ, zero, suc, ◌+◌, ◌-◌, ◌*◌, ◌/◌, ◌%◌, ◌<◌, ◌≡◌, ◌∙◌, refl, List, [], ◌∷◌, ◌++◌, some, arith, ltb,
  if◌then◌else◌, Result, ok, throw, ◌>>=◌, byte, length, take, get_elem?, replicate, length-append,
  length-replicate, take-append_self,
}

abbrev pub block_size : ℕ
block_size = 16

-- `memset` stores the length of the padding as a byte. A block size is positive.
unfoldable pub inplace_pad : List ℕ → ℕ → List ℕ
inplace_pad bytes bs =
    let padlen : ℕ = bs - length bytes % bs in bytes ++ replicate padlen (padlen % 256)

-- The last byte of an empty string is a read outside of it. Where the padding is longer than the
-- data, `len - padlen` wraps, and the vector cannot be made that large.
unfoldable pub inplace_unpad : List ℕ → ℕ → Result (List ℕ)
inplace_unpad bytes bs = byte bytes (length bytes - 1) >>= λ padlen.
    if ltb bs padlen
    then throw "Cannot unpad, invalid padding length"
    else if ltb (length bytes) padlen
    then throw "bad_alloc"
    else ok (take (length bytes - padlen) bytes)

unfoldable pub pad : List ℕ → List ℕ
pad bytes = inplace_pad bytes block_size

unfoldable pub unpad : List ℕ → Result (List ℕ)
unpad bytes = inplace_unpad bytes block_size

-- The padded data is whole blocks, one more than those that the data fills.
pub length-pad : (bytes : List ℕ) → length (pad bytes) ≡ length bytes / 16 * 16 + 16
unfolding pad inplace_pad
length-pad bytes =
    let p : ℕ = 16 - length bytes % 16 in
    omega (arith, length-append bytes (replicate p (p % 256)), length-replicate p (p % 256))

get_elem?-append :
    (front bytes : List ℕ) (i : ℕ)
    → get_elem? (front ++ bytes) (length front + i) ≡ get_elem? bytes i
get_elem?-append [] bytes i = let e : 0 + i ≡ i = omega arith in rw e refl
get_elem?-append (x ∷ front) bytes i =
    let e : suc (length front) + i ≡ suc (length front + i) = omega arith in
    rw e (get_elem?-append front bytes i)

get_elem?-replicate : (n b : ℕ) → get_elem? (replicate (suc n) b) n ≡ some b
get_elem?-replicate zero b = refl
get_elem?-replicate (suc n) b = get_elem?-replicate n b

last_of_padding :
    (bytes : List ℕ) (n b : ℕ)
    → get_elem? (bytes ++ replicate (suc n) b) (length bytes + n) ≡ some b
last_of_padding bytes n b = get_elem?-append bytes (replicate (suc n) b) n ∙ get_elem?-replicate n b

unpad-padding :
    (bytes : List ℕ) (n : ℕ) → n < 16 → unpad (bytes ++ replicate (suc n) (suc n)) ≡ ok bytes
unfolding unpad inplace_unpad
unpad-padding bytes n h =
    let whole : length (bytes ++ replicate (suc n) (suc n)) ≡ length bytes + suc n =
      omega (arith, length-append bytes (replicate (suc n) (suc n)), length-replicate n (suc n)) in
    let at_end : length bytes + suc n - 1 ≡ length bytes + n = omega arith in
    let front : length bytes + suc n - suc n ≡ length bytes = omega arith in
    rw (whole, at_end, byte, last_of_padding bytes n (suc n))
      (ground (arith, front, take-append_self bytes (replicate (suc n) (suc n))))

pub unpad-pad : (bytes : List ℕ) → unpad (pad bytes) ≡ ok bytes
unfolding pad inplace_pad
unpad-pad bytes =
    let n : ℕ = 15 - length bytes % 16 in
    let e : 16 - length bytes % 16 ≡ suc n = omega arith in
    let f : suc n % 256 ≡ suc n = omega arith in rw (e, f) (unpad-padding bytes n (omega arith))
