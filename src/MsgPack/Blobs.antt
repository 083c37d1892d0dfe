-- ===== src/MsgPack/Blobs.antt =====
-- The readers of strings and binary data stay inside their buffers, on any bytes.
use rns.Prelude.{
  ℕ, ◌+◌, ◌<◌, ◌≤◌, ◌*◌, ◌^◌, ◌≡◌, refl, List, Bool, true, false, arith, leb, ltb, ◌==◌, Result, ok,
  throw, fault, stuck, ◌>>=◌, byte, length, bit_and, is_answer, if◌then◌else◌, get_elem?-some,
  Bool-cases, inl, inr,
}
use Prim.Native.String.{String}
use rns.MsgPack.Unpack.{
  get_be16, get_be32, span, read_payload, str_header, bin_header, unpack_str, unpack_bin,
}

byte-some : (p : List ℕ) (i : ℕ) → i < length p → (b : ℕ) × (byte p i ≡ ok b)
byte-some p i h = let (b, e) = get_elem?-some p i h in (b, rw (byte, e) refl)

get_be16-some : (p : List ℕ) → 2 < length p → (v : ℕ) × (get_be16 p 1 ≡ ok v)
unfolding get_be16
get_be16-some p h =
    let (a, e) = byte-some p 1 (omega arith) in
    let (b, f) = byte-some p 2 h in (a * 2 ^ 8 + b, rw (e, f) refl)

get_be32-some : (p : List ℕ) → 4 < length p → (v : ℕ) × (get_be32 p 1 ≡ ok v)
unfolding get_be32
get_be32-some p h =
    let (a, e) = byte-some p 1 (omega arith) in
    let (b, f) = byte-some p 2 (omega arith) in
    let (c, g) = byte-some p 3 (omega arith) in
    let (d, k) = byte-some p 4 h in (a * 2 ^ 24 + b * 2 ^ 16 + c * 2 ^ 8 + d, rw (e, f, g, k) refl)

-- A header of at most five bytes, or an exception.
abbrev is_header : Result (ℕ × ℕ) → Bool
is_header (ok h) = leb h.0 5
is_header (throw e) = true
is_header fault = false
is_header stuck = false

read_payload-is_answer :
    (p : List ℕ) (short : String) (r : Result (ℕ × ℕ))
    → is_header r ≡ true
    → is_answer (r >>= read_payload p (length p) short) ≡ true
unfolding read_payload span
read_payload-is_answer p short (ok (hdr, len)) h = ground (arith, h)
read_payload-is_answer p short (throw e) h = refl
read_payload-is_answer p short fault h = h
read_payload-is_answer p short stuck h = h

-- One of the readers of a length, with its guard.
guarded-is_header :
    (p : List ℕ) (n : ℕ) (short : String) (r : Result ℕ)
    → n ≤ 5
    → (n ≤ length p → (v : ℕ) × (r ≡ ok v))
    → is_header (if ltb (length p) n then throw short else (r >>= λ len. ok (n, len))) ≡ true
guarded-is_header p n short r small some_length = elim (Bool-cases (ltb (length p) n)) [
  | inl f ↦ rw f refl
  | inr f ↦ let (v, e) = some_length (ground (arith, f)) in rw (f, e) (ground arith)
]

bin_header-is_header : (p : List ℕ) (t : ℕ) → is_header (bin_header p (length p) t) ≡ true
unfolding bin_header
bin_header-is_header p t = elim (Bool-cases (t == 0xc4)) [
  | inl a ↦
      rw a (guarded-is_header p 2 _ (byte p 1) (omega arith) (λ h. byte-some p 1 (omega arith)))
  | inr a ↦ elim (Bool-cases (t == 0xc5)) [
    | inl b ↦
        rw (a, b)
          (guarded-is_header p 3 _ (get_be16 p 1) (omega arith)
            (λ h. get_be16-some p (omega arith)))
    | inr b ↦ elim (Bool-cases (t == 0xc6)) [
      | inl c ↦
          rw (a, b, c)
            (guarded-is_header p 5 _ (get_be32 p 1) (omega arith)
              (λ h. get_be32-some p (omega arith)))
      | inr c ↦ rw (a, b, c) refl
    ]
  ]
]

str_header-is_header : (p : List ℕ) (t : ℕ) → is_header (str_header p (length p) t) ≡ true
unfolding str_header
str_header-is_header p t = elim (Bool-cases (bit_and t 0xe0 == 0xa0)) [
  | inl z ↦ rw z refl
  | inr z ↦ elim (Bool-cases (t == 0xd9)) [
    | inl a ↦
        rw (z, a)
          (guarded-is_header p 2 _ (byte p 1) (omega arith) (λ h. byte-some p 1 (omega arith)))
    | inr a ↦ elim (Bool-cases (t == 0xda)) [
      | inl b ↦
          rw (z, a, b)
            (guarded-is_header p 3 _ (get_be16 p 1) (omega arith)
              (λ h. get_be16-some p (omega arith)))
      | inr b ↦ elim (Bool-cases (t == 0xdb)) [
        | inl c ↦
            rw (z, a, b, c)
              (guarded-is_header p 5 _ (get_be32 p 1) (omega arith)
                (λ h. get_be32-some p (omega arith)))
        | inr c ↦ rw (z, a, b, c) refl
      ]
    ]
  ]
]

unpack_bin-is_answer : (p : List ℕ) → is_answer (unpack_bin p (length p)) ≡ true
unfolding unpack_bin
unpack_bin-is_answer p = elim (Bool-cases (ltb (length p) 1)) [
  | inl a ↦ rw a refl
  | inr a ↦
      let (t, e) = byte-some p 0 (ground (arith, a)) in
      rw (a, e)
        (read_payload-is_answer p "MsgPack: short bin payload" (bin_header p (length p) t)
          (bin_header-is_header p t))
]

unpack_str-is_answer : (p : List ℕ) → is_answer (unpack_str p (length p)) ≡ true
unfolding unpack_str
unpack_str-is_answer p = elim (Bool-cases (ltb (length p) 1)) [
  | inl a ↦ rw a refl
  | inr a ↦
      let (t, e) = byte-some p 0 (ground (arith, a)) in
      rw (a, e)
        (read_payload-is_answer p "MsgPack: short str payload" (str_header p (length p) t)
          (str_header-is_header p t))
]

-- unpack_bin and unpack_str give a value or an exception on every buffer of which they are given
-- the whole length, whatever bytes it holds: none of their reads and copies leaves the buffer,
-- although a length close to 2^32 passes their test.
pub unpack-is_answer :
    (p : List ℕ)
    → (is_answer (unpack_bin p (length p)) ≡ true) × (is_answer (unpack_str p (length p)) ≡ true)
unpack-is_answer p = (unpack_bin-is_answer p, unpack_str-is_answer p)
