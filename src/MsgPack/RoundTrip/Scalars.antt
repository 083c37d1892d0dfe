-- ===== src/MsgPack/RoundTrip/Scalars.antt =====
-- Numbers, booleans and doubles.
use rns.Prelude.{
  ℕ, ◌+◌, ◌-◌, ◌≤◌, ◌<◌, ◌^◌, ◌≡◌, refl, List, ◌++◌, Bool, arith, ok, length, bit_and-0x80,
  bit_and-0xe0, bit_or-0xe0,
}
use rns.Prelude.Int.{ℤ, pos, negsuc}
use rns.MsgPack.Pack.{
  put_be16, put_be32, put_be64, pack_double, pack_bool, pack_uint, pack_int, pack_negative,
}
use rns.MsgPack.Unpack.{unpack_uint, unpack_double, unpack_bool, unpack_number, signed_word}
use rns.MsgPack.RoundTrip.Words.{get_be16-put_be16, get_be32-put_be32, get_be64-put_be64}

pub length-put_be16 : (v : ℕ) → length (put_be16 v) ≡ 2
unfolding put_be16
length-put_be16 v = refl

pub length-put_be32 : (v : ℕ) → length (put_be32 v) ≡ 4
unfolding put_be32
length-put_be32 v = refl

pub length-put_be64 : (v : ℕ) → length (put_be64 v) ≡ 8
unfolding put_be64
length-put_be64 v = refl

-- Every 64-bit unsigned integer is read back from its shortest form, which is consumed exactly,
-- whatever follows, where the claimed length covers the encoding.
pub unpack_uint-pack_uint :
    (v n : ℕ) (rest : List ℕ)
    → v < 2 ^ 64
    → length (pack_uint v) ≤ n
    → unpack_uint (pack_uint v ++ rest) n ≡ ok (v, length (pack_uint v))
unfolding unpack_uint pack_uint
unpack_uint-pack_uint v n rest h fits = ground (
  arith,
  bit_and-0x80 v,
  length-put_be16 v,
  length-put_be32 v,
  length-put_be64 v,
  get_be16-put_be16 0xcd v rest,
  get_be32-put_be32 0xce v rest,
  get_be64-put_be64 0xcf v rest,
)

pub unpack_double-pack_double :
    (bits n : ℕ) (rest : List ℕ)
    → bits < 2 ^ 64
    → 9 ≤ n
    → unpack_double (pack_double bits ++ rest) n ≡ ok (bits, length (pack_double bits))
unfolding unpack_double pack_double
unpack_double-pack_double bits n rest h fits = ground (arith, get_be64-put_be64 0xcb bits rest)

pub length-pack_uint_le : (v : ℕ) → length (pack_uint v) ≤ 9
unfolding pack_uint
length-pack_uint_le v = ground (arith, length-put_be16 v, length-put_be32 v, length-put_be64 v)

pub unpack_bool-pack_bool :
    (v : Bool) (n : ℕ) (rest : List ℕ) → 1 ≤ n → unpack_bool (pack_bool v ++ rest) n ≡ ok (v, 1)
unfolding unpack_bool pack_bool
unpack_bool-pack_bool v n rest fits = ground arith

module _ (of_int : ℤ → ℕ) (of_float32 : ℕ → ℕ) where
  number_of_negative :
      (m n : ℕ) (rest : List ℕ)
      → m < 2 ^ 63
      → length (pack_negative m) ≤ n
      → unpack_number of_int of_float32 (pack_negative m ++ rest) n
        ≡ ok (of_int (negsuc m), length (pack_negative m))
  unfolding unpack_number pack_negative signed_word
  number_of_negative m n rest h fits = ground (
    arith,
    bit_or-0xe0 (31 - m),
    bit_and-0xe0 (255 - m),
    bit_and-0xe0 (0xe0 + (31 - m)),
    length-put_be16 (0xffff - m),
    length-put_be32 (0xffff_ffff - m),
    length-put_be64 (0xffff_ffff_ffff_ffff - m),
    get_be16-put_be16 0xd1 (0xffff - m) rest,
    get_be32-put_be32 0xd2 (0xffff_ffff - m) rest,
    get_be64-put_be64 0xd3 (0xffff_ffff_ffff_ffff - m) rest,
  )

  number_of_uint :
      (v n : ℕ) (rest : List ℕ)
      → v < 2 ^ 64
      → length (pack_uint v) ≤ n
      → unpack_number of_int of_float32 (pack_uint v ++ rest) n
        ≡ ok (of_int (pos v), length (pack_uint v))
  unfolding unpack_number pack_uint unpack_uint
  number_of_uint v n rest h fits = ground (
    arith,
    bit_and-0xe0 v,
    bit_and-0x80 v,
    length-put_be16 v,
    length-put_be32 v,
    length-put_be64 v,
    get_be16-put_be16 0xcd v rest,
    get_be32-put_be32 0xce v rest,
    get_be64-put_be64 0xcf v rest,
  )

  -- The values of an `int64_t`.
  abbrev pub IsInt64 : ℤ → Type 0
  IsInt64 (pos v) = v < 2 ^ 63
  IsInt64 (negsuc m) = m < 2 ^ 63

  -- Every int64 packed by pack_int is read by unpack_number as the double of that same integer,
  -- and its encoding is consumed exactly, whatever follows, where the claimed length covers the
  -- encoding; the conversions to double are parameters.
  pub unpack_number-pack_int :
      (i : ℤ) (n : ℕ) (rest : List ℕ)
      → IsInt64 i
      → length (pack_int i) ≤ n
      → unpack_number of_int of_float32 (pack_int i ++ rest) n ≡ ok (of_int i, length (pack_int i))
  unfolding pack_int
  unpack_number-pack_int (pos v) n rest h fits = number_of_uint v n rest (omega arith) fits
  unpack_number-pack_int (negsuc m) n rest h fits = number_of_negative m n rest h fits
