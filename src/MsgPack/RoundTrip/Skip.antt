-- ===== src/MsgPack/RoundTrip/Skip.antt =====
-- `skip_value` steps over exactly one encoded value.
use rns.Prelude.{
  ℕ, suc, ◌+◌, ◌-◌, ◌≤◌, ◌<◌, ◌^◌, ◌≡◌, List, ◌++◌, Bool, arith, ok, length, bit_and-0x80,
  bit_and-0xe0, bit_and-0xf0, bit_and-0x1f, bit_or-0xe0, bit_or-0xa0, bit_or-0x90, bit_or-0x80,
}
use rns.Prelude.Int.{ℤ, pos, negsuc}
use rns.MsgPack.Pack.{
  pack_nil, pack_bool, pack_uint, pack_negative, pack_int, pack_double, bin_prefix, str_prefix,
  pack_array_header, pack_map_header,
}
use rns.MsgPack.Skip.{skip_items, skip_pairs, skip_tagged, skip_value}
use rns.MsgPack.RoundTrip.Words.{get_be16-put_be16, get_be32-put_be32}
use rns.MsgPack.RoundTrip.Scalars.{length-put_be16, length-put_be32, length-put_be64}
use rns.MsgPack.RoundTrip.Blobs.{
  unpack_array_header-pack_array_header, unpack_map_header-pack_map_header,
}

pub skip-nil : (f n : ℕ) (rest : List ℕ) → 1 ≤ n → skip_value (suc f) (pack_nil ++ rest) n ≡ ok 1
unfolding skip_value skip_tagged pack_nil
skip-nil f n rest h = ground arith

pub skip-bool :
    (f n : ℕ) (b : Bool) (rest : List ℕ) → 1 ≤ n → skip_value (suc f) (pack_bool b ++ rest) n ≡ ok 1
unfolding skip_value skip_tagged pack_bool
skip-bool f n b rest h = ground arith

pub skip-double :
    (f n d : ℕ) (rest : List ℕ) → 1 ≤ n → skip_value (suc f) (pack_double d ++ rest) n ≡ ok 9
unfolding skip_value skip_tagged pack_double
skip-double f n d rest h = ground arith

pub skip-uint :
    (f n v : ℕ) (rest : List ℕ)
    → 1 ≤ n
    → skip_value (suc f) (pack_uint v ++ rest) n ≡ ok (length (pack_uint v))
unfolding skip_value skip_tagged pack_uint
skip-uint f n v rest h =
    ground (arith, bit_and-0x80 v, length-put_be16 v, length-put_be32 v, length-put_be64 v)

pub skip-negative :
    (f n m : ℕ) (rest : List ℕ)
    → 1 ≤ n
    → skip_value (suc f) (pack_negative m ++ rest) n ≡ ok (length (pack_negative m))
unfolding skip_value skip_tagged pack_negative
skip-negative f n m rest h = ground (
  arith,
  bit_or-0xe0 (31 - m),
  bit_and-0x80 (0xe0 + (31 - m)),
  bit_and-0xe0 (0xe0 + (31 - m)),
  length-put_be16 (0xffff - m),
  length-put_be32 (0xffff_ffff - m),
  length-put_be64 (0xffff_ffff_ffff_ffff - m),
)

pub skip-int :
    (f n : ℕ) (i : ℤ) (rest : List ℕ)
    → 1 ≤ n
    → skip_value (suc f) (pack_int i ++ rest) n ≡ ok (length (pack_int i))
unfolding pack_int
skip-int f n (pos v) rest h = skip-uint f n v rest h
skip-int f n (negsuc m) rest h = skip-negative f n m rest h

pub skip-str_prefix :
    (f n len : ℕ) (tail : List ℕ)
    → 5 + len < 2 ^ 32
    → length (str_prefix len) ≤ n
    → skip_value (suc f) (str_prefix len ++ tail) n ≡ ok (length (str_prefix len) + len)
unfolding skip_value skip_tagged str_prefix
skip-str_prefix f n len tail h fits = ground (
  arith,
  bit_or-0xa0 len,
  bit_and-0x80 (0xa0 + len),
  bit_and-0xe0 (0xa0 + len),
  bit_and-0x1f (0xa0 + len),
  length-put_be16 len,
  length-put_be32 len,
  get_be16-put_be16 0xda len tail,
  get_be32-put_be32 0xdb len tail,
)

pub skip-bin_prefix :
    (f n len : ℕ) (tail : List ℕ)
    → 5 + len < 2 ^ 32
    → length (bin_prefix len) ≤ n
    → skip_value (suc f) (bin_prefix len ++ tail) n ≡ ok (length (bin_prefix len) + len)
unfolding skip_value skip_tagged bin_prefix
skip-bin_prefix f n len tail h fits = ground (
  arith,
  length-put_be16 len,
  length-put_be32 len,
  get_be16-put_be16 0xc5 len tail,
  get_be32-put_be32 0xc6 len tail,
)

pub skip-array_header :
    (f n count : ℕ) (tail : List ℕ)
    → count < 2 ^ 32
    → length (pack_array_header count) ≤ n
    → skip_value (suc f) (pack_array_header count ++ tail) n
      ≡ skip_items
          (skip_value f)
          count
          (pack_array_header count ++ tail)
          n
          (length (pack_array_header count))
unfolding skip_value skip_tagged pack_array_header
skip-array_header f n count tail h fits = ground (
  arith,
  bit_or-0x90 count,
  bit_and-0x80 (0x90 + count),
  bit_and-0xe0 (0x90 + count),
  bit_and-0xf0 (0x90 + count),
  length-put_be16 count,
  length-put_be32 count,
  unpack_array_header-pack_array_header count n tail,
)

pub skip-map_header :
    (f n count : ℕ) (tail : List ℕ)
    → count < 2 ^ 32
    → length (pack_map_header count) ≤ n
    → skip_value (suc f) (pack_map_header count ++ tail) n
      ≡ skip_pairs
          (skip_value f)
          count
          (pack_map_header count ++ tail)
          n
          (length (pack_map_header count))
unfolding skip_value skip_tagged pack_map_header
skip-map_header f n count tail h fits = ground (
  arith,
  bit_or-0x80 count,
  bit_and-0x80 (0x80 + count),
  bit_and-0xe0 (0x80 + count),
  bit_and-0xf0 (0x80 + count),
  length-put_be16 count,
  length-put_be32 count,
  unpack_map_header-pack_map_header count n tail,
)
