-- ===== src/MsgPack/RoundTrip/Blobs.antt =====
-- Headers of containers, and blobs of bytes. The payload's length is below 2 ^ 32 - 5, so that the
-- sum of header and length does not wrap.
use Prim.Native.String.{String}
use rns.Prelude.{
  ℕ, ◌+◌, ◌-◌, ◌≤◌, ◌<◌, ◌^◌, ◌≡◌, List, ◌++◌, arith, ok, length, length-append, bit_and-0xe0,
  bit_and-0x1f, bit_and-0xf0, bit_and-0x0f, bit_or-0x80, bit_or-0x90, bit_or-0xa0, append_assoc,
  ◌∙◌,
}
use rns.MsgPack.Pack.{
  bin_prefix, str_prefix, pack_bin, pack_str, pack_array_header, pack_map_header,
}
use rns.MsgPack.Unpack.{
  read_payload, unpack_array_header, unpack_map_header, unpack_bin, unpack_str,
}
use rns.MsgPack.RoundTrip.Words.{get_be16-put_be16, get_be32-put_be32, span-append}
use rns.MsgPack.RoundTrip.Scalars.{length-put_be16, length-put_be32}

pub unpack_array_header-pack_array_header :
    (count n : ℕ) (rest : List ℕ)
    → count < 2 ^ 32
    → length (pack_array_header count) ≤ n
    → unpack_array_header (pack_array_header count ++ rest) n
      ≡ ok (count, length (pack_array_header count))
unfolding unpack_array_header pack_array_header
unpack_array_header-pack_array_header count n rest h fits = ground (
  arith,
  bit_or-0x90 count,
  bit_and-0xf0 (0x90 + count),
  bit_and-0x0f (0x90 + count),
  length-put_be16 count,
  length-put_be32 count,
  get_be16-put_be16 0xdc count rest,
  get_be32-put_be32 0xdd count rest,
)

pub unpack_map_header-pack_map_header :
    (count n : ℕ) (rest : List ℕ)
    → count < 2 ^ 32
    → length (pack_map_header count) ≤ n
    → unpack_map_header (pack_map_header count ++ rest) n
      ≡ ok (count, length (pack_map_header count))
unfolding unpack_map_header pack_map_header
unpack_map_header-pack_map_header count n rest h fits = ground (
  arith,
  bit_or-0x80 count,
  bit_and-0xf0 (0x80 + count),
  bit_and-0x0f (0x80 + count),
  length-put_be16 count,
  length-put_be32 count,
  get_be16-put_be16 0xde count rest,
  get_be32-put_be32 0xdf count rest,
)

-- The common tail, for a header of `length front` bytes.
pub read_payload-append :
    (front d rest : List ℕ) (n : ℕ) (short : String)
    → length front + length d < 2 ^ 32
    → length front + length d ≤ n
    → read_payload (front ++ (d ++ rest)) n short (length front, length d)
      ≡ ok (d, length front + length d)
unfolding read_payload
read_payload-append front d rest n short small fits = ground (arith, span-append front d rest)

unpack_bin-prefix :
    (len n : ℕ) (tail : List ℕ)
    → len < 2 ^ 32
    → length (bin_prefix len) ≤ n
    → unpack_bin (bin_prefix len ++ tail) n
      ≡ read_payload
          (bin_prefix len ++ tail)
          n
          "MsgPack: short bin payload"
          (length (bin_prefix len), len)
unfolding unpack_bin bin_prefix
unpack_bin-prefix len n tail h fits = ground (
  arith,
  length-put_be16 len,
  length-put_be32 len,
  get_be16-put_be16 0xc5 len tail,
  get_be32-put_be32 0xc6 len tail,
)

unpack_str-prefix :
    (len n : ℕ) (tail : List ℕ)
    → len < 2 ^ 32
    → length (str_prefix len) ≤ n
    → unpack_str (str_prefix len ++ tail) n
      ≡ read_payload
          (str_prefix len ++ tail)
          n
          "MsgPack: short str payload"
          (length (str_prefix len), len)
unfolding unpack_str str_prefix
unpack_str-prefix len n tail h fits = ground (
  arith,
  bit_or-0xa0 len,
  bit_and-0xe0 (0xa0 + len),
  bit_and-0x1f (0xa0 + len),
  length-put_be16 len,
  length-put_be32 len,
  get_be16-put_be16 0xda len tail,
  get_be32-put_be32 0xdb len tail,
)

pub length-bin_prefix_le : (n : ℕ) → (2 ≤ length (bin_prefix n)) × (length (bin_prefix n) ≤ 5)
unfolding bin_prefix
length-bin_prefix_le n = ground (arith, length-put_be16 n, length-put_be32 n)

pub length-str_prefix_le : (n : ℕ) → (1 ≤ length (str_prefix n)) × (length (str_prefix n) ≤ 5)
unfolding str_prefix
length-str_prefix_le n = ground (arith, length-put_be16 n, length-put_be32 n)

-- A bin of fewer than 2^32 - 5 bytes is read back whole, and its encoding is consumed exactly,
-- whatever follows, where the claimed length covers the encoding.
pub unpack_bin-pack_bin :
    (d rest : List ℕ) (n : ℕ)
    → length d < 2 ^ 32 - 5
    → length (pack_bin d) ≤ n
    → unpack_bin (pack_bin d ++ rest) n ≡ ok (d, length (pack_bin d))
unfolding pack_bin
unpack_bin-pack_bin d rest n h fits =
    let size = length-append (bin_prefix (length d)) d in
    let front = length-bin_prefix_le (length d) in
    rw (append_assoc (bin_prefix (length d)) d rest, size)
      (unpack_bin-prefix (length d) n (d ++ rest) (omega arith) (omega arith)
        ∙ read_payload-append (bin_prefix (length d)) d rest n _ (omega arith) (omega arith))

-- A string of fewer than 2^32 - 5 bytes is read back whole, and its encoding is consumed exactly,
-- whatever follows, where the claimed length covers the encoding.
pub unpack_str-pack_str :
    (s rest : List ℕ) (n : ℕ)
    → length s < 2 ^ 32 - 5
    → length (pack_str s) ≤ n
    → unpack_str (pack_str s ++ rest) n ≡ ok (s, length (pack_str s))
unfolding pack_str
unpack_str-pack_str s rest n h fits =
    let size = length-append (str_prefix (length s)) s in
    let front = length-str_prefix_le (length s) in
    rw (append_assoc (str_prefix (length s)) s rest, size)
      (unpack_str-prefix (length s) n (s ++ rest) (omega arith) (omega arith)
        ∙ read_payload-append (str_prefix (length s)) s rest n _ (omega arith) (omega arith))
