-- ===== src/MsgPack/RoundTrip/Payload.antt =====
-- `unpack_blob_or_object` on an encoded value: a blob's bytes, nothing for nil, and the element's own
-- encoding for all else.
use rns.Prelude.{
  ℕ, suc, ◌+◌, ◌-◌, ◌/◌, ◌≤◌, ◌<◌, ◌^◌, ◌≡◌, ◌≢◌, ◌∙◌, List, [], ◌∷◌, ◌++◌, Bool, arith, ok, length,
  length-append, append_assoc, bit_and-0xe0, bit_and-0x1f, bit_or-0xa0, bit_or-0xe0, bit_or-0x90,
  bit_or-0x80,
}
use rns.Prelude.Int.{ℤ, pos, negsuc}
use rns.MsgPack.Pack.{
  pack_nil, pack_bool, pack_uint, pack_negative, pack_int, pack_double, pack_str, pack_bin,
  str_prefix, bin_prefix, pack_array_header, pack_map_header,
}
use rns.MsgPack.Unpack.{read_payload}
use rns.MsgPack.Skip.{skip_value, unpack_blob_or_object}
use rns.MsgPack.RoundTrip.Words.{get_be16-put_be16, get_be32-put_be32, span-append}
use rns.MsgPack.RoundTrip.Scalars.{length-put_be16, length-put_be32}
use rns.MsgPack.RoundTrip.Blobs.{read_payload-append, length-str_prefix_le, length-bin_prefix_le}
use rns.MsgPack.RoundTrip.Whole.{length-encode_pos}
use rns.MsgPack.RoundTrip.Exact.{skip_value-encode}
use rns.MsgPack.RoundTrip.Values.{
  Value, null, flag, int, double, str, bin, arr, obj, count_items, count_pairs, depth, encode,
  encode_items, encode_pairs,
}

-- What the receiver of the envelope gets for the payload `v`.
unfoldable pub payload_of : Value → List ℕ
payload_of null = []
payload_of (str s) = s
payload_of (bin d) = d
payload_of (flag b) = encode (flag b)
payload_of (int i) = encode (int i)
payload_of (double d) = encode (double d)
payload_of (arr xs) = encode (arr xs)
payload_of (obj ps) = encode (obj ps)

abbrev first : List ℕ → ℕ
first [] = 0
first (t ∷ ts) = t

-- A tag that is neither nil's nor a blob's.
abbrev IsObjectTag : ℕ → Type 0
IsObjectTag t =
    (t < 256)
    × (t ≢ 0xc0)
    × (t / 32 ≢ 5)
    × (t ≢ 0xd9)
    × (t ≢ 0xda)
    × (t ≢ 0xdb)
    × (t ≢ 0xc4)
    × (t ≢ 0xc5)
    × (t ≢ 0xc6)

flag_tag : (b : Bool) → IsObjectTag (first (pack_bool b))
unfolding pack_bool
flag_tag b = ground arith

uint_tag : (v : ℕ) → IsObjectTag (first (pack_uint v))
unfolding pack_uint
uint_tag v = ground arith

negative_tag : (m : ℕ) → IsObjectTag (first (pack_negative m))
unfolding pack_negative
negative_tag m = ground (arith, bit_or-0xe0 (31 - m))

int_tag : (i : ℤ) → IsObjectTag (first (pack_int i))
unfolding pack_int
int_tag (pos v) = uint_tag v
int_tag (negsuc m) = negative_tag m

array_tag : (c : ℕ) (rest : List ℕ) → IsObjectTag (first (pack_array_header c ++ rest))
unfolding pack_array_header
array_tag c rest = ground (arith, bit_or-0x90 c)

map_tag : (c : ℕ) (rest : List ℕ) → IsObjectTag (first (pack_map_header c ++ rest))
unfolding pack_map_header
map_tag c rest = ground (arith, bit_or-0x80 c)

-- Behind such a tag the element's own bytes are returned.
blob_of_object :
    (d n : ℕ) (e rest : List ℕ)
    → 1 ≤ length e
    → length e ≤ n
    → IsObjectTag (first e)
    → skip_value d (e ++ rest) n ≡ ok (length e)
    → unpack_blob_or_object d (e ++ rest) n ≡ ok (e, length e)
unfolding unpack_blob_or_object
blob_of_object d n [] rest some_byte fits tag skips = absurd (omega arith)
blob_of_object d n (t ∷ ts) rest some_byte fits tag skips =
    ground (arith, bit_and-0xe0 t, span-append [] (t ∷ ts) rest)

blob-str_prefix :
    (d n len : ℕ) (tail : List ℕ)
    → len < 2 ^ 32
    → length (str_prefix len) ≤ n
    → unpack_blob_or_object d (str_prefix len ++ tail) n
      ≡ read_payload
          (str_prefix len ++ tail)
          n
          "MsgPack: short payload blob"
          (length (str_prefix len), len)
unfolding unpack_blob_or_object str_prefix
blob-str_prefix d n len tail h fits = ground (
  arith,
  bit_or-0xa0 len,
  bit_and-0xe0 (0xa0 + len),
  bit_and-0x1f (0xa0 + len),
  length-put_be16 len,
  length-put_be32 len,
  get_be16-put_be16 0xda len tail,
  get_be32-put_be32 0xdb len tail,
)

blob-bin_prefix :
    (d n len : ℕ) (tail : List ℕ)
    → len < 2 ^ 32
    → length (bin_prefix len) ≤ n
    → unpack_blob_or_object d (bin_prefix len ++ tail) n
      ≡ read_payload
          (bin_prefix len ++ tail)
          n
          "MsgPack: short payload blob"
          (length (bin_prefix len), len)
unfolding unpack_blob_or_object bin_prefix
blob-bin_prefix d n len tail h fits = ground (
  arith,
  length-put_be16 len,
  length-put_be32 len,
  get_be16-put_be16 0xc5 len tail,
  get_be32-put_be32 0xc6 len tail,
)

module _ (d n : ℕ) (rest : List ℕ) (small : n < 2 ^ 32) where
  blob-str :
      (s : List ℕ)
      → length (pack_str s) ≤ n
      → unpack_blob_or_object d (pack_str s ++ rest) n ≡ ok (s, length (pack_str s))
  unfolding pack_str
  blob-str s fits =
      let size = length-append (str_prefix (length s)) s in
      let front = length-str_prefix_le (length s) in
      rw (append_assoc (str_prefix (length s)) s rest, size)
        (blob-str_prefix d n (length s) (s ++ rest) (omega arith) (omega arith)
          ∙ read_payload-append (str_prefix (length s)) s rest n _ (omega arith) (omega arith))

  blob-bin :
      (s : List ℕ)
      → length (pack_bin s) ≤ n
      → unpack_blob_or_object d (pack_bin s ++ rest) n ≡ ok (s, length (pack_bin s))
  unfolding pack_bin
  blob-bin s fits =
      let size = length-append (bin_prefix (length s)) s in
      let front = length-bin_prefix_le (length s) in
      rw (append_assoc (bin_prefix (length s)) s rest, size)
        (blob-bin_prefix d n (length s) (s ++ rest) (omega arith) (omega arith)
          ∙ read_payload-append (bin_prefix (length s)) s rest n _ (omega arith) (omega arith))

-- The payload slot read from the encoding of any value gives the bytes of a string or bin,
-- nothing for nil, and the own encoding of any other value, and consumes exactly the encoding,
-- given recursion depth one above the nesting, a claimed length that covers the encoding, and a
-- length below 2^32.
pub unpack_blob_or_object-encode :
    (v : Value) (f n : ℕ) (rest : List ℕ)
    → depth v ≤ f
    → n < 2 ^ 32
    → length (encode v) ≤ n
    → unpack_blob_or_object (suc f) (encode v ++ rest) n ≡ ok (payload_of v, length (encode v))
unfolding payload_of encode pack_nil pack_double
unpack_blob_or_object-encode null f n rest hd hn fits = unfold unpack_blob_or_object in ground arith
unpack_blob_or_object-encode (str s) f n rest hd hn fits = blob-str (suc f) n rest hn s fits
unpack_blob_or_object-encode (bin s) f n rest hd hn fits = blob-bin (suc f) n rest hn s fits
unpack_blob_or_object-encode (flag b) f n rest hd hn fits =
    blob_of_object (suc f) n (encode (flag b)) rest (length-encode_pos (flag b)) fits (flag_tag b)
      (skip_value-encode (flag b) f n rest hd hn fits)
unpack_blob_or_object-encode (int i) f n rest hd hn fits =
    blob_of_object (suc f) n (encode (int i)) rest (length-encode_pos (int i)) fits (int_tag i)
      (skip_value-encode (int i) f n rest hd hn fits)
unpack_blob_or_object-encode (double d) f n rest hd hn fits =
    blob_of_object (suc f) n (encode (double d)) rest (length-encode_pos (double d)) fits
      (omega arith) (skip_value-encode (double d) f n rest hd hn fits)
unpack_blob_or_object-encode (arr xs) f n rest hd hn fits =
    blob_of_object (suc f) n (encode (arr xs)) rest (length-encode_pos (arr xs)) fits
      (array_tag (count_items xs) (encode_items xs))
      (skip_value-encode (arr xs) f n rest hd hn fits)
unpack_blob_or_object-encode (obj ps) f n rest hd hn fits =
    blob_of_object (suc f) n (encode (obj ps)) rest (length-encode_pos (obj ps)) fits
      (map_tag (count_pairs ps) (encode_pairs ps)) (skip_value-encode (obj ps) f n rest hd hn fits)
