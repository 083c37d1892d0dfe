-- ===== src/MsgPack/RoundTrip/Whole.antt =====
-- `skip_value` on a whole encoded value, by induction on the value.
use rns.Prelude.{
  ℕ, suc, ◌+◌, ◌-◌, ◌≤◌, ◌<◌, ◌^◌, ◌≡◌, List, ◌++◌, arith, Result, ok, length, drop, sub_size,
  add_size, length-append, append_assoc, drop-advance,
}
use rns.Prelude.Int.{ℤ, pos, negsuc}
use rns.MsgPack.Pack.{
  pack_nil, pack_bool, pack_int, pack_double, pack_str, pack_bin, bin_prefix, str_prefix,
  pack_array_header, pack_map_header, put_be16, put_be32, put_be64, pack_uint, pack_negative,
}
use rns.MsgPack.Skip.{skip_items, skip_pairs, skip_value}
use rns.MsgPack.RoundTrip.Blobs.{length-bin_prefix_le, length-str_prefix_le}
use rns.MsgPack.RoundTrip.Skip.{skip-str_prefix, skip-bin_prefix}
use rns.MsgPack.RoundTrip.Values.{
  Value, null, flag, int, double, str, bin, arr, obj, Items, nil, cons, Pairs, end, pair,
  count_items, count_pairs, encode, encode_items, encode_pairs,
}

str_prefix_fits : (len : ℕ) → length (str_prefix len) + len < 2 ^ 32 → 5 + len < 2 ^ 32
unfolding str_prefix put_be16 put_be32
str_prefix_fits len h = ground arith

bin_prefix_fits : (len : ℕ) → length (bin_prefix len) + len < 2 ^ 32 → 5 + len < 2 ^ 32
unfolding bin_prefix put_be16 put_be32
bin_prefix_fits len h = ground arith

-- A blob whose encoding fits a buffer is short enough for the readers.
pub pack_bin_small :
    (d : List ℕ) (n : ℕ) → n < 2 ^ 32 → length (pack_bin d) ≤ n → length d < 2 ^ 32 - 5
unfolding pack_bin
pack_bin_small d n h fits =
    omega (arith, bin_prefix_fits (length d), length-append (bin_prefix (length d)) d)

pub pack_str_small :
    (s : List ℕ) (n : ℕ) → n < 2 ^ 32 → length (pack_str s) ≤ n → length s < 2 ^ 32 - 5
unfolding pack_str
pack_str_small s n h fits =
    omega (arith, str_prefix_fits (length s), length-append (str_prefix (length s)) s)

pub skip-str :
    (f n : ℕ) (s rest : List ℕ)
    → n < 2 ^ 32
    → length (pack_str s) ≤ n
    → skip_value (suc f) (pack_str s ++ rest) n ≡ ok (length (pack_str s))
unfolding pack_str
skip-str f n s rest hn fits =
    let size = length-append (str_prefix (length s)) s in
    rw (append_assoc (str_prefix (length s)) s rest, size)
      (skip-str_prefix f n (length s) (s ++ rest) (str_prefix_fits (length s) (omega arith))
        (omega arith))

pub skip-bin :
    (f n : ℕ) (s rest : List ℕ)
    → n < 2 ^ 32
    → length (pack_bin s) ≤ n
    → skip_value (suc f) (pack_bin s ++ rest) n ≡ ok (length (pack_bin s))
unfolding pack_bin
skip-bin f n s rest hn fits =
    let size = length-append (bin_prefix (length s)) s in
    rw (append_assoc (bin_prefix (length s)) s rest, size)
      (skip-bin_prefix f n (length s) (s ++ rest) (bin_prefix_fits (length s) (omega arith))
        (omega arith))

length-pack_int_pos : (i : ℤ) → 1 ≤ length (pack_int i)
unfolding pack_int pack_uint pack_negative put_be16 put_be32 put_be64
length-pack_int_pos (pos v) = ground arith
length-pack_int_pos (negsuc m) = ground arith

length-pack_array_header_pos : (c : ℕ) → 1 ≤ length (pack_array_header c)
unfolding pack_array_header put_be16 put_be32
length-pack_array_header_pos c = ground arith

length-pack_map_header_pos : (c : ℕ) → 1 ≤ length (pack_map_header c)
unfolding pack_map_header put_be16 put_be32
length-pack_map_header_pos c = ground arith

-- Every encoding has a tag byte.
pub length-encode_pos : (v : Value) → 1 ≤ length (encode v)
unfolding encode pack_nil pack_bool pack_double pack_str pack_bin
length-encode_pos null = omega arith
length-encode_pos (flag b) = omega arith
length-encode_pos (int i) = length-pack_int_pos i
length-encode_pos (double d) = omega arith
length-encode_pos (str s) =
    omega (arith, length-append (str_prefix (length s)) s, length-str_prefix_le (length s))
length-encode_pos (bin s) =
    omega (arith, length-append (bin_prefix (length s)) s, length-bin_prefix_le (length s))
length-encode_pos (arr xs) = omega (
  arith,
  length-append (pack_array_header (count_items xs)) (encode_items xs),
  length-pack_array_header_pos (count_items xs),
)
length-encode_pos (obj ps) = omega (
  arith,
  length-append (pack_map_header (count_pairs ps)) (encode_pairs ps),
  length-pack_map_header_pos (count_pairs ps),
)

pub count_items-le : (xs : Items) → count_items xs ≤ length (encode_items xs)
unfolding count_items encode_items
count_items-le nil = omega arith
count_items-le (cons x xs) =
    omega
      (arith, count_items-le xs, length-encode_pos x, length-append (encode x) (encode_items xs))

pub count_pairs-le : (ps : Pairs) → count_pairs ps ≤ length (encode_pairs ps)
unfolding count_pairs encode_pairs
count_pairs-le end = omega arith
count_pairs-le (pair k v ps) = omega (
  arith,
  count_pairs-le ps,
  length-encode_pos k,
  length-append (encode k) (encode v ++ encode_pairs ps),
  length-append (encode v) (encode_pairs ps),
)

-- What one step of the loop over the items does with an encoding at the cursor.
pub item_step :
    (skip : List ℕ → ℕ → Result ℕ) (p e tail : List ℕ) (n off : ℕ)
    → drop off p ≡ e ++ tail
    → n < 2 ^ 32
    → off + length e ≤ n
    → skip (e ++ tail) (n - off) ≡ ok (length e)
    → (skip (drop off p) (sub_size n off) ≡ ok (length e))
      × (add_size off (length e) ≡ off + length e)
      × (drop (off + length e) p ≡ tail)
item_step skip p e tail n off at hn fits h =
    let size : sub_size n off ≡ n - off = omega arith in
    (rw (at, size) h, omega arith, drop-advance off p e tail at)

pub items_step :
    (skip : List ℕ → ℕ → Result ℕ) (count : ℕ) (p e tail : List ℕ) (n off : ℕ)
    → drop off p ≡ e ++ tail
    → n < 2 ^ 32
    → off + length e ≤ n
    → skip (e ++ tail) (n - off) ≡ ok (length e)
    → skip_items skip (suc count) p n off ≡ skip_items skip count p n (off + length e)
unfolding skip_items
items_step skip count p e tail n off at hn fits h =
    let (run, moved, rest) = item_step skip p e tail n off at hn fits h in rw (run, moved)

pub pairs_step :
    (skip : List ℕ → ℕ → Result ℕ) (count : ℕ) (p k v tail : List ℕ) (n off : ℕ)
    → drop off p ≡ k ++ (v ++ tail)
    → n < 2 ^ 32
    → off + length k + length v ≤ n
    → skip (k ++ (v ++ tail)) (n - off) ≡ ok (length k)
    → skip (v ++ tail) (n - (off + length k)) ≡ ok (length v)
    → skip_pairs skip (suc count) p n off ≡ skip_pairs skip count p n (off + length k + length v)
unfolding skip_pairs
pairs_step skip count p k v tail n off at hn fits hk hv =
    let (run, moved, rest) = item_step skip p k (v ++ tail) n off at hn (omega arith) hk in
    let (run', moved', rest') = item_step skip p v tail n (off + length k) rest hn fits hv in
    rw (run, moved, run', moved')
