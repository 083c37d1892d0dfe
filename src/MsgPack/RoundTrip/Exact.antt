-- ===== src/MsgPack/RoundTrip/Exact.antt =====
-- The induction: `skip_value` consumes an encoded value exactly, at enough depth.
use rns.Prelude.{
  ℕ, zero, suc, ◌+◌, ◌-◌, ◌≤◌, ◌<◌, ◌^◌, ◌≡◌, ◌∙◌, ap, List, ◌++◌, arith, ok, length, drop,
  length-append, append_assoc, drop-advance, drop-append_self,
}
use rns.MsgPack.Pack.{pack_array_header, pack_map_header, pack_nil, pack_bool, pack_double}
use rns.MsgPack.Skip.{skip_items, skip_pairs, skip_value}
use rns.MsgPack.RoundTrip.Skip.{
  skip-nil, skip-bool, skip-double, skip-int, skip-array_header, skip-map_header,
}
use rns.MsgPack.RoundTrip.Whole.{
  skip-str, skip-bin, items_step, pairs_step, length-encode_pos, count_items-le, count_pairs-le,
}
use rns.MsgPack.RoundTrip.Values.{
  Value, null, flag, int, double, str, bin, arr, obj, Items, nil, cons, Pairs, end, pair,
  count_items, count_pairs, depth, depth_items, depth_pairs, encode, encode_items, encode_pairs,
}

mutual
  unfolding encode encode_items encode_pairs pack_nil pack_bool pack_double skip_items skip_pairs
      depth depth_items depth_pairs count_items count_pairs

  skip-encode :
      (v : Value) (f n : ℕ) (rest : List ℕ)
      → depth v ≤ f
      → n < 2 ^ 32
      → length (encode v) ≤ n
      → skip_value (suc f) (encode v ++ rest) n ≡ ok (length (encode v))
  skip-encode null f n rest hd hn fits = skip-nil f n rest (omega (arith, length-encode_pos null))
  skip-encode (flag b) f n rest hd hn fits = skip-bool f n b rest fits
  skip-encode (int i) f n rest hd hn fits =
      skip-int f n i rest (omega (arith, length-encode_pos (int i)))
  skip-encode (double d) f n rest hd hn fits = skip-double f n d rest (omega arith)
  skip-encode (str s) f n rest hd hn fits = skip-str f n s rest hn fits
  skip-encode (bin s) f n rest hd hn fits = skip-bin f n s rest hn fits
  skip-encode (arr xs) zero n rest hd hn fits = absurd (omega arith)
  skip-encode (arr xs) (suc f) n rest hd hn fits =
      let header = pack_array_header (count_items xs) in
      let size = length-append header (encode_items xs) in
      rw (append_assoc header (encode_items xs) rest, size)
        (skip-array_header (suc f) n (count_items xs) (encode_items xs ++ rest)
            (omega (arith, count_items-le xs)) (omega arith)
          ∙ skip-encode_items xs f n (length header) (header ++ (encode_items xs ++ rest)) rest
              (omega arith) hn (drop-append_self header (encode_items xs ++ rest)) (omega arith))
  skip-encode (obj ps) zero n rest hd hn fits = absurd (omega arith)
  skip-encode (obj ps) (suc f) n rest hd hn fits =
      let header = pack_map_header (count_pairs ps) in
      let size = length-append header (encode_pairs ps) in
      rw (append_assoc header (encode_pairs ps) rest, size)
        (skip-map_header (suc f) n (count_pairs ps) (encode_pairs ps ++ rest)
            (omega (arith, count_pairs-le ps)) (omega arith)
          ∙ skip-encode_pairs ps f n (length header) (header ++ (encode_pairs ps ++ rest)) rest
              (omega arith) hn (drop-append_self header (encode_pairs ps ++ rest)) (omega arith))

  skip-encode_items :
      (xs : Items) (f n off : ℕ) (p rest : List ℕ)
      → depth_items xs ≤ f
      → n < 2 ^ 32
      → drop off p ≡ encode_items xs ++ rest
      → off + length (encode_items xs) ≤ n
      → skip_items (skip_value (suc f)) (count_items xs) p n off
        ≡ ok (off + length (encode_items xs))
  skip-encode_items nil f n off p rest hd hn at fits = ap ok (omega arith)
  skip-encode_items (cons x xs) f n off p rest hd hn at fits =
      let size = length-append (encode x) (encode_items xs) in
      let at' : drop off p ≡ encode x ++ (encode_items xs ++ rest) =
        at ∙ append_assoc (encode x) (encode_items xs) rest in
      items_step (skip_value (suc f)) (count_items xs) p (encode x) (encode_items xs ++ rest) n off
        at' hn (omega arith)
        (skip-encode x f (n - off) (encode_items xs ++ rest) (omega arith) (omega arith)
          (omega arith))
      ∙ skip-encode_items xs f n (off + length (encode x)) p rest (omega arith) hn
          (drop-advance off p (encode x) (encode_items xs ++ rest) at') (omega arith)
      ∙ ap ok (omega arith)

  skip-encode_pairs :
      (ps : Pairs) (f n off : ℕ) (p rest : List ℕ)
      → depth_pairs ps ≤ f
      → n < 2 ^ 32
      → drop off p ≡ encode_pairs ps ++ rest
      → off + length (encode_pairs ps) ≤ n
      → skip_pairs (skip_value (suc f)) (count_pairs ps) p n off
        ≡ ok (off + length (encode_pairs ps))
  skip-encode_pairs end f n off p rest hd hn at fits = ap ok (omega arith)
  skip-encode_pairs (pair k v ps) f n off p rest hd hn at fits =
      let size = length-append (encode k) (encode v ++ encode_pairs ps) in
      let size' = length-append (encode v) (encode_pairs ps) in
      let tail = encode_pairs ps ++ rest in
      let at' : drop off p ≡ encode k ++ (encode v ++ tail) =
        at
        ∙ append_assoc (encode k) (encode v ++ encode_pairs ps) rest
        ∙ ap (◌++◌ (encode k)) (append_assoc (encode v) (encode_pairs ps) rest) in
      let next = drop-advance off p (encode k) (encode v ++ tail) at' in
      pairs_step (skip_value (suc f)) (count_pairs ps) p (encode k) (encode v) tail n off at' hn
        (omega arith)
        (skip-encode k f (n - off) (encode v ++ tail) (omega arith) (omega arith) (omega arith))
        (skip-encode v f (n - (off + length (encode k))) tail (omega arith) (omega arith)
          (omega arith))
      ∙ skip-encode_pairs ps f n (off + length (encode k) + length (encode v)) p rest (omega arith)
          hn (drop-advance (off + length (encode k)) p (encode v) tail next) (omega arith)
      ∙ ap ok (omega arith)

-- On any value written by the packers, nested arrays and maps included, skip_value consumes
-- exactly the bytes of its encoding whatever follows, given recursion depth one above the
-- nesting, a claimed length that covers the encoding, and a length below 2^32.
pub skip_value-encode :
    (v : Value) (f n : ℕ) (rest : List ℕ)
    → depth v ≤ f
    → n < 2 ^ 32
    → length (encode v) ≤ n
    → skip_value (suc f) (encode v ++ rest) n ≡ ok (length (encode v))
skip_value-encode v f n rest hd hn fits = skip-encode v f n rest hd hn fits

-- The loop over the items, from a cursor in front of their encodings.
pub skip_items-encode :
    (xs : Items) (f n off : ℕ) (p rest : List ℕ)
    → depth_items xs ≤ f
    → n < 2 ^ 32
    → drop off p ≡ encode_items xs ++ rest
    → off + length (encode_items xs) ≤ n
    → skip_items (skip_value (suc f)) (count_items xs) p n off ≡ ok (off + length (encode_items xs))
skip_items-encode xs f n off p rest hd hn at fits =
    skip-encode_items xs f n off p rest hd hn at fits
