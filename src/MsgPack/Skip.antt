-- ===== src/MsgPack/Skip.antt =====
-- `skip_value` and `unpack_blob_or_object` of MsgPack.h. The recursion into arrays and maps takes
-- fuel for its depth; `stuck` is a recursion that goes deeper.
use rns.Prelude.{
  ℕ, zero, suc, ◌+◌, List, [], ltb, ◌==◌, drop, if◌then◌else◌, ◌||◌, bit_and, Result, ok, throw,
  stuck, ◌>>=◌, byte, add_size, sub_size,
}
use rns.MsgPack.Unpack.{
  get_be16, get_be32, span, read_payload, unpack_array_header, unpack_map_header,
}

-- `for (i = 0; i < count; ++i) off += skip_value(p + off, n - off)`.
unfoldable pub skip_items : (List ℕ → ℕ → Result ℕ) → ℕ → List ℕ → ℕ → ℕ → Result ℕ
skip_items skip zero p n off = ok off
skip_items skip (suc count) p n off = do
  k ← skip (drop off p) (sub_size n off)
  skip_items skip count p n (add_size off k)

-- The same over the pairs of a map: the key, then the value.
unfoldable pub skip_pairs : (List ℕ → ℕ → Result ℕ) → ℕ → List ℕ → ℕ → ℕ → Result ℕ
skip_pairs skip zero p n off = ok off
skip_pairs skip (suc count) p n off = do
  k ← skip (drop off p) (sub_size n off)
  let off' = add_size off k
  v ← skip (drop off' p) (sub_size n off')
  skip_pairs skip count p n (add_size off' v)

-- The body of `skip_value` behind the read of the tag, over the recursive call.
unfoldable pub skip_tagged : (List ℕ → ℕ → Result ℕ) → List ℕ → ℕ → ℕ → Result ℕ
skip_tagged skip p n t =
    if t == 0xc0 || (t == 0xc2 || t == 0xc3)
    then ok 1
    else if bit_and t 0x80 == 0
    then ok 1
    else if bit_and t 0xe0 == 0xe0
    then ok 1
    else if t == 0xcc || t == 0xd0
    then ok 2
    else if t == 0xcd || t == 0xd1
    then ok 3
    else if t == 0xce || (t == 0xd2 || t == 0xca)
    then ok 5
    else if t == 0xcf || (t == 0xd3 || t == 0xcb)
    then ok 9
    else if bit_and t 0xe0 == 0xa0
    then ok (1 + bit_and t 0x1f)
    else if t == 0xd9
    then (if ltb n 2 then throw "MsgPack: short str8 skip" else do l ← byte p 1; ok (2 + l))
    else if t == 0xda
    then (if ltb n 3 then throw "MsgPack: short str16 skip" else do l ← get_be16 p 1; ok (3 + l))
    else if t == 0xdb
    then (if ltb n 5
        then throw "MsgPack: short str32 skip"
        else do l ← get_be32 p 1; ok (add_size 5 l))
    else if t == 0xc4
    then (if ltb n 2 then throw "MsgPack: short bin8 skip" else do l ← byte p 1; ok (2 + l))
    else if t == 0xc5
    then (if ltb n 3 then throw "MsgPack: short bin16 skip" else do l ← get_be16 p 1; ok (3 + l))
    else if t == 0xc6
    then (if ltb n 5
        then throw "MsgPack: short bin32 skip"
        else do l ← get_be32 p 1; ok (add_size 5 l))
    else if bit_and t 0xf0 == 0x90 || (t == 0xdc || t == 0xdd)
    then (do (count, off) ← unpack_array_header p n; skip_items skip count p n off)
    else if bit_and t 0xf0 == 0x80 || (t == 0xde || t == 0xdf)
    then (do (count, off) ← unpack_map_header p n; skip_pairs skip count p n off)
    else throw "MsgPack: unknown tag in skip"

unfoldable pub skip_value : ℕ → List ℕ → ℕ → Result ℕ
skip_value zero p n = stuck
skip_value (suc depth) p n =
    if ltb n 1
    then throw "MsgPack: short skip"
    else do t ← byte p 0; skip_tagged (skip_value depth) p n t

unfoldable pub unpack_blob_or_object : ℕ → List ℕ → ℕ → Result (List ℕ × ℕ)
unpack_blob_or_object depth p n = if ltb n 1 then throw "MsgPack: short payload slot" else do
  t ← byte p 0
  if t == 0xc0
      then ok ([], 1)
      else if bit_and t 0xe0 == 0xa0
      then read_payload p n "MsgPack: short payload blob" (1, bit_and t 0x1f)
      else if t == 0xd9 || t == 0xc4
      then (if ltb n 2
          then throw "MsgPack: short payload blob8"
          else do len ← byte p 1; read_payload p n "MsgPack: short payload blob" (2, len))
      else if t == 0xda || t == 0xc5
      then (if ltb n 3
          then throw "MsgPack: short payload blob16"
          else do len ← get_be16 p 1; read_payload p n "MsgPack: short payload blob" (3, len))
      else if t == 0xdb || t == 0xc6
      then (if ltb n 5
          then throw "MsgPack: short payload blob32"
          else do len ← get_be32 p 1; read_payload p n "MsgPack: short payload blob" (5, len))
      else (do
        elem ← skip_value depth p n
        if ltb n elem
            then throw "MsgPack: short payload object"
            else (do d ← span p 0 elem; ok (d, elem)))
