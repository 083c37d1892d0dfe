-- ===== src/MsgPack/Unpack.antt =====
-- The unpackers of MsgPack.h. A call takes the bytes from its pointer to the end of the allocation,
-- and the length that the caller claims; it returns the value and the number of bytes consumed.
use Prim.Native.String.{String}
use rns.Prelude.{
  ℕ, zero, suc, ◌+◌, ◌-◌, ◌*◌, ◌%◌, ◌^◌, List, [], Bool, true, false, leb, ltb, ◌==◌, length, take,
  drop, if◌then◌else◌, bit_and, Result, ok, throw, fault, ◌>>=◌, byte, add_size,
}
use rns.Prelude.Int.{ℤ, pos, negsuc}

-- A shifted word has no low bits, so `|` with a byte adds.
unfoldable pub get_be16 : List ℕ → ℕ → Result ℕ
get_be16 p i = do a ← byte p i; b ← byte p (i + 1); ok (a * 2 ^ 8 + b)

unfoldable pub get_be32 : List ℕ → ℕ → Result ℕ
get_be32 p i = do
  a ← byte p i
  b ← byte p (i + 1)
  c ← byte p (i + 2)
  d ← byte p (i + 3)
  ok (a * 2 ^ 24 + b * 2 ^ 16 + c * 2 ^ 8 + d)

-- `for (i = 0; i < 8; ++i) r = (r << 8) | p[1 + i]`.
unfoldable pub get_be64_loop : ℕ → List ℕ → ℕ → ℕ → Result ℕ
get_be64_loop zero p i r = ok r
get_be64_loop (suc rounds) p i r = do
  b ← byte p i
  get_be64_loop rounds p (i + 1) (r * 2 ^ 8 % 2 ^ 64 + b)

unfoldable pub get_be64 : List ℕ → ℕ → Result ℕ
unfolding get_be64_loop
get_be64 p i = get_be64_loop 8 p i 0

-- The greatest size of a vector or a string: no buffer is longer, and `assign` throws beyond it.
abbrev pub max_size : ℕ
max_size = 2 ^ 31 - 1

-- The copy of `len` bytes from `p + off`.
unfoldable pub span : List ℕ → ℕ → ℕ → Result (List ℕ)
span p off len =
    if leb (off + len) (length p)
    then ok (take len (drop off p))
    else if ltb max_size len
    then throw "length_error"
    else fault

unfoldable pub unpack_uint : List ℕ → ℕ → Result (ℕ × ℕ)
unpack_uint p n = if ltb n 1 then throw "MsgPack: short uint" else do
  t ← byte p 0
  if bit_and t 0x80 == 0
      then ok (t, 1)
      else if t == 0xcc
      then (if ltb n 2 then throw "MsgPack: short uint8" else do v ← byte p 1; ok (v, 2))
      else if t == 0xcd
      then (if ltb n 3 then throw "MsgPack: short uint16" else do v ← get_be16 p 1; ok (v, 3))
      else if t == 0xce
      then (if ltb n 5 then throw "MsgPack: short uint32" else do v ← get_be32 p 1; ok (v, 5))
      else if t == 0xcf
      then (if ltb n 9 then throw "MsgPack: short uint64" else do v ← get_be64 p 1; ok (v, 9))
      else throw "MsgPack: expected uint"

-- The tail of the readers of blobs: the check of the payload's length, and the copy.
unfoldable pub read_payload : List ℕ → ℕ → String → ℕ × ℕ → Result (List ℕ × ℕ)
read_payload p n short (hdr, len) =
    if ltb n (add_size hdr len)
    then throw short
    else do d ← span p hdr len; ok (d, add_size hdr len)

unfoldable pub str_header : List ℕ → ℕ → ℕ → Result (ℕ × ℕ)
str_header p n t =
    if bit_and t 0xe0 == 0xa0
    then ok (1, bit_and t 0x1f)
    else if t == 0xd9
    then (if ltb n 2 then throw "MsgPack: short str8" else do len ← byte p 1; ok (2, len))
    else if t == 0xda
    then (if ltb n 3 then throw "MsgPack: short str16" else do len ← get_be16 p 1; ok (3, len))
    else if t == 0xdb
    then (if ltb n 5 then throw "MsgPack: short str32" else do len ← get_be32 p 1; ok (5, len))
    else throw "MsgPack: expected str"

unfoldable pub unpack_str : List ℕ → ℕ → Result (List ℕ × ℕ)
unfolding str_header
unpack_str p n =
    if ltb n 1
    then throw "MsgPack: short str"
    else do t ← byte p 0; h ← str_header p n t; read_payload p n "MsgPack: short str payload" h

unfoldable pub unpack_map_header : List ℕ → ℕ → Result (ℕ × ℕ)
unpack_map_header p n = if ltb n 1 then throw "MsgPack: short map header" else do
  t ← byte p 0
  if bit_and t 0xf0 == 0x80
      then ok (bit_and t 0x0f, 1)
      else if t == 0xde
      then (if ltb n 3 then throw "MsgPack: short map16" else do c ← get_be16 p 1; ok (c, 3))
      else if t == 0xdf
      then (if ltb n 5 then throw "MsgPack: short map32" else do c ← get_be32 p 1; ok (c, 5))
      else throw "MsgPack: expected map"

unfoldable pub unpack_array_header : List ℕ → ℕ → Result (ℕ × ℕ)
unpack_array_header p n = if ltb n 1 then throw "MsgPack: short array header" else do
  t ← byte p 0
  if bit_and t 0xf0 == 0x90
      then ok (bit_and t 0x0f, 1)
      else if t == 0xdc
      then (if ltb n 3 then throw "MsgPack: short array16" else do c ← get_be16 p 1; ok (c, 3))
      else if t == 0xdd
      then (if ltb n 5 then throw "MsgPack: short array32" else do c ← get_be32 p 1; ok (c, 5))
      else throw "MsgPack: expected array"

unfoldable pub unpack_double : List ℕ → ℕ → Result (ℕ × ℕ)
unpack_double p n = if ltb n 9 then throw "MsgPack: expected float64" else do
  t ← byte p 0
  if t == 0xcb then (do bits ← get_be64 p 1; ok (bits, 9)) else throw "MsgPack: expected float64"

unfoldable pub bin_header : List ℕ → ℕ → ℕ → Result (ℕ × ℕ)
bin_header p n t =
    if t == 0xc4
    then (if ltb n 2 then throw "MsgPack: short bin8" else do len ← byte p 1; ok (2, len))
    else if t == 0xc5
    then (if ltb n 3 then throw "MsgPack: short bin16" else do len ← get_be16 p 1; ok (3, len))
    else if t == 0xc6
    then (if ltb n 5 then throw "MsgPack: short bin32" else do len ← get_be32 p 1; ok (5, len))
    else throw "MsgPack: expected bin"

unfoldable pub unpack_bin : List ℕ → ℕ → Result (List ℕ × ℕ)
unfolding bin_header
unpack_bin p n =
    if ltb n 1
    then throw "MsgPack: short bin header"
    else do t ← byte p 0; h ← bin_header p n t; read_payload p n "MsgPack: short bin payload" h

-- `unpack_one` for a bin slot: nil stands for no data.
unfoldable pub unpack_one_bin : List ℕ → ℕ → Result (List ℕ × ℕ)
unpack_one_bin p n =
    if leb 1 n
    then (do t ← byte p 0; if t == 0xc0 then ok ([], 1) else unpack_bin p n)
    else unpack_bin p n

unfoldable pub unpack_bool : List ℕ → ℕ → Result (Bool × ℕ)
unpack_bool p n = if ltb n 1 then throw "MsgPack: short bool" else do
  t ← byte p 0
  if t == 0xc2
      then ok (false, 1)
      else if t == 0xc3
      then ok (true, 1)
      else throw "MsgPack: expected bool"

-- The integer that a word of two's complement stands for.
unfoldable pub signed_word : ℕ → ℕ → ℤ
signed_word modulus w = if ltb (w + w) modulus then pos w else negsuc (modulus - 1 - w)

-- `unpack_number`, over the machine's conversions to double.
module _ (of_int : ℤ → ℕ) (of_float32 : ℕ → ℕ) where
  unfoldable pub unpack_number : List ℕ → ℕ → Result (ℕ × ℕ)
  unpack_number p n = if ltb n 1 then throw "MsgPack: short number" else do
    t ← byte p 0
    if t == 0xcb
        then unpack_double p n
        else if t == 0xca
        then (if ltb n 5
            then throw "MsgPack: short float32"
            else do bits ← get_be32 p 1; ok (of_float32 bits, 5))
        else if bit_and t 0xe0 == 0xe0
        then ok (of_int (signed_word (2 ^ 8) t), 1)
        else if t == 0xd0
        then (if ltb n 2
            then throw "MsgPack: short int8"
            else do w ← byte p 1; ok (of_int (signed_word (2 ^ 8) w), 2))
        else if t == 0xd1
        then (if ltb n 3
            then throw "MsgPack: short int16"
            else do w ← get_be16 p 1; ok (of_int (signed_word (2 ^ 16) w), 3))
        else if t == 0xd2
        then (if ltb n 5
            then throw "MsgPack: short int32"
            else do w ← get_be32 p 1; ok (of_int (signed_word (2 ^ 32) w), 5))
        else if t == 0xd3
        then (if ltb n 9
            then throw "MsgPack: short int64"
            else do w ← get_be64 p 1; ok (of_int (signed_word (2 ^ 64) w), 9))
        else do (u, k) ← unpack_uint p n; ok (of_int (pos u), k)
