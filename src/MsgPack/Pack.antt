-- ===== src/MsgPack/Pack.antt =====
-- The packers of MsgPack.h. Each returns the bytes that the C++ function appends to `out`. A double
-- is its IEEE pattern of 64 bits, and a text is the list of its bytes.
use rns.Prelude.{
  ℕ, ◌-◌, ◌/◌, ◌%◌, ◌^◌, List, [], ◌∷◌, ◌++◌, Bool, leb, ltb, length, if◌then◌else◌, bit_or, Result,
  ok, throw,
}
use rns.Prelude.Int.{ℤ, pos, negsuc}

unfoldable pub put_be16 : ℕ → List ℕ
put_be16 v = v / 2 ^ 8 % 256 ∷ v % 256 ∷ []

unfoldable pub put_be32 : ℕ → List ℕ
put_be32 v = v / 2 ^ 24 % 256 ∷ v / 2 ^ 16 % 256 ∷ v / 2 ^ 8 % 256 ∷ v % 256 ∷ []

-- The loop `for (i = 7; i >= 0; --i)` over the bytes of a 64-bit word.
unfoldable pub put_be64 : ℕ → List ℕ
put_be64 v =
    v / 2 ^ 56 % 256
    ∷ v / 2 ^ 48 % 256
    ∷ v / 2 ^ 40 % 256
    ∷ v / 2 ^ 32 % 256
    ∷ v / 2 ^ 24 % 256
    ∷ v / 2 ^ 16 % 256
    ∷ v / 2 ^ 8 % 256
    ∷ v % 256
    ∷ []

unfoldable pub pack_double : ℕ → List ℕ
unfolding put_be64
pack_double bits = 0xcb ∷ put_be64 bits

-- The tag and the length of a blob.
unfoldable pub bin_prefix : ℕ → List ℕ
bin_prefix n =
    if leb n 0xff
    then 0xc4 ∷ n ∷ []
    else if leb n 0xffff
    then 0xc5 ∷ put_be16 n
    else 0xc6 ∷ put_be32 n

unfoldable pub pack_bin : List ℕ → List ℕ
pack_bin d = bin_prefix (length d) ++ d

unfoldable pub pack_array_header : ℕ → List ℕ
pack_array_header n =
    if leb n 15
    then bit_or 0x90 n ∷ []
    else if leb n 0xffff
    then 0xdc ∷ put_be16 n
    else 0xdd ∷ put_be32 n

unfoldable pub pack_map_header : ℕ → List ℕ
pack_map_header n =
    if leb n 15
    then bit_or 0x80 n ∷ []
    else if leb n 0xffff
    then 0xde ∷ put_be16 n
    else 0xdf ∷ put_be32 n

unfoldable pub pack_nil : List ℕ
pack_nil = 0xc0 ∷ []

unfoldable pub pack_bool : Bool → List ℕ
pack_bool v = (if v then 0xc3 else 0xc2) ∷ []

unfoldable pub pack_uint : ℕ → List ℕ
pack_uint v =
    if leb v 0x7f
    then v ∷ []
    else if leb v 0xff
    then 0xcc ∷ v ∷ []
    else if leb v 0xffff
    then 0xcd ∷ put_be16 v
    else if leb v 0xffff_ffff
    then 0xce ∷ put_be32 v
    else 0xcf ∷ put_be64 v

-- The negative number -(m + 1) is the word `2 ^ w - 1 - m` in two's complement.
unfoldable pub pack_negative : ℕ → List ℕ
pack_negative m =
    if ltb m 32
    then bit_or 0xe0 (31 - m) ∷ []
    else if ltb m 128
    then 0xd0 ∷ (255 - m) ∷ []
    else if ltb m 32768
    then 0xd1 ∷ put_be16 (0xffff - m)
    else if ltb m 2_147_483_648
    then 0xd2 ∷ put_be32 (0xffff_ffff - m)
    else 0xd3 ∷ put_be64 (0xffff_ffff_ffff_ffff - m)

unfoldable pub pack_int : ℤ → List ℕ
pack_int (pos v) = pack_uint v
pack_int (negsuc m) = pack_negative m

unfoldable pub pack_fixstr : List ℕ → Result (List ℕ)
pack_fixstr s =
    if ltb 31 (length s)
    then throw "MsgPack: pack_fixstr len > 31"
    else ok (bit_or 0xa0 (length s) ∷ s)

-- The tag and the length of a text.
unfoldable pub str_prefix : ℕ → List ℕ
str_prefix n =
    if leb n 31
    then bit_or 0xa0 n ∷ []
    else if leb n 0xff
    then 0xd9 ∷ n ∷ []
    else if leb n 0xffff
    then 0xda ∷ put_be16 n
    else 0xdb ∷ put_be32 n

unfoldable pub pack_str : List ℕ → List ℕ
pack_str s = str_prefix (length s) ++ s

-- One argument of `serialize` or `to_array`, with a constructor for each overload of `pack_one`.
pub data Arg : Type 0 where
  double_arg : ℕ → Arg
  bin_arg : List ℕ → Arg
  bytes_arg : List ℕ → Arg
  nil_arg : Arg
  bool_arg : Bool → Arg
  str_arg : List ℕ → Arg
  signed_arg : ℤ → Arg
  unsigned_arg : ℕ → Arg

unfoldable pub pack_one : Arg → List ℕ
pack_one (double_arg v) = pack_double v
pack_one (bin_arg b) = pack_bin b
pack_one (bytes_arg b) = pack_bin b
pack_one nil_arg = pack_nil
pack_one (bool_arg v) = pack_bool v
pack_one (str_arg s) = pack_str s
pack_one (signed_arg v) = pack_int v
pack_one (unsigned_arg v) = pack_uint v

unfoldable pub serialize : List ℕ → List Arg → List ℕ
serialize buf [] = buf
serialize buf (a ∷ as') = serialize (buf ++ pack_one a) as'

unfoldable pub to_array : List ℕ → List Arg → List ℕ
unfolding serialize
to_array buf args = serialize (buf ++ pack_array_header (length args)) args
