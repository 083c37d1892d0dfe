-- ===== src/MsgPack/Overflow.antt =====
-- What hostile lengths do on a 32-bit `size_t`: the sum of header and length wraps.
use rns.Prelude.{
  ℕ, zero, suc, ◌-◌, ◌≤◌, ◌<◌, ◌^◌, ◌≡◌, ◌∙◌, refl, List, ◌∷◌, ◌++◌, arith, ok, stuck, length,
  drop-append_self, add_size, sub_size,
}
use rns.MsgPack.Pack.{put_be32, pack_array_header}
use rns.MsgPack.Skip.{skip_items, skip_tagged, skip_value}
use rns.MsgPack.RoundTrip.Words.{get_be32-put_be32}
use rns.MsgPack.RoundTrip.Scalars.{length-put_be16, length-put_be32}
use rns.MsgPack.RoundTrip.Skip.{skip-array_header}

-- An array of two or more members whose first claims `2 ^ 32 - 5 - header` bytes of text.
abbrev pub endless : ℕ → List ℕ → List ℕ
endless count tail =
    pack_array_header count
    ++ (0xdb ∷ (put_be32 (2 ^ 32 - 5 - length (pack_array_header count)) ++ tail))

pack_array_header_bounds :
    (c : ℕ) → (1 ≤ length (pack_array_header c)) × (length (pack_array_header c) ≤ 5)
unfolding pack_array_header
pack_array_header_bounds c = ground (arith, length-put_be16 c, length-put_be32 c)

-- A text of `len` bytes is stepped over without a look at the buffer's end.
skip-str32 :
    (d n len : ℕ) (tail : List ℕ)
    → len < 2 ^ 32
    → 5 ≤ n
    → skip_value (suc d) (0xdb ∷ (put_be32 len ++ tail)) n ≡ ok (add_size 5 len)
unfolding skip_value skip_tagged
skip-str32 d n len tail h fits = ground (arith, get_be32-put_be32 0xdb len tail)

skip_value-zero : (p : List ℕ) (n : ℕ) → skip_value zero p n ≡ stuck
unfolding skip_value
skip_value-zero p n = refl

-- On a 32-bit size_t, skip_value exceeds every recursion depth on an array of two or more members
-- whose first member claims a string of 2^32 - 5 bytes less the header of the array, for every
-- claimed length from 10 bytes on.
pub skip_value-endless :
    (depth c n : ℕ) (tail : List ℕ)
    → suc (suc c) < 2 ^ 32
    → 10 ≤ n
    → n < 2 ^ 32
    → skip_value depth (endless (suc (suc c)) tail) n ≡ stuck
unfolding skip_items
skip_value-endless zero c n tail hc lo hi = skip_value-zero (endless (suc (suc c)) tail) n
skip_value-endless (suc zero) c n tail hc lo hi =
    let header = pack_array_header (suc (suc c)) in
    let len = 2 ^ 32 - 5 - length header in
    let bounds = pack_array_header_bounds (suc (suc c)) in
    skip-array_header zero n (suc (suc c)) (0xdb ∷ (put_be32 len ++ tail)) hc (omega arith)
    ∙ rw skip_value-zero
skip_value-endless (suc (suc d)) c n tail hc lo hi =
    let count = suc (suc c) in
    let header = pack_array_header count in
    let len = 2 ^ 32 - 5 - length header in
    let text = 0xdb ∷ (put_be32 len ++ tail) in
    let bounds = pack_array_header_bounds count in
    let left = sub_size n (length header) in
    let wide : 5 ≤ left = omega arith in
    let again : sub_size n 0 ≡ n = omega arith in
    let back : add_size (length header) (add_size 5 len) ≡ 0 = omega arith in
    skip-array_header (suc d) n count text hc (omega arith)
    ∙ rw (
      drop-append_self header text,
      skip-str32 d left len tail (omega arith) wide,
      back,
      again,
      skip_value-endless (suc d) c n tail hc lo hi,
    )
