-- ===== src/MsgPack/RoundTrip/Words.antt =====
-- Big-endian words behind a tag byte.
use rns.Prelude.{
  ℕ, ◌+◌, ◌^◌, ◌<◌, ◌≡◌, ap, List, ◌∷◌, ◌++◌, arith, ok, length, take-append_self, drop-append_self,
  true, length-append, leb,
}
use rns.MsgPack.Pack.{put_be16, put_be32, put_be64}
use rns.MsgPack.Unpack.{get_be16, get_be32, get_be64, span}

pub get_be16-put_be16 :
    (t v : ℕ) (rest : List ℕ) → v < 2 ^ 16 → get_be16 (t ∷ (put_be16 v ++ rest)) 1 ≡ ok v
unfolding get_be16 put_be16
get_be16-put_be16 t v rest h = ap ok (omega arith)

pub get_be32-put_be32 :
    (t v : ℕ) (rest : List ℕ) → v < 2 ^ 32 → get_be32 (t ∷ (put_be32 v ++ rest)) 1 ≡ ok v
unfolding get_be32 put_be32
get_be32-put_be32 t v rest h = ap ok (omega arith)

pub get_be64-put_be64 :
    (t v : ℕ) (rest : List ℕ) → v < 2 ^ 64 → get_be64 (t ∷ (put_be64 v ++ rest)) 1 ≡ ok v
unfolding get_be64 put_be64
get_be64-put_be64 t v rest h = ap ok (omega arith)

-- A copy of what stands between a front and a rest.
pub span-append :
    (front d rest : List ℕ) → span (front ++ (d ++ rest)) (length front) (length d) ≡ ok d
unfolding span
span-append front d rest =
    let fits : leb (length front + length d) (length (front ++ (d ++ rest))) ≡ true =
      ground (arith, length-append front (d ++ rest), length-append d rest) in
    rw (fits, drop-append_self front (d ++ rest), take-append_self d rest)
