-- ===== src/Resource/Compression.antt =====
-- bz2 of resource payloads over the vendored bzip2.
use rns.Prelude.{
  ℕ, ◌+◌, ◌/◌, List, [], ◌∷◌, Bool, false, ◌&&◌, Option, none, some, leb, ◌==◌, if◌then◌else◌,
  length,
}
use rns.Resource.State.{Host}

-- `BZh` and a digit from 1 to 9.
unfoldable pub is_bz2 : List ℕ → Bool
is_bz2 (a ∷ b ∷ c ∷ d ∷ rest) =
    (a == b'B') && (b == b'Z') && (c == b'h') && leb b'1' d && leb d b'9'
is_bz2 [] = false
is_bz2 (a ∷ []) = false
is_bz2 (a ∷ b ∷ []) = false
is_bz2 (a ∷ b ∷ c ∷ []) = false

module _ {R : Type 0} (host : Host R) where
  -- `bz_decompress` answers what a stream that ends within the cap decodes to.
  unfoldable pub bz2_stream_decompress : List ℕ → ℕ → Option (List ℕ)
  bz2_stream_decompress input cap = if is_bz2 input then host.bz_decompress cap input else none

  unfoldable pub bz2_decompress : List ℕ → ℕ → Option (List ℕ)
  bz2_decompress input out_size =
      if out_size == 0 then some [] else elim (bz2_stream_decompress input out_size) [
        | none ↦ none
        | some out ↦ if length out == out_size then some out else none
      ]

  unfoldable pub bz2_decompress_bounded : List ℕ → ℕ → Option (List ℕ)
  bz2_decompress_bounded input max_out =
      if length input == 0
      then some []
      else if max_out == 0
      then none
      else bz2_stream_decompress input max_out

  -- `bz_compress` answers what the compressor makes within the cap; only a shorter form is used.
  unfoldable pub bz2_compress : List ℕ → Option (List ℕ)
  bz2_compress input =
      if length input == 0
      then none
      else elim (host.bz_compress (length input + length input / 100 + 600) input) [
        | none ↦ none
        | some out ↦ if leb (length input) (length out) then none else some out
      ]
