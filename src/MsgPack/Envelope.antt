-- ===== src/MsgPack/Envelope.antt =====
-- The class `Unpacker` of MsgPack.h and the envelopes that it opens.
use rns.Prelude.{
  ℕ, ◌-◌, List, ltb, length, drop, if◌then◌else◌, Result, ok, throw, ◌>>=◌, add_size, sub_size,
}
use rns.MsgPack.Unpack.{unpack_double, unpack_one_bin, unpack_array_header}
use rns.MsgPack.Skip.{skip_items, skip_value, unpack_blob_or_object}

pub record Unpacker : Type 0 where
  pub raw : List ℕ
  pub off : ℕ

unfoldable pub feed : List ℕ → Unpacker
feed bytes = record { raw = bytes; off = 0 }

-- A read at the cursor, which moves the cursor behind what it consumed.
unfoldable pub consume {ℓ} :
    {A : Type ℓ} → (List ℕ → ℕ → Result (A × ℕ)) → Unpacker → Result (A × Unpacker)
consume read u = do
  (v, k) ← read (drop u.off u.raw) (sub_size (length u.raw) u.off)
  ok (v, record u { off = add_size u.off k })

unfoldable pub deserialize {ℓ} :
    {A : Type ℓ} → (List ℕ → ℕ → Result (A × ℕ)) → Unpacker → Result (A × Unpacker)
deserialize read u =
    if ltb (length u.raw) u.off then throw "MsgPack: cursor past end" else consume read u

unfoldable pub open_array : ℕ → Unpacker → Result (ℕ × Unpacker)
open_array least u = if ltb (length u.raw) u.off then throw "MsgPack: cursor past end" else (do
  (count, u') ← consume unpack_array_header u
  if ltb count least then throw "MsgPack: array shorter than expected" else ok (count, u'))

unfoldable pub skip_rest : ℕ → ℕ → ℕ → Unpacker → Result Unpacker
skip_rest depth taken count u = do
  off ← skip_items (skip_value depth) (count - taken) u.raw (length u.raw) u.off
  ok (record u { off = off })

-- [float64 requested_at, bin path_hash, payload].
unfoldable pub from_request : ℕ → Unpacker → Result ((ℕ × List ℕ × List ℕ) × Unpacker)
from_request depth u = do
  (count, u₁) ← open_array 3 u
  (requested_at, u₂) ← consume unpack_double u₁
  (path_hash, u₃) ← consume unpack_one_bin u₂
  (payload, u₄) ← consume (unpack_blob_or_object depth) u₃
  u₅ ← skip_rest depth 3 count u₄
  ok ((requested_at, path_hash, payload), u₅)

-- [bin request_id, payload].
unfoldable pub from_response : ℕ → Unpacker → Result ((List ℕ × List ℕ) × Unpacker)
from_response depth u = do
  (count, u₁) ← open_array 2 u
  (request_id, u₂) ← consume unpack_one_bin u₁
  (payload, u₃) ← consume (unpack_blob_or_object depth) u₂
  u₄ ← skip_rest depth 2 count u₃
  ok ((request_id, payload), u₄)
