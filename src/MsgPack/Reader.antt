-- ===== src/MsgPack/Reader.antt =====
-- The classes `MapReader` and `ArrayReader` of MsgPack.h.
use rns.Prelude.{
  ℕ, ◌+◌, ◌-◌, List, [], Bool, true, false, ltb, leb, ◌==◌, drop, if◌then◌else◌, Result, ok, ◌>>=◌,
  add_size, sub_size, byte,
}
use rns.MsgPack.Unpack.{unpack_str, unpack_map_header, unpack_array_header}
use rns.MsgPack.Skip.{skip_pairs, skip_value}

pub record MapReader : Type 0 where
  pub bytes : List ℕ
  pub size : ℕ
  pub off : ℕ
  pub count : ℕ
  pub seen : ℕ
  pub pending : Bool
  pub key : List ℕ

-- The constructor reads the header.
unfoldable pub open_map : List ℕ → ℕ → Result MapReader
open_map p n = do
  (count, off) ← unpack_map_header p n
  ok (record { bytes = p; size = n; off = off; count = count; seen = 0; pending = false; key = [] })

unfoldable pub next_key : MapReader → Result (Bool × MapReader)
next_key m = if leb m.count m.seen then ok (false, m) else (do
  (key, k) ← unpack_str (drop m.off m.bytes) (sub_size m.size m.off)
  ok (true, record m { off = add_size m.off k; seen = m.seen + 1; pending = true; key = key }))

-- Every `value_…` method is one of the unpackers at the cursor.
unfoldable pub value {ℓ} :
    {A : Type ℓ} → (List ℕ → ℕ → Result (A × ℕ)) → MapReader → Result (A × MapReader)
value read m = do
  (v, k) ← read (drop m.off m.bytes) (sub_size m.size m.off)
  ok (v, record m { off = add_size m.off k; pending = false })

unfoldable pub skip_map_value : ℕ → MapReader → Result MapReader
skip_map_value depth m = do
  k ← skip_value depth (drop m.off m.bytes) (sub_size m.size m.off)
  ok (record m { off = add_size m.off k; pending = false })

unfoldable pub value_is_nil : MapReader → Result Bool
value_is_nil m = if ltb m.off m.size then (do b ← byte m.bytes m.off; ok (b == 0xc0)) else ok false

unfoldable pub finish : ℕ → MapReader → Result MapReader
unfolding skip_map_value
finish depth m = do
  m' ← if m.pending then skip_map_value depth m else ok m
  off ← skip_pairs (skip_value depth) (m'.count - m'.seen) m'.bytes m'.size m'.off
  ok (record m' { off = off; seen = if ltb m'.seen m'.count then m'.count else m'.seen })

pub record ArrayReader : Type 0 where
  pub bytes : List ℕ
  pub size : ℕ
  pub off : ℕ
  pub count : ℕ
  pub seen : ℕ

unfoldable pub open_array_reader : List ℕ → ℕ → Result ArrayReader
open_array_reader p n = do
  (count, off) ← unpack_array_header p n
  ok (record { bytes = p; size = n; off = off; count = count; seen = 0 })

unfoldable pub next_item : ArrayReader → Bool × ArrayReader
next_item a = if leb a.count a.seen then (false, a) else (true, record a { seen = a.seen + 1 })

unfoldable pub skip_item : ℕ → ArrayReader → Result ArrayReader
skip_item depth a = do
  k ← skip_value depth (drop a.off a.bytes) (sub_size a.size a.off)
  ok (record a { off = add_size a.off k })

unfoldable pub advance : ℕ → ArrayReader → ArrayReader
advance k a = record a { off = add_size a.off k }
