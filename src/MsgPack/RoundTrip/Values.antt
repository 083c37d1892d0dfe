-- ===== src/MsgPack/RoundTrip/Values.antt =====
-- The values that the packers of MsgPack.h write, as trees, and their encoding by those packers.
use rns.Prelude.{ℕ, suc, List, [], ◌++◌, Bool, max}
use rns.Prelude.Int.{ℤ}
use rns.MsgPack.Pack.{
  pack_nil, pack_bool, pack_int, pack_double, pack_str, pack_bin, pack_array_header,
  pack_map_header,
}

mutual
  pub data Value : Type 0 where
    null : Value
    flag : Bool → Value
    int : ℤ → Value
    double : ℕ → Value
    str : List ℕ → Value
    bin : List ℕ → Value
    arr : Items → Value
    obj : Pairs → Value

  pub data Items : Type 0 where
    nil : Items
    cons : Value → Items → Items

  pub data Pairs : Type 0 where
    end : Pairs
    pair : Value → Value → Pairs → Pairs

unfoldable mutual
  pub count_items : Items → ℕ
  count_items nil = 0
  count_items (cons x xs) = suc (count_items xs)

unfoldable mutual
  pub count_pairs : Pairs → ℕ
  count_pairs end = 0
  count_pairs (pair k v ps) = suc (count_pairs ps)

-- How deep the containers nest.
unfoldable mutual
  pub depth : Value → ℕ
  depth null = 0
  depth (flag b) = 0
  depth (int i) = 0
  depth (double d) = 0
  depth (str s) = 0
  depth (bin d) = 0
  depth (arr xs) = suc (depth_items xs)
  depth (obj ps) = suc (depth_pairs ps)

  pub depth_items : Items → ℕ
  depth_items nil = 0
  depth_items (cons x xs) = max (depth x) (depth_items xs)

  pub depth_pairs : Pairs → ℕ
  depth_pairs end = 0
  depth_pairs (pair k v ps) = max (depth k) (max (depth v) (depth_pairs ps))

unfoldable mutual
  pub encode : Value → List ℕ
  encode null = pack_nil
  encode (flag b) = pack_bool b
  encode (int i) = pack_int i
  encode (double d) = pack_double d
  encode (str s) = pack_str s
  encode (bin d) = pack_bin d
  encode (arr xs) = pack_array_header (count_items xs) ++ encode_items xs
  encode (obj ps) = pack_map_header (count_pairs ps) ++ encode_pairs ps

  pub encode_items : Items → List ℕ
  encode_items nil = []
  encode_items (cons x xs) = encode x ++ encode_items xs

  pub encode_pairs : Pairs → List ℕ
  encode_pairs end = []
  encode_pairs (pair k v ps) = encode k ++ (encode v ++ encode_pairs ps)
