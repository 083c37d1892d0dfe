-- ===== src/Resource/Advert/Reading.antt =====
-- An advertisement is read back, whatever members a newer peer puts among them.
use rns.Prelude.{
  ℕ, zero, suc, ◌+◌, ◌-◌, ◌≤◌, ◌<◌, ◌^◌, ◌≡◌, ◌∙◌, refl, ap, List, [], ◌∷◌, ◌++◌, true, false,
  arith, leb, ◌==◌, ok, byte, length, drop, length-append, append_assoc, drop-advance, add_size,
  sub_size, Bool-cases, inl, inr,
}
use rns.MsgPack.Pack.{pack_uint, pack_bin, pack_nil, pack_str, bin_prefix}
use rns.MsgPack.Unpack.{unpack_uint, unpack_bin, unpack_str}
use rns.MsgPack.Envelope.{Unpacker}
use rns.MsgPack.RoundTrip.Blobs.{unpack_bin-pack_bin, unpack_str-pack_str, length-bin_prefix_le}
use rns.MsgPack.RoundTrip.Scalars.{unpack_uint-pack_uint}
use rns.MsgPack.RoundTrip.Whole.{pack_bin_small, pack_str_small}
use rns.MsgPack.RoundTrip.Envelopes.{consume-ok}
use rns.MsgPack.RoundTrip.Exact.{skip_value-encode}
use rns.MsgPack.RoundTrip.Values.{Value, depth, encode}
use rns.Resource.Advert.{
  Advert, is_uint_key, is_bin_key, set_uint, set_bin, skip_member, read_bin_or_nil, read_keyed,
  read_member, read_members,
}

-- A member of the map: a number or bytes under a known key, a request id or none, or anything under
-- a key of another length.
pub data Member : Type 0 where
  uint_member : ℕ → ℕ → Member
  bin_member : ℕ → List ℕ → Member
  id_member : List ℕ → Member
  no_id_member : Member
  other_member : List ℕ → Value → Member

abbrev pub key_of : Member → List ℕ
key_of (uint_member k v) = k ∷ []
key_of (bin_member k b) = k ∷ []
key_of (id_member b) = b'q' ∷ []
key_of no_id_member = b'q' ∷ []
key_of (other_member key v) = key

abbrev pub value_of : Member → List ℕ
value_of (uint_member k v) = pack_uint v
value_of (bin_member k b) = pack_bin b
value_of (id_member b) = pack_bin b
value_of no_id_member = pack_nil
value_of (other_member key v) = encode v

abbrev pub encode_members : List Member → List ℕ
encode_members [] = []
encode_members (x ∷ xs) = pack_str (key_of x) ++ (value_of x ++ encode_members xs)

-- What reading a member does to the advertisement.
abbrev pub set_member : Member → Advert → Advert
set_member (uint_member k v) adv = set_uint k v adv
set_member (bin_member k b) adv = set_bin k b adv
set_member (id_member b) adv = record adv { q = b }
set_member no_id_member adv = record adv { q = [] }
set_member (other_member key v) adv = adv

abbrev pub set_members : List Member → Advert → Advert
set_members [] adv = adv
set_members (x ∷ xs) adv = set_members xs (set_member x adv)

-- A member that a reader with recursion depth `f` above its own understands.
abbrev pub IsMember : ℕ → Member → Type 0
IsMember f (uint_member k v) = (is_uint_key k ≡ true) × (v < 2 ^ 64)
IsMember f (bin_member k b) = (is_uint_key k ≡ false) × (is_bin_key k ≡ true)
IsMember f (id_member b) = Unit
IsMember f no_id_member = Unit
IsMember f (other_member key v) = (2 ≤ length key) × (depth v ≤ f)

abbrev pub AreMembers : ℕ → List Member → Type 0
AreMembers f [] = Unit
AreMembers f (x ∷ xs) = IsMember f x × AreMembers f xs

-- A byte at the cursor.
byte-drop :
    (off : ℕ) (raw : List ℕ) (b : ℕ) (rest : List ℕ)
    → drop off raw ≡ rest
    → byte rest 0 ≡ ok b
    → byte raw off ≡ ok b
byte-drop zero raw b rest at first = rw at first
byte-drop (suc off) [] b rest at first = ground (arith, at, first)
byte-drop (suc off) (x ∷ raw) b rest at first = byte-drop off raw b rest at first

length-pack_bin_pos : (b : List ℕ) → 1 ≤ length (pack_bin b)
unfolding pack_bin
length-pack_bin_pos b =
    let front = length-bin_prefix_le (length b) in
    omega (arith, length-append (bin_prefix (length b)) b)

-- Bytes are not told by the tag of nil.
tag_of_bin :
    (b tail : List ℕ) → (tag : ℕ) × (byte (pack_bin b ++ tail) 0 ≡ ok tag) × ((tag == 0xc0) ≡ false)
unfolding pack_bin bin_prefix
tag_of_bin b tail = elim (Bool-cases (leb (length b) 0xff)) [
  | inl e ↦ (0xc4, rw e refl, refl)
  | inr e ↦ elim (Bool-cases (leb (length b) 0xffff)) [
    | inl g ↦ (0xc5, rw (e, g) refl, refl)
    | inr g ↦ (0xc6, rw (e, g) refl, refl)
  ]
]

-- The cursor at a member's value, of which the bytes `tail` follow.
module _ (f : ℕ) (raw : List ℕ) (small : length raw < 2 ^ 32) where
  abbrev cursor : ℕ → Unpacker
  cursor off = record { raw = raw; off = off }

  skip_member-ok :
      (off : ℕ) (v : Value) (tail : List ℕ) (adv : Advert)
      → drop off raw ≡ encode v ++ tail
      → off + length (encode v) ≤ length raw
      → depth v ≤ f
      → skip_member (suc f) adv (cursor off) ≡ ok (adv, cursor (off + length (encode v)))
  unfolding skip_member
  skip_member-ok off v tail adv at fits deep =
      let left : sub_size (length raw) off ≡ length raw - off = omega arith in
      let moved : add_size off (length (encode v)) ≡ off + length (encode v) = omega arith in
      rw
        (
          at,
          left,
          skip_value-encode v f (length raw - off) tail deep (omega arith) (omega arith),
          moved,
        )
        refl

  read_bin_or_nil-bin :
      (off : ℕ) (b tail : List ℕ) (adv : Advert)
      → drop off raw ≡ pack_bin b ++ tail
      → off + length (pack_bin b) ≤ length raw
      → read_bin_or_nil adv (cursor off)
        ≡ ok (record adv { q = b }, cursor (off + length (pack_bin b)))
  unfolding read_bin_or_nil
  read_bin_or_nil-bin off b tail adv at fits =
      let some_bytes = length-pack_bin_pos b in
      let below : leb (length raw) off ≡ false = ground (arith, some_bytes, fits) in
      let read = consume-ok unpack_bin (cursor off) (pack_bin b) tail b at small fits (
        unpack_bin-pack_bin b tail (length raw - off)
          (pack_bin_small b (length raw - off) (omega arith) (omega arith)) (omega arith)) in
      let (tag, here, other) = tag_of_bin b tail in
      let first : byte raw off ≡ ok tag = byte-drop off raw tag (pack_bin b ++ tail) at here in
      rw (below, first, other, read) refl

  read_bin_or_nil-nil :
      (off : ℕ) (tail : List ℕ) (adv : Advert)
      → drop off raw ≡ pack_nil ++ tail
      → off + length pack_nil ≤ length raw
      → read_bin_or_nil adv (cursor off)
        ≡ ok (record adv { q = [] }, cursor (off + length pack_nil))
  unfolding read_bin_or_nil pack_nil
  read_bin_or_nil-nil off tail adv at fits =
      let below : leb (length raw) off ≡ false = ground (arith, fits) in
      let first : byte raw off ≡ ok 0xc0 = byte-drop off raw 0xc0 (0xc0 ∷ tail) at refl in
      let moved : add_size off 1 ≡ off + 1 = omega arith in rw (below, first, moved) refl

  -- Each member is read as it was written.
  read_member-ok :
      (x : Member) (off : ℕ) (tail : List ℕ) (adv : Advert)
      → IsMember f x
      → drop off raw ≡ value_of x ++ tail
      → off + length (value_of x) ≤ length raw
      → read_member (suc f) (key_of x) adv (cursor off)
        ≡ ok (set_member x adv, cursor (off + length (value_of x)))
  unfolding read_member read_keyed
  read_member-ok (uint_member k v) off tail adv (known, word) at fits =
      let read =
        consume-ok unpack_uint (cursor off) (pack_uint v) tail v at small fits
          (unpack_uint-pack_uint v (length raw - off) tail word (omega arith)) in
      rw (known, read) refl
  read_member-ok (bin_member k b) off tail adv (other, known) at fits =
      let read = consume-ok unpack_bin (cursor off) (pack_bin b) tail b at small fits (
        unpack_bin-pack_bin b tail (length raw - off)
          (pack_bin_small b (length raw - off) (omega arith) (omega arith)) (omega arith)) in
      rw (other, known, read) refl
  read_member-ok (id_member b) off tail adv fine at fits =
      read_bin_or_nil-bin off b tail adv at fits
  read_member-ok no_id_member off tail adv fine at fits = read_bin_or_nil-nil off tail adv at fits
  read_member-ok (other_member [] v) off tail adv (long, deep) at fits = ground arith
  read_member-ok (other_member (k ∷ []) v) off tail adv (long, deep) at fits = ground arith
  read_member-ok (other_member (k ∷ j ∷ key) v) off tail adv (long, deep) at fits =
      skip_member-ok off v tail adv at fits deep

  -- All of them, in whatever order they stand.
  pub read_members-ok :
      (xs : List Member) (off : ℕ) (tail : List ℕ) (adv : Advert)
      → AreMembers f xs
      → drop off raw ≡ encode_members xs ++ tail
      → off + length (encode_members xs) ≤ length raw
      → read_members (suc f) (length xs) adv (cursor off) ≡ ok (set_members xs adv)
  unfolding read_members
  read_members-ok [] off tail adv fine at fits = refl
  read_members-ok (x ∷ xs) off tail adv (fine, fine') at fits =
      let key : List ℕ = pack_str (key_of x) in
      let value : List ℕ = value_of x in
      let more : List ℕ = encode_members xs in
      let size = length-append key (value ++ more) in
      let size' = length-append value more in
      let at_key : drop off raw ≡ key ++ (value ++ (more ++ tail)) =
        at ∙ append_assoc key (value ++ more) tail ∙ ap (key ++◌) (append_assoc value more tail) in
      let named =
        consume-ok unpack_str (cursor off) key (value ++ (more ++ tail)) (key_of x) at_key small
          (omega arith)
          (unpack_str-pack_str (key_of x) (value ++ (more ++ tail)) (length raw - off)
            (pack_str_small (key_of x) (length raw - off) (omega arith) (omega arith))
            (omega arith)) in
      let at_value : drop (off + length key) raw ≡ value ++ (more ++ tail) =
        drop-advance off raw key (value ++ (more ++ tail)) at_key in
      let one =
        read_member-ok x (off + length key) (more ++ tail) adv fine at_value (omega arith) in
      let at_more : drop (off + length key + length value) raw ≡ more ++ tail =
        drop-advance (off + length key) raw value (more ++ tail) at_value in
      rw (named, one)
        (read_members-ok xs (off + length key + length value) tail (set_member x adv) fine' at_more
          (omega arith))
