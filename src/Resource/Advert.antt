-- ===== src/Resource/Advert.antt =====
-- ResourceFlags and the class ResourceAdvertisement: the map of eleven members that announces a
-- resource.
pub mod Reading
pub mod RoundTrip
use rns.Prelude.{
  ℕ, zero, suc, ◌%◌, ◌^◌, List, [], ◌∷◌, ◌++◌, Bool, false, not, ◌||◌, leb, ◌==◌, if◌then◌else◌,
  Result, ok, throw, ◌>>=◌, byte, length, drop, bit_and, bit_or, add_size, sub_size,
}
use rns.MsgPack.Pack.{pack_map_header, pack_fixstr, pack_uint, pack_bin, pack_nil}
use rns.MsgPack.Unpack.{unpack_map_header, unpack_uint, unpack_bin, unpack_str}
use rns.MsgPack.Skip.{skip_value}
use rns.MsgPack.Envelope.{Unpacker, feed, consume}
use rns.Resource.State.{ResourceFlags}

abbrev bit : Bool → ℕ → ℕ
bit flag mask = if flag then mask else 0

unfoldable pub to_byte : ResourceFlags → ℕ
to_byte f =
    bit_or
      (bit_or
        (bit_or (bit_or (bit_or (bit f.encrypted 0x01) (bit f.compressed 0x02)) (bit f.split 0x04))
          (bit f.is_request 0x08))
        (bit f.is_response 0x10))
      (bit f.has_metadata 0x20)

unfoldable pub from_byte : ℕ → ResourceFlags
from_byte b = record {
  encrypted = not (bit_and b 0x01 == 0);
  compressed = not (bit_and b 0x02 == 0);
  split = not (bit_and b 0x04 == 0);
  is_request = not (bit_and b 0x08 == 0);
  is_response = not (bit_and b 0x10 == 0);
  has_metadata = not (bit_and b 0x20 == 0);
}

-- The members of ResourceAdvertisement, by its names. The bits e, c, s, u, p and x, which unpack
-- derives from f, are the record `flags`.
pub record Advert : Type 0 where
  pub t : ℕ
  pub d : ℕ
  pub n : ℕ
  pub i : ℕ
  pub l : ℕ
  pub f : ℕ
  pub h : List ℕ
  pub r : List ℕ
  pub o : List ℕ
  pub m : List ℕ
  pub q : List ℕ
  pub flags : ResourceFlags

unfoldable pub blank_advert : Advert
blank_advert = record {
  t = 0;
  d = 0;
  n = 0;
  i = 1;
  l = 1;
  f = 0;
  h = [];
  r = [];
  o = [];
  m = [];
  q = [];
  flags = record {
    encrypted = false;
    compressed = false;
    split = false;
    is_request = false;
    is_response = false;
    has_metadata = false;
  };
}

-- `put_uint`, `put_bin` and `put_bin_or_nil`: a key of one character and its value.
unfoldable pub put_uint : ℕ → ℕ → Result (List ℕ)
put_uint key v = do k ← pack_fixstr (key ∷ []); ok (k ++ pack_uint v)

unfoldable pub put_bin : ℕ → List ℕ → Result (List ℕ)
put_bin key b = do k ← pack_fixstr (key ∷ []); ok (k ++ pack_bin b)

unfoldable pub put_bin_or_nil : ℕ → List ℕ → Result (List ℕ)
put_bin_or_nil key b = do
  k ← pack_fixstr (key ∷ [])
  ok (k ++ (if length b == 0 then pack_nil else pack_bin b))

unfoldable pub pack : Advert → Result (List ℕ)
pack adv = do
  t ← put_uint b't' adv.t
  d ← put_uint b'd' adv.d
  n ← put_uint b'n' adv.n
  h ← put_bin b'h' adv.h
  r ← put_bin b'r' adv.r
  o ← put_bin b'o' adv.o
  i ← put_uint b'i' adv.i
  l ← put_uint b'l' adv.l
  q ← put_bin_or_nil b'q' adv.q
  f ← put_uint b'f' adv.f
  m ← put_bin b'm' adv.m
  ok (pack_map_header 11 ++ (t ++ (d ++ (n ++ (h ++ (r ++ (o ++ (i ++ (l ++ (q ++ (f ++ m)))))))))))

abbrev pub is_uint_key : ℕ → Bool
is_uint_key k =
    (k == b't') || (k == b'd') || (k == b'n') || (k == b'i') || (k == b'l') || (k == b'f')

abbrev pub is_bin_key : ℕ → Bool
is_bin_key k = (k == b'h') || (k == b'r') || (k == b'o') || (k == b'm')

-- The casts to `uint32_t`, and to `uint8_t` for the flags.
unfoldable pub set_uint : ℕ → ℕ → Advert → Advert
set_uint k v adv =
    if k == b't'
    then record adv { t = v % 2 ^ 32 }
    else if k == b'd'
    then record adv { d = v % 2 ^ 32 }
    else if k == b'n'
    then record adv { n = v % 2 ^ 32 }
    else if k == b'i'
    then record adv { i = v % 2 ^ 32 }
    else if k == b'l'
    then record adv { l = v % 2 ^ 32 }
    else record adv { f = v % 2 ^ 8 }

unfoldable pub set_bin : ℕ → List ℕ → Advert → Advert
set_bin k b adv =
    if k == b'h'
    then record adv { h = b }
    else if k == b'r'
    then record adv { r = b }
    else if k == b'o'
    then record adv { o = b }
    else record adv { m = b }

unfoldable pub skip_member : ℕ → Advert → Unpacker → Result (Advert × Unpacker)
skip_member depth adv u = do
  k ← skip_value depth (drop u.off u.raw) (sub_size (length u.raw) u.off)
  ok (adv, record u { off = add_size u.off k })

unfoldable pub read_bin_or_nil : Advert → Unpacker → Result (Advert × Unpacker)
read_bin_or_nil adv u =
    if leb (length u.raw) u.off then throw "ResourceAdvertisement: short value" else (do
      tag ← byte u.raw u.off
      if tag == 0xc0
          then ok (record adv { q = [] }, record u { off = add_size u.off 1 })
          else (do (b, u') ← consume unpack_bin u; ok (record adv { q = b }, u')))

-- The switch on a key of one character.
unfoldable pub read_keyed : ℕ → ℕ → Advert → Unpacker → Result (Advert × Unpacker)
read_keyed depth k adv u =
    if is_uint_key k
    then (do (v, u') ← consume unpack_uint u; ok (set_uint k v adv, u'))
    else if is_bin_key k
    then (do (b, u') ← consume unpack_bin u; ok (set_bin k b adv, u'))
    else if k == b'q'
    then read_bin_or_nil adv u
    else skip_member depth adv u

unfoldable pub read_member : ℕ → List ℕ → Advert → Unpacker → Result (Advert × Unpacker)
read_member depth (k ∷ []) adv u = read_keyed depth k adv u
read_member depth [] adv u = skip_member depth adv u
read_member depth (k ∷ j ∷ key) adv u = skip_member depth adv u

unfoldable pub read_members : ℕ → ℕ → Advert → Unpacker → Result Advert
read_members depth zero adv u = ok adv
read_members depth (suc count) adv u = do
  (key, u₁) ← consume unpack_str u
  (adv', u₂) ← read_member depth key adv u₁
  read_members depth count adv' u₂

-- `depth` bounds the recursion of `skip_value` on unknown members.
unfoldable pub unpack : ℕ → List ℕ → Result Advert
unpack depth bytes = do
  (count, u) ← consume unpack_map_header (feed bytes)
  adv ← read_members depth count blank_advert u
  ok (record adv { flags = from_byte adv.f })
