-- ===== src/Resource/Advert/RoundTrip.antt =====
-- An advertisement is packed and read back.
use rns.Prelude.{
  ℕ, suc, ◌<◌, ◌^◌, ◌%◌, ◌≡◌, ◌∙◌, refl, sym, ap, List, [], ◌∷◌, ◌++◌, false, arith, ◌==◌, ok,
  length, length-append, append-nil, drop-append_self,
}
use rns.MsgPack.Pack.{pack_map_header, pack_fixstr, pack_bin, pack_str, str_prefix}
use rns.MsgPack.Unpack.{unpack_map_header}
use rns.MsgPack.RoundTrip.Blobs.{unpack_map_header-pack_map_header}
use rns.MsgPack.RoundTrip.Envelopes.{consume_start}
use rns.Resource.Advert.{
  Advert, blank_advert, put_uint, put_bin, put_bin_or_nil, pack, from_byte, set_uint, set_bin,
  unpack,
}
use rns.Resource.Advert.Reading.{
  Member, uint_member, bin_member, id_member, no_id_member, key_of, value_of, set_member, IsMember,
  encode_members, set_members, AreMembers, read_members-ok,
}

abbrev pub id_of : List ℕ → Member
id_of [] = no_id_member
id_of (x ∷ q) = id_member (x ∷ q)

-- The members in the order of `pack`.
abbrev pub members : Advert → List Member
members adv =
    uint_member b't' adv.t
    ∷ uint_member b'd' adv.d
    ∷ uint_member b'n' adv.n
    ∷ bin_member b'h' adv.h
    ∷ bin_member b'r' adv.r
    ∷ bin_member b'o' adv.o
    ∷ uint_member b'i' adv.i
    ∷ uint_member b'l' adv.l
    ∷ id_of adv.q
    ∷ uint_member b'f' adv.f
    ∷ bin_member b'm' adv.m
    ∷ []

key_of-id_of : (q : List ℕ) → key_of (id_of q) ≡ b'q' ∷ []
key_of-id_of [] = refl
key_of-id_of (x ∷ q) = refl

set_member-id_of : (q : List ℕ) (adv : Advert) → set_member (id_of q) adv ≡ record adv { q = q }
set_member-id_of [] adv = refl
set_member-id_of (x ∷ q) adv = refl

put_bin_or_nil-id_of : (q : List ℕ) → put_bin_or_nil b'q' q ≡ ok (0xa1 ∷ b'q' ∷ value_of (id_of q))
unfolding put_bin_or_nil pack_fixstr
put_bin_or_nil-id_of [] = refl
put_bin_or_nil-id_of (x ∷ q) =
    let some_id : (length (x ∷ q) == 0) ≡ false = ground arith in rw some_id refl

IsMember-id_of : (q : List ℕ) (depth : ℕ) → IsMember depth (id_of q)
IsMember-id_of [] depth = tt
IsMember-id_of (x ∷ q) depth = tt

pack-members : (adv : Advert) → pack adv ≡ ok (pack_map_header 11 ++ encode_members (members adv))
unfolding pack put_uint put_bin pack_fixstr pack_str str_prefix
pack-members adv =
    rw (put_bin_or_nil-id_of adv.q, key_of-id_of adv.q, append-nil (pack_bin adv.m)) refl

-- The fields that fit their types.
abbrev pub IsAdvert : Advert → Type 0
IsAdvert adv =
    (adv.t < 2 ^ 32)
    × (adv.d < 2 ^ 32)
    × (adv.n < 2 ^ 32)
    × (adv.i < 2 ^ 32)
    × (adv.l < 2 ^ 32)
    × (adv.f < 2 ^ 8)
    × (adv.flags ≡ from_byte adv.f)

set_members-members :
    (adv : Advert)
    → IsAdvert adv
    → record (set_members (members adv) blank_advert) {
      flags = from_byte (set_members (members adv) blank_advert).f;
    }
      ≡ adv
unfolding set_uint set_bin blank_advert
set_members-members adv (t, d, n, i, l, f, fl) =
    let t' : adv.t % 2 ^ 32 ≡ adv.t = omega arith in
    let d' : adv.d % 2 ^ 32 ≡ adv.d = omega arith in
    let n' : adv.n % 2 ^ 32 ≡ adv.n = omega arith in
    let i' : adv.i % 2 ^ 32 ≡ adv.i = omega arith in
    let l' : adv.l % 2 ^ 32 ≡ adv.l = omega arith in
    let f' : adv.f % 2 ^ 8 ≡ adv.f = omega arith in
    rw (set_member-id_of adv.q, t', d', n', i', l', f', fl) refl

members-AreMembers : (adv : Advert) (depth : ℕ) → IsAdvert adv → AreMembers depth (members adv)
members-AreMembers adv depth (t, d, n, i, l, f, fl) = (
  (refl, omega arith),
  (
    (refl, omega arith),
    (
      (refl, omega arith),
      (
        (refl, refl),
        (
          (refl, refl),
          (
            (refl, refl),
            (
              (refl, omega arith),
              (
                (refl, omega arith),
                (IsMember-id_of adv.q depth, ((refl, omega arith), ((refl, refl), tt))),
              ),
            ),
          ),
        ),
      ),
    ),
  ),
)

pub unpack-members :
    (xs : List Member) (depth : ℕ)
    → AreMembers depth xs
    → length (pack_map_header (length xs) ++ encode_members xs) < 2 ^ 32
    → length xs < 2 ^ 32
    → unpack (suc depth) (pack_map_header (length xs) ++ encode_members xs)
      ≡ ok (record (set_members xs blank_advert) {
        flags = from_byte (set_members xs blank_advert).f;
      })
unfolding unpack
unpack-members xs depth fine small few =
    let header : List ℕ = pack_map_header (length xs) in
    let body : List ℕ = encode_members xs in
    let size = length-append header body in
    let opened = consume_start unpack_map_header header body (length xs) small (
      unpack_map_header-pack_map_header (length xs) (length (header ++ body)) body few
        (omega arith)) in
    let read =
      read_members-ok depth (header ++ body) small xs (length header) [] blank_advert fine
        (drop-append_self header body ∙ sym (append-nil body)) (omega arith) in
    rw (opened, read) refl

-- An advertisement whose numbers fit their types, whose flag bits are those of its byte, and
-- whose packet is shorter than 2^32 bytes, is packed without an exception and read back, an
-- absent request id included.
pub unpack-pack :
    (adv : Advert) (depth : ℕ)
    → IsAdvert adv
    → length (pack_map_header 11 ++ encode_members (members adv)) < 2 ^ 32
    → (packed : List ℕ) × (pack adv ≡ ok packed) × (unpack (suc depth) packed ≡ ok adv)
unpack-pack adv depth fine small = (
  pack_map_header 11 ++ encode_members (members adv),
  pack-members adv,
  unpack-members (members adv) depth (members-AreMembers adv depth fine) small (omega arith)
      ∙ ap ok (set_members-members adv fine),
)
