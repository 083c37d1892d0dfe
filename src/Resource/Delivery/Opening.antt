-- ===== src/Resource/Delivery/Opening.antt =====
-- The packet that a sender advertises, as accept reads it.
use rns.Prelude.{
  ℕ, suc, ◌+◌, ◌*◌, ◌≤◌, ◌<◌, ◌^◌, ◌≡◌, refl, sym, List, [], ◌∷◌, ◌++◌, true, false, arith, ltb,
  length, min, length-append, length-take, ok, some,
}
use rns.MsgPack.Pack.{
  pack_map_header, pack_uint, pack_bin, pack_str, str_prefix, bin_prefix, pack_nil,
}
use rns.MsgPack.RoundTrip.Scalars.{length-pack_uint_le}
use rns.MsgPack.RoundTrip.Blobs.{length-bin_prefix_le}
use rns.Resource.State.{
  Doubles, Host, Resource, ResourceFlags, advertised, resource_adv, hashmap_max_len,
}
use rns.Resource.Pace.{whole}
use rns.Resource.Advert.{Advert, to_byte}
use rns.Resource.Advert.Reading.{Member, uint_member, bin_member, encode_members}
use rns.Resource.Advert.RoundTrip.{IsAdvert, members, id_of, unpack-pack}
use rns.Resource.Receiver.{request_window, accepted, accept}
use rns.Resource.Sender.{advertise, advert_of}
use rns.Resource.Delivery.Start.{from_byte-to_byte}

-- How much a member adds to the packet.
uint_size :
    (k v : ℕ) (xs : List Member)
    → length (encode_members (uint_member k v ∷ xs)) ≤ 11 + length (encode_members xs)
unfolding pack_str str_prefix
uint_size k v xs =
    let word = length-pack_uint_le v in
    omega (arith, length-append (pack_uint v) (encode_members xs))

length-pack_bin_le : (b : List ℕ) → length (pack_bin b) ≤ 5 + length b
unfolding pack_bin
length-pack_bin_le b =
    let front = length-bin_prefix_le (length b) in
    omega (arith, length-append (bin_prefix (length b)) b)

bin_size :
    (k : ℕ) (b : List ℕ) (xs : List Member)
    → length (encode_members (bin_member k b ∷ xs)) ≤ 7 + (length b + length (encode_members xs))
unfolding pack_str str_prefix
bin_size k b xs =
    let value = length-pack_bin_le b in
    omega (arith, length-append (pack_bin b) (encode_members xs))

id_size :
    (q : List ℕ) (xs : List Member)
    → length (encode_members (id_of q ∷ xs)) ≤ 7 + (length q + length (encode_members xs))
unfolding pack_str str_prefix pack_nil
id_size [] xs = omega arith
id_size (x ∷ q) xs =
    let value = length-pack_bin_le (x ∷ q) in
    omega (arith, length-append (pack_bin (x ∷ q)) (encode_members xs))

length-pack_map_header_le : length (pack_map_header 11) ≤ 1
unfolding pack_map_header
length-pack_map_header_le = omega arith

-- An advertisement of short fields is a short packet.
members_size :
    (adv : Advert)
    → length adv.h + (length adv.r + (length adv.o + (length adv.m + length adv.q))) < 2 ^ 31
    → length (pack_map_header 11 ++ encode_members (members adv)) < 2 ^ 32
members_size adv short =
    let size_m = bin_size b'm' adv.m [] in
    let from_m : List Member = bin_member b'm' adv.m ∷ [] in
    let size_f = uint_size b'f' adv.f from_m in
    let from_f : List Member = uint_member b'f' adv.f ∷ from_m in
    let size_q = id_size adv.q from_f in
    let from_q : List Member = id_of adv.q ∷ from_f in
    let size_l = uint_size b'l' adv.l from_q in
    let from_l : List Member = uint_member b'l' adv.l ∷ from_q in
    let size_i = uint_size b'i' adv.i from_l in
    let from_i : List Member = uint_member b'i' adv.i ∷ from_l in
    let size_o = bin_size b'o' adv.o from_i in
    let from_o : List Member = bin_member b'o' adv.o ∷ from_i in
    let size_r = bin_size b'r' adv.r from_o in
    let from_r : List Member = bin_member b'r' adv.r ∷ from_o in
    let size_h = bin_size b'h' adv.h from_r in
    let from_h : List Member = bin_member b'h' adv.h ∷ from_r in
    let size_n = uint_size b'n' adv.n from_h in
    let from_n : List Member = uint_member b'n' adv.n ∷ from_h in
    let size_d = uint_size b'd' adv.d from_n in
    let from_d : List Member = uint_member b'd' adv.d ∷ from_n in
    let size_t = uint_size b't' adv.t from_d in
    let from_t : List Member = uint_member b't' adv.t ∷ from_d in
    let header = length-pack_map_header_le in
    omega (arith, length-append (pack_map_header 11) (encode_members from_t))

to_byte_small : (f : ResourceFlags) → to_byte f < 2 ^ 8
unfolding to_byte
to_byte_small f = ground arith

module _ {R : Type 0} (dbl : Doubles R) (host : Host R) where
  -- The packet that advertise sends is accepted by the peer, whatever the resource: accept reads
  -- exactly the fields that the sender put in, and opens a receiver in transfer from them that
  -- asks for its first window. Sizes and the number of parts are below 2^32, the two hashes have
  -- 32 bytes and the random hash four, and the request id has fewer than 2^30 bytes.
  pub accept-advertise :
      (now now' : R) (rid : List ℕ) (depth : ℕ) (d : Resource R)
      → d.transfer_size < 2 ^ 32
      → d.data_size < 2 ^ 32
      → d.total_parts < 2 ^ 32
      → length d.resource_hash ≡ 32
      → length d.random_hash ≡ 4
      → length d.original_hash ≡ 32
      → length d.request_id < 2 ^ 30
      → (packed : List ℕ) × (e : Resource R) × (advertise dbl host now d ≡ ok e)
        × (e.sent ≡ d.sent ++ (resource_adv packed ∷ []))
        × (accept dbl host (suc depth) now' true packed rid
            ≡ ok (
                some (request_window dbl now' (accepted dbl host now' (advert_of dbl host d) rid))))
  unfolding advertise accept advert_of
  accept-advertise now now' rid depth d t s n h r o q =
      let adv : Advert = advert_of dbl host d in
      let map_part = length-take (min d.total_parts hashmap_max_len * 4) d.hashmap in
      let small : length (pack_map_header 11 ++ encode_members (members adv)) < 2 ^ 32 =
        members_size adv (omega arith) in
      let fine : IsAdvert adv = (
        t,
        s,
        n,
        omega arith,
        omega arith,
        to_byte_small d.flags,
        sym (from_byte-to_byte d.flags),
      ) in
      let (packed, made, back) = unpack-pack adv depth fine small in
      let named : ltb (length d.resource_hash) 32 ≡ false = ground (arith, h) in
      let salted : ltb (length d.random_hash) 4 ≡ false = ground (arith, r) in
      let e : Resource R = record d {
        sent = d.sent ++ (resource_adv packed ∷ []);
        adv_sent = now;
        pace = record d.pace { last_activity = now; rtt = whole dbl 0 };
        status = advertised;
      } in
      (packed, e, rw made refl, refl, rw (back, named, salted) refl)
