-- ===== src/Packet/Codec.antt =====
-- pack and unpack, the packet's hash, and the constructors.
use rns.Prelude.{
  ℕ, List, [], ◌∷◌, ◌++◌, Bool, true, false, ◌||◌, none, some, ltb, ◌==◌, if◌then◌else◌, Result, ok,
  throw, ◌>>=◌, byte, length, take, drop, bit_and,
}
use rns.Bytes.{mid_to_end}
use rns.Packet.State.{
  Packet, Net, PacketType, data_packet, announce, linkrequest, proof, HeaderType, header_1,
  header_2, ContextFlag, TransportType, DestinationType, single, group, plain, link,
  context_resource, context_resource_prf, context_cache_request, context_keepalive, context_lrproof,
  destination_length, header_minsize, header_maxsize, packet_mdu, blank,
}
use rns.Packet.Flags.{get_packed_flags, unpack_flags}

abbrev is_link : DestinationType → Bool
is_link link = true
is_link single = false
is_link group = false
is_link plain = false

module _ {D L : Type 0} (net : Net D L) where
  unfoldable pub get_hashable_part : Packet D L → Result (List ℕ)
  get_hashable_part p = byte p.raw 0 >>= λ flags. ok (
      bit_and flags 0b00001111
      ∷ elim p.header_type [ header_2 ↦ mid_to_end p.raw 18 | header_1 ↦ mid_to_end p.raw 2 ])

  unfoldable pub get_hash : Packet D L → Result (List ℕ)
  get_hash p = get_hashable_part p >>= λ part. ok (net.full_hash part)

  unfoldable pub get_truncated_hash : Packet D L → Result (List ℕ)
  get_truncated_hash p = get_hashable_part p >>= λ part. ok (net.truncated_hash part)

  unfoldable pub update_hash : Packet D L → Result (Packet D L)
  update_hash p = get_hash p >>= λ hash. ok (record p { packet_hash = hash })

  -- The packets of type HEADER_1 that are not encrypted.
  unfoldable pub is_clear : PacketType → DestinationType → ℕ → Bool
  is_clear announce d context = true
  is_clear linkrequest d context = true
  is_clear proof d context =
      (context == context_resource_prf)
      || is_link d
      || (context == context_resource)
      || (context == context_keepalive)
      || (context == context_cache_request)
  is_clear data_packet d context =
      (context == context_resource)
      || (context == context_keepalive)
      || (context == context_cache_request)

  unfoldable pub encrypt_bytes : D → Packet D L → Result (List ℕ)
  encrypt_bytes d p = elim p.destination_link [
    | some l ↦ net.link_encrypt l p.bytes
    | none ↦ net.dest_encrypt d p.bytes
  ]

  -- The three branches of `pack` that append the addresses and set the ciphertext.
  unfoldable pub pack_lrproof : Packet D L → Result (Packet D L)
  pack_lrproof p = elim p.destination_link [
    | none ↦ throw "Packet is not associated with a Link"
    | some l ↦ ok (record p { header = p.header ++ net.link_id l; ciphertext = p.bytes })
  ]

  unfoldable pub pack_header_1 : D → Packet D L → Result (Packet D L)
  pack_header_1 d p =
      if is_clear p.packet_type (net.dest_type d) p.context
      then ok (record p { header = p.header ++ net.dest_hash d; ciphertext = p.bytes })
      else encrypt_bytes d p >>= λ sealed.
          ok (record p {
            header = p.header ++ net.dest_hash d;
            ciphertext = sealed;
            encrypted = true;
          })

  -- Only an announce sets the ciphertext; other packets keep what was there.
  abbrev pub kept_ciphertext : Packet D L → List ℕ
  kept_ciphertext p = elim p.packet_type [
    | announce ↦ p.bytes
    | data_packet ↦ p.ciphertext
    | linkrequest ↦ p.ciphertext
    | proof ↦ p.ciphertext
  ]

  unfoldable pub pack_header_2 : D → Packet D L → Result (Packet D L)
  pack_header_2 d p =
      if length p.transport_id == 0
      then throw "Packet with header type 2 must have a transport ID"
      else ok (record p {
        header = (p.header ++ p.transport_id) ++ net.dest_hash d;
        ciphertext = kept_ciphertext p;
      })

  unfoldable pub pack_addresses : D → Packet D L → Result (Packet D L)
  pack_addresses d p =
      if p.context == context_lrproof
      then pack_lrproof p
      else elim p.header_type [ header_1 ↦ pack_header_1 d p | header_2 ↦ pack_header_2 d p ]

  -- The end of `pack`: the whole header and the bytes to send, without a hash yet.
  abbrev pub written : Packet D L → Packet D L
  written p = record p {
    header = p.header ++ (p.context ∷ []);
    raw = (p.header ++ (p.context ∷ [])) ++ p.ciphertext;
    packed = true;
  }

  unfoldable pub pack_raw : Packet D L → Result (Packet D L)
  pack_raw p =
      if ltb p.mtu (length (written p).raw)
      then throw "Packet size exceeds MTU"
      else update_hash (written p)

  -- What `pack` has changed before an exception is not kept.
  unfoldable pub pack : Packet D L → Result (Packet D L)
  pack p = elim p.destination [
    | none ↦ throw "Packet destination is required"
    | some d ↦
        pack_addresses d (record p {
          destination_hash = net.dest_hash d;
          encrypted = false;
          header = p.flags ∷ p.hops ∷ [];
        })
        >>= pack_raw
  ]

  -- `unpack` behind the flags: the addresses, the context and the data.
  unfoldable pub unpack_addresses : HeaderType → Packet D L → Result (Bool × Packet D L)
  unpack_addresses header_2 p = if ltb (length p.raw) header_maxsize then ok (false, p) else (do
    context ← byte p.raw 34
    q ← update_hash (record p {
      transport_id = take destination_length (drop 2 p.raw);
      destination_hash = take destination_length (drop 18 p.raw);
      context = context;
      bytes = drop 35 p.raw;
      encrypted = false;
      packed = false;
    })
    ok (true, q))
  unpack_addresses header_1 p = do
    context ← byte p.raw 18
    q ← update_hash (record p {
      transport_id = [];
      destination_hash = take destination_length (drop 2 p.raw);
      context = context;
      bytes = drop 19 p.raw;
      encrypted = false;
      packed = false;
    })
    ok (true, q)

  -- An exception inside is caught: the answer is false, and what was read before it is kept.
  unfoldable pub unpack : Packet D L → Result (Bool × Packet D L)
  unpack p = if ltb (length p.raw) header_minsize then ok (false, p) else (do
    flags ← byte p.raw 0
    hops ← byte p.raw 1
    let q : Packet D L = unpack_flags flags (record p { flags = flags; hops = hops })
    unpack_addresses q.header_type q)

  -- The constructor for a destination; data beyond the MDU is cut off.
  unfoldable pub new_packet :
      D
      → List ℕ
      → PacketType
      → ℕ
      → TransportType
      → HeaderType
      → List ℕ
      → Bool
      → ContextFlag
      → Result (Packet D L)
  new_packet d bytes packet_type context transport_type header_type transport_id receipt flag =
      let p : Packet D L = record (blank D L) {
        destination = some d;
        header_type = header_type;
        packet_type = packet_type;
        transport_type = transport_type;
        context = context;
        context_flag = flag;
        transport_id = transport_id;
        bytes = take packet_mdu bytes;
        truncated = ltb packet_mdu (length bytes);
        create_receipt = receipt;
      } in
      get_packed_flags net p >>= λ flags. ok (record p { flags = flags })

  -- The constructor for bytes that were received.
  unfoldable pub raw_packet : List ℕ → Packet D L
  raw_packet raw = record (blank D L) { raw = raw; packed = true; from_packed = true }
