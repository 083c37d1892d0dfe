-- ===== src/Packet/Laws.antt =====
-- What packing and unpacking promise of the packets on the wire.
use rns.Prelude.{
  ℕ, ◌<◌, ◌≡◌, ◌∙◌, refl, sym, ap, List, [], ◌∷◌, ◌++◌, true, false, some, arith, ◌==◌, Result, ok,
  length, bit_and, append_assoc, length-append,
}
use rns.Packet.State.{Packet, Net, header_1, header_2, DestinationType, context_lrproof}
use rns.Packet.Flags.{header_of, flags_byte, IsOneBit, unpack_flags}
use rns.Packet.Codec.{get_hash, pack, unpack, raw_packet}
use rns.Packet.FlagLaws.{fields-flags_byte}
use rns.Packet.Unpacking.{
  hashed, opened, unpack-header_1, unpack-header_2, get_hash-header_1, get_hash-header_2,
}
use rns.Packet.RoundTrip.{
  IsNet, IsWritten, address_of, length-address_of, pack-header_1, pack-header_2,
}

module _ {D L : Type 0} (net : Net D L) where
  -- The fields of a packet that its receiver reads: those of the sender's packet `p`, with the
  -- ciphertext and the hash of the packed one, `q`.
  unfoldable pub IsReceived :
      Packet D L → Packet D L → DestinationType → List ℕ → List ℕ → Packet D L → Type 0
  IsReceived p q type transport_id address u =
      (u.header_type ≡ p.header_type)
      × (u.context_flag ≡ p.context_flag)
      × (u.transport_type ≡ p.transport_type)
      × (u.packet_type ≡ p.packet_type)
      × (u.destination_type ≡ type)
      × (u.hops ≡ p.hops)
      × (u.transport_id ≡ transport_id)
      × (u.destination_hash ≡ address)
      × (u.context ≡ p.context)
      × (u.bytes ≡ q.ciphertext)
      × (u.packet_hash ≡ q.packet_hash)

  same_hash : (a b : List ℕ) (r : Result (List ℕ)) → r ≡ ok a → r ≡ ok b → a ≡ b
  same_hash a b r e f = ground arith

  -- A packet with one address (its link's id for a link proof, otherwise its destination's hash)
  -- that pack packs is unpacked by its receiver: the same types, context flag, hops and context,
  -- no transport id, that address, the ciphertext, and the hash that the sender computed. The
  -- flags are those packed from the fields and a destination type, which is the one unpacked, the
  -- transport type is BROADCAST or TRANSPORT, and hashes have 16 bytes.
  pub unpack-pack_header_1 :
      IsNet net
      → (d : D) (p q : Packet D L) (type : DestinationType) → p.destination ≡ some d
      → p.header_type ≡ header_1
      → IsOneBit p.transport_type
      → p.flags ≡ flags_byte p.header_type p.context_flag p.transport_type type p.packet_type
      → pack net p ≡ ok q
      → (u : Packet D L) × (unpack net (raw_packet net q.raw) ≡ ok (true, u))
        × IsReceived p q type [] (address_of net d p) u
  unfolding IsWritten IsReceived opened unpack_flags raw_packet
  unpack-pack_header_1 laws d p q type e one bit flags h =
      let (raw, packed, same, hash, fits) = pack-header_1 net d p q e one h in
      let size : length (address_of net d p) ≡ 16 = length-address_of net laws d p in
      let (a, b, c, f, g, _) =
        fields-flags_byte p.header_type p.context_flag p.transport_type type p.packet_type bit in
      let header : header_of p.flags ≡ p.header_type = rw flags a in
      let u : Packet D L =
        hashed net (opened net q.raw p.flags p.hops) p.flags [] (address_of net d p) p.context
          q.ciphertext in
      (
        u,
        rw raw (
            unpack-header_1 net p.flags p.hops p.context (address_of net d p) q.ciphertext size
              (header ∙ one)),
        (
          header,
          rw flags b,
          rw flags c,
          rw flags g,
          rw flags f,
          refl,
          refl,
          refl,
          refl,
          refl,
          same_hash _ _ (get_hash net q)
              (get_hash-header_1 net q p.flags p.hops
                (address_of net d p ++ (p.context ∷ q.ciphertext)) raw
                (omega (arith, length-append (address_of net d p) (p.context ∷ q.ciphertext)))
                (same ∙ one))
              hash,
        ),
      )

  -- A packet with two addresses that pack packs, and that is no link proof, is unpacked by its
  -- receiver: the same types, context flag, hops and context, its transport id, its destination's
  -- hash, the ciphertext, and the hash that the sender computed. The flags are those packed from
  -- the fields and a destination type, which is the one unpacked, the transport type is BROADCAST
  -- or TRANSPORT, and the transport id and hashes have 16 bytes.
  pub unpack-pack_header_2 :
      IsNet net
      → (d : D) (p q : Packet D L) (type : DestinationType) → p.destination ≡ some d
      → p.header_type ≡ header_2
      → (p.context == context_lrproof) ≡ false
      → length p.transport_id ≡ 16
      → IsOneBit p.transport_type
      → p.flags ≡ flags_byte p.header_type p.context_flag p.transport_type type p.packet_type
      → pack net p ≡ ok q
      → (u : Packet D L) × (unpack net (raw_packet net q.raw) ≡ ok (true, u))
        × IsReceived p q type p.transport_id (net.dest_hash d) u
  unfolding IsWritten IsReceived opened unpack_flags raw_packet
  unpack-pack_header_2 laws d p q type e two n size bit flags h =
      let tid : List ℕ = p.transport_id in
      let dest : List ℕ = net.dest_hash d in
      let rest : List ℕ = dest ++ (p.context ∷ q.ciphertext) in
      let (written, packed, same, hash, fits) = pack-header_2 net d p q e two n h in
      let raw : q.raw ≡ p.flags ∷ p.hops ∷ (tid ++ rest) =
        written
        ∙ ap (λ xs. p.flags ∷ p.hops ∷ xs) (append_assoc tid dest (p.context ∷ q.ciphertext)) in
      let size' : length dest ≡ 16 = laws.length-dest_hash d in
      let (a, b, c, f, g, _) =
        fields-flags_byte p.header_type p.context_flag p.transport_type type p.packet_type bit in
      let header : header_of p.flags ≡ p.header_type = rw flags a in
      let u : Packet D L =
        hashed net (opened net q.raw p.flags p.hops) p.flags tid dest p.context q.ciphertext in
      (
        u,
        rw raw (
            unpack-header_2 net p.flags p.hops p.context tid dest q.ciphertext size size'
              (header ∙ two)),
        (
          header,
          rw flags b,
          rw flags c,
          rw flags g,
          rw flags f,
          refl,
          refl,
          refl,
          refl,
          refl,
          same_hash _ _ (get_hash net q)
              (get_hash-header_2 net q p.flags p.hops tid rest raw size
                (omega (arith, length-append dest (p.context ∷ q.ciphertext))) (same ∙ two))
              hash,
        ),
      )

  -- The hash of a packet with one address is that of its form in transport, with a 16-byte
  -- transport address put in front: neither that address, nor the hops, nor the high half of the
  -- flags counts.
  pub get_hash-in_transport :
      (p q : Packet D L) (f g h k : ℕ) (transport_id rest : List ℕ)
      → p.raw ≡ f ∷ h ∷ rest
      → q.raw ≡ g ∷ k ∷ (transport_id ++ rest)
      → p.header_type ≡ header_1
      → q.header_type ≡ header_2
      → length transport_id ≡ 16
      → 0 < length rest
      → bit_and f 0b00001111 ≡ bit_and g 0b00001111
      → get_hash net p ≡ get_hash net q
  get_hash-in_transport p q f g h k tid rest raw raw' one two size some_byte low =
      get_hash-header_1 net p f h rest raw some_byte one
      ∙ ap (λ n. ok (net.full_hash (n ∷ rest))) low
      ∙ sym (get_hash-header_2 net q g k tid rest raw' size some_byte two)
