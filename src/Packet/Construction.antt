-- ===== src/Packet/Construction.antt =====
-- What the constructor of a packet promises of its data and its flags.
use rns.Prelude.{
  ℕ, ◌≤◌, ◌<◌, ◌≡◌, refl, List, Bool, true, false, some, inl, inr, arith, min, ltb, ltb→lt, ◌==◌,
  if◌then◌else◌, Bool-cases, ok, length, take, length-take,
}
use rns.Packet.State.{
  Packet, Net, PacketType, HeaderType, ContextFlag, TransportType, DestinationType, link,
  context_lrproof, packet_mdu, blank,
}
use rns.Packet.Flags.{flags_byte, get_packed_flags}
use rns.Packet.Codec.{new_packet}

cut-shorter : (n : ℕ) (xs : List ℕ) → ltb n (length xs) ≡ true → length (take n xs) < length xs
cut-shorter n xs h =
    let short : n < length xs = ltb→lt n (length xs) h in omega (arith, length-take n xs)

uncut-length : (n : ℕ) (xs : List ℕ) → ltb n (length xs) ≡ false → length (take n xs) ≡ length xs
uncut-length n xs h = let long : length xs ≤ n = ground arith in omega (arith, length-take n xs)

module _ {D L : Type 0} (net : Net D L) where
  -- The destination type that the flags name: LINK for a link proof.
  abbrev pub flagged_type : D → ℕ → DestinationType
  flagged_type d context = if context == context_lrproof then link else net.dest_type d

  -- The constructor for a destination always gives a packet: its flags are those of its fields,
  -- with the type LINK for a link proof and the destination's type otherwise; its data is at most
  -- 464 bytes, the front of what was given, and shorter than that exactly where it is marked as
  -- truncated.
  pub new_packet-fields :
      (d : D) (bytes : List ℕ) (packet_type : PacketType) (context : ℕ)
      → (transport_type : TransportType) (header_type : HeaderType) (transport_id : List ℕ)
      → (receipt : Bool) (flag : ContextFlag)
      → (p : Packet D L) × (new_packet net d bytes packet_type context transport_type header_type
            transport_id receipt flag
          ≡ ok p)
        × (p.destination ≡ some d)
        × (p.flags
            ≡ flags_byte p.header_type p.context_flag p.transport_type
                (flagged_type d context)
                p.packet_type)
        × (p.bytes ≡ take packet_mdu bytes)
        × (length p.bytes ≤ packet_mdu)
        × (p.truncated ≡ true → length p.bytes < length bytes)
        × (p.truncated ≡ false → length p.bytes ≡ length bytes)
  unfolding new_packet get_packed_flags blank
  new_packet-fields d bytes packet_type context transport_type header_type transport_id receipt
        flag =
      let p : Packet D L = record (blank D L) {
        destination = some d;
        header_type = header_type;
        packet_type = packet_type;
        transport_type = transport_type;
        context = context;
        context_flag = flag;
        transport_id = transport_id;
        bytes = take packet_mdu bytes;
        truncated = ltb packet_mdu (length bytes);
        create_receipt = receipt;
        flags = flags_byte header_type flag transport_type (flagged_type d context) packet_type;
      } in
      let size : length p.bytes ≡ min packet_mdu (length bytes) = length-take packet_mdu bytes in
      elim (Bool-cases (context == context_lrproof)) [
        | inl e ↦ (
          p,
          rw e refl,
          refl,
          refl,
          refl,
          omega arith,
          cut-shorter packet_mdu bytes,
          uncut-length packet_mdu bytes,
        )
        | inr e ↦ (
          p,
          rw e refl,
          refl,
          refl,
          refl,
          omega arith,
          cut-shorter packet_mdu bytes,
          uncut-length packet_mdu bytes,
        )
      ]
