-- ===== src/Packet/Flags.antt =====
-- The flags byte: get_packed_flags and unpack_flags.
use rns.Prelude.{
  ℕ, ◌*◌, ◌/◌, ◌%◌, none, some, ◌==◌, if◌then◌else◌, Result, ok, throw, bit_and, bit_or,
}
use rns.Packet.State.{
  Packet, Net, PacketType, data_packet, announce, linkrequest, proof, HeaderType, header_1,
  header_2, ContextFlag, flag_unset, flag_set, TransportType, broadcast, transport, relay, tunnel,
  DestinationType, single, group, plain, link, context_lrproof,
}

abbrev pub header_code : HeaderType → ℕ
header_code header_1 = 0
header_code header_2 = 1

abbrev pub flag_code : ContextFlag → ℕ
flag_code flag_unset = 0
flag_code flag_set = 1

abbrev pub transport_code : TransportType → ℕ
transport_code broadcast = 0
transport_code transport = 1
transport_code relay = 2
transport_code tunnel = 3

abbrev pub destination_code : DestinationType → ℕ
destination_code single = 0
destination_code group = 1
destination_code plain = 2
destination_code link = 3

abbrev pub packet_code : PacketType → ℕ
packet_code data_packet = 0
packet_code announce = 1
packet_code linkrequest = 2
packet_code proof = 3

-- The shifts and the disjunction, in a byte.
unfoldable pub flags_byte :
    HeaderType → ContextFlag → TransportType → DestinationType → PacketType → ℕ
flags_byte h c t d p =
    bit_or
      (bit_or (bit_or (bit_or (header_code h * 64) (flag_code c * 32)) (transport_code t * 16))
        (destination_code d * 4))
      (packet_code p)
    % 256

-- The casts of the masked and shifted bits.
unfoldable pub header_of : ℕ → HeaderType
header_of flags = if bit_and flags 0b01000000 / 64 == 0 then header_1 else header_2

unfoldable pub flag_of : ℕ → ContextFlag
flag_of flags = if bit_and flags 0b00100000 / 32 == 0 then flag_unset else flag_set

unfoldable pub transport_of : ℕ → TransportType
transport_of flags = if bit_and flags 0b00010000 / 16 == 0 then broadcast else transport

unfoldable pub destination_of : ℕ → DestinationType
destination_of flags =
    let code : ℕ = bit_and flags 0b00001100 / 4 in
    if code == 0 then single else if code == 1 then group else if code == 2 then plain else link

unfoldable pub packet_of : ℕ → PacketType
packet_of flags =
    let code : ℕ = bit_and flags 0b00000011 in
    if code == 0
    then data_packet
    else if code == 1
    then announce
    else if code == 2
    then linkrequest
    else proof

module _ {D L : Type 0} where
  unfoldable pub get_packed_flags : Net D L → Packet D L → Result ℕ
  get_packed_flags net p =
      if p.context == context_lrproof
      then ok (flags_byte p.header_type p.context_flag p.transport_type link p.packet_type)
      else elim p.destination [
        | none ↦ throw "Packet destination is required"
        | some d ↦ ok (
            flags_byte p.header_type p.context_flag p.transport_type (net.dest_type d)
              p.packet_type)
      ]

  unfoldable pub unpack_flags : ℕ → Packet D L → Packet D L
  unpack_flags flags p = record p {
    header_type = header_of flags;
    context_flag = flag_of flags;
    transport_type = transport_of flags;
    destination_type = destination_of flags;
    packet_type = packet_of flags;
  }

-- The field of a flags byte that says which transport is used, cut to its one bit.
abbrev pub one_bit : TransportType → TransportType
one_bit broadcast = broadcast
one_bit transport = transport
one_bit relay = broadcast
one_bit tunnel = transport

pub data IsOneBit : TransportType → Type 0 where
  is_broadcast : IsOneBit broadcast
  is_transport : IsOneBit transport
