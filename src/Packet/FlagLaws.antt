-- ===== src/Packet/FlagLaws.antt =====
-- The flags byte holds its five fields.
use rns.Prelude.{ℕ, ◌/◌, ◌<◌, ◌≡◌, refl, Bool, true, ◌&&◌, ◌==◌, ltb, arith, bit_and}
use rns.Packet.State.{
  PacketType, data_packet, announce, linkrequest, proof, HeaderType, header_1, header_2,
  ContextFlag, flag_unset, flag_set, TransportType, DestinationType, single, group, plain, link,
}
use rns.Packet.Flags.{
  header_code, flag_code, transport_code, destination_code, packet_code, flags_byte, header_of,
  flag_of, transport_of, destination_of, packet_of, IsOneBit, is_broadcast, is_transport,
}

-- Tests of every value of a type of codes.
abbrev all_header : (HeaderType → Bool) → Bool
all_header P = P header_1 && P header_2

abbrev all_flag : (ContextFlag → Bool) → Bool
all_flag P = P flag_unset && P flag_set

abbrev all_destination : (DestinationType → Bool) → Bool
all_destination P = P single && P group && P plain && P link

abbrev all_packet : (PacketType → Bool) → Bool
all_packet P = P data_packet && P announce && P linkrequest && P proof

every_header : (P : HeaderType → Bool) → all_header P ≡ true → (h : HeaderType) → P h ≡ true
every_header P e header_1 = ground arith
every_header P e header_2 = ground arith

every_flag : (P : ContextFlag → Bool) → all_flag P ≡ true → (c : ContextFlag) → P c ≡ true
every_flag P e flag_unset = ground arith
every_flag P e flag_set = ground arith

every_destination :
    (P : DestinationType → Bool) → all_destination P ≡ true → (d : DestinationType) → P d ≡ true
every_destination P e single = ground arith
every_destination P e group = ground arith
every_destination P e plain = ground arith
every_destination P e link = ground arith

every_packet : (P : PacketType → Bool) → all_packet P ≡ true → (p : PacketType) → P p ≡ true
every_packet P e data_packet = ground arith
every_packet P e announce = ground arith
every_packet P e linkrequest = ground arith
every_packet P e proof = ground arith

-- The bits of the byte are the codes of the fields.
survives : HeaderType → ContextFlag → TransportType → DestinationType → PacketType → Bool
unfolding flags_byte
survives h c t d p =
    let f : ℕ = flags_byte h c t d p in
    (bit_and f 0b01000000 / 64 == header_code h)
    && (bit_and f 0b00100000 / 32 == flag_code c)
    && (bit_and f 0b00010000 / 16 == transport_code t)
    && (bit_and f 0b00001100 / 4 == destination_code d)
    && (bit_and f 0b00000011 == packet_code p)
    && ltb f 128

survives_table : TransportType → Bool
survives_table t =
    all_header (λ h. all_flag (λ c. all_destination (λ d. all_packet (λ p. survives h c t d p))))

survives_everywhere :
    (h : HeaderType) (c : ContextFlag) (t : TransportType) (d : DestinationType) (p : PacketType)
    → survives_table t ≡ true
    → survives h c t d p ≡ true
unfolding survives_table
survives_everywhere h c t d p e =
    every_packet (λ p. survives h c t d p)
      (every_destination (λ d. all_packet (λ p. survives h c t d p))
        (every_flag (λ c. all_destination (λ d. all_packet (λ p. survives h c t d p)))
          (every_header
            (λ h. all_flag (λ c. all_destination (λ d. all_packet (λ p. survives h c t d p)))) e h)
          c)
        d)
      p

survives_tabled : (t : TransportType) → IsOneBit t → survives_table t ≡ true
unfolding survives_table survives flags_byte
survives_tabled t is_broadcast = refl
survives_tabled t is_transport = refl

header_of-code :
    (f : ℕ) (h : HeaderType) → bit_and f 0b01000000 / 64 ≡ header_code h → header_of f ≡ h
unfolding header_of
header_of-code f header_1 e = rw e refl
header_of-code f header_2 e = rw e refl

flag_of-code : (f : ℕ) (c : ContextFlag) → bit_and f 0b00100000 / 32 ≡ flag_code c → flag_of f ≡ c
unfolding flag_of
flag_of-code f flag_unset e = rw e refl
flag_of-code f flag_set e = rw e refl

transport_of-code :
    (f : ℕ) (t : TransportType)
    → IsOneBit t
    → bit_and f 0b00010000 / 16 ≡ transport_code t
    → transport_of f ≡ t
unfolding transport_of
transport_of-code f t is_broadcast e = rw e refl
transport_of-code f t is_transport e = rw e refl

destination_of-code :
    (f : ℕ) (d : DestinationType)
    → bit_and f 0b00001100 / 4 ≡ destination_code d
    → destination_of f ≡ d
unfolding destination_of
destination_of-code f single e = rw e refl
destination_of-code f group e = rw e refl
destination_of-code f plain e = rw e refl
destination_of-code f link e = rw e refl

packet_of-code : (f : ℕ) (p : PacketType) → bit_and f 0b00000011 ≡ packet_code p → packet_of f ≡ p
unfolding packet_of
packet_of-code f data_packet e = rw e refl
packet_of-code f announce e = rw e refl
packet_of-code f linkrequest e = rw e refl
packet_of-code f proof e = rw e refl

pub fields-flags_byte :
    (h : HeaderType) (c : ContextFlag) (t : TransportType) (d : DestinationType) (p : PacketType)
    → IsOneBit t
    → let f = flags_byte h c t d p in
      (header_of f ≡ h)
      × (flag_of f ≡ c)
      × (transport_of f ≡ t)
      × (destination_of f ≡ d)
      × (packet_of f ≡ p)
      × (f < 128)
unfolding survives
fields-flags_byte h c t d p one =
    let f : ℕ = flags_byte h c t d p in
    let e : survives h c t d p ≡ true = survives_everywhere h c t d p (survives_tabled t one) in
    (
      header_of-code f h (ground arith),
      flag_of-code f c (ground arith),
      transport_of-code f t one (ground arith),
      destination_of-code f d (ground arith),
      packet_of-code f p (ground arith),
      ground arith,
    )
