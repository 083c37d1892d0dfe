-- ===== src/Packet/State.antt =====
-- The fields of a packet (`Packet::Object`), its codes, and what it asks of destinations and links.
use rns.Prelude.{ℕ, List, [], Bool, true, false, Option, none, Result}

-- Type::Packet::types.
pub data PacketType : Type 0 where
  data_packet announce linkrequest proof : PacketType

-- Type::Packet::header_types.
pub data HeaderType : Type 0 where
  header_1 header_2 : HeaderType

-- Type::Packet::context_flags.
pub data ContextFlag : Type 0 where
  flag_unset flag_set : ContextFlag

-- Type::Transport::types, but for NONE, which no packet carries.
pub data TransportType : Type 0 where
  broadcast transport relay tunnel : TransportType

-- Type::Destination::types.
pub data DestinationType : Type 0 where
  single group plain link : DestinationType

-- The contexts that packing reads; a context is a byte, and unpacking takes any.
abbrev pub context_none : ℕ
context_none = 0x00

abbrev pub context_resource : ℕ
context_resource = 0x01

abbrev pub context_resource_prf : ℕ
context_resource_prf = 0x05

abbrev pub context_cache_request : ℕ
context_cache_request = 0x08

abbrev pub context_keepalive : ℕ
context_keepalive = 0xfa

abbrev pub context_resource_rcl : ℕ
context_resource_rcl = 0x07

abbrev pub context_linkidentify : ℕ
context_linkidentify = 0xfb

abbrev pub context_lrproof : ℕ
context_lrproof = 0xff

abbrev pub destination_length : ℕ
destination_length = 16

abbrev pub header_minsize : ℕ
header_minsize = 19

abbrev pub header_maxsize : ℕ
header_maxsize = 35

abbrev pub base_mtu : ℕ
base_mtu = 500

abbrev pub packet_mdu : ℕ
packet_mdu = 464

-- What Transport::outbound comes to: an interface took the packet, it waits in a queue (or is an
-- announce that need not be relayed), or neither.
pub data Fate : Type 0 where
  transmitted deferred refused : Fate

-- The answer of Transport::outbound.
abbrev pub is_taken : Fate → Bool
is_taken transmitted = true
is_taken deferred = true
is_taken refused = false

abbrev pub is_transmitted : Fate → Bool
is_transmitted transmitted = true
is_transmitted deferred = false
is_transmitted refused = false

-- The destinations `D` and links `L` of a node, as packets use them, and the hashes of an identity.
-- `outbound` is what the transport makes of a packed packet.
pub record Net (D L : Type 0) : Type 0 where
  pub dest_hash : D → List ℕ
  pub dest_type : D → DestinationType
  pub dest_encrypt : D → List ℕ → Result (List ℕ)
  pub link_id : L → List ℕ
  pub link_closed : L → Bool
  pub link_encrypt : L → List ℕ → Result (List ℕ)
  pub full_hash : List ℕ → List ℕ
  pub truncated_hash : List ℕ → List ℕ
  pub outbound : List ℕ → Fate

pub record Packet (D L : Type 0) : Type 0 where
  pub destination : Option D
  pub destination_link : Option L
  pub header_type : HeaderType
  pub packet_type : PacketType
  pub transport_type : TransportType
  pub destination_type : DestinationType
  pub context : ℕ
  pub context_flag : ContextFlag
  pub flags : ℕ
  pub hops : ℕ
  pub packed : Bool
  pub from_packed : Bool
  pub sent : Bool
  pub create_receipt : Bool
  pub truncated : Bool
  pub encrypted : Bool
  pub mtu : ℕ
  pub packet_hash : List ℕ
  pub destination_hash : List ℕ
  pub transport_id : List ℕ
  pub raw : List ℕ
  pub bytes : List ℕ
  pub header : List ℕ
  pub ciphertext : List ℕ

-- The initial values of the members.
unfoldable pub blank : (D L : Type 0) → Packet D L
blank D L = record {
  destination = none;
  destination_link = none;
  header_type = header_1;
  packet_type = data_packet;
  transport_type = broadcast;
  destination_type = single;
  context = context_none;
  context_flag = flag_unset;
  flags = 0;
  hops = 0;
  packed = false;
  from_packed = false;
  sent = false;
  create_receipt = false;
  truncated = false;
  encrypted = false;
  mtu = base_mtu;
  packet_hash = [];
  destination_hash = [];
  transport_id = [];
  raw = [];
  bytes = [];
  header = [];
  ciphertext = [];
}
