-- ===== src/Channel/State.antt =====
-- The state of a channel (`ChannelData`), its constants, and what it asks of the link and the packets.
use rns.Prelude.{ℕ, List, [], Bool, false, Option, Result}

-- Type::PacketReceipt::Status.
pub data Status : Type 0 where
  failed sent delivered culled : Status

-- A message that a receiver hands to its callback: the message type and the payload.
pub record Message : Type 0 where
  pub msgtype : ℕ
  pub payload : List ℕ

-- The envelope of the receive ring.
pub record RxEnvelope : Type 0 where
  pub sequence : ℕ
  pub message : Message

-- The envelope of the transmit ring, over the type of link packets.
pub record TxEnvelope (P : Type 0) : Type 0 where
  pub sequence : ℕ
  pub raw : List ℕ
  pub packet : P
  pub tries : ℕ
  pub deadline : ℕ

-- What the channel asks of the packet layer: the construction and the first send of a CHANNEL packet,
-- the status of its receipt if there is one, and the resend.
pub record Packets (P : Type 0) : Type 0 where
  pub transmit : List ℕ → P
  pub receipt : P → Option Status
  pub resend : P → Result P

-- What it reads of the link: whether it is ACTIVE, its MDU, and its round trip in microseconds.
pub record LinkView : Type 0 where
  pub active : Bool
  pub mdu : ℕ
  pub rtt : ℕ

-- `has_callback` says whether a receive callback is set; `inbox` holds the calls made to it so far,
-- oldest first.
pub record Channel (P : Type 0) : Type 0 where
  pub tx_ring : List (TxEnvelope P)
  pub rx_ring : List RxEnvelope
  pub next_sequence : ℕ
  pub next_rx_sequence : ℕ
  pub window : ℕ
  pub window_max : ℕ
  pub window_min : ℕ
  pub window_flexibility : ℕ
  pub fast_rate_rounds : ℕ
  pub medium_rate_rounds : ℕ
  pub has_callback : Bool
  pub inbox : List Message

abbrev pub initial_window : ℕ
initial_window = 2

abbrev pub initial_window_min : ℕ
initial_window_min = 2

abbrev pub window_min_limit_medium : ℕ
window_min_limit_medium = 5

abbrev pub window_min_limit_fast : ℕ
window_min_limit_fast = 16

abbrev pub window_max_slow : ℕ
window_max_slow = 5

abbrev pub window_max_medium : ℕ
window_max_medium = 12

abbrev pub window_max_fast : ℕ
window_max_fast = 48

abbrev pub initial_window_flexibility : ℕ
initial_window_flexibility = 4

abbrev pub fast_rate_threshold : ℕ
fast_rate_threshold = 10

-- RTT_FAST and RTT_MEDIUM, in microseconds.
abbrev pub rtt_fast : ℕ
rtt_fast = 180_000

abbrev pub rtt_medium : ℕ
rtt_medium = 750_000

abbrev pub seq_max : ℕ
seq_max = 0xffff

abbrev pub seq_modulus : ℕ
seq_modulus = 0x10000

abbrev pub max_tries : ℕ
max_tries = 5

unfoldable pub open_channel : (P : Type 0) → Channel P
open_channel P = record {
  tx_ring = [];
  rx_ring = [];
  next_sequence = 0;
  next_rx_sequence = 0;
  window = initial_window;
  window_max = window_max_slow;
  window_min = initial_window_min;
  window_flexibility = initial_window_flexibility;
  fast_rate_rounds = 0;
  medium_rate_rounds = 0;
  has_callback = false;
  inbox = [];
}
