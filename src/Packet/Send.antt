-- ===== src/Packet/Send.antt =====
-- Packet::send and Packet::resend.
use rns.Prelude.{
  ℕ, Bool, true, false, Option, none, some, if◌then◌else◌, Result, ok, throw, fault, ◌>>=◌, length,
  ◌&&◌, not, leb, ◌==◌,
}
use rns.Packet.State.{
  Packet, Net, DestinationType, single, group, plain, link, PacketType, data_packet, announce,
  linkrequest, proof, context_keepalive, context_lrproof, context_linkidentify, context_resource,
  context_resource_rcl, is_taken, is_transmitted,
}
use rns.Packet.Codec.{pack}

-- What a send comes to: the packet afterwards, the data bytes counted on its link if it goes over
-- one, and whether the caller gets the receipt.
pub record Outcome (D L : Type 0) : Type 0 where
  pub packet : Packet D L
  pub counted : Option ℕ
  pub receipt : Bool

abbrev pub is_data : PacketType → Bool
is_data data_packet = true
is_data announce = false
is_data linkrequest = false
is_data proof = false

abbrev pub is_plain : DestinationType → Bool
is_plain plain = true
is_plain single = false
is_plain group = false
is_plain link = false

module _ {D L : Type 0} (net : Net D L) where
  -- The accounting on the link of a packet to a destination of type LINK.
  unfoldable pub count_on_link : DestinationType → Packet D L → Result (Option ℕ)
  count_on_link link p = elim p.destination_link [
    | none ↦ throw "Packet is not associated with a Link"
    | some l ↦
        if net.link_closed l
        then throw "Attempt to transmit over a closed link"
        else ok (some (length p.bytes))
  ]
  count_on_link single p = ok none
  count_on_link group p = ok none
  count_on_link plain p = ok none

  -- The type of an absent destination is an assertion that fails.
  unfoldable pub type_of : Packet D L → Result DestinationType
  type_of p = elim p.destination [ none ↦ fault | some d ↦ ok (net.dest_type d) ]

  -- The packets for which Transport::outbound makes a receipt, if an interface takes them: data
  -- whose sender wants one, but for destinations of type PLAIN, the packets of a link other than
  -- the identification, and those of resources.
  unfoldable pub wants_receipt : DestinationType → Packet D L → Bool
  wants_receipt type p =
      p.create_receipt
      && is_data p.packet_type
      && not (is_plain type)
      && not (
          leb context_keepalive p.context
          && leb p.context context_lrproof
          && not (p.context == context_linkidentify))
      && not (leb context_resource p.context && leb p.context context_resource_rcl)

  -- A packet that was not sent before has no receipt yet.
  unfoldable pub hand_over : Option ℕ → DestinationType → Packet D L → Outcome D L
  hand_over counted type p =
      if is_taken (net.outbound p.raw)
      then record {
        packet = record p { sent = true };
        counted = counted;
        receipt = is_transmitted (net.outbound p.raw) && wants_receipt type p;
      }
      else record { packet = record p { sent = false }; counted = counted; receipt = false }

  -- The link is counted before the packing; if that throws, the count is not kept.
  unfoldable pub send : Packet D L → Result (Outcome D L)
  send p = if p.sent then throw "Packet was already sent" else (do
    type ← type_of p
    counted ← count_on_link type p
    q ← if p.packed then ok p else pack net p
    ok (hand_over counted type q))

  unfoldable pub resend : Packet D L → Result (Bool × Packet D L)
  resend p =
      if p.sent
      then (do
        q ← pack net p
        if is_taken (net.outbound q.raw)
            then ok (true, q)
            else ok (false, record q { sent = false }))
      else throw "Packet was not sent yet"
