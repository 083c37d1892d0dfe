-- ===== src/Packet/Tests.antt =====
-- Packets over a net of zeros, and the theorems there.
use rns.Prelude.{
  take, none, ◌<◌, if◌then◌else◌, ℕ, ◌≤◌, ◌≡◌, refl, List, [], ◌∷◌, ◌++◌, Bool, true, false, some,
  arith, ok, length, replicate,
}
use rns.Prelude.Int.{pos}
use rns.Bytes.{left, mid_to_end, same_bytes}
use rns.Channel.State.{sent, delivered, failed}
use rns.Packet.State.{
  transmitted, Packet, Net, data_packet, announce, header_1, header_2, flag_unset, broadcast,
  transport, single, blank, header_minsize,
}
use rns.Packet.Flags.{flags_byte, is_broadcast, is_transport}
use rns.Packet.Codec.{
  new_packet, pack, pack_addresses, pack_header_1, pack_header_2, pack_raw, is_clear, encrypt_bytes,
  get_hashable_part, unpack, raw_packet, get_hash, update_hash,
}
use rns.Packet.RoundTrip.{IsNet, address_of, IsWritten, pack-header_1}
use rns.Packet.Send.{wants_receipt, Outcome, send, type_of, count_on_link, hand_over}
use rns.Packet.SendLaws.{IsCounted, IsHandedOver, send-IsHandedOver}
use rns.Packet.Construction.{new_packet-fields}
use rns.Packet.Laws.{IsReceived, unpack-pack_header_1, unpack-pack_header_2, get_hash-in_transport}
use rns.Packet.Answers.{unpack-answers}
use rns.Packet.Receipt.{
  Receipt, LinkTimes, link_timeout, check_timeout, validate_proof, validate_proof_packet, conclude,
}
use rns.Packet.ReceiptLaws.{
  Event, proof_comes, timeout_checked, run, happen, IsSignedReceipt, run-delivered,
  run-stays_delivered, check_timeout-fast_link,
}

-- A destination is the byte that its hash repeats; nothing is encrypted, and a hash is its input.
abbrev zeros : Net ℕ ℕ
zeros = record {
  dest_hash = λ d. replicate 16 d;
  dest_type = λ d. single;
  dest_encrypt = λ d bytes. ok bytes;
  link_id = λ l. replicate 16 l;
  link_closed = λ l. false;
  link_encrypt = λ l bytes. ok bytes;
  full_hash = λ bytes. bytes;
  truncated_hash = λ bytes. bytes;
  outbound = λ raw. transmitted;
}

zeros-IsNet : IsNet zeros
zeros-IsNet = record { length-dest_hash = λ d. refl; length-link_id = λ l. refl }

abbrev plain_packet : Packet ℕ ℕ
plain_packet = record (blank ℕ ℕ) { destination = some 5; hops = 3; bytes = 1 ∷ 2 ∷ [] }

abbrev plain_packed : Packet ℕ ℕ
plain_packed = record plain_packet {
  destination_hash = replicate 16 5;
  header = 0 ∷ 3 ∷ (replicate 16 5 ++ (0 ∷ []));
  ciphertext = 1 ∷ 2 ∷ [];
  raw = 0 ∷ 3 ∷ (replicate 16 5 ++ (0 ∷ 1 ∷ 2 ∷ []));
  packed = true;
  encrypted = true;
  packet_hash = 0 ∷ (replicate 16 5 ++ (0 ∷ 1 ∷ 2 ∷ []));
}

pack_plain : pack zeros plain_packet ≡ ok plain_packed
unfolding pack pack_addresses pack_header_1 is_clear encrypt_bytes pack_raw update_hash get_hash
    get_hashable_part mid_to_end blank
pack_plain = refl

plain_flags : 0 ≡ flags_byte header_1 flag_unset broadcast single data_packet
unfolding flags_byte
plain_flags = refl

unpack-pack_header_1_example :
    (u : Packet ℕ ℕ) × (unpack zeros (raw_packet zeros plain_packed.raw) ≡ ok (true, u))
    × IsReceived zeros plain_packet plain_packed single [] (address_of zeros 5 plain_packet) u
unfolding blank
unpack-pack_header_1_example =
    unpack-pack_header_1 zeros zeros-IsNet 5 plain_packet plain_packed single refl refl is_broadcast
      plain_flags pack_plain

abbrev relayed_packet : Packet ℕ ℕ
relayed_packet = record (blank ℕ ℕ) {
  destination = some 5;
  header_type = header_2;
  packet_type = announce;
  transport_type = transport;
  transport_id = replicate 16 9;
  flags = 81;
  hops = 4;
  bytes = 1 ∷ 2 ∷ [];
}

abbrev relayed_packed : Packet ℕ ℕ
relayed_packed = record relayed_packet {
  destination_hash = replicate 16 5;
  header = 81 ∷ 4 ∷ (replicate 16 9 ++ (replicate 16 5 ++ (0 ∷ [])));
  ciphertext = 1 ∷ 2 ∷ [];
  raw = 81 ∷ 4 ∷ (replicate 16 9 ++ (replicate 16 5 ++ (0 ∷ 1 ∷ 2 ∷ [])));
  packed = true;
  packet_hash = 1 ∷ (replicate 16 5 ++ (0 ∷ 1 ∷ 2 ∷ []));
}

pack_relayed : pack zeros relayed_packet ≡ ok relayed_packed
unfolding pack pack_addresses pack_header_2 pack_raw update_hash get_hash get_hashable_part
    mid_to_end blank
pack_relayed = refl

relayed_flags : 81 ≡ flags_byte header_2 flag_unset transport single announce
unfolding flags_byte
relayed_flags = refl

unpack-pack_header_2_example :
    (u : Packet ℕ ℕ) × (unpack zeros (raw_packet zeros relayed_packed.raw) ≡ ok (true, u))
    × IsReceived zeros relayed_packet relayed_packed single (replicate 16 9) (replicate 16 5) u
unfolding blank
unpack-pack_header_2_example =
    unpack-pack_header_2 zeros zeros-IsNet 5 relayed_packet relayed_packed single refl refl refl
      refl is_transport relayed_flags pack_relayed

-- The announce before it was relayed.
abbrev local_packet : Packet ℕ ℕ
local_packet = record (blank ℕ ℕ) { raw = 1 ∷ 0 ∷ (replicate 16 5 ++ (0 ∷ 1 ∷ 2 ∷ [])) }

get_hash-in_transport_example : get_hash zeros local_packet ≡ get_hash zeros relayed_packed
unfolding blank
get_hash-in_transport_example =
    get_hash-in_transport zeros local_packet relayed_packed 1 81 0 4 (replicate 16 9)
      (replicate 16 5 ++ (0 ∷ 1 ∷ 2 ∷ [])) refl refl refl refl refl (omega arith) refl

unpack-answers_example :
    (b : Bool) × (u : Packet ℕ ℕ) × (unpack zeros local_packet ≡ ok (b, u))
    × (b ≡ true → header_minsize ≤ length local_packet.raw)
unpack-answers_example = unpack-answers zeros local_packet

-- A signature is valid if it is the hash and 32 zeros.
abbrev waiting : Receipt
waiting = record {
  hash = replicate 32 7;
  truncated_hash = replicate 16 7;
  identity = some (λ signature hash. same_bytes signature (hash ++ replicate 32 0));
  sent_at = 1000;
  timeout = pos 0;
  status = sent;
  proved = false;
  concluded_at = 0;
  hops = 0;
  calls = 0;
}

abbrev implicit_proof : List Event
implicit_proof =
    proof_comes false 1 2000 (replicate 64 1)
    ∷ proof_comes false 1 3000 (replicate 32 7 ++ replicate 32 0)
    ∷ []

proof_delivers : (run (λ signature hash. false) implicit_proof waiting).status ≡ delivered
unfolding run happen validate_proof_packet validate_proof conclude left same_bytes
proof_delivers = refl

run-delivered_example : IsSignedReceipt (λ signature hash. false) waiting
run-delivered_example =
    run-delivered (λ signature hash. false) implicit_proof waiting (ground arith) proof_delivers

abbrev proven : Receipt
proven = record waiting { status = delivered; proved = true }

run-stays_delivered_example :
    ((run (λ signature hash. false) (timeout_checked 9_000_000 ∷ []) proven).status ≡ delivered)
    × ((run (λ signature hash. false) (timeout_checked 9_000_000 ∷ []) proven).hash ≡ proven.hash)
run-stays_delivered_example =
    run-stays_delivered (λ signature hash. false) (timeout_checked 9_000_000 ∷ []) proven refl

-- A link of 100 ms: its packets time out at once.
abbrev fast_times : LinkTimes
fast_times = record { rtt = 100_000; traffic_timeout_factor = 6 }

check_timeout-fast_link_example : (check_timeout 1001 waiting).status ≡ failed
unfolding link_timeout
check_timeout-fast_link_example =
    check_timeout-fast_link fast_times waiting 1001 (omega arith) refl refl (omega arith)

abbrev sent_outcome : Outcome ℕ ℕ
sent_outcome = record {
  packet = record plain_packed { sent = true };
  counted = none;
  receipt = false;
}

send_plain : send zeros plain_packet ≡ ok sent_outcome
unfolding send type_of count_on_link hand_over wants_receipt pack pack_addresses pack_header_1
    is_clear encrypt_bytes pack_raw update_hash get_hash get_hashable_part mid_to_end blank
send_plain = refl

send-IsHandedOver_example :
    (plain_packet.sent ≡ false)
    × ((d : ℕ) × (q : Packet ℕ ℕ) × (plain_packet.destination ≡ some d)
        × ((if plain_packet.packed then ok plain_packet else pack zeros plain_packet) ≡ ok q)
        × IsCounted zeros plain_packet single none
        × IsHandedOver zeros q single sent_outcome)
send-IsHandedOver_example = send-IsHandedOver zeros plain_packet sent_outcome send_plain

new_packet-fields_example :
    (p : Packet ℕ ℕ) × (new_packet zeros 5
        (replicate 470 1)
        data_packet
        0
        broadcast
        header_1
        []
        true
        flag_unset
      ≡ ok p)
    × (p.destination ≡ some 5)
    × (p.flags ≡ flags_byte p.header_type p.context_flag p.transport_type single p.packet_type)
    × (p.bytes ≡ take 464 (replicate 470 1))
    × (length p.bytes ≤ 464)
    × (p.truncated ≡ true → length p.bytes < 470)
    × (p.truncated ≡ false → length p.bytes ≡ 470)
new_packet-fields_example =
    new_packet-fields zeros 5 (replicate 470 1) data_packet 0 broadcast header_1 [] true flag_unset

pack-header_1_example : IsWritten zeros plain_packet plain_packed (address_of zeros 5 plain_packet)
unfolding blank
pack-header_1_example = pack-header_1 zeros 5 plain_packet plain_packed refl refl pack_plain
