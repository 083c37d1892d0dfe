-- ===== src/Packet/Receipt.antt =====
-- PacketReceipt: the proof of a delivery and its timeout.
use rns.Prelude.{
  ℕ, zero, suc, ◌+◌, ◌-◌, ◌*◌, ◌/◌, List, Bool, true, false, ◌&&◌, Option, none, some, max, ltb,
  length, ◌==◌, if◌then◌else◌, Result, ok, throw, ◌>>=◌,
}
use rns.Prelude.Int.{ℤ, pos, negsuc}
use rns.Bytes.{left, mid, same_bytes}
use rns.Packet.State.{Packet, Net, single, group, plain, link}
use rns.Packet.Codec.{get_hash, get_truncated_hash}
use rns.Channel.State.{Status, failed, sent, delivered, culled}

-- EXPL_LENGTH and IMPL_LENGTH.
abbrev pub expl_length : ℕ
expl_length = 96

abbrev pub impl_length : ℕ
impl_length = 64

abbrev pub timeout_per_hop : ℕ
timeout_per_hop = 6

-- TRAFFIC_TIMEOUT_MIN_MS, in microseconds.
abbrev pub traffic_timeout_min : ℕ
traffic_timeout_min = 5000

-- Times are in microseconds, the timeout in whole seconds; `calls` counts the calls of the
-- delivery callback, `identity` is the test of a signature by the destination's identity, if any.
pub record Receipt : Type 0 where
  pub hash : List ℕ
  pub truncated_hash : List ℕ
  pub identity : Option (List ℕ → List ℕ → Bool)
  pub sent_at : ℕ
  pub timeout : ℤ
  pub status : Status
  pub proved : Bool
  pub concluded_at : ℕ
  pub hops : ℕ
  pub calls : ℕ

-- The seconds of a time, cut to whole ones when it becomes an `int16_t`.
abbrev pub whole_seconds : ℕ → ℕ
whole_seconds micros = micros / 1_000_000

-- What a receipt reads of its link: the round trip in microseconds and the timeout factor.
pub record LinkTimes : Type 0 where
  pub rtt : ℕ
  pub traffic_timeout_factor : ℕ

unfoldable pub link_timeout : LinkTimes → ℕ
link_timeout l = whole_seconds (max (l.rtt * l.traffic_timeout_factor) traffic_timeout_min)

-- The first hop's timeout, in microseconds, and the number of hops.
unfoldable pub path_timeout : ℕ → ℕ → ℕ
path_timeout first_hop hops = whole_seconds first_hop + timeout_per_hop * hops

abbrev new_receipt : List ℕ → List ℕ → Option (List ℕ → List ℕ → Bool) → ℕ → ℕ → Receipt
new_receipt hash truncated_hash identity now timeout = record {
  hash = hash;
  truncated_hash = truncated_hash;
  identity = identity;
  sent_at = now;
  timeout = pos timeout;
  status = sent;
  proved = false;
  concluded_at = 0;
  hops = 0;
  calls = 0;
}

module _ {D L : Type 0} (net : Net D L) (identity : D → Option (List ℕ → List ℕ → Bool)) where
  -- The constructor, at a time, with the times of the packet's link, the timeout of the first hop
  -- and the hops to the destination.
  unfoldable pub open_receipt : (L → LinkTimes) → ℕ → ℕ → ℕ → Packet D L → Result Receipt
  open_receipt times first_hop hops now p = elim p.destination [
    | none ↦ throw "Packet with destination is required"
    | some d ↦ (do
      hash ← get_hash net p
      truncated_hash ← get_truncated_hash net p
      elim (net.dest_type d) [
        | link ↦ elim p.destination_link [
          | none ↦ throw "Packet is not associated with a Link"
          | some l ↦ ok (new_receipt hash truncated_hash (identity d) now (link_timeout (times l)))
        ]
        | single ↦
            ok (new_receipt hash truncated_hash (identity d) now (path_timeout first_hop hops))
        | group ↦
            ok (new_receipt hash truncated_hash (identity d) now (path_timeout first_hop hops))
        | plain ↦
            ok (new_receipt hash truncated_hash (identity d) now (path_timeout first_hop hops))
      ])
  ]

-- A receipt that is concluded by a valid proof.
unfoldable pub conclude : ℕ → Receipt → Receipt
conclude now r = record r {
  status = delivered;
  proved = true;
  concluded_at = now;
  calls = suc r.calls;
}

-- What a valid proof tells the link: a sample of its round trip and when it was proved.
pub record LinkProof : Type 0 where
  pub rtt_sample : ℕ
  pub last_proof : ℕ

-- A proof over a link, which `validate` checks with the peer's key.
unfoldable pub validate_link_proof :
    (List ℕ → List ℕ → Bool) → ℕ → List ℕ → Receipt → Bool × Receipt × Option LinkProof
validate_link_proof validate now proof_bytes r =
    if same_bytes (left proof_bytes 32) r.hash && validate (mid proof_bytes 32 64) r.hash
    then (true, conclude now r, some (record { rtt_sample = now - r.sent_at; last_proof = now }))
    else (false, r, none)

-- The test of a signature by an identity that may be absent.
abbrev pub verified : Option (List ℕ → List ℕ → Bool) → List ℕ → List ℕ → Bool
verified none signature hash = false
verified (some validate) signature hash = validate signature hash

-- Explicit proofs carry the hash before the signature, implicit ones the signature alone.
unfoldable pub validate_proof : ℕ → List ℕ → Receipt → Bool × Receipt
validate_proof now proof_bytes r =
    if length proof_bytes == expl_length
    then (if same_bytes (left proof_bytes 32) r.hash
          && verified r.identity (mid proof_bytes 32 64) r.hash
        then (true, conclude now r)
        else (false, r))
    else if length proof_bytes == impl_length
    then (if verified r.identity (left proof_bytes 64) r.hash
        then (true, conclude now r)
        else (false, r))
    else (false, r)

-- The proof's packet gives the hops, and its link, if it came over one, the check of signatures.
unfoldable pub validate_proof_packet :
    Option (List ℕ → List ℕ → Bool) → ℕ → ℕ → List ℕ → Receipt → Bool × Receipt × Option LinkProof
validate_proof_packet none hops now proof_bytes r =
    let (valid, s) = validate_proof now proof_bytes (record r { hops = hops }) in (valid, s, none)
validate_proof_packet (some validate) hops now proof_bytes r =
    validate_link_proof validate now proof_bytes (record r { hops = hops })

unfoldable pub is_timed_out : ℕ → Receipt → Bool
is_timed_out now r = elim r.timeout [
  | pos t ↦ ltb (r.sent_at + t * 1_000_000) now
  | negsuc t ↦ ltb r.sent_at (now + suc t * 1_000_000)
]

-- A timeout of -1 is a cull.
abbrev pub timeout_status : ℤ → Status
timeout_status (pos t) = failed
timeout_status (negsuc zero) = culled
timeout_status (negsuc (suc t)) = failed

abbrev pub is_sent : Status → Bool
is_sent sent = true
is_sent failed = false
is_sent delivered = false
is_sent culled = false

unfoldable pub check_timeout : ℕ → Receipt → Receipt
check_timeout now r =
    if is_sent r.status && is_timed_out now r
    then record r { status = timeout_status r.timeout; concluded_at = now }
    else r

unfoldable pub set_timeout : ℤ → Receipt → Receipt
set_timeout timeout r = record r { timeout = timeout }
