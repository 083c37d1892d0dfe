-- ===== src/Channel/Sender.antt =====
-- `is_ready_to_send`, `send`, `poll`, `_shutdown`, `mdu` and `outstanding` of Channel.cpp.
use rns.Prelude.{
  ℕ, suc, ◌+◌, ◌-◌, ◌/◌, ◌%◌, ◌^◌, List, [], ◌∷◌, ◌++◌, Bool, true, false, not, none, some, ltb,
  leb, ◌==◌, ◌&&◌, ◌||◌, if◌then◌else◌, length, Result, ok, ◌>>=◌,
}
use rns.Channel.State.{
  Status, failed, delivered, culled, TxEnvelope, Packets, LinkView, Channel, seq_modulus, max_tries,
}
use rns.Channel.Window.{window_open, window_close, timeout_time}

unfoldable pub is_delivered : Status → Bool
is_delivered delivered = true
is_delivered _ = false

unfoldable pub is_culled : Status → Bool
is_culled culled = true
is_culled _ = false

-- `Bytes` of the envelope header `>HHH`, and the payload.
unfoldable pub envelope_bytes : ℕ → ℕ → List ℕ → List ℕ
envelope_bytes msgtype seq payload =
    let len = length payload % 2 ^ 16 in
    msgtype / 2 ^ 8 % 256
    ∷ msgtype % 256
    ∷ seq / 2 ^ 8 % 256
    ∷ seq % 256
    ∷ len / 2 ^ 8 % 256
    ∷ len % 256
    ∷ payload

unfoldable pub channel_mdu : LinkView → ℕ
channel_mdu link = if leb link.mdu 6 then 0 else link.mdu - 6

module _ {P : Type 0} where
  unfoldable pub outstanding : Channel P → ℕ
  outstanding d = length d.tx_ring

  unfoldable pub shutdown : Channel P → Channel P
  shutdown d = record d { tx_ring = []; rx_ring = []; has_callback = false }

module _ {P : Type 0} (packets : Packets P) where
  -- A packet without a receipt counts as failed.
  unfoldable pub status_of : TxEnvelope P → Status
  status_of e = elim (packets.receipt e.packet) [ none ↦ failed | some st ↦ st ]

  unfoldable pub undelivered : List (TxEnvelope P) → ℕ
  undelivered [] = 0
  undelivered (e ∷ es) = (if is_delivered (status_of e) then 0 else 1) + undelivered es

  unfoldable pub is_ready_to_send : LinkView → Channel P → Bool
  is_ready_to_send link d = link.active && ltb (undelivered d.tx_ring) d.window

  -- The envelope of a new message, sent once.
  unfoldable pub new_envelope : LinkView → ℕ → ℕ → List ℕ → Channel P → TxEnvelope P
  new_envelope link now msgtype payload d =
      let raw = envelope_bytes msgtype d.next_sequence payload in
      record {
        sequence = d.next_sequence;
        raw = raw;
        packet = packets.transmit raw;
        tries = 1;
        deadline = now + timeout_time link.rtt 1 (length d.tx_ring);
      }

  unfoldable pub enqueue : TxEnvelope P → Channel P → Channel P
  enqueue e d = record d {
    next_sequence = (d.next_sequence + 1) % seq_modulus;
    tx_ring = d.tx_ring ++ (e ∷ []);
  }

  -- The result says whether the message was taken.
  unfoldable pub send : LinkView → ℕ → ℕ → List ℕ → Channel P → Bool × Channel P
  send link now msgtype payload d =
      if not (is_ready_to_send link d)
      then (false, d)
      else if link.mdu == 0
          || ltb link.mdu (length (envelope_bytes msgtype d.next_sequence payload))
      then (false, d)
      else (true, enqueue (new_envelope link now msgtype payload d) d)

  -- An envelope whose deadline passed, or whose receipt was culled, with the ring's size.
  unfoldable pub retry : ℕ → ℕ → ℕ → TxEnvelope P → Result (TxEnvelope P)
  retry rtt now ring e = do
    p ← packets.resend e.packet
    ok (record e {
      packet = p;
      tries = e.tries + 1;
      deadline = now + timeout_time rtt (e.tries + 1) ring;
    })

  -- The loop of `poll`: the envelopes kept so far, in order, and those not yet looked at. The flag
  -- says that the link is to be torn down.
  unfoldable pub poll_loop :
      LinkView
      → ℕ
      → List (TxEnvelope P)
      → List (TxEnvelope P)
      → Channel P
      → Result (Bool × Channel P)
  poll_loop link now kept [] d = ok (false, record d { tx_ring = kept })
  poll_loop link now kept (e ∷ rest) d =
      let st = status_of e in
      let dropped = poll_loop link now kept rest (window_open link.rtt d) in
      let waiting = poll_loop link now (kept ++ (e ∷ [])) rest d in
      let retried = (do
        e' ← retry link.rtt now (length kept + suc (length rest)) e
        poll_loop link now (kept ++ (e' ∷ [])) rest (window_close d)) in
      if is_delivered st
      then dropped
      else if leb e.deadline now || is_culled st
      then (if leb max_tries e.tries then ok (true, shutdown d) else retried)
      else waiting

  unfoldable pub poll : LinkView → ℕ → Channel P → Result (Bool × Channel P)
  poll link now d = poll_loop link now [] d.tx_ring d
