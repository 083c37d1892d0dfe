-- ===== src/Channel/Tests.antt =====
-- Runs of the channel, and the theorems at concrete inputs.
use rns.Prelude.{
  ℕ, ◌+◌, ◌%◌, ◌≤◌, ◌<◌, ◌≡◌, refl, List, [], ◌∷◌, ◌++◌, true, false, some, arith, ok, map,
}
use rns.Channel.State.{
  Message, Channel, TxEnvelope, Packets, LinkView, Status, sent, delivered, open_channel,
}
use rns.Channel.Window.{window_open, window_close, timeout_time, widen, count_fast}
use rns.Channel.Sender.{
  send, poll, poll_loop, retry, is_ready_to_send, undelivered, status_of, is_delivered, is_culled,
  envelope_bytes, new_envelope, enqueue,
}
use rns.Channel.Receiver.{
  receive, accept, rx_emplace, is_refused, is_wrapped, extract, deliver_loop,
}
use rns.Channel.WindowInv.{WindowInv, poll-WindowInv}
use rns.Channel.SenderLaws.{send-taken, poll-keeps_pending, pending}
use rns.Channel.Delivery.{run_of}
use rns.Channel.Protocol.{
  receive-envelope_bytes, receive_all, receive_all-delivers, listening, occurs,
}

-- Message `i` has type 256 and the one byte `i % 256`.
abbrev counting : ℕ → Message
counting i = record { msgtype = 256; payload = i % 256 ∷ [] }

-- A packet is its status; a resend leaves it as it is.
abbrev by_status : Packets Status
by_status = record { transmit = λ raw. sent; receipt = λ p. some p; resend = λ p. ok p }

abbrev fast_link : LinkView
fast_link = record { active = true; mdu = 431; rtt = 100_000 }

-- 2 comes first, then 0 twice, then 1; 4 waits.
abbrev arrivals : List ℕ
arrivals = 2 ∷ 0 ∷ 0 ∷ 1 ∷ 4 ∷ []

arrivals_run : (receive_all counting arrivals (listening ℕ)).next_rx_sequence ≡ 3
unfolding receive_all receive envelope_bytes accept rx_emplace is_refused is_wrapped extract
    deliver_loop listening open_channel
arrivals_run = refl

receive_all-delivers_example :
    let d = receive_all counting arrivals (listening ℕ) in
    (d.inbox ≡ run_of counting 0 d.next_rx_sequence)
    × ((i : ℕ) → i < d.next_rx_sequence → occurs i arrivals ≡ true)
    × (occurs d.next_rx_sequence arrivals ≡ false)
receive_all-delivers_example =
    receive_all-delivers ℕ counting arrivals (λ i. omega arith) (omega arith)

receive-envelope_bytes_example :
    receive (envelope_bytes 256 65535 (7 ∷ [])) (listening ℕ)
    ≡ accept
        (record { sequence = 65535; message = record { msgtype = 256; payload = 7 ∷ [] } })
        (listening ℕ)
receive-envelope_bytes_example =
    receive-envelope_bytes (record { msgtype = 256; payload = 7 ∷ [] }) 65535 (listening ℕ)
      (omega arith) (omega arith)

abbrev envelope : ℕ → Status → ℕ → ℕ → TxEnvelope Status
envelope seq st tries deadline = record {
  sequence = seq;
  raw = seq ∷ [];
  packet = st;
  tries = tries;
  deadline = deadline;
}

-- One delivered, one due for its first retry, one not due.
abbrev busy : Channel Status
busy = record (open_channel Status) {
  tx_ring = envelope 0 delivered 1 50 ∷ envelope 1 sent 1 50 ∷ envelope 2 sent 1 500 ∷ [];
}

abbrev polled : Channel Status
polled = record (open_channel Status) {
  window = 2;
  fast_rate_rounds = 1;
  tx_ring = envelope 1 sent 2 (100 + timeout_time 100_000 2 2) ∷ envelope 2 sent 1 500 ∷ [];
}

poll-busy : poll by_status fast_link 100 busy ≡ ok (false, polled)
unfolding poll poll_loop retry status_of is_delivered is_culled window_open window_close
    open_channel widen count_fast timeout_time
poll-busy = refl

poll-keeps_pending_example : map (λ e. e.raw) polled.tx_ring ≡ pending by_status busy.tx_ring
poll-keeps_pending_example = poll-keeps_pending by_status fast_link 100 busy polled poll-busy

busy-WindowInv : WindowInv busy
unfolding open_channel
busy-WindowInv = omega arith

poll-WindowInv_example : WindowInv polled
poll-WindowInv_example =
    poll-WindowInv by_status fast_link 100 busy polled false busy-WindowInv poll-busy

abbrev one_sent : Channel Status
one_sent =
    enqueue by_status (new_envelope by_status fast_link 7 256 (1 ∷ []) (open_channel Status))
      (open_channel Status)

send_first : send by_status fast_link 7 256 (1 ∷ []) (open_channel Status) ≡ (true, one_sent)
unfolding send is_ready_to_send undelivered envelope_bytes open_channel
send_first = refl

send-taken_example :
    (fast_link.active ≡ true)
    × (1 + 6 ≤ fast_link.mdu)
    × (one_sent.next_sequence ≡ ((open_channel Status).next_sequence + 1) % 0x10000)
    × (map (λ e. e.raw) one_sent.tx_ring
        ≡ map (λ e. e.raw) (open_channel Status).tx_ring
          ++ (envelope_bytes 256 (open_channel Status).next_sequence (1 ∷ []) ∷ []))
    × (undelivered by_status one_sent.tx_ring ≤ one_sent.window)
    × (one_sent.rx_ring ≡ (open_channel Status).rx_ring)
send-taken_example =
    send-taken by_status fast_link 7 256 (1 ∷ []) (open_channel Status) one_sent send_first
