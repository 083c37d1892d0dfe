-- ===== src/Channel/SenderLaws.antt =====
-- What `send` and `poll` promise: the window, the numbering, and that no undelivered message is lost.
use rns.Prelude.{
  ℕ, suc, ◌+◌, ◌%◌, ◌≤◌, ◌<◌, ◌≡◌, ◌∙◌, refl, sym, ap, List, [], ◌∷◌, ◌++◌, Bool, true, false,
  arith, leb, ◌||◌, if◌then◌else◌, Bool-cases, inl, inr, Result, ok, throw, fault, stuck, ◌>>=◌,
  length, map, append_assoc, append-nil,
}
use mathlib.Core.List.{map-append}
use rns.Channel.State.{Channel, TxEnvelope, Packets, LinkView, seq_modulus, max_tries}
use rns.Channel.Window.{window_open, window_close, timeout_time}
use rns.Channel.Sender.{
  envelope_bytes, new_envelope, enqueue, is_delivered, is_culled, status_of, undelivered,
  is_ready_to_send, shutdown, retry, poll_loop, poll, send,
}

module _ {P : Type 0} (packets : Packets P) where
  undelivered-append :
      (xs : List (TxEnvelope P)) (e : TxEnvelope P)
      → undelivered packets (xs ++ (e ∷ [])) ≤ undelivered packets xs + 1
  unfolding undelivered
  undelivered-append [] e = ground arith
  undelivered-append (x ∷ xs) e = ground (arith, undelivered-append xs e)

  length-envelope_bytes :
      (msgtype seq : ℕ) (payload : List ℕ)
      → length (envelope_bytes msgtype seq payload) ≡ 6 + length payload
  unfolding envelope_bytes
  length-envelope_bytes msgtype seq payload = omega arith

  send_guards :
      (link : LinkView) (now msgtype : ℕ) (payload : List ℕ) (d d' : Channel P)
      → send packets link now msgtype payload d ≡ (true, d')
      → (link.active ≡ true)
        × (undelivered packets d.tx_ring < d.window)
        × (length (envelope_bytes msgtype d.next_sequence payload) ≤ link.mdu)
        × (d' ≡ enqueue packets (new_envelope packets link now msgtype payload d) d)
  unfolding send is_ready_to_send
  send_guards link now msgtype payload d d' h = ground arith

  -- A message that send takes was offered over an active link and fits its MDU with the header;
  -- it gets the next sequence number modulo 2^16, its envelope bytes join the transmit ring at
  -- the end, at most a window of envelopes is undelivered afterwards, and the receive ring is
  -- untouched.
  pub send-taken :
      (link : LinkView) (now msgtype : ℕ) (payload : List ℕ) (d d' : Channel P)
      → send packets link now msgtype payload d ≡ (true, d')
      → (link.active ≡ true)
        × (length payload + 6 ≤ link.mdu)
        × (d'.next_sequence ≡ (d.next_sequence + 1) % seq_modulus)
        × (map (λ e. e.raw) d'.tx_ring
            ≡ map (λ e. e.raw) d.tx_ring ++ (envelope_bytes msgtype d.next_sequence payload ∷ []))
        × (undelivered packets d'.tx_ring ≤ d'.window)
        × (d'.rx_ring ≡ d.rx_ring)
  unfolding enqueue new_envelope
  send-taken link now msgtype payload d d' h =
      let (active, room, fits, same) = send_guards link now msgtype payload d d' h in
      rw same (
        active,
        omega (arith, length-envelope_bytes msgtype d.next_sequence payload),
        refl,
        map-append (λ e. e.raw) d.tx_ring _,
        omega
            (arith, undelivered-append d.tx_ring (new_envelope packets link now msgtype payload d)),
        refl,
      )

  -- A refusal changes nothing.
  pub send-refused :
      (link : LinkView) (now msgtype : ℕ) (payload : List ℕ) (d d' : Channel P)
      → send packets link now msgtype payload d ≡ (false, d')
      → d' ≡ d
  unfolding send
  send-refused link now msgtype payload d d' h = ground arith

  -- The messages of the envelopes that are not delivered.
  unfoldable pub pending : List (TxEnvelope P) → List (List ℕ)
  pending [] = []
  pending (e ∷ es) = if is_delivered (status_of packets e) then pending es else e.raw ∷ pending es

  abbrev raws : List (TxEnvelope P) → List (List ℕ)
  raws = map (λ e. e.raw)

  -- What a poll gives back: the ring of the pending messages, or an empty one with the teardown.
  abbrev Polled : List (List ℕ) → Result (Bool × Channel P) → Type 0
  Polled expected (ok (false, d)) = raws d.tx_ring ≡ expected
  Polled expected (ok (true, d)) = (d.tx_ring ≡ []) × (d.rx_ring ≡ []) × (d.has_callback ≡ false)
  Polled expected (throw e) = Unit {0}
  Polled expected fault = Unit {0}
  Polled expected stuck = Unit {0}

  retry-raw :
      (rtt now ring : ℕ) (e : TxEnvelope P) (next : TxEnvelope P → Result (Bool × Channel P))
      (expected : List (List ℕ))
      → ((e' : TxEnvelope P) → e'.raw ≡ e.raw → Polled expected (next e'))
      → Polled expected (retry packets rtt now ring e >>= next)
  unfolding retry
  retry-raw rtt now ring e next expected h = go (packets.resend e.packet)
    where
      go :
          (r : Result P)
          → Polled expected (
              (r >>= λ p. ok (record e {
                packet = p;
                tries = e.tries + 1;
                deadline = now + timeout_time rtt (e.tries + 1) ring;
              }))
              >>= next)
      go (ok p) = h _ refl
      go (throw x) = tt
      go fault = tt
      go stuck = tt

  keep_one :
      (kept rest : List (TxEnvelope P)) (e e' : TxEnvelope P) (r : Result (Bool × Channel P))
      → e'.raw ≡ e.raw
      → Polled (raws (kept ++ (e' ∷ [])) ++ pending rest) r
      → Polled (raws kept ++ (e.raw ∷ pending rest)) r
  keep_one kept rest e e' r same h =
      let split : raws (kept ++ (e' ∷ [])) ++ pending rest ≡ raws kept ++ (e.raw ∷ pending rest) =
        ap (λ (x : List (List ℕ)). x ++ pending rest) (map-append (λ e. e.raw) kept (e' ∷ []))
        ∙ append_assoc (raws kept) (e'.raw ∷ []) (pending rest)
        ∙ ap (λ (x : List ℕ). raws kept ++ (x ∷ pending rest)) same in
      rw split at h

  poll_loop-Polled :
      (link : LinkView) (now : ℕ) (kept todo : List (TxEnvelope P)) (d : Channel P)
      → Polled (raws kept ++ pending todo) (poll_loop packets link now kept todo d)
  unfolding poll_loop pending shutdown
  poll_loop-Polled link now kept [] d = sym (append-nil (raws kept))
  poll_loop-Polled link now kept (e ∷ rest) d =
      let opened = poll_loop-Polled link now kept rest (window_open link.rtt d) in
      let waiting =
        keep_one kept rest e e _ refl (poll_loop-Polled link now (kept ++ (e ∷ [])) rest d) in
      let retried =
        retry-raw link.rtt now (length kept + suc (length rest)) e
          (λ e'. poll_loop packets link now (kept ++ (e' ∷ [])) rest (window_close d))
          (raws kept ++ (e.raw ∷ pending rest))
          (λ e' same.
            keep_one kept rest e e' _ same
              (poll_loop-Polled link now (kept ++ (e' ∷ [])) rest (window_close d))) in
      elim (Bool-cases (is_delivered (status_of packets e))) [
        | inl arrived ↦ rw arrived opened
        | inr missing ↦
            rw missing (elim (Bool-cases (leb e.deadline now || is_culled (status_of packets e))) [
              | inl due ↦ rw due (elim (Bool-cases (leb max_tries e.tries)) [
                | inl spent ↦ rw spent (refl, refl, refl)
                | inr more ↦ rw more retried
              ])
              | inr early ↦ rw early waiting
            ])
      ]

  -- A poll that returns with the link up has dropped exactly the envelopes whose receipts were
  -- delivered: the ring holds the bytes of the others, in their order.
  pub poll-keeps_pending :
      (link : LinkView) (now : ℕ) (d d' : Channel P)
      → poll packets link now d ≡ ok (false, d')
      → map (λ e. e.raw) d'.tx_ring ≡ pending d.tx_ring
  unfolding poll
  poll-keeps_pending link now d d' e = rw e at (poll_loop-Polled link now [] d.tx_ring d)
