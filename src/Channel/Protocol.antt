-- ===== src/Channel/Protocol.antt =====
-- From the sender's bytes to the receiver's callback.
use rns.Prelude.{
  ℕ, suc, ◌+◌, ◌*◌, ◌/◌, ◌%◌, ◌^◌, ◌<◌, ◌≡◌, refl, ap, List, [], ◌∷◌, Bool, true, false, arith, ltb,
  ◌==◌, ◌||◌, if◌then◌else◌, length, take, All,
}
use rns.Channel.State.{Message, Channel, open_channel}
use rns.Channel.Sender.{envelope_bytes}
use rns.Channel.Receiver.{accept, receive}
use rns.Channel.Order.{has, has_below}
use rns.Channel.Delivery.{run_of}
use rns.Channel.ExactlyOnce.{Inv, unwrapped, accept-Inv}

-- A message whose type and length fit the header.
abbrev pub IsSendable : Message → Type 0
IsSendable x = (x.msgtype < 2 ^ 16) × (length x.payload < 2 ^ 16)

take_all {ℓ} : {A : Type ℓ} (xs : List A) → take (length xs) xs ≡ xs
take_all [] = refl
take_all (x ∷ xs) = ap (◌∷◌ x) (take_all xs)

-- The receiver parses the bytes that the sender wrote for a message whose type and length fit 16
-- bits, at any 16-bit sequence number, to that number, type and payload.
pub receive-envelope_bytes :
    {P : Type 0} (x : Message) (seq : ℕ) (d : Channel P)
    → IsSendable x
    → seq < 2 ^ 16
    → receive (envelope_bytes x.msgtype seq x.payload) d
      ≡ accept (record { sequence = seq; message = x }) d
unfolding receive envelope_bytes
receive-envelope_bytes x seq d fits small =
    let len = length x.payload in
    let number : seq / 2 ^ 8 % 256 * 2 ^ 8 + seq % 256 ≡ seq = omega arith in
    let kind : x.msgtype / 2 ^ 8 % 256 * 2 ^ 8 + x.msgtype % 256 ≡ x.msgtype = omega arith in
    let read : len % 2 ^ 16 / 2 ^ 8 % 256 * 2 ^ 8 + len % 2 ^ 16 % 256 ≡ len = omega arith in
    let whole : (if ltb len len then len else len) ≡ len = ground arith in
    rw (number, kind, read, whole, take_all x.payload)

-- The envelopes of the numbers `is`, received one after the other.
unfoldable pub receive_all : {P : Type 0} → (ℕ → Message) → List ℕ → Channel P → Channel P
receive_all m [] d = d
receive_all m (i ∷ is) d =
    receive_all m is (receive (envelope_bytes (m i).msgtype i (m i).payload) d)

unfoldable pub occurs : ℕ → List ℕ → Bool
occurs i [] = false
occurs i (j ∷ js) = j == i || occurs i js

-- A fresh channel with its receive callback set.
unfoldable pub listening : (P : Type 0) → Channel P
listening P = record (open_channel P) { has_callback = true }

listening-Inv : (P : Type 0) (m : ℕ → Message) → Inv m (λ i. false) (listening P)
unfolding listening open_channel run_of has
listening-Inv P m = record {
  callback = refl;
  rising = tt;
  carries = tt;
  handed = refl;
  before = λ i h. absurd (omega arith);
  waiting = λ i h. refl;
  bounded = λ i h. cc;
}

-- What has come after a list of envelopes.
abbrev or_occurs : (ℕ → Bool) → List ℕ → ℕ → Bool
or_occurs got is i = occurs i is || got i

Inv-same :
    {P : Type 0} (m : ℕ → Message) (got got' : ℕ → Bool) (d : Channel P)
    → ((i : ℕ) → got i ≡ got' i)
    → Inv m got d
    → Inv m got' d
Inv-same m got got' d same inv = record {
  callback = inv.callback;
  rising = inv.rising;
  carries = inv.carries;
  handed = inv.handed;
  before = λ i h. ground (arith, inv.before i, same i);
  waiting = λ i h. ground (arith, inv.waiting i, same i);
  bounded = λ i h. ground (arith, inv.bounded i, same i);
}

receive_all-Inv :
    {P : Type 0} (m : ℕ → Message) (is : List ℕ) (got : ℕ → Bool) (d : Channel P)
    → ((i : ℕ) → IsSendable (m i))
    → All (λ i. i < unwrapped) is
    → Inv m got d
    → Inv m (or_occurs got is) (receive_all m is d)
unfolding receive_all occurs
receive_all-Inv m [] got d fits small inv = Inv-same m got _ d (λ i. refl) inv
receive_all-Inv m (i ∷ is) got d fits (here, small) inv =
    rw (receive-envelope_bytes (m i) i d (fits i) (omega arith)) (
      Inv-same m _ _ _ (λ j. ground arith)
        (receive_all-Inv m is (λ j. i == j || got j) _ fits small (accept-Inv m got i d here inv)))

-- Exactly once, in order: whatever the order and the repetitions in which the envelopes of the
-- first 65,487 messages of a sender come (each message fitting the header), the receive callback
-- has been called with the messages numbered 0, 1, … below the next expected number, once each;
-- all of these have come, and the message with the next expected number has not.
pub receive_all-delivers :
    (P : Type 0) (m : ℕ → Message) (is : List ℕ)
    → ((i : ℕ) → IsSendable (m i))
    → All (λ i. i < unwrapped) is
    → let d = receive_all m is (listening P) in
      (d.inbox ≡ run_of m 0 d.next_rx_sequence)
      × ((i : ℕ) → i < d.next_rx_sequence → occurs i is ≡ true)
      × (occurs d.next_rx_sequence is ≡ false)
receive_all-delivers P m is fits small =
    let inv = receive_all-Inv m is (λ i. false) (listening P) fits small (listening-Inv P m) in
    let d = receive_all m is (listening P) in
    let next = d.next_rx_sequence in
    (
      inv.handed,
      λ i h. ground (arith, inv.before i h),
      ground
          (arith, inv.waiting next (omega arith), has_below d.rx_ring (suc next) next inv.rising),
    )
