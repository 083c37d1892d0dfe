-- ===== src/Channel/Receiver.antt =====
-- `channelRxEmplace` and `_receive` of Channel.cpp.
use rns.Prelude.{
  ℕ, zero, suc, ◌+◌, ◌*◌, ◌/◌, ◌%◌, ◌^◌, List, [], ◌∷◌, ◌++◌, Bool, true, not, Option, none, some,
  ltb, ◌==◌, ◌&&◌, if◌then◌else◌, length, take,
}
use rns.Channel.State.{Message, RxEnvelope, Channel, window_max_fast, seq_max, seq_modulus}

-- The comparison `(int)(next_rx - sequence) > SEQ_MAX / 2`, over signed numbers.
unfoldable pub is_wrapped : ℕ → ℕ → Bool
is_wrapped next_rx sequence = ltb (seq_max / 2 + sequence) next_rx

-- `none` is the refusal of a duplicate.
unfoldable pub rx_emplace : List RxEnvelope → RxEnvelope → ℕ → Option (List RxEnvelope)
rx_emplace [] env next_rx = some (env ∷ [])
rx_emplace (it ∷ ring) env next_rx =
    let rest = rx_emplace ring env next_rx in
    if env.sequence == it.sequence
    then none
    else if ltb env.sequence it.sequence && not (is_wrapped next_rx env.sequence)
    then some (env ∷ it ∷ ring)
    else elim rest [ none ↦ none | some r ↦ some (it ∷ r) ]

-- The first envelope with the sequence number, and the ring without it.
unfoldable pub extract : ℕ → List RxEnvelope → Option (RxEnvelope × List RxEnvelope)
extract seq [] = none
extract seq (it ∷ ring) =
    let rest = extract seq ring in
    if it.sequence == seq
    then some (it, ring)
    else elim rest [ none ↦ none | some (e, r) ↦ some (e, it ∷ r) ]

-- What the delivery loop works on: the ring, the next sequence number, and the calls made.
pub record Rx : Type 0 where
  pub ring : List RxEnvelope
  pub next : ℕ
  pub inbox : List Message

-- Every round takes an envelope out of the ring, so the ring's length is fuel enough.
unfoldable pub deliver_loop : Bool → ℕ → Rx → Rx
deliver_loop has_callback zero s = s
deliver_loop has_callback (suc fuel) s = elim (extract s.next s.ring) [
  | none ↦ s
  | some (e, ring') ↦ deliver_loop has_callback fuel (record {
    ring = ring';
    next = (s.next + 1) % seq_modulus;
    inbox = if has_callback then s.inbox ++ (e.message ∷ []) else s.inbox;
  })
]

-- The guard against stale and out-of-window sequence numbers.
unfoldable pub is_refused : ℕ → ℕ → Bool
is_refused next_rx seq =
    let overflow = (next_rx + window_max_fast) % seq_modulus in
    ltb seq next_rx && (if ltb overflow next_rx then ltb overflow seq else true)

-- An envelope that parses: the sequence number, the message type and the payload.
unfoldable pub accept : {P : Type 0} → RxEnvelope → Channel P → Channel P
accept env d =
    if is_refused d.next_rx_sequence env.sequence
    then d
    else elim (rx_emplace d.rx_ring env d.next_rx_sequence) [
      | none ↦ d
      | some ring ↦
          (let s =
              deliver_loop d.has_callback (length ring)
                (record { ring = ring; next = d.next_rx_sequence; inbox = d.inbox }) in
            record d { rx_ring = s.ring; next_rx_sequence = s.next; inbox = s.inbox })
    ]

unfoldable pub receive : {P : Type 0} → List ℕ → Channel P → Channel P
receive (t₁ ∷ t₀ ∷ s₁ ∷ s₀ ∷ l₁ ∷ l₀ ∷ payload) d =
    let len = l₁ * 2 ^ 8 + l₀ in
    let len' = if ltb (length payload) len then length payload else len in
    accept
      (record {
        sequence = s₁ * 2 ^ 8 + s₀;
        message = record { msgtype = t₁ * 2 ^ 8 + t₀; payload = take len' payload };
      })
      d
receive _ d = d
