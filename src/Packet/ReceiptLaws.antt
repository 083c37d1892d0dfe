-- ===== src/Packet/ReceiptLaws.antt =====
-- What a receipt comes to, whatever happens to it.
use rns.Prelude.{
  ℕ, zero, suc, ◌+◌, ◌*◌, ◌/◌, ◌<◌, ◌≡◌, ◌≢◌, ◌∙◌, refl, sym, ◌⊎◌, inl, inr, List, [], ◌∷◌, Bool,
  true, false, ◌&&◌, none, some, max, ltb, ◌==◌, if◌then◌else◌, Bool-cases, arith, length,
}
use rns.Prelude.Int.{ℤ, pos, negsuc}
use rns.Bytes.{left, mid, same_bytes}
use rns.Channel.State.{Status, failed, sent, delivered, culled}
use rns.Packet.Receipt.{
  Receipt, LinkTimes, link_timeout, conclude, validate_proof, validate_link_proof,
  validate_proof_packet, verified, check_timeout, is_timed_out, timeout_status, set_timeout,
  is_sent, expl_length, impl_length,
}

-- What can happen to a receipt: a proof comes, over its link or not; its timeout is looked at or set.
pub data Event : Type 0 where
  proof_comes : Bool → ℕ → ℕ → List ℕ → Event
  timeout_checked : ℕ → Event
  timeout_set : ℤ → Event

module _ (peer : List ℕ → List ℕ → Bool) where
  unfoldable pub happen : Event → Receipt → Receipt
  happen (proof_comes over_link hops now proof_bytes) r =
      (validate_proof_packet (if over_link then some peer else none) hops now proof_bytes r).1
  happen (timeout_checked now) r = check_timeout now r
  happen (timeout_set timeout) r = set_timeout timeout r

  unfoldable pub run : List Event → Receipt → Receipt
  run [] r = r
  run (e ∷ es) r = run es (happen e r)

  -- A signature of the packet's hash that the destination's identity or the link's peer accepts.
  unfoldable pub IsSignedReceipt : Receipt → Type 0
  IsSignedReceipt r =
      (signature : List ℕ) × ((verified r.identity signature r.hash ≡ true)
        ⊎ (peer signature r.hash ≡ true))

  -- What an event does to a receipt: it keeps the hash and the identity, and the status stays, or
  -- it was SENT and does not become DELIVERED, or there is a signature.
  IsChange : Receipt → Receipt → Type 0
  IsChange r s =
      (s.hash ≡ r.hash)
      × (s.identity ≡ r.identity)
      × ((s.status ≡ r.status)
          ⊎ ((r.status ≡ sent) × ((s.status ≡ failed) ⊎ (s.status ≡ culled)))
          ⊎ ((s.status ≡ delivered) × IsSignedReceipt r))

  link_proof-IsChange :
      (now : ℕ) (bytes : List ℕ) (r : Receipt)
      → IsChange r ((validate_link_proof peer now bytes r).1)
  unfolding IsChange validate_link_proof conclude IsSignedReceipt
  link_proof-IsChange now bytes r =
      elim (Bool-cases (same_bytes (left bytes 32) r.hash && peer (mid bytes 32 64) r.hash)) [
        | inl e ↦ rw e (refl, refl, inr (inr (refl, (mid bytes 32 64, inr (ground arith)))))
        | inr e ↦ rw e (refl, refl, inl refl)
      ]

  proof-IsChange :
      (now : ℕ) (bytes : List ℕ) (r : Receipt) → IsChange r ((validate_proof now bytes r).1)
  unfolding IsChange validate_proof conclude IsSignedReceipt
  proof-IsChange now bytes r = elim (Bool-cases (length bytes == expl_length)) [
    | inl long ↦
        elim (Bool-cases
          (same_bytes (left bytes 32) r.hash && verified r.identity (mid bytes 32 64) r.hash)) [
            | inl e ↦
                rw (long, e) (refl, refl, inr (inr (refl, (mid bytes 32 64, inl (ground arith)))))
            | inr e ↦ rw (long, e) (refl, refl, inl refl)
          ]
    | inr other ↦ elim (Bool-cases (length bytes == impl_length)) [
      | inl short ↦ elim (Bool-cases (verified r.identity (left bytes 64) r.hash)) [
        | inl e ↦ rw (other, short, e) (refl, refl, inr (inr (refl, (left bytes 64, inl e))))
        | inr e ↦ rw (other, short, e) (refl, refl, inl refl)
      ]
      | inr neither ↦ rw (other, neither) (refl, refl, inl refl)
    ]
  ]

  timeout_status-cases : (t : ℤ) → (timeout_status t ≡ failed) ⊎ (timeout_status t ≡ culled)
  timeout_status-cases (pos t) = inl refl
  timeout_status-cases (negsuc zero) = inr refl
  timeout_status-cases (negsuc (suc t)) = inl refl

  is_sent-sent : (x : Status) → is_sent x ≡ true → x ≡ sent
  is_sent-sent sent h = refl
  is_sent-sent failed h = ground arith
  is_sent-sent delivered h = ground arith
  is_sent-sent culled h = ground arith

  check_timeout-IsChange : (now : ℕ) (r : Receipt) → IsChange r (check_timeout now r)
  unfolding IsChange check_timeout
  check_timeout-IsChange now r = elim (Bool-cases (is_sent r.status && is_timed_out now r)) [
    | inl e ↦ rw e (
      refl,
      refl,
      inr (inl (is_sent-sent r.status (ground arith), timeout_status-cases r.timeout)),
    )
    | inr e ↦ rw e (refl, refl, inl refl)
  ]

  happen-IsChange : (e : Event) (r : Receipt) → IsChange r (happen e r)
  unfolding happen validate_proof_packet set_timeout IsChange IsSignedReceipt
  happen-IsChange (proof_comes true hops now bytes) r =
      link_proof-IsChange now bytes (record r { hops = hops })
  happen-IsChange (proof_comes false hops now bytes) r =
      proof-IsChange now bytes (record r { hops = hops })
  happen-IsChange (timeout_checked now) r = check_timeout-IsChange now r
  happen-IsChange (timeout_set timeout) r = (refl, refl, inl refl)

  IsSignedReceipt-kept :
      (r s : Receipt)
      → s.hash ≡ r.hash
      → s.identity ≡ r.identity
      → IsSignedReceipt s
      → IsSignedReceipt r
  unfolding IsSignedReceipt
  IsSignedReceipt-kept r s e f (signature, h) = (signature, rw (← e, ← f) h)

  -- Whatever sequence of proofs, timeout checks and timeout changes happens to a receipt that is
  -- not delivered, if it ends delivered then there is a signature of its packet's hash that the
  -- destination's identity or the link's peer accepts.
  pub run-delivered :
      (events : List Event) (r : Receipt)
      → r.status ≢ delivered
      → (run events r).status ≡ delivered
      → IsSignedReceipt r
  unfolding run IsChange
  run-delivered [] r new h = absurd (new h)
  run-delivered (e ∷ events) r new h =
      let s : Receipt = happen e r in
      let (hash, identity, change) = happen-IsChange e r in
      elim change [
        | inl same ↦
            IsSignedReceipt-kept r s hash identity
              (run-delivered events s (λ d. new (sym same ∙ d)) h)
        | inr (inl (_, inl f)) ↦
            IsSignedReceipt-kept r s hash identity (run-delivered events s (ground arith) h)
        | inr (inl (_, inr f)) ↦
            IsSignedReceipt-kept r s hash identity (run-delivered events s (ground arith) h)
        | inr (inr (_, signed)) ↦ signed
      ]

  -- A delivered receipt stays delivered, with its hash, through every sequence of proofs, timeout
  -- checks and timeout changes.
  pub run-stays_delivered :
      (events : List Event) (r : Receipt)
      → r.status ≡ delivered
      → ((run events r).status ≡ delivered) × ((run events r).hash ≡ r.hash)
  unfolding run IsChange
  run-stays_delivered [] r h = (h, refl)
  run-stays_delivered (e ∷ events) r h =
      let s : Receipt = happen e r in
      let (hash, _, change) = happen-IsChange e r in
      let still : s.status ≡ delivered = elim change [
        | inl same ↦ same ∙ h
        | inr (inl (d, _)) ↦ absurd (ground arith)
        | inr (inr (d, _)) ↦ d
      ] in
      let (done, hash') = run-stays_delivered events s still in (done, hash' ∙ hash)

-- The receipt of a packet on a link whose round trip times its timeout factor is below a second,
-- with the timeout of the constructor, fails at the first check after it was sent.
pub check_timeout-fast_link :
    (l : LinkTimes) (r : Receipt) (now : ℕ)
    → l.rtt * l.traffic_timeout_factor < 1_000_000
    → r.timeout ≡ pos (link_timeout l)
    → r.status ≡ sent
    → r.sent_at < now
    → (check_timeout now r).status ≡ failed
unfolding check_timeout is_timed_out link_timeout
check_timeout-fast_link l r now fast timeout unproved later =
    let zero_seconds : max (l.rtt * l.traffic_timeout_factor) 5000 / 1_000_000 ≡ 0 = omega arith in
    let late : ltb (r.sent_at + 0 * 1_000_000) now ≡ true = ground arith in
    rw (unproved, timeout, zero_seconds, late) refl
