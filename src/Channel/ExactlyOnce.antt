-- ===== src/Channel/ExactlyOnce.antt =====
-- A receiver that is fed the sender's envelopes in any order, any number of times each, calls its
-- callback for each message once, in order, up to the first that has not come.
use rns.Prelude.{
  ℕ, suc, ◌+◌, ◌-◌, ◌≤◌, ◌<◌, ◌≡◌, ◌∙◌, refl, sym, ap, List, ◌++◌, Bool, true, false, some, arith,
  ltb, ◌==◌, ◌||◌, length, Bool-cases, inl, inr,
}
use rns.Channel.State.{Message, RxEnvelope, Channel}
use rns.Channel.Receiver.{Rx, is_refused, rx_emplace, deliver_loop, accept}
use rns.Channel.Order.{
  has, Rising, Carries, Rising-mono, has_below, rx_emplace-known, rx_emplace-new,
}
use rns.Channel.Delivery.{run_of, run_of-append, Delivers, deliver_loop-run}

-- The numbers up to which the guard's comparisons never wrap.
abbrev pub unwrapped : ℕ
unwrapped = 65_487

-- `got i` says that the envelope numbered `i` has come.
pub record Inv {P : Type 0} (m : ℕ → Message) (got : ℕ → Bool) (d : Channel P) : Type 0 where
  pub callback : d.has_callback ≡ true
  pub rising : Rising (suc d.next_rx_sequence) d.rx_ring
  pub carries : Carries m d.rx_ring
  pub handed : d.inbox ≡ run_of m 0 d.next_rx_sequence
  pub before : (i : ℕ) → i < d.next_rx_sequence → got i ≡ true
  pub waiting : (i : ℕ) → d.next_rx_sequence ≤ i → has i d.rx_ring ≡ got i
  pub bounded : (i : ℕ) → got i ≡ true → i < unwrapped

is_refused-old : (next seq : ℕ) → next ≤ unwrapped → seq < next → is_refused next seq ≡ true
unfolding is_refused
is_refused-old next seq small old = ground arith

is_refused-new : (next seq : ℕ) → next ≤ seq → is_refused next seq ≡ false
unfolding is_refused
is_refused-new next seq new = ground arith

abbrev numbered : (ℕ → Message) → ℕ → RxEnvelope
numbered m i = record { sequence = i; message = m i }

abbrev and_got : ℕ → (ℕ → Bool) → ℕ → Bool
and_got i got j = i == j || got j

module _ {P : Type 0} (m : ℕ → Message) (got : ℕ → Bool) (i : ℕ) (d : Channel P)
    (small : i < unwrapped) (inv : Inv m got d) where
  next_small : d.next_rx_sequence ≤ unwrapped
  next_small = elim (Bool-cases (d.next_rx_sequence == 0)) [
    | inl start ↦ ground arith
    | inr later ↦
        (let last =
            inv.bounded (d.next_rx_sequence - 1)
              (inv.before (d.next_rx_sequence - 1) (ground arith)) in
          ground arith)
  ]

  -- What has come already changes nothing.
  again : got i ≡ true → Inv m (and_got i got) d
  again known = record {
    callback = inv.callback;
    rising = inv.rising;
    carries = inv.carries;
    handed = inv.handed;
    before = λ j h. ground (arith, inv.before j);
    waiting = λ j h. ground (arith, inv.waiting j);
    bounded = λ j h. ground (arith, inv.bounded j);
  }

  accept-old : i < d.next_rx_sequence → accept (numbered m i) d ≡ d
  unfolding accept
  accept-old old = rw (is_refused-old d.next_rx_sequence i next_small old)

  accept-duplicate : d.next_rx_sequence ≤ i → has i d.rx_ring ≡ true → accept (numbered m i) d ≡ d
  unfolding accept
  accept-duplicate new known = rw (
    is_refused-new d.next_rx_sequence i new,
    rx_emplace-known d.rx_ring (numbered m i) (suc d.next_rx_sequence) d.next_rx_sequence inv.rising
        new known,
  )

  abbrev delivered_state : List RxEnvelope → Rx
  delivered_state ring =
      deliver_loop true (length ring)
        (record { ring = ring; next = d.next_rx_sequence; inbox = d.inbox })

  abbrev after : Rx → Channel P
  after s = record d { rx_ring = s.ring; next_rx_sequence = s.next; inbox = s.inbox }

  accept-placed :
      (ring : List RxEnvelope)
      → d.next_rx_sequence ≤ i
      → rx_emplace d.rx_ring (numbered m i) d.next_rx_sequence ≡ some ring
      → accept (numbered m i) d ≡ after (delivered_state ring)
  unfolding accept
  accept-placed ring new placed = rw (is_refused-new d.next_rx_sequence i new, placed, inv.callback)

  after-Inv :
      (ring : List RxEnvelope) (k : ℕ) (s : Rx)
      → d.next_rx_sequence ≤ i
      → ((seq : ℕ) → has seq ring ≡ (i == seq || has seq d.rx_ring))
      → Delivers m ring d.next_rx_sequence d.inbox k s
      → Inv m (and_got i got) (after s)
  after-Inv ring k s new same r = record {
    callback = inv.callback;
    rising =
        Rising-mono s.ring (suc (d.next_rx_sequence + k)) (suc s.next) (omega (arith, r.moved))
          r.rising;
    carries = r.carries;
    handed =
        r.handed
        ∙ ap (λ (x : List Message). x ++ run_of m d.next_rx_sequence k) inv.handed
        ∙ run_of-append m d.next_rx_sequence k 0 d.next_rx_sequence (omega arith)
        ∙ ap (run_of m 0) (sym r.moved);
    before = λ j h. ground (arith, inv.before j, inv.waiting j, r.taken j, same j, r.moved);
    waiting = λ j h. ground (arith, inv.waiting j, r.kept j, same j, r.moved);
    bounded = λ j h. ground (arith, inv.bounded j);
  }

  -- One envelope, old, known or new, keeps the invariant.
  pub accept-Inv : Inv m (and_got i got) (accept (numbered m i) d)
  accept-Inv = elim (Bool-cases (ltb i d.next_rx_sequence)) [
    | inl old ↦ rw (accept-old (ground arith)) (again (inv.before i (ground arith)))
    | inr new ↦ elim (Bool-cases (has i d.rx_ring)) [
      | inl known ↦
          rw (accept-duplicate (ground arith) known)
            (again (sym (inv.waiting i (ground arith)) ∙ known))
      | inr fresh ↦
          (let next = d.next_rx_sequence in
            let (ring, placed, r, c, same) =
              rx_emplace-new m d.rx_ring (numbered m i) next next
                (Rising-mono d.rx_ring (suc next) next (omega arith) inv.rising) inv.carries
                (ground arith) (ground arith) refl fresh in
            let (k, run) =
              deliver_loop-run m ring (length ring) next d.inbox (omega arith) r c
                (λ seq h. in_range ring r same seq h) in
            rw (accept-placed ring (ground arith) placed)
              (after-Inv ring k _ (ground arith) same run))
    ]
  ]
    where
      in_range :
          (ring : List RxEnvelope)
          → Rising d.next_rx_sequence ring
          → ((seq : ℕ) → has seq ring ≡ (i == seq || has seq d.rx_ring))
          → (seq : ℕ) → has seq ring ≡ true
          → seq < 0xffff
      in_range ring r same seq h = ground (
        arith,
        same seq,
        inv.waiting seq,
        inv.bounded seq,
        has_below ring d.next_rx_sequence seq r,
      )
