-- ===== src/Channel/WindowInv.antt =====
-- The bounds of the send window, kept by every operation.
use rns.Prelude.{
  ℕ, suc, ◌+◌, ◌≤◌, ◌≡◌, List, [], ◌∷◌, ◌++◌, Bool, arith, ltb, leb, ◌==◌, ◌||◌, Bool-cases, inl,
  inr, Result, ok, throw, fault, stuck, ◌>>=◌, length,
}
use rns.Channel.State.{
  Channel, TxEnvelope, Packets, LinkView, open_channel, rtt_fast, rtt_medium, window_max_fast,
  max_tries,
}
use rns.Channel.Window.{widen, count_medium, count_fast, window_open, window_close}
use rns.Channel.Sender.{is_delivered, is_culled, status_of, shutdown, retry, poll_loop, poll}

-- The window stays between 2 and its ceiling, the ceiling at 48 at most, and the ceiling keeps at
-- least three above the floor.
pub record WindowInv {P : Type 0} (d : Channel P) : Type 0 where
  pub open_enough : 2 ≤ d.window
  pub below_max : d.window ≤ d.window_max
  pub max_bound : d.window_max ≤ window_max_fast
  pub min_bound : 2 ≤ d.window_min
  pub slack : d.window_min + 3 ≤ d.window_max
  pub flexibility : d.window_flexibility ≡ 4

pub open_channel-WindowInv : (P : Type 0) → WindowInv (open_channel P)
unfolding open_channel
open_channel-WindowInv P = omega arith

module _ {P : Type 0} where
  widen-WindowInv : (d : Channel P) → WindowInv d → WindowInv (widen d)
  unfolding widen
  widen-WindowInv d v = ground arith

  count_medium-WindowInv : (d : Channel P) → WindowInv d → WindowInv (count_medium d)
  unfolding count_medium
  count_medium-WindowInv d v = ground arith

  count_fast-WindowInv : (d : Channel P) → WindowInv d → WindowInv (count_fast d)
  unfolding count_fast
  count_fast-WindowInv d v = ground arith

  reset-WindowInv :
      (d : Channel P) (fast medium : ℕ)
      → WindowInv d
      → WindowInv (record d { fast_rate_rounds = fast; medium_rate_rounds = medium })
  reset-WindowInv d fast medium v = ground arith

  pub window_open-WindowInv :
      (rtt : ℕ) (d : Channel P) → WindowInv d → WindowInv (window_open rtt d)
  unfolding window_open
  window_open-WindowInv rtt d v =
      let w = widen-WindowInv d v in
      let d' = widen d in
      let reset = record d' { fast_rate_rounds = 0 } in
      let slow = reset-WindowInv d' 0 d'.medium_rate_rounds w in
      elim (Bool-cases (rtt == 0)) [
        | inl unknown ↦ rw unknown w
        | inr known ↦ rw known (elim (Bool-cases (ltb rtt_fast rtt)) [
          | inl not_fast ↦ rw not_fast (elim (Bool-cases (ltb rtt_medium rtt)) [
            | inl not_medium ↦ rw not_medium (reset-WindowInv d' 0 0 w)
            | inr medium ↦ rw medium (count_medium-WindowInv reset slow)
          ])
          | inr fast ↦ rw fast (count_fast-WindowInv d' w)
        ])
      ]

  pub window_close-WindowInv : (d : Channel P) → WindowInv d → WindowInv (window_close d)
  unfolding window_close
  window_close-WindowInv d v = ground arith

module _ {P : Type 0} (packets : Packets P) where
  -- What a poll gives back, if it gives anything.
  abbrev Keeps : Result (Bool × Channel P) → Type 0
  Keeps (ok (torn, d)) = WindowInv d
  Keeps (throw e) = Unit {0}
  Keeps fault = Unit {0}
  Keeps stuck = Unit {0}

  retried-Keeps :
      (r : Result (TxEnvelope P)) (next : TxEnvelope P → Result (Bool × Channel P))
      → ((e : TxEnvelope P) → Keeps (next e))
      → Keeps (r >>= next)
  retried-Keeps (ok e) next h = h e
  retried-Keeps (throw x) next h = tt
  retried-Keeps fault next h = tt
  retried-Keeps stuck next h = tt

  poll_loop-Keeps :
      (link : LinkView) (now : ℕ) (kept todo : List (TxEnvelope P)) (d : Channel P)
      → WindowInv d
      → Keeps (poll_loop packets link now kept todo d)
  unfolding poll_loop shutdown
  poll_loop-Keeps link now kept [] d v = ground arith
  poll_loop-Keeps link now kept (e ∷ rest) d v =
      let opened =
        poll_loop-Keeps link now kept rest (window_open link.rtt d)
          (window_open-WindowInv link.rtt d v) in
      let waiting = poll_loop-Keeps link now (kept ++ (e ∷ [])) rest d v in
      let retried =
        retried-Keeps (retry packets link.rtt now (length kept + suc (length rest)) e)
          (λ e'. poll_loop packets link now (kept ++ (e' ∷ [])) rest (window_close d))
          (λ e'.
            poll_loop-Keeps link now (kept ++ (e' ∷ [])) rest (window_close d)
              (window_close-WindowInv d v)) in
      elim (Bool-cases (is_delivered (status_of packets e))) [
        | inl arrived ↦ rw arrived opened
        | inr pending ↦
            rw pending (elim (Bool-cases (leb e.deadline now || is_culled (status_of packets e))) [
              | inl due ↦ rw due (elim (Bool-cases (leb max_tries e.tries)) [
                | inl spent ↦ rw spent (ground arith)
                | inr more ↦ rw more retried
              ])
              | inr early ↦ rw early waiting
            ])
      ]

  -- A poll that returns keeps the bounds of the send window, at every round trip: the window
  -- stays between 2 and its ceiling, the ceiling at most 48 and at least three above the floor,
  -- the floor at least 2, and the flexibility 4.
  pub poll-WindowInv :
      (link : LinkView) (now : ℕ) (d d' : Channel P) (torn : Bool)
      → WindowInv d
      → poll packets link now d ≡ ok (torn, d')
      → WindowInv d'
  unfolding poll
  poll-WindowInv link now d d' torn v e = rw e at (poll_loop-Keeps link now [] d.tx_ring d v)
