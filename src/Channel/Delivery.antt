-- ===== src/Channel/Delivery.antt =====
-- The delivery loop on a sorted ring: it hands out the contiguous run from the next number on.
use rns.Prelude.{
  ℕ, zero, suc, ◌+◌, ◌%◌, ◌≤◌, ◌<◌, ◌≡◌, ◌∙◌, refl, sym, ap, List, [], ◌∷◌, ◌++◌, true, false, some,
  arith, ◌==◌, length, Bool-cases, inl, inr, append-nil, append_assoc,
}
use rns.Channel.State.{Message, RxEnvelope, seq_modulus}
use rns.Channel.Receiver.{Rx, extract, deliver_loop}
use rns.Channel.Order.{has, Rising, Carries, Rising-mono, has_below, extract-head, extract-none}

-- The messages numbered from `a` on, `n` of them.
unfoldable pub run_of : (ℕ → Message) → ℕ → ℕ → List Message
run_of m a zero = []
run_of m a (suc n) = m a ∷ run_of m (suc a) n

pub run_of-append :
    (m : ℕ → Message) (n k a b : ℕ) → a + n ≡ b → run_of m a n ++ run_of m b k ≡ run_of m a (n + k)
unfolding run_of
run_of-append m zero k a b e =
    let same : b ≡ a = omega arith in
    let none_first : zero + k ≡ k = omega arith in rw (same, none_first)
run_of-append m (suc n) k a b e =
    let later : suc n + k ≡ suc (n + k) = omega arith in
    rw (later, run_of-append m n k (suc a) b (omega arith))

deliver_hit :
    (it : RxEnvelope) (ring : List RxEnvelope) (fuel next : ℕ) (inbox : List Message)
    → it.sequence ≡ next
    → next < 0xffff
    → deliver_loop true (suc fuel) (record { ring = it ∷ ring; next = next; inbox = inbox })
      ≡ deliver_loop true fuel
          (record { ring = ring; next = suc next; inbox = inbox ++ (it.message ∷ []) })
unfolding deliver_loop
deliver_hit it ring fuel next inbox e small =
    let found : extract next (it ∷ ring) ≡ some (it, ring) =
      ap (λ (k : ℕ). extract k (it ∷ ring)) (sym e) ∙ extract-head it ring in
    let moved : (next + 1) % seq_modulus ≡ suc next = omega arith in rw (found, deliver_loop, moved)

deliver_miss :
    (fuel next : ℕ) (ring : List RxEnvelope) (inbox : List Message)
    → has next ring ≡ false
    → deliver_loop true fuel (record { ring = ring; next = next; inbox = inbox })
      ≡ record { ring = ring; next = next; inbox = inbox }
unfolding deliver_loop
deliver_miss zero next ring inbox h = refl
deliver_miss (suc fuel) next ring inbox h = rw (extract-none ring next h, deliver_loop)

has_tail :
    (it : RxEnvelope) (ring : List RxEnvelope) (seq : ℕ)
    → has seq ring ≡ true
    → has seq (it ∷ ring) ≡ true
unfolding has
has_tail it ring seq h = ground arith

has_self : (it : RxEnvelope) (ring : List RxEnvelope) → has it.sequence (it ∷ ring) ≡ true
unfolding has
has_self it ring = ground arith

-- What `k` rounds of the loop leave behind.
pub record Delivers (m : ℕ → Message) (ring : List RxEnvelope) (next : ℕ) (inbox : List Message)
    (k : ℕ) (s : Rx) : Type 0 where
  pub moved : s.next ≡ next + k
  pub handed : s.inbox ≡ inbox ++ run_of m next k
  pub rising : Rising (suc (next + k)) s.ring
  pub carries : Carries m s.ring
  pub kept : (seq : ℕ) → next + k ≤ seq → has seq s.ring ≡ has seq ring
  pub taken : (seq : ℕ) → next ≤ seq → seq < next + k → has seq ring ≡ true

deliver_stop :
    (m : ℕ → Message) (fuel next : ℕ) (ring : List RxEnvelope) (inbox : List Message)
    → Rising (suc next) ring
    → Carries m ring
    → Delivers m ring next inbox 0
        (deliver_loop true fuel (record { ring = ring; next = next; inbox = inbox }))
unfolding run_of
deliver_stop m fuel next ring inbox r c =
    rw (deliver_miss fuel next ring inbox (has_below ring (suc next) next r (omega arith)))
      (record {
        moved = omega arith;
        handed = sym (append-nil inbox);
        rising = Rising-mono ring (suc next) (suc (next + 0)) (omega arith) r;
        carries = c;
        kept = λ seq h. refl;
        taken = λ seq lo hi. absurd (omega arith);
      })

deliver_more :
    (m : ℕ → Message) (it : RxEnvelope) (ring : List RxEnvelope) (next k : ℕ) (inbox : List Message)
    (s : Rx)
    → it.sequence ≡ next
    → it.message ≡ m it.sequence
    → Delivers m ring (suc next) (inbox ++ (it.message ∷ [])) k s
    → Delivers m (it ∷ ring) next inbox (suc k) s
unfolding run_of has
deliver_more m it ring next k inbox s hit here d =
    let message : it.message ≡ m next = here ∙ ap m hit in
    record {
      moved = omega (arith, d.moved);
      handed =
          d.handed
          ∙ append_assoc inbox (it.message ∷ []) (run_of m (suc next) k)
          ∙ ap (λ x. inbox ++ (x ∷ run_of m (suc next) k)) message;
      rising = Rising-mono s.ring (suc (suc next + k)) (suc (next + suc k)) (omega arith) d.rising;
      carries = d.carries;
      kept = λ seq h. ground (arith, d.kept seq);
      taken = λ seq lo hi. ground (arith, d.taken seq);
    }

-- With the ring's length for fuel the loop hands out the whole run, and stops at a gap.
pub deliver_loop-run :
    (m : ℕ → Message) (ring : List RxEnvelope) (fuel next : ℕ) (inbox : List Message)
    → length ring ≤ fuel
    → Rising next ring
    → Carries m ring
    → ((seq : ℕ) → has seq ring ≡ true → seq < 0xffff)
    → (k : ℕ) × Delivers m ring next inbox k
        (deliver_loop true fuel (record { ring = ring; next = next; inbox = inbox }))
deliver_loop-run m [] fuel next inbox enough r c small =
    (0, deliver_stop m fuel next [] inbox tt tt)
deliver_loop-run m (it ∷ ring) zero next inbox enough r c small = absurd (omega arith)
deliver_loop-run m (it ∷ ring) (suc fuel) next inbox enough (first, r) (here, c) small =
    elim (Bool-cases (it.sequence == next)) [
      | inl equal ↦
          (let hit : it.sequence ≡ next = ground arith in
            let (k, d) =
              deliver_loop-run m ring fuel (suc next) (inbox ++ (it.message ∷ [])) (omega arith)
                (Rising-mono ring (suc it.sequence) (suc next) (omega arith) r) c
                (λ seq h. small seq (has_tail it ring seq h)) in
            (
              suc k,
              rw
                  (deliver_hit it ring fuel next inbox hit
                    (rw hit at (small it.sequence (has_self it ring))))
                  (deliver_more m it ring next k inbox _ hit here d),
            ))
      | inr miss ↦ (0, deliver_stop m (suc fuel) next (it ∷ ring) inbox (ground arith, r) (here, c))
    ]
