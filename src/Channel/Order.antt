-- ===== src/Channel/Order.antt =====
-- What `rx_emplace` and `extract` do to a ring that is sorted by sequence number.
use rns.Prelude.{
  ℕ, suc, ◌≤◌, ◌<◌, ◌≡◌, refl, List, [], ◌∷◌, Bool, true, false, none, some, arith, ltb, ◌==◌, ◌||◌,
  Bool-cases, inl, inr,
}
use rns.Channel.State.{Message, RxEnvelope}
use rns.Channel.Receiver.{is_wrapped, rx_emplace, extract}

-- The ring holds the sequence number.
unfoldable pub has : ℕ → List RxEnvelope → Bool
has seq [] = false
has seq (it ∷ ring) = it.sequence == seq || has seq ring

-- Sequence numbers rise along the ring, from `lo` on.
abbrev pub Rising : ℕ → List RxEnvelope → Type 0
Rising lo [] = Unit {0}
Rising lo (it ∷ ring) = (lo ≤ it.sequence) × Rising (suc it.sequence) ring

-- Every envelope carries the message that the sender numbered so.
abbrev pub Carries : (ℕ → Message) → List RxEnvelope → Type 0
Carries m [] = Unit {0}
Carries m (it ∷ ring) = (it.message ≡ m it.sequence) × Carries m ring

pub Rising-mono :
    (ring : List RxEnvelope) (lo lo' : ℕ) → lo' ≤ lo → Rising lo ring → Rising lo' ring
Rising-mono [] lo lo' h r = tt
Rising-mono (it ∷ ring) lo lo' h r = (omega arith, r.1)

pub has_below :
    (ring : List RxEnvelope) (lo seq : ℕ) → Rising lo ring → seq < lo → has seq ring ≡ false
unfolding has
has_below [] lo seq r h = refl
has_below (it ∷ ring) lo seq (first, r) h = ground (arith, has_below ring (suc it.sequence) seq)

-- A known number is refused.
pub rx_emplace-known :
    (ring : List RxEnvelope) (env : RxEnvelope) (lo next_rx : ℕ)
    → Rising lo ring
    → next_rx ≤ env.sequence
    → has env.sequence ring ≡ true
    → rx_emplace ring env next_rx ≡ none
unfolding rx_emplace has is_wrapped
rx_emplace-known [] env lo next_rx r h known = cc
rx_emplace-known (it ∷ ring) env lo next_rx (first, r) h known = ground (
  arith,
  rx_emplace-known ring env (suc it.sequence) next_rx r h,
  has_below ring (suc it.sequence) env.sequence r,
)

-- A new one takes its place.
abbrev pub Placed : (ℕ → Message) → ℕ → List RxEnvelope → RxEnvelope → ℕ → Type 0
Placed m lo ring env next_rx =
    (ring' : List RxEnvelope) × (rx_emplace ring env next_rx ≡ some ring')
    × Rising lo ring'
    × Carries m ring'
    × ((seq : ℕ) → has seq ring' ≡ (env.sequence == seq || has seq ring))

pub rx_emplace-new :
    (m : ℕ → Message) (ring : List RxEnvelope) (env : RxEnvelope) (lo next_rx : ℕ)
    → Rising lo ring
    → Carries m ring
    → lo ≤ env.sequence
    → next_rx ≤ env.sequence
    → env.message ≡ m env.sequence
    → has env.sequence ring ≡ false
    → Placed m lo ring env next_rx
unfolding rx_emplace has is_wrapped
rx_emplace-new m [] env lo next_rx r c low h e fresh =
    (env ∷ [], refl, ground arith, ground arith, λ seq. refl)
rx_emplace-new m (it ∷ ring) env lo next_rx (first, r) (here, c) low h e fresh =
    elim (Bool-cases (ltb env.sequence it.sequence)) [
      | inl lt ↦
          (env ∷ it ∷ ring, ground arith, (low, (ground arith, r)), (e, (here, c)), λ seq. refl)
      | inr ge ↦
          (let (ring', done, r', c', same) =
              rx_emplace-new m ring env (suc it.sequence) next_rx r c (ground arith) h e
                (ground arith) in
            (it ∷ ring', ground arith, (first, r'), (here, c'), λ seq. ground (arith, same seq)))
    ]

-- Taking out the lowest number.
pub extract-head :
    (it : RxEnvelope) (ring : List RxEnvelope) → extract it.sequence (it ∷ ring) ≡ some (it, ring)
unfolding extract
extract-head it ring = ground arith

pub extract-none :
    (ring : List RxEnvelope) (seq : ℕ) → has seq ring ≡ false → extract seq ring ≡ none
unfolding extract has
extract-none [] seq h = refl
extract-none (it ∷ ring) seq h = ground (arith, extract-none ring seq)
