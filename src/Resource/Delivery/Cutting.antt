-- ===== src/Resource/Delivery/Cutting.antt =====
-- The parts into which a stream is cut.
use rns.Prelude.{
  ℕ, zero, suc, ◌+◌, ◌*◌, ◌≤◌, ◌<◌, ◌≡◌, refl, ap, List, [], ◌∷◌, false, arith, length, take, drop,
  length-take, length-drop, take-append-drop,
}
use rns.Resource.State.{sdu}
use rns.Resource.Slots.{is_empty}
use rns.Resource.Sender.{cut_parts}
use rns.Resource.Delivery.Sets.{IsFilled}
use rns.Resource.Delivery.Core.{concat}

pub length-cut_parts : (n : ℕ) (stream : List ℕ) → length (cut_parts n stream) ≡ n
unfolding cut_parts
length-cut_parts zero stream = refl
length-cut_parts (suc n) stream = ap suc (length-cut_parts n (drop sdu stream))

nothing_left : (xs : List ℕ) → length xs ≤ 0 → [] ≡ xs
nothing_left [] none_left = refl
nothing_left (x ∷ xs) none_left = ground arith

-- Enough parts hold the whole stream.
pub concat-cut_parts :
    (n : ℕ) (stream : List ℕ) → length stream ≤ n * sdu → concat (cut_parts n stream) ≡ stream
unfolding cut_parts
concat-cut_parts zero stream enough = nothing_left stream (omega arith)
concat-cut_parts (suc n) stream enough =
    let rest = length-drop sdu stream in
    rw (concat-cut_parts n (drop sdu stream) (omega arith)) (take-append-drop sdu stream)

is_empty-length : (xs : List ℕ) → 0 < length xs → is_empty xs ≡ false
is_empty-length [] some = ground arith
is_empty-length (x ∷ xs) some = refl

-- Not more parts than the stream fills.
pub cut_parts-IsFilled :
    (n : ℕ) (stream : List ℕ) → n * sdu < length stream + sdu → IsFilled (cut_parts n stream)
unfolding cut_parts
cut_parts-IsFilled zero stream few = tt
cut_parts-IsFilled (suc n) stream few =
    let front = length-take sdu stream in
    let rest = length-drop sdu stream in
    (
      is_empty-length (take sdu stream) (omega arith),
      cut_parts-IsFilled n (drop sdu stream) (omega arith),
    )
