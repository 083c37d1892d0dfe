-- ===== src/Resource/Delivery/Sets.antt =====
-- The slots of a receiver as two sets of part numbers, the parts whose map hash is known and the
-- parts that have arrived.
use rns.Prelude.{
  ◌==◌, ℕ, zero, suc, ◌+◌, ◌<◌, ◌≡◌, ◌∙◌, refl, ap, List, [], ◌∷◌, Bool, true, false, not, ◌&&◌,
  Option, none, some, arith, if◌then◌else◌, length, drop, Bool-cases, inl, inr,
}
use rns.Bytes.{same_bytes, same_bytes_refl, same_bytes_comm}
use rns.Resource.State.{Host, Slots}
use rns.Resource.Slots.{get_or, set, is_empty, map_hash, find_slot, consec_from, store_part}

-- The vector that holds the members of a set, and nothing elsewhere.
abbrev pub pick : List Bool → List (List ℕ) → List (List ℕ)
pick [] ps = []
pick (b ∷ bs) [] = []
pick (true ∷ bs) (p ∷ ps) = p ∷ pick bs ps
pick (false ∷ bs) (p ∷ ps) = [] ∷ pick bs ps

abbrev pub size_of : List Bool → ℕ
size_of [] = 0
size_of (true ∷ bs) = suc (size_of bs)
size_of (false ∷ bs) = size_of bs

-- The number of members in front of the first one that is missing.
abbrev pub prefix_of : List Bool → ℕ
prefix_of [] = 0
prefix_of (true ∷ bs) = suc (prefix_of bs)
prefix_of (false ∷ bs) = 0

-- One more than the greatest member, 0 for the empty set.
abbrev pub height_of : List Bool → ℕ
height_of [] = 0
height_of (b ∷ bs) =
    let above : ℕ = height_of bs in if above == 0 then (if b then 1 else 0) else suc above

abbrev pub IsFilled : List (List ℕ) → Type 0
IsFilled [] = Unit
IsFilled (p ∷ ps) = (is_empty p ≡ false) × IsFilled ps

-- A hash that none of the parts has, and parts of different hashes.
module _ {R : Type 0} (host : Host R) (rh : List ℕ) where
  abbrev pub hashes_of : List (List ℕ) → List (List ℕ)
  hashes_of [] = []
  hashes_of (p ∷ ps) = map_hash host p rh ∷ hashes_of ps

  abbrev pub IsStrange : List ℕ → List (List ℕ) → Type 0
  IsStrange mh [] = Unit
  IsStrange mh (p ∷ ps) = (same_bytes (map_hash host p rh) mh ≡ false) × IsStrange mh ps

  abbrev pub IsDistinct : List (List ℕ) → Type 0
  IsDistinct [] = Unit
  IsDistinct (p ∷ ps) = IsStrange (map_hash host p rh) ps × IsDistinct ps

  abbrev pub view : List (List ℕ) → List Bool → List Bool → Slots
  view ps known arrived = record {
    parts = pick arrived ps;
    map_hashes = pick known (hashes_of ps);
    hash_known = known;
    received = size_of arrived;
    consec = prefix_of arrived;
    hashmap_height = height_of known;
  }

  -- The search passes over a part of another hash.
  find_slot-behind :
      (p : List ℕ) (ps : List (List ℕ)) (b a : Bool) (known arrived : List Bool) (mh : List ℕ)
      (k : ℕ) {r : Option ℕ}
      → same_bytes (map_hash host p rh) mh ≡ false
      → find_slot (pick arrived ps) (pick known (hashes_of ps)) known mh (suc k) ≡ r
      → find_slot
          (pick (a ∷ arrived) (p ∷ ps))
          (pick (b ∷ known) (hashes_of (p ∷ ps)))
          (b ∷ known)
          mh
          k
        ≡ r
  unfolding find_slot
  find_slot-behind p ps false true known arrived mh k other rest = rest
  find_slot-behind p ps false false known arrived mh k other rest = rest
  find_slot-behind p ps true false known arrived mh k other rest = rw (other, rest)
  find_slot-behind p ps true true known arrived mh k other rest = ground (arith, other, rest)

  -- A hash that is of no part is found nowhere.
  find_slot-strange :
      (ps : List (List ℕ)) (known arrived : List Bool) (mh : List ℕ) (k : ℕ)
      → IsStrange mh ps
      → find_slot (pick arrived ps) (pick known (hashes_of ps)) known mh k ≡ none
  unfolding find_slot
  find_slot-strange ps known [] mh k strange = refl
  find_slot-strange [] known (a ∷ arrived) mh k strange = refl
  find_slot-strange (p ∷ ps) [] (true ∷ arrived) mh k strange = refl
  find_slot-strange (p ∷ ps) [] (false ∷ arrived) mh k strange = refl
  find_slot-strange (p ∷ ps) (b ∷ known) (a ∷ arrived) mh k (other, strange) =
      find_slot-behind p ps b a known arrived mh k other
        (find_slot-strange ps known arrived mh (suc k) strange)

  strange-part :
      (ps : List (List ℕ)) (mh : List ℕ) (i : ℕ)
      → i < length ps
      → IsStrange mh ps
      → same_bytes (map_hash host (get_or ps i []) rh) mh ≡ false
  strange-part [] mh i inside strange = ground arith
  strange-part (p ∷ ps) mh zero inside (a, strange) = a
  strange-part (p ∷ ps) mh (suc i) inside (a, strange) = strange-part ps mh i (omega arith) strange

  -- The slot of a part is found while it is empty and its hash is known.
  pub find_slot-view :
      (ps : List (List ℕ)) (known arrived : List Bool) (i k : ℕ)
      → IsDistinct ps
      → IsFilled ps
      → length known ≡ length ps
      → length arrived ≡ length ps
      → i < length ps
      → find_slot
          (pick arrived ps)
          (pick known (hashes_of ps))
          known
          (map_hash host (get_or ps i []) rh)
          k
        ≡ (if get_or known i false && not (get_or arrived i false) then some (k + i) else none)
  unfolding find_slot
  find_slot-view [] known arrived i k distinct filled m n inside = ground arith
  find_slot-view (p ∷ ps) [] arrived i k distinct filled m n inside = ground arith
  find_slot-view (p ∷ ps) (b ∷ known) [] i k distinct filled m n inside = ground arith
  find_slot-view (p ∷ ps) (true ∷ known) (true ∷ arrived) zero k (s, d) (f, fs) m n inside =
      ground (arith, f, find_slot-strange ps known arrived (map_hash host p rh) (suc k) s)
  find_slot-view (p ∷ ps) (true ∷ known) (false ∷ arrived) zero k (s, d) (f, fs) m n inside =
      let e : k + 0 ≡ k = omega arith in rw (same_bytes_refl (map_hash host p rh), e)
  find_slot-view (p ∷ ps) (false ∷ known) (true ∷ arrived) zero k (s, d) (f, fs) m n inside =
      find_slot-strange ps known arrived (map_hash host p rh) (suc k) s
  find_slot-view (p ∷ ps) (false ∷ known) (false ∷ arrived) zero k (s, d) (f, fs) m n inside =
      find_slot-strange ps known arrived (map_hash host p rh) (suc k) s
  find_slot-view (p ∷ ps) (b ∷ known) (a ∷ arrived) (suc i) k (s, d) (f, fs) m n inside =
      let mh : List ℕ = map_hash host (get_or ps i []) rh in
      let other : same_bytes (map_hash host p rh) mh ≡ false =
        same_bytes_comm (map_hash host p rh) mh
        ∙ strange-part ps (map_hash host p rh) i (omega arith) s in
      let moved : suc k + i ≡ k + suc i = omega arith in
      find_slot-behind p ps b a known arrived mh k other (
        find_slot-view ps known arrived i (suc k) d fs (omega arith) (omega arith) (omega arith)
        ∙ ap (λ j. if get_or known i false && not (get_or arrived i false) then some j else none)
            moved)

  -- What storing a part does to the vectors.
  pub set-pick :
      (ps : List (List ℕ)) (arrived : List Bool) (i : ℕ)
      → length arrived ≡ length ps
      → set (pick arrived ps) i (get_or ps i []) ≡ pick (set arrived i true) ps
  set-pick [] [] i n = refl
  set-pick [] (a ∷ arrived) i n = ground arith
  set-pick (p ∷ ps) [] i n = ground arith
  set-pick (p ∷ ps) (true ∷ arrived) zero n = refl
  set-pick (p ∷ ps) (false ∷ arrived) zero n = refl
  set-pick (p ∷ ps) (true ∷ arrived) (suc i) n = ap (p ∷◌) (set-pick ps arrived i (omega arith))
  set-pick (p ∷ ps) (false ∷ arrived) (suc i) n = ap ([] ∷◌) (set-pick ps arrived i (omega arith))

  pub size_of-set :
      (arrived : List Bool) (i : ℕ)
      → i < length arrived
      → get_or arrived i false ≡ false
      → size_of (set arrived i true) ≡ suc (size_of arrived)
  size_of-set [] i inside new = ground arith
  size_of-set (true ∷ arrived) zero inside new = ground arith
  size_of-set (false ∷ arrived) zero inside new = refl
  size_of-set (true ∷ arrived) (suc i) inside new = ap suc (size_of-set arrived i (omega arith) new)
  size_of-set (false ∷ arrived) (suc i) inside new = size_of-set arrived i (omega arith) new

  consec_from-pick :
      (ps : List (List ℕ)) (arrived : List Bool)
      → IsFilled ps
      → length arrived ≡ length ps
      → consec_from (pick arrived ps) ≡ prefix_of arrived
  unfolding consec_from
  consec_from-pick [] [] filled n = refl
  consec_from-pick [] (a ∷ arrived) filled n = ground arith
  consec_from-pick (p ∷ ps) [] filled n = ground arith
  consec_from-pick (p ∷ ps) (true ∷ arrived) (f, filled) n =
      rw (f, consec_from-pick ps arrived filled (omega arith))
  consec_from-pick (p ∷ ps) (false ∷ arrived) filled n = refl

  pub length-set : {A : Type 0} (xs : List A) (i : ℕ) (x : A) → length (set xs i x) ≡ length xs
  length-set [] i x = refl
  length-set (y ∷ ys) zero x = refl
  length-set (y ∷ ys) (suc i) x = ap suc (length-set ys i x)

  prefix_of-past :
      (ps : List (List ℕ)) (arrived : List Bool)
      → prefix_of arrived + consec_from (drop (prefix_of arrived) (pick arrived ps))
        ≡ prefix_of arrived
  unfolding consec_from
  prefix_of-past ps [] = refl
  prefix_of-past [] (true ∷ arrived) = ground arith
  prefix_of-past [] (false ∷ arrived) = refl
  prefix_of-past (p ∷ ps) (true ∷ arrived) = let rest = prefix_of-past ps arrived in omega arith
  prefix_of-past (p ∷ ps) (false ∷ arrived) = refl

  -- The height goes on from where it stood.
  prefix_of-resume :
      (ps : List (List ℕ)) (arrived : List Bool) (i : ℕ)
      → IsFilled ps
      → length arrived ≡ length ps
      → prefix_of arrived + consec_from (drop (prefix_of arrived) (pick (set arrived i true) ps))
        ≡ prefix_of (set arrived i true)
  prefix_of-resume ps [] i filled n = prefix_of-past ps []
  prefix_of-resume ps (false ∷ arrived) i filled n =
      let rest =
        consec_from-pick ps (set (false ∷ arrived) i true) filled
          (length-set (false ∷ arrived) i true ∙ n) in
      omega arith
  prefix_of-resume [] (true ∷ arrived) i filled n = ground arith
  prefix_of-resume (p ∷ ps) (true ∷ arrived) zero filled n =
      prefix_of-past (p ∷ ps) (true ∷ arrived)
  prefix_of-resume (p ∷ ps) (true ∷ arrived) (suc i) (f, filled) n =
      let rest = prefix_of-resume ps arrived i filled (omega arith) in omega arith

  -- Storing part `i` adds it to the set of parts that have arrived, if its map hash is known and it
  -- is not there yet; otherwise nothing is stored.
  pub store_part-view :
      (ps : List (List ℕ)) (known arrived : List Bool) (i : ℕ)
      → IsDistinct ps
      → IsFilled ps
      → length known ≡ length ps
      → length arrived ≡ length ps
      → i < length ps
      → store_part host (map_hash host (get_or ps i []) rh) (get_or ps i []) (view ps known arrived)
        ≡ (if get_or known i false && not (get_or arrived i false)
            then some (view ps known (set arrived i true))
            else none)
  unfolding store_part
  store_part-view ps known arrived i distinct filled m n inside =
      elim (Bool-cases (get_or known i false && not (get_or arrived i false))) [
        | inr e ↦
            rw (find_slot-view ps known arrived i 0 distinct filled m n inside, store_part, e) refl
        | inl e ↦
            let new : get_or arrived i false ≡ false = ground (arith, e) in
            let here : 0 + i ≡ i = omega arith in
            let within : i < length arrived = ground (arith, n, inside) in
            rw (
              find_slot-view ps known arrived i 0 distinct filled m n inside,
              store_part,
              e,
              here,
              set-pick ps arrived i n,
              size_of-set arrived i within new,
              prefix_of-resume ps arrived i filled n,
            )
      ]
