-- ===== src/Resource/Delivery/Learning.antt =====
-- What the map hashes of a stretch of parts do to the set of the known ones.
use rns.Prelude.{
  ℕ, zero, suc, ◌+◌, ◌*◌, ◌/◌, ◌<◌, ◌≡◌, ◌∙◌, refl, sym, ap, List, [], ◌∷◌, ◌++◌, Bool, true, false,
  arith, leb, ltb, if◌then◌else◌, length, take, drop, Bool-cases, inl, inr, min, add_size, size_mod,
  length-append, length-take, take-append_self, drop-append_self, length-replicate,
  take-append-drop, replicate, take-past, drop-past,
}
use rns.Resource.State.{Doubles, Host, Slots, maphash_len, hashmap_max_len}
use rns.Resource.Slots.{get_or, set, map_hash, learn_hash, learn_hashes, new_slots}
use rns.Resource.Sender.{hashmap_of}
use rns.Resource.Delivery.Sets.{
  pick, size_of, height_of, prefix_of, hashes_of, view, set-pick, length-set,
}

-- `n` numbers from `idx` on join a set.
abbrev pub learn : ℕ → ℕ → List Bool → List Bool
learn zero idx known = known
learn (suc n) idx known = learn n (suc idx) (set known idx true)

module _ {R : Type 0} (dbl : Doubles R) (host : Host R) (rh : List ℕ)
    (hash_size : (x : List ℕ) → length (host.full_hash x) ≡ 32) where
  length-map_hash : (p : List ℕ) → length (map_hash host p rh) ≡ 4
  unfolding map_hash
  length-map_hash p =
      let whole = hash_size (p ++ rh) in ground (arith, length-take 4 (host.full_hash (p ++ rh)))

  get_or-hashes_of :
      (ps : List (List ℕ)) (i : ℕ)
      → i < length ps
      → get_or (hashes_of host rh ps) i [] ≡ map_hash host (get_or ps i []) rh
  get_or-hashes_of [] i inside = ground arith
  get_or-hashes_of (p ∷ ps) zero inside = refl
  get_or-hashes_of (p ∷ ps) (suc i) inside = get_or-hashes_of ps i (omega arith)

  length-hashes_of : (ps : List (List ℕ)) → length (hashes_of host rh ps) ≡ length ps
  length-hashes_of [] = refl
  length-hashes_of (p ∷ ps) = ap suc (length-hashes_of ps)

  set-known : (known : List Bool) (i : ℕ) → get_or known i true ≡ true → set known i true ≡ known
  set-known [] i old = refl
  set-known (b ∷ known) zero old = ap (◌∷ known) (sym old)
  set-known (b ∷ known) (suc i) old = ap (b ∷◌) (set-known known i old)

  -- The height moves to a new member above it.
  height_of-set :
      (known : List Bool) (i : ℕ)
      → i < length known
      → (if ltb (height_of known) (suc i) then suc i else height_of known)
        ≡ height_of (set known i true)
  height_of-set [] i inside = ground arith
  height_of-set (b ∷ known) zero inside = ground arith
  height_of-set (b ∷ known) (suc i) inside =
      let rest = height_of-set known i (omega arith) in ground (arith, rest)

  -- One map hash.
  learn_hash-view :
      (ps : List (List ℕ)) (known arrived : List Bool) (i : ℕ)
      → length known ≡ length ps
      → i < length ps
      → (learn_hash i (map_hash host (get_or ps i []) rh) (view host rh ps known arrived)
          ≡ view host rh ps (set known i true) arrived)
  unfolding learn_hash
  learn_hash-view ps known arrived i k inside =
      let hash : get_or (hashes_of host rh ps) i [] ≡ map_hash host (get_or ps i []) rh =
        get_or-hashes_of ps i inside in
      let placed =
        set-pick host rh (hashes_of host rh ps) known i (k ∙ sym (length-hashes_of ps)) in
      elim (Bool-cases (get_or known i true)) [
        | inl e ↦ rw (e, set-known known i e) refl
        | inr e ↦ rw (e, ← hash, placed, height_of-set known i (omega arith)) refl
      ]

  pub length-learn : (n idx : ℕ) (known : List Bool) → length (learn n idx known) ≡ length known
  length-learn zero idx known = refl
  length-learn (suc n) idx known =
      length-learn n (suc idx) (set known idx true) ∙ length-set host rh known idx true

  get_or-drop :
      (ps qs : List (List ℕ)) (q : List ℕ) (i : ℕ)
      → drop i ps ≡ q ∷ qs
      → (i < length ps) × (get_or ps i [] ≡ q) × (drop (suc i) ps ≡ qs)
  get_or-drop [] qs q zero at = ground arith
  get_or-drop [] qs q (suc i) at = ground arith
  get_or-drop (p ∷ ps) qs q zero at = ground arith
  get_or-drop (p ∷ ps) qs q (suc i) at =
      let (inside, here, next) = get_or-drop ps qs q i at in (omega arith, here, next)

  -- The loop over the map hashes of the parts `qs`, which stand at `idx`.
  pub learn_hashes-view :
      (ps qs rest : List (List ℕ)) (known arrived : List Bool) (start i idx : ℕ)
      → length ps < size_mod
      → length known ≡ length ps
      → i + start ≡ idx
      → drop idx ps ≡ qs ++ rest
      → (learn_hashes
            (length qs)
            (length ps)
            start
            i
            (hashmap_of dbl host qs rh)
            (view host rh ps known arrived)
          ≡ view host rh ps (learn (length qs) idx known) arrived)
  unfolding learn_hashes hashmap_of
  learn_hashes-view ps [] rest known arrived start i idx small k sum at = refl
  learn_hashes-view ps (q ∷ qs) rest known arrived start i idx small k sum at =
      let (inside, here, next) = get_or-drop ps (qs ++ rest) q idx at in
      let index : add_size i start ≡ idx = omega arith in
      let within : leb (length ps) idx ≡ false = ground (arith, inside) in
      let mh : List ℕ = map_hash host q rh in
      let front : take 4 (mh ++ hashmap_of dbl host qs rh) ≡ mh =
        rw (← length-map_hash q) (take-append_self mh (hashmap_of dbl host qs rh)) in
      let back : drop 4 (mh ++ hashmap_of dbl host qs rh) ≡ hashmap_of dbl host qs rh =
        rw (← length-map_hash q) (drop-append_self mh (hashmap_of dbl host qs rh)) in
      let s : Slots = view host rh ps known arrived in
      let one = learn_hash-view ps known arrived idx k inside in
      let more =
        learn_hashes-view ps qs rest (set known idx true) arrived start (suc i) (suc idx) small
          (length-set host rh known idx true ∙ k) (omega arith) next in
      let round : learn_hashes (suc (length qs)) (length ps) start i
            (mh ++ hashmap_of dbl host qs rh) s
          ≡ learn_hashes (length qs) (length ps) start (suc i) (hashmap_of dbl host qs rh)
              (learn_hash idx (map_hash host (get_or ps idx []) rh) s) =
        rw (front, back, index, within, here) refl in
      round
      ∙ ap (learn_hashes (length qs) (length ps) start (suc i) (hashmap_of dbl host qs rh)) one
      ∙ more

  -- The stretch of a hashmap that belongs to a stretch of parts.
  pub length-hashmap_of : (ps : List (List ℕ)) → length (hashmap_of dbl host ps rh) ≡ length ps * 4
  unfolding hashmap_of
  length-hashmap_of [] = refl
  length-hashmap_of (p ∷ ps) =
      let more = length-hashmap_of ps in
      let front = length-map_hash p in
      omega (arith, length-append (map_hash host p rh) (hashmap_of dbl host ps rh))

  pub drop-hashmap_of :
      (n : ℕ) (ps : List (List ℕ))
      → drop (n * 4) (hashmap_of dbl host ps rh) ≡ hashmap_of dbl host (drop n ps) rh
  unfolding hashmap_of
  drop-hashmap_of zero ps = refl
  drop-hashmap_of (suc n) [] = let e : suc n * 4 ≡ suc (3 + n * 4) = omega arith in rw e refl
  drop-hashmap_of (suc n) (p ∷ ps) =
      let front = length-map_hash p in
      let e : suc n * 4 ≡ length (map_hash host p rh) + n * 4 = omega arith in
      rw (
        e,
        drop-past (map_hash host p rh) (hashmap_of dbl host ps rh) (n * 4),
        drop-hashmap_of n ps,
      )

  pub take-hashmap_of :
      (n : ℕ) (ps : List (List ℕ))
      → take (n * 4) (hashmap_of dbl host ps rh) ≡ hashmap_of dbl host (take n ps) rh
  unfolding hashmap_of
  take-hashmap_of zero ps = refl
  take-hashmap_of (suc n) [] = let e : suc n * 4 ≡ suc (3 + n * 4) = omega arith in rw e refl
  take-hashmap_of (suc n) (p ∷ ps) =
      let front = length-map_hash p in
      let e : suc n * 4 ≡ length (map_hash host p rh) + n * 4 = omega arith in
      rw (
        e,
        take-past (map_hash host p rh) (hashmap_of dbl host ps rh) (n * 4),
        take-hashmap_of n ps,
      )

  -- The slots of a new transfer, from the map hashes of its first segment.
  pick-none :
      (ps : List (List ℕ)) (n : ℕ) → length ps ≡ n → pick (replicate n false) ps ≡ replicate n []
  pick-none [] zero same = refl
  pick-none [] (suc n) same = ground arith
  pick-none (p ∷ ps) zero same = ground arith
  pick-none (p ∷ ps) (suc n) same = ap ([] ∷◌) (pick-none ps n (omega arith))

  pub size_of-none : (n : ℕ) → size_of (replicate n false) ≡ 0
  size_of-none zero = refl
  size_of-none (suc n) = size_of-none n

  prefix_of-none : (n : ℕ) → prefix_of (replicate n false) ≡ 0
  prefix_of-none zero = refl
  prefix_of-none (suc n) = refl

  height_of-none : (n : ℕ) → height_of (replicate n false) ≡ 0
  height_of-none zero = refl
  height_of-none (suc n) = rw (height_of-none n) refl

  view-none :
      (ps : List (List ℕ))
      → view host rh ps (replicate (length ps) false) (replicate (length ps) false) ≡ record {
        parts = replicate (length ps) [];
        map_hashes = replicate (length ps) [];
        hash_known = replicate (length ps) false;
        received = 0;
        consec = 0;
        hashmap_height = 0;
      }
  view-none ps =
      rw
        (
          pick-none ps (length ps) refl,
          pick-none (hashes_of host rh ps) (length ps) (length-hashes_of ps),
          size_of-none (length ps),
          prefix_of-none (length ps),
          height_of-none (length ps),
        )
        refl

  pub new_slots-view :
      (ps : List (List ℕ))
      → length ps < size_mod
      → (new_slots
            (length ps)
            (take (min (length ps) hashmap_max_len * maphash_len) (hashmap_of dbl host ps rh))
          ≡ view host rh ps
              (learn (min (length ps) hashmap_max_len) 0 (replicate (length ps) false))
              (replicate (length ps) false))
  unfolding new_slots
  new_slots-view ps small =
      let n : ℕ = length ps in
      let m : ℕ = min n hashmap_max_len in
      let qs : List (List ℕ) = take m ps in
      let size : length qs ≡ m = length-take m ps ∙ omega arith in
      let learnt =
        learn_hashes-view ps qs (drop m ps) (replicate n false) (replicate n false) 0 0 0 small
          (length-replicate n false) (omega arith) (sym (take-append-drop m ps)) in
      let long = length-hashmap_of qs in
      let rounds : length (hashmap_of dbl host qs rh) / 4 ≡ length qs = omega arith in
      rw (take-hashmap_of m ps, rounds)
        (ap (learn_hashes (length qs) n 0 0 (hashmap_of dbl host qs rh)) (sym (view-none ps))
          ∙ learnt
          ∙ ap (λ (j : ℕ). view host rh ps (learn j 0 (replicate n false)) (replicate n false))
              size)
