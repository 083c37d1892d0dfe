-- ===== src/Interface/Spacing.antt =====
-- What goes out of the queue, or past it, is spaced by the cap.
use rns.Prelude.{
  ℕ, ◌+◌, ◌<◌, ◌≡◌, ◌∙◌, refl, sym, ap, List, [], ◌∷◌, ◌++◌, Bool, true, false, not, ◌&&◌, arith,
  ltb, ◌==◌, length, Bool-cases, if◌then◌else◌, inl, inr, ◌⊎◌, Option, none, some, length-append,
}
use rns.Interface.Announces.{
  AnnounceEntry, AnnounceQueue, drop_expired, select, emit, emit_first, process_announce_queue,
  poll_announces, defer, InterfaceMode, mode_none, mode_full, mode_point_to_point,
  mode_access_point, mode_roaming, mode_boundary, mode_gateway, Egress, Routing, send_or_defer,
  send_if, relay, relay_capped, broadcast_announce,
}

-- The modes in which forwarded announces are under the cap: all but ROAMING and BOUNDARY.
abbrev pub is_capped_mode : InterfaceMode → Bool
is_capped_mode mode_roaming = false
is_capped_mode mode_boundary = false
is_capped_mode mode_none = true
is_capped_mode mode_full = true
is_capped_mode mode_point_to_point = true
is_capped_mode mode_access_point = true
is_capped_mode mode_gateway = true

abbrev pub is_unattached : Option Bool → Bool
is_unattached none = true
is_unattached (some this_one) = false

module _ (max_queued : ℕ) (wait_time : ℕ → ℕ) (i : Egress) where
  -- What happens to the queue, at its time: a poll, or an announce that goes to all interfaces.
  pub data Event : Type 0 where
    polled : ℕ → Event
    announced : Routing → AnnounceEntry → Event

  abbrev pub time_of : Event → ℕ
  time_of (polled now) = now
  time_of (announced r e) = e.time

  -- The events under the cap: polls, and announces that are forwarded, not attached to an
  -- interface, and in a mode with a cap.
  abbrev pub is_capped : Event → Bool
  is_capped (polled now) = true
  is_capped (announced r e) = is_unattached r.attached && ltb 0 e.hops && is_capped_mode i.mode

  abbrev pub happen : Event → AnnounceQueue → AnnounceQueue
  happen (polled now) d = poll_announces max_queued wait_time now d
  happen (announced r e) d = (broadcast_announce max_queued wait_time i r e d).1

  -- A change of what was sent is one frame, sent when the cap allowed it.
  abbrev pub IsSpaced : ℕ → AnnounceQueue → AnnounceQueue → Type 0
  IsSpaced now d d' =
      ((d'.transmitted ≡ d.transmitted) × (d'.allowed_at ≡ d.allowed_at))
      ⊎ ((raw : List ℕ) × (d'.transmitted ≡ d.transmitted ++ (raw ∷ []))
          × (d.allowed_at < now)
          × (d'.allowed_at ≡ now + wait_time (length raw)))

  emit_first-IsSpaced :
      (now : ℕ) (queue : List AnnounceEntry) (d : AnnounceQueue)
      → d.allowed_at < now
      → IsSpaced now d (emit_first max_queued wait_time now queue d)
  unfolding emit_first emit
  emit_first-IsSpaced now [] d allowed = inl (refl, refl)
  emit_first-IsSpaced now (a ∷ queue) d allowed =
      inr ((select a 0 0 (a ∷ queue)).0.raw, refl, allowed, refl)

  poll_announces-IsSpaced :
      (now : ℕ) (d : AnnounceQueue) → IsSpaced now d (poll_announces max_queued wait_time now d)
  unfolding poll_announces process_announce_queue
  poll_announces-IsSpaced now d =
      elim (Bool-cases (not (length d.queue == 0) && ltb d.allowed_at now)) [
        | inl e ↦
            let allowed : d.allowed_at < now = ground (arith, e) in
            rw e (emit_first-IsSpaced now (drop_expired now d.queue) d allowed)
        | inr e ↦ rw e (inl (refl, refl))
      ]

  send_or_defer-IsSpaced :
      (echo : Bool) (e : AnnounceEntry) (d : AnnounceQueue)
      → IsSpaced e.time d (send_or_defer max_queued wait_time echo e d).1
  unfolding send_or_defer defer
  send_or_defer-IsSpaced true e d = inl (refl, refl)
  send_or_defer-IsSpaced false e d =
      elim (Bool-cases ((length d.queue == 0) && ltb d.allowed_at e.time)) [
        | inl f ↦
            let allowed : d.allowed_at < e.time = ground (arith, f) in
            rw f (inr (e.raw, refl, allowed, refl))
        | inr f ↦ elim (Bool-cases (ltb (length d.queue) max_queued)) [
          | inl g ↦ rw (f, g) (inl (refl, refl))
          | inr g ↦ rw (f, g) (inl (refl, refl))
        ]
      ]

  -- An announce under the cap, in a mode that has one.
  relay-IsSpaced :
      (mode : InterfaceMode) (p2p : Bool) (r : Routing) (e : AnnounceEntry) (d : AnnounceQueue)
      → is_capped_mode mode ≡ true
      → ltb 0 e.hops ≡ true
      → IsSpaced e.time d (relay max_queued wait_time mode p2p r e d).1
  unfolding relay relay_capped
  relay-IsSpaced mode_roaming p2p r e d capped far = ground (arith, capped)
  relay-IsSpaced mode_boundary p2p r e d capped far = ground (arith, capped)
  relay-IsSpaced mode_none p2p r e d capped far =
      rw far (send_or_defer-IsSpaced (p2p && r.came_in_here) e d)
  relay-IsSpaced mode_full p2p r e d capped far =
      rw far (send_or_defer-IsSpaced (p2p && r.came_in_here) e d)
  relay-IsSpaced mode_point_to_point p2p r e d capped far =
      rw far (send_or_defer-IsSpaced (p2p && r.came_in_here) e d)
  relay-IsSpaced mode_access_point p2p r e d capped far =
      rw far (send_or_defer-IsSpaced (p2p && r.came_in_here) e d)
  relay-IsSpaced mode_gateway p2p r e d capped far =
      rw far (send_or_defer-IsSpaced (p2p && r.came_in_here) e d)

  -- An announce that is not under the cap leaves it alone.
  send_if-allowed_at :
      (allowed : Bool) (e : AnnounceEntry) (d : AnnounceQueue)
      → (send_if max_queued wait_time allowed e d).1.allowed_at ≡ d.allowed_at
  unfolding send_if
  send_if-allowed_at true e d = refl
  send_if-allowed_at false e d = refl

  relay-allowed_at :
      (mode : InterfaceMode) (p2p : Bool) (r : Routing) (e : AnnounceEntry) (d : AnnounceQueue)
      → ltb 0 e.hops && is_capped_mode mode ≡ false
      → (relay max_queued wait_time mode p2p r e d).1.allowed_at ≡ d.allowed_at
  unfolding relay relay_capped
  relay-allowed_at mode_roaming p2p r e d free = send_if-allowed_at _ e d
  relay-allowed_at mode_boundary p2p r e d free = send_if-allowed_at _ e d
  relay-allowed_at mode_none p2p r e d free =
      let near : ltb 0 e.hops ≡ false = ground (arith, free) in
      rw near (send_if-allowed_at true e d)
  relay-allowed_at mode_full p2p r e d free =
      let near : ltb 0 e.hops ≡ false = ground (arith, free) in
      rw near (send_if-allowed_at true e d)
  relay-allowed_at mode_point_to_point p2p r e d free =
      let near : ltb 0 e.hops ≡ false = ground (arith, free) in
      rw near (send_if-allowed_at true e d)
  relay-allowed_at mode_access_point p2p r e d free =
      let near : ltb 0 e.hops ≡ false = ground (arith, free) in
      rw near (send_if-allowed_at true e d)
  relay-allowed_at mode_gateway p2p r e d free =
      let near : ltb 0 e.hops ≡ false = ground (arith, free) in
      rw near (send_if-allowed_at true e d)

  -- A block in front of a decision.
  unless-IsSpaced :
      (now : ℕ) (d : AnnounceQueue) (b : Bool) (x : Bool × AnnounceQueue)
      → IsSpaced now d x.1
      → IsSpaced now d (if b then (false, d) else x).1
  unless-IsSpaced now d true x spaced = inl (refl, refl)
  unless-IsSpaced now d false x spaced = spaced

  unless-allowed_at :
      (d : AnnounceQueue) (b : Bool) (x : Bool × AnnounceQueue)
      → x.1.allowed_at ≡ d.allowed_at
      → (if b then (false, d) else x).1.allowed_at ≡ d.allowed_at
  unless-allowed_at d true x same = refl
  unless-allowed_at d false x same = same

  happen-IsSpaced :
      (e : Event) (d : AnnounceQueue) → is_capped e ≡ true → IsSpaced (time_of e) d (happen e d)
  unfolding broadcast_announce
  happen-IsSpaced (polled now) d capped = poll_announces-IsSpaced now d
  happen-IsSpaced (announced r e) d capped =
      unless-IsSpaced e.time d (not i.out) _ (by_attached r.attached capped)
    where
      by_attached :
          (a : Option Bool)
          → (is_unattached a && ltb 0 e.hops && is_capped_mode i.mode) ≡ true
          → IsSpaced e.time d
              (elim a as (λ _. Bool × AnnounceQueue) [
                | some this_one ↦ send_if max_queued wait_time this_one e d
                | none ↦
                    if not r.is_local && ltb i.community_radius e.hops
                    then (false, d)
                    else relay max_queued wait_time i.mode i.point_to_point r e d
              ]).1
      by_attached (some this_one) capped' = ground (arith, capped')
      by_attached none capped' =
          unless-IsSpaced e.time d (not r.is_local && ltb i.community_radius e.hops)
            (relay max_queued wait_time i.mode i.point_to_point r e d)
            (relay-IsSpaced i.mode i.point_to_point r e d (ground (arith, capped'))
              (ground (arith, capped')))

  happen-allowed_at :
      (e : Event) (d : AnnounceQueue) → is_capped e ≡ false → (happen e d).allowed_at ≡ d.allowed_at
  unfolding broadcast_announce
  happen-allowed_at (polled now) d free = ground (arith, free)
  happen-allowed_at (announced r e) d free =
      unless-allowed_at d (not i.out) _ (by_attached r.attached free)
    where
      by_attached :
          (a : Option Bool)
          → (is_unattached a && ltb 0 e.hops && is_capped_mode i.mode) ≡ false
          → (elim a as (λ _. Bool × AnnounceQueue) [
            | some this_one ↦ send_if max_queued wait_time this_one e d
            | none ↦
                if not r.is_local && ltb i.community_radius e.hops
                then (false, d)
                else relay max_queued wait_time i.mode i.point_to_point r e d
          ]).1.allowed_at
            ≡ d.allowed_at
      by_attached (some this_one) free' = send_if-allowed_at this_one e d
      by_attached none free' =
          unless-allowed_at d (not r.is_local && ltb i.community_radius e.hops)
            (relay max_queued wait_time i.mode i.point_to_point r e d)
            (relay-allowed_at i.mode i.point_to_point r e d free')

  abbrev pub happen_all : List Event → AnnounceQueue → AnnounceQueue
  happen_all [] d = d
  happen_all (e ∷ es) d = happen_all es (happen e d)

  -- Events of which none under the cap sends.
  abbrev pub IsQuiet : List Event → AnnounceQueue → Type 0
  IsQuiet [] d = Unit
  IsQuiet (e ∷ es) d =
      (is_capped e ≡ true → length (happen e d).transmitted ≡ length d.transmitted)
      × IsQuiet es (happen e d)

  -- While nothing is sent under the cap, the next time to send stays.
  happen_all-quiet :
      (es : List Event) (d : AnnounceQueue)
      → IsQuiet es d
      → (happen_all es d).allowed_at ≡ d.allowed_at
  happen_all-quiet [] d quiet = refl
  happen_all-quiet (e ∷ es) d (quiet, rest) =
      happen_all-quiet es (happen e d) rest ∙ elim (Bool-cases (is_capped e)) [
        | inr free ↦ happen-allowed_at e d free
        | inl capped ↦ elim (happen-IsSpaced e d capped) [
          | inl (same, held) ↦ held
          | inr (raw, more, allowed, after) ↦
              let grown : length (happen e d).transmitted ≡ length d.transmitted + 1 =
                ap length more ∙ length-append d.transmitted (raw ∷ []) in
              let stuck_at = quiet capped in absurd (omega arith)
        ]
      ]

  last-same : (xs : List (List ℕ)) (a b : List ℕ) → xs ++ (a ∷ []) ≡ xs ++ (b ∷ []) → a ≡ b
  last-same [] a b same = ground (arith, same)
  last-same (x ∷ xs) a b same = last-same xs a b (ground (arith, same))

  -- Between an announce that an interface sends under the bandwidth cap and the next one that it
  -- sends under it, at once or from its queue, more time passes than the cap demands for the
  -- first, whatever polls and announces come between. Under the cap are the polls of the queue
  -- and, where the mode of the interface is neither ROAMING nor BOUNDARY, the announces of at
  -- least one hop that are not attached to an interface; those that are not under it, such as
  -- path responses, may be sent between the two at any time.
  pub happen_all-spaces :
      (first second : Event) (es : List Event) (d : AnnounceQueue) (raw raw' : List ℕ)
      → is_capped first ≡ true
      → is_capped second ≡ true
      → (happen first d).transmitted ≡ d.transmitted ++ (raw ∷ [])
      → IsQuiet es (happen first d)
      → (happen second (happen_all es (happen first d))).transmitted
        ≡ (happen_all es (happen first d)).transmitted ++ (raw' ∷ [])
      → time_of first + wait_time (length raw) < time_of second
  happen_all-spaces first second es d raw raw' capped capped' sent quiet again =
      let e : AnnounceQueue = happen first d in
      let f : AnnounceQueue = happen_all es e in
      let held : f.allowed_at ≡ e.allowed_at = happen_all-quiet es e quiet in
      let one : length (d.transmitted ++ (raw ∷ [])) ≡ length d.transmitted + 1 =
        length-append d.transmitted (raw ∷ []) in
      let two : length (f.transmitted ++ (raw' ∷ [])) ≡ length f.transmitted + 1 =
        length-append f.transmitted (raw' ∷ []) in
      elim (happen-IsSpaced first d capped) [
        | inl (same, stays) ↦ let stuck_at = ap length (sym same ∙ sent) in absurd (omega arith)
        | inr (a, more, allowed, after) ↦
            let raw_is : a ≡ raw = last-same d.transmitted a raw (sym more ∙ sent) in
            let after' : e.allowed_at ≡ time_of first + wait_time (length raw) =
              after ∙ ap (λ (x : List ℕ). time_of first + wait_time (length x)) raw_is in
            elim (happen-IsSpaced second f capped') [
              | inl (same, stays) ↦
                  let stuck_at = ap length (sym same ∙ again) in absurd (omega arith)
              | inr (b, more', allowed', rest) ↦ omega arith
            ]
      ]
