-- ===== src/Resource/PaceInv.antt =====
-- The bounds of the request window, over every call that reaches a receiver.
use rns.Prelude.{
  ℕ, ◌-◌, ◌≤◌, ◌<◌, ◌^◌, ◌≡◌, refl, ap, List, arith, Bool, true, false, Bool-cases, inl, inr,
  Option, none, some, Result, ok, bind-ok, [], ◌∷◌, ◌++◌, if◌then◌else◌, throw, fault, stuck, leb,
  ◌||◌, ◌==◌, length, take, drop,
}
use mathlib.Core.Path.{subst}
use rns.Resource.State.{
  Doubles, Host, Pace, Resource, ResourceStatus, no_status, queued, advertised, transferring,
  awaiting_proof, assembling, complete, failed, corrupt, Slots, resource_adv,
}
use rns.Resource.Slots.{store_part, map_hash}
use rns.Resource.Pace.{
  whole, note_fast_rate, note_slow_rate, sample_response, update_eifr, grow_window, measure_round,
  back_off, new_pace,
}
use rns.Resource.Advert.{Advert, pack}
use rns.Resource.Receiver.{
  request_window, send_request, is_failed, parse_update, apply_update, hashmap_update_packet,
  assemble, payload_of, check_payload, finish, note_part, take_part, next_window, conclude_parts,
  receive_part, accepted,
}
use rns.Resource.Sender.{advert_of, advertise}
use rns.Resource.Serving.{cancel}
use rns.Resource.Watchdog.{
  watch_advertised, retry_window, watch_receiver, watch_sender, watch_proof, watch, watchdog,
}

abbrev pub IsPaced : {R : Type 0} → Pace R → Type 0
IsPaced p = (2 ≤ p.window_min) × (p.window_min ≤ p.window) × (p.window ≤ 75) × (p.window_max ≤ 75)

ok_same : {A : Type 0} (a b : A) → ok a ≡ ok b → a ≡ b
ok_same a b same = ap (λ r. elim r [ ok x ↦ x | throw e ↦ a | fault ↦ a | stuck ↦ a ]) same

module _ {R : Type 0} (dbl : Doubles R) (host : Host R) where
  -- A call on a resource, with the state behind it.
  pub data Call : Resource R → Resource R → Type 0 where
    requested : (now : R) (d : Resource R) → Call d (request_window dbl now d)
    part_comes :
        (now : R) (part : List ℕ) (d : Resource R) → Call d (receive_part dbl host now part d).1
    update_comes :
        (now : R) (plaintext : List ℕ) (d e : Resource R)
        → hashmap_update_packet dbl now plaintext d ≡ ok e
        → Call d e
    polled : (now : R) (d e : Resource R) → watchdog dbl host now d ≡ ok e → Call d e
    cancelled : (d : Resource R) → Call d (cancel dbl host d)

  pub data Calls : Resource R → Resource R → Type 0 where
    stay : (d : Resource R) → Calls d d
    go_on : (d e f : Resource R) → Call d e → Calls e f → Calls d f

  grow_window-IsPaced : (p : Pace R) → IsPaced p → IsPaced (grow_window dbl p)
  unfolding grow_window
  grow_window-IsPaced p paced = ground arith

  back_off-IsPaced : (p : Pace R) → IsPaced p → IsPaced (back_off dbl p)
  unfolding back_off
  back_off-IsPaced p paced = ground arith

  sample_response-IsPaced :
      (now : R) (size : ℕ) (p : Pace R) → IsPaced p → IsPaced (sample_response dbl host now size p)
  unfolding sample_response note_fast_rate
  sample_response-IsPaced now size p paced = ground arith

  measure_round-IsPaced :
      (now : R) (p : Pace R) → IsPaced p → IsPaced (measure_round dbl host now p)
  unfolding measure_round update_eifr note_fast_rate note_slow_rate
  measure_round-IsPaced now p paced = ground arith

  request_window-IsPaced :
      (now : R) (d : Resource R) → IsPaced d.pace → IsPaced (request_window dbl now d).pace
  unfolding request_window send_request
  request_window-IsPaced now d paced = ground arith

  cancel-IsPaced : (d : Resource R) → IsPaced d.pace → IsPaced (cancel dbl host d).pace
  unfolding cancel
  cancel-IsPaced d paced = ground arith

  -- Reading the data leaves the pace alone.
  check_payload-pace :
      (payload : List ℕ) (d : Resource R) → (check_payload dbl host payload d).pace ≡ d.pace
  unfolding check_payload
  check_payload-pace payload d = ground arith

  finish-pace : (d : Resource R) → (finish dbl host d).pace ≡ d.pace
  unfolding finish
  finish-pace d = by_parts (assemble dbl host (take d.total_parts d.slots.parts))
    where
      by_payload :
          (r : Option (List ℕ))
          → (elim r as (λ _. Resource R) [
            | none ↦ record d { status = corrupt }
            | some payload ↦ check_payload dbl host payload d
          ]).pace
            ≡ d.pace
      by_payload none = refl
      by_payload (some payload) = check_payload-pace payload d

      by_parts :
          (r : Option (List ℕ))
          → (elim r as (λ _. Resource R) [
            | none ↦ record d { status = corrupt }
            | some assembled ↦
                elim (payload_of dbl host d (host.link_decrypt assembled)) as (λ _. Resource R) [
                  | none ↦ record d { status = corrupt }
                  | some payload ↦ check_payload dbl host payload d
                ]
          ]).pace
            ≡ d.pace
      by_parts none = refl
      by_parts (some assembled) = by_payload (payload_of dbl host d (host.link_decrypt assembled))

  conclude_parts-IsPaced :
      (d : Resource R) → IsPaced d.pace → IsPaced (conclude_parts dbl host d).pace
  unfolding conclude_parts
  conclude_parts-IsPaced d paced = ground (arith, finish-pace d)

  next_window-IsPaced :
      (now : R) (d : Resource R) → IsPaced d.pace → IsPaced (next_window dbl host now d).pace
  unfolding next_window
  next_window-IsPaced now d paced =
      let measured : Pace R = measure_round dbl host now (grow_window dbl d.pace) in
      ground (
        arith,
        request_window-IsPaced now (record d { pace = measured })
            (measure_round-IsPaced now (grow_window dbl d.pace) (grow_window-IsPaced d.pace paced)),
      )

  receive_part-IsPaced :
      (now : R) (part : List ℕ) (d : Resource R)
      → IsPaced d.pace
      → IsPaced (receive_part dbl host now part d).1.pace
  unfolding receive_part note_part take_part
  receive_part-IsPaced now part d paced = elim (Bool-cases d.outbound) [
    | inl e ↦ rw e paced
    | inr e ↦ rw e (by_slot (store_part host (map_hash host part d.random_hash) part d.slots))
  ]
    where
      noted : Resource R
      noted = note_part dbl host now (length part) d

      noted-IsPaced : IsPaced noted.pace
      noted-IsPaced = sample_response-IsPaced now (length part) _ paced

      by_slot :
          (r : Option Slots)
          → IsPaced
              (elim r as (λ _. Bool × Resource R) [
                | none ↦ (false, noted)
                | some s ↦ (
                  true,
                  conclude_parts dbl host
                      (next_window dbl host now (take_part dbl host (length part) s noted)),
                )
              ]).1.pace
      by_slot none = noted-IsPaced
      by_slot (some s) =
          conclude_parts-IsPaced _
            (next_window-IsPaced now (take_part dbl host (length part) s noted) noted-IsPaced)

  apply_update-IsPaced :
      (now : R) (segment : ℕ) (hashes : List ℕ) (d : Resource R)
      → IsPaced d.pace
      → IsPaced (apply_update dbl now segment hashes d).pace
  unfolding apply_update
  apply_update-IsPaced now segment hashes d paced = request_window-IsPaced now _ paced

  retry_window-IsPaced :
      (now : R) (d : Resource R) → IsPaced d.pace → IsPaced (retry_window dbl host now d).pace
  unfolding retry_window
  retry_window-IsPaced now d paced = elim (Bool-cases (d.retries_left == 0)) [
    | inl e ↦ rw e (cancel-IsPaced d paced)
    | inr e ↦ rw e (request_window-IsPaced now _ (back_off-IsPaced d.pace paced))
  ]

  hashmap_update_packet-IsPaced :
      (now : R) (plaintext : List ℕ) (d e : Resource R)
      → hashmap_update_packet dbl now plaintext d ≡ ok e
      → IsPaced d.pace
      → IsPaced e.pace
  unfolding hashmap_update_packet
  hashmap_update_packet-IsPaced now plaintext d e h paced =
      elim (Bool-cases (is_failed d.status || leb (length plaintext) 32)) [
        | inl f ↦ subst (λ (x : Resource R). IsPaced x.pace) (ok_same d e (rw f at h)) paced
        | inr f ↦ by_update (parse_update (drop 32 plaintext)) (rw f at h)
      ]
    where
      seen : Resource R
      seen = record d { pace = record d.pace { last_activity = now } }

      by_update :
          (r : Result (Option (ℕ × List ℕ)))
          → (elim r as (λ _. Result (Resource R)) [
            | ok none ↦ ok seen
            | ok (some (segment, hashes)) ↦ ok (apply_update dbl now segment hashes seen)
            | throw e ↦ ok seen
            | fault ↦ fault
            | stuck ↦ stuck
          ])
            ≡ ok e
          → IsPaced e.pace
      by_update (ok none) g = subst (λ (x : Resource R). IsPaced x.pace) (ok_same seen e g) paced
      by_update (ok (some (segment, hashes))) g =
          subst (λ (x : Resource R). IsPaced x.pace)
            (ok_same (apply_update dbl now segment hashes seen) e g)
            (apply_update-IsPaced now segment hashes seen paced)
      by_update (throw t) g = subst (λ (x : Resource R). IsPaced x.pace) (ok_same seen e g) paced
      by_update fault g = ground (arith, g)
      by_update stuck g = ground (arith, g)

  advertise-IsPaced :
      (now : R) (d e : Resource R)
      → advertise dbl host now d ≡ ok e
      → IsPaced d.pace
      → IsPaced e.pace
  unfolding advertise
  advertise-IsPaced now d e h paced =
      let sent_with : List ℕ → Result (Resource R) = λ packed. ok (record d {
        sent = d.sent ++ (resource_adv packed ∷ []);
        adv_sent = now;
        pace = record d.pace { last_activity = now; rtt = whole dbl 0 };
        status = advertised;
      }) in
      let (packed, made, same) = bind-ok (pack (advert_of dbl host d)) sent_with e h in
      subst (λ (x : Resource R). IsPaced x.pace) (ok_same _ e same) paced

  watch_advertised-IsPaced :
      (now : R) (d e : Resource R)
      → watch_advertised dbl host now d ≡ ok e
      → IsPaced d.pace
      → IsPaced e.pace
  unfolding watch_advertised
  watch_advertised-IsPaced now d e h paced =
      let measured : R = dbl.mul host.link_rtt (whole dbl d.timeout_factor) in
      let wait : R = if dbl.at_most d.timeout (whole dbl 0) then measured else d.timeout in
      let deadline : R = dbl.add (dbl.add d.adv_sent wait) (whole dbl 1) in
      let kept : ok d ≡ ok e → IsPaced e.pace =
        λ g. subst (λ (x : Resource R). IsPaced x.pace) (ok_same d e g) paced in
      elim (Bool-cases (dbl.at_most wait (whole dbl 0))) [
        | inl a ↦ kept (rw a at h)
        | inr a ↦ elim (Bool-cases (dbl.less deadline now)) [
          | inr b ↦ kept (rw (a, b) at h)
          | inl b ↦ elim (Bool-cases (d.retries_left == 0)) [
            | inl c ↦
                subst (λ (x : Resource R). IsPaced x.pace)
                  (ok_same (cancel dbl host d) e (rw (a, b, c) at h)) (cancel-IsPaced d paced)
            | inr c ↦
                advertise-IsPaced now (record d { retries_left = d.retries_left - 1 }) e
                  (rw (a, b, c) at h) paced
          ]
        ]
      ]

  watch_receiver-IsPaced :
      (now : R) (d : Resource R) → IsPaced d.pace → IsPaced (watch_receiver dbl host now d).pace
  unfolding watch_receiver update_eifr
  watch_receiver-IsPaced now d paced =
      let p : Pace R = update_eifr dbl host d.pace in
      ground (arith, retry_window-IsPaced now (record d { pace = p }) paced)

  watch_sender-IsPaced :
      (now : R) (d : Resource R) → IsPaced d.pace → IsPaced (watch_sender dbl host now d).pace
  unfolding watch_sender
  watch_sender-IsPaced now d paced = ground (arith, cancel-IsPaced d paced)

  watch_proof-IsPaced :
      (now : R) (d : Resource R) → IsPaced d.pace → IsPaced (watch_proof dbl host now d).pace
  unfolding watch_proof
  watch_proof-IsPaced now d paced = ground (arith, cancel-IsPaced d paced)

  watchdog-IsPaced :
      (now : R) (d e : Resource R)
      → watchdog dbl host now d ≡ ok e
      → IsPaced d.pace
      → IsPaced e.pace
  unfolding watchdog watch
  watchdog-IsPaced now d e h paced = by_status d.status h
    where
      same : (x : Resource R) → ok x ≡ ok e → IsPaced x.pace → IsPaced e.pace
      same x g = subst (λ (y : Resource R). IsPaced y.pace) (ok_same x e g)

      by_side :
          (b : Bool) (x y : Resource R)
          → ok (if b then x else y) ≡ ok e
          → IsPaced x.pace
          → IsPaced y.pace
          → IsPaced e.pace
      by_side true x y g left right = same x g left
      by_side false x y g left right = same y g right

      by_status : (s : ResourceStatus) → watch dbl host s now d ≡ ok e → IsPaced e.pace
      by_status advertised g = watch_advertised-IsPaced now d e g paced
      by_status transferring g =
          by_side d.outbound (watch_sender dbl host now d) (watch_receiver dbl host now d) g
            (watch_sender-IsPaced now d paced) (watch_receiver-IsPaced now d paced)
      by_status awaiting_proof g =
          same (watch_proof dbl host now d) g (watch_proof-IsPaced now d paced)
      by_status no_status g = same d g paced
      by_status queued g = same d g paced
      by_status assembling g = same d g paced
      by_status complete g = same d g paced
      by_status failed g = same d g paced
      by_status corrupt g = same d g paced

  each-IsPaced : (d e : Resource R) → Call d e → IsPaced d.pace → IsPaced e.pace
  each-IsPaced d _ (requested now _) paced = request_window-IsPaced now d paced
  each-IsPaced d _ (part_comes now part _) paced = receive_part-IsPaced now part d paced
  each-IsPaced d e (update_comes now plaintext _ _ h) paced =
      hashmap_update_packet-IsPaced now plaintext d e h paced
  each-IsPaced d e (polled now _ _ h) paced = watchdog-IsPaced now d e h paced
  each-IsPaced d _ (cancelled _) paced = cancel-IsPaced d paced

  always-IsPaced : (d e : Resource R) → Calls d e → IsPaced d.pace → IsPaced e.pace
  always-IsPaced d _ (stay _) paced = paced
  always-IsPaced d _ (go_on _ e f call calls) paced =
      always-IsPaced e f calls (each-IsPaced d e call paced)

  -- The window of a receiver stays between its lower limit and 75, its lower limit is at least 2
  -- and its ceiling at most 75, after every sequence of requests, parts, hashmap updates, polls
  -- of the watchdog and cancellations from the state that an advertisement opens, at any times.
  pub reachable-IsPaced :
      (now : R) (adv : Advert) (request_id : List ℕ) (d : Resource R)
      → Calls (accepted dbl host now adv request_id) d
      → IsPaced d.pace
  unfolding accepted new_pace
  reachable-IsPaced now adv request_id d calls =
      always-IsPaced (accepted dbl host now adv request_id) d calls (ground arith)

  -- If the ceiling of the window is below the window, and above the lower limit, a timeout takes
  -- two off the ceiling, for windows and flexibilities below 2^31: the difference of the two
  -- wraps.
  pub back_off-window_max :
      (p : Pace R)
      → p.window_min < p.window
      → p.window_min < p.window_max
      → p.window_max < p.window
      → p.window < 2 ^ 31
      → 1 ≤ p.flexibility
      → p.flexibility < 2 ^ 31
      → (back_off dbl p).window_max ≡ p.window_max - 2
  unfolding back_off
  back_off-window_max p a b c d e f = ground arith
