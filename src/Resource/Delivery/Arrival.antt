-- ===== src/Resource/Delivery/Arrival.antt =====
-- What receive_part does to the slots of a receiver, and to its status when the last part is in.
use rns.Prelude.{
  ℕ, suc, ◌≤◌, ◌<◌, ◌≡◌, ◌∙◌, refl, ap, List, [], ◌∷◌, ◌++◌, Bool, true, false, not, ◌&&◌, none,
  some, arith, if◌then◌else◌, length, take, Bool-cases, ◌⊎◌, inl, inr, leb, ltb, leb→le, lt→ltb,
}
use rns.Bytes.{same_bytes, same_bytes_refl}
use rns.Resource.State.{
  Doubles, Host, Slots, Resource, ResourceFlags, transferring, complete, LinkPacket, resource_prf,
}
use rns.Resource.Slots.{get_or, set, map_hash, store_part}
use rns.Resource.Receiver.{
  assemble, generate_proof, payload_of, check_payload, finish, note_part, take_part, next_window,
  conclude_parts, receive_part,
}
use rns.Resource.Delivery.Sets.{
  size_of, IsFilled, IsDistinct, view, store_part-view, length-set, size_of-set,
}
use rns.Resource.Delivery.Core.{
  concat, Core, core_of, core_of-next_window, verdict_of-next_window, set-same, size_of-length,
  pick-whole, take-length, assemble-filled, receive_part-none, receive_part-some, read_stream,
}

module _ {R : Type 0} (dbl : Doubles R) (host : Host R) where
  -- A transfer of the parts `ps` of a payload.
  module _ (ps : List (List ℕ)) (plaintext rh resource_hash : List ℕ) (flags : ResourceFlags)
      (total_size : ℕ) (filled : IsFilled ps) (distinct : IsDistinct host rh ps)
      (opens : read_stream dbl host flags total_size (host.link_decrypt (concat ps))
        ≡ some plaintext)
      (hashed : resource_hash ≡ take 32 (host.full_hash (plaintext ++ rh))) where
    -- The receiver, with the two sets of part numbers.
    abbrev pub receiver : List Bool → List Bool → Core
    receiver known arrived = record {
      outbound = false;
      total_parts = length ps;
      total_size = total_size;
      resource_hash = resource_hash;
      random_hash = rh;
      flags = flags;
      slots = view host rh ps known arrived;
    }

    -- The proof that the sender expects.
    abbrev pub proof : List ℕ
    proof = resource_hash ++ host.full_hash (plaintext ++ resource_hash)

    abbrev pub IsDelivered : Resource R → Type 0
    IsDelivered d =
        (d.status ≡ complete)
        × (d.bytes ≡ plaintext)
        × (d.concluded ≡ 1)
        × (before : List LinkPacket) × (d.sent ≡ before ++ (resource_prf proof ∷ []))

    finish-whole :
        (d : Resource R) (known arrived : List Bool)
        → core_of d ≡ receiver known arrived
        → length arrived ≡ length ps
        → length ps ≤ size_of arrived
        → finish dbl host d ≡ record d {
          bytes = plaintext;
          status = complete;
          sent = d.sent ++ (resource_prf proof ∷ []);
        }
    unfolding finish check_payload payload_of generate_proof
    finish-whole d known arrived core n full =
        let total : d.total_parts ≡ length ps = ap (λ (c : Core). c.total_parts) core in
        let parts : d.slots.parts ≡ ps =
          ap (λ (c : Core). c.slots.parts) core ∙ pick-whole ps arrived n full in
        let assembled : assemble dbl host (take d.total_parts d.slots.parts) ≡ some (concat ps) =
          rw (total, parts, take-length ps, assemble-filled dbl host ps filled) refl in
        let fl : d.flags ≡ flags = ap (λ (c : Core). c.flags) core in
        let ts : d.total_size ≡ total_size = ap (λ (c : Core). c.total_size) core in
        let r : d.random_hash ≡ rh = ap (λ (c : Core). c.random_hash) core in
        let h : d.resource_hash ≡ resource_hash = ap (λ (c : Core). c.resource_hash) core in
        let opened : payload_of dbl host d (host.link_decrypt (concat ps)) ≡ some plaintext =
          rw (fl, ts) opens in
        let test : same_bytes (take 32 (host.full_hash (plaintext ++ d.random_hash)))
              d.resource_hash
            ≡ true =
          rw (r, h, ← hashed, same_bytes_refl resource_hash) refl in
        rw (assembled, finish, opened, check_payload, test, h) refl

    -- A transfer that is under way, and one that is over.
    abbrev pub IsUnderWay : List Bool → Resource R → Type 0
    IsUnderWay arrived d =
        (size_of arrived < length ps) × (d.status ≡ transferring) × (d.concluded ≡ 0)

    abbrev pub Holds : List Bool → List Bool → Resource R → Type 0
    Holds known arrived d =
        (length known ≡ length ps)
        × (length arrived ≡ length ps)
        × (core_of d ≡ receiver known arrived)
        × (IsUnderWay arrived d ⊎ ((length ps ≤ size_of arrived) × IsDelivered d))

    -- A part that arrives, if its map hash is known.
    abbrev pub arrive : List Bool → List Bool → ℕ → List Bool
    arrive known arrived i = if get_or known i false then set arrived i true else arrived

    conclude_parts-Holds :
        (d : Resource R) (known arrived : List Bool)
        → 0 < length ps
        → length known ≡ length ps
        → length arrived ≡ length ps
        → core_of d ≡ receiver known arrived
        → d.status ≡ transferring
        → d.concluded ≡ 0
        → Holds known arrived (conclude_parts dbl host d)
    unfolding conclude_parts
    conclude_parts-Holds d known arrived some_part k n core under told =
        let total : d.total_parts ≡ length ps = ap (λ (c : Core). c.total_parts) core in
        let received : d.slots.received ≡ size_of arrived =
          ap (λ (c : Core). c.slots.received) core in
        elim (Bool-cases (leb (length ps) (size_of arrived))) [
          | inl e ↦
              let full : length ps ≤ size_of arrived = leb→le (length ps) (size_of arrived) e in
              let first : ltb 0 (length ps) ≡ true = lt→ltb 0 (length ps) some_part in
              let ends : conclude_parts dbl host d ≡ record d {
                bytes = plaintext;
                status = complete;
                sent = d.sent ++ (resource_prf proof ∷ []);
                concluded = suc d.concluded;
              } =
                rw
                  (
                    conclude_parts,
                    finish-whole d known arrived core n full,
                    total,
                    received,
                    first,
                    e,
                  )
                  refl in
              rw ends (k, n, core, inr (full, (refl, refl, ap suc told, d.sent, refl)))
          | inr e ↦
              let ends : conclude_parts dbl host d ≡ d = ground (arith, total, received, e) in
              rw ends (k, n, core, inl (ground (arith, e), under, told))
        ]

    -- Any part of the transfer, at any time and as often as it comes.
    pub receive_part-Holds :
        (now : R) (i : ℕ) (d : Resource R) (known arrived : List Bool)
        → i < length ps
        → Holds known arrived d
        → Holds known (arrive known arrived i) (receive_part dbl host now (get_or ps i []) d).1
    unfolding note_part take_part
    receive_part-Holds now i d known arrived inside (k, n, core, state) =
        let part : List ℕ = get_or ps i [] in
        let inbound : d.outbound ≡ false = ap (λ (c : Core). c.outbound) core in
        let slots : d.slots ≡ view host rh ps known arrived = ap (λ (c : Core). c.slots) core in
        let r : d.random_hash ≡ rh = ap (λ (c : Core). c.random_hash) core in
        let stored : store_part host (map_hash host part d.random_hash) part d.slots ≡ (
            if get_or known i false && not (get_or arrived i false)
            then some (view host rh ps known (set arrived i true))
            else none) =
          rw (r, slots) (store_part-view host rh ps known arrived i distinct filled k n inside) in
        elim (Bool-cases (get_or known i false && not (get_or arrived i false))) [
          | inr e ↦
              let same : arrive known arrived i ≡ arrived = ground (arith, e, set-same arrived i) in
              rw (receive_part-none dbl host now part d inbound (rw e at stored), same)
                (k, n, core, state)
          | inl e ↦
              let more : arrive known arrived i ≡ set arrived i true = ground (arith, e) in
              let seen : Resource R = note_part dbl host now (length part) d in
              let s : Slots = view host rh ps known (set arrived i true) in
              let taken : Resource R = take_part dbl host (length part) s seen in
              let kept = verdict_of-next_window dbl host now taken in
              let grown : size_of (set arrived i true) ≡ suc (size_of arrived) =
                size_of-set host rh arrived i (ground (arith, n, inside)) (ground (arith, e)) in
              let bounded = size_of-length (set arrived i true) in
              let n' : length (set arrived i true) ≡ length ps =
                length-set host rh arrived i true ∙ n in
              rw (receive_part-some dbl host now part d s inbound (rw e at stored), more)
                (elim state [
                  | inr (full, over) ↦ absurd (omega arith)
                  | inl (short, under, told) ↦
                      conclude_parts-Holds (next_window dbl host now taken) known
                        (set arrived i true) (omega arith) k n'
                        (core_of-next_window dbl host now taken
                          ∙ ap (λ (c : Core). record c { slots = s }) core)
                        (kept.0 ∙ under) (kept.1 ∙ told)
                ])
        ]
