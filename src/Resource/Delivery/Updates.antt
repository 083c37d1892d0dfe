-- ===== src/Resource/Delivery/Updates.antt =====
-- A hashmap update of the sender (update_bytes) as hashmap_update_packet reads it.
use rns.Prelude.{
  ℕ, ◌+◌, ◌-◌, ◌*◌, ◌/◌, ◌%◌, ◌<◌, ◌^◌, ◌≡◌, ◌∙◌, refl, sym, ap, List, [], ◌++◌, Bool, true, false,
  arith, leb, ltb, length, take, drop, Bool-cases, inl, inr, min, size_mod, length-append,
  length-take, length-drop, append-nil, take-append-drop, drop-append_self, drop-advance, ok, some,
}
use rns.MsgPack.Pack.{pack_array_header, pack_uint, pack_bin, bin_prefix}
use rns.MsgPack.Unpack.{unpack_array_header, unpack_uint, unpack_bin}
use rns.MsgPack.RoundTrip.Blobs.{
  unpack_array_header-pack_array_header, unpack_bin-pack_bin, length-bin_prefix_le,
}
use rns.MsgPack.RoundTrip.Scalars.{unpack_uint-pack_uint, length-pack_uint_le}
use rns.MsgPack.RoundTrip.Whole.{pack_bin_small}
use rns.MsgPack.RoundTrip.Envelopes.{consume-ok, consume_start}
use rns.Resource.State.{
  Doubles, Host, Slots, Resource, ResourceFlags, hashmap_max_len, maphash_len, complete,
}
use rns.Resource.Slots.{learn_hashes}
use rns.Resource.Receiver.{
  parse_update, apply_update, hashmap_update_packet, is_failed, request_window,
}
use rns.Resource.Sender.{hashmap_of}
use rns.Resource.Serving.{update_bytes}
use rns.Resource.Delivery.Sets.{IsFilled, IsDistinct, view}
use rns.Resource.Delivery.Arrival.{Holds, receiver}
use rns.Resource.Delivery.Core.{
  concat, read_stream, Core, core_of, core_of-request_window, verdict_of-request_window,
}
use rns.Resource.Delivery.Learning.{
  learn, length-learn, learn_hashes-view, length-hashmap_of, drop-hashmap_of, take-hashmap_of,
}

-- The three reads of an update.
pub parse_update-ok :
    (segment : ℕ) (hashes : List ℕ)
    → segment < 2 ^ 64
    → length (pack_array_header 2 ++ (pack_uint segment ++ pack_bin hashes)) < 2 ^ 32
    → parse_update (pack_array_header 2 ++ (pack_uint segment ++ pack_bin hashes))
      ≡ ok (some (segment, hashes))
unfolding parse_update
parse_update-ok segment hashes word small =
    let header : List ℕ = pack_array_header 2 in
    let number : List ℕ = pack_uint segment in
    let body : List ℕ = pack_bin hashes in
    let raw : List ℕ = header ++ (number ++ body) in
    let size = length-append header (number ++ body) in
    let size' = length-append number body in
    let second : ℕ = length header in
    let third : ℕ = second + length number in
    let opened = consume_start unpack_array_header header (number ++ body) 2 small (
      unpack_array_header-pack_array_header 2 (length raw) (number ++ body) (omega arith)
        (omega arith)) in
    let at_number : drop second raw ≡ number ++ body = drop-append_self header (number ++ body) in
    let numbered =
      consume-ok unpack_uint (record { raw = raw; off = second }) number body segment at_number
        small (omega arith)
        (unpack_uint-pack_uint segment (length raw - second) body word (omega arith)) in
    let at_body : drop third raw ≡ body ++ [] =
      drop-advance second raw number body at_number ∙ sym (append-nil body) in
    let hashed =
      consume-ok unpack_bin (record { raw = raw; off = third }) body [] hashes at_body small
        (omega arith)
        (unpack_bin-pack_bin hashes [] (length raw - third)
          (pack_bin_small hashes (length raw - third) (omega arith) (omega arith)) (omega arith)) in
    rw (opened, numbered, hashed) refl

-- The parts whose map hashes are in a segment: how many, from which on.
abbrev pub first_of : ℕ → ℕ
first_of segment = segment * hashmap_max_len

abbrev pub count_of : ℕ → ℕ → ℕ
count_of total segment = min ((segment + 1) * hashmap_max_len) total - first_of segment

module _ {R : Type 0} (dbl : Doubles R) (host : Host R)
    (hash_size : (x : List ℕ) → length (host.full_hash x) ≡ 32) where
  -- The body of an update: the hashes of the segment's parts.
  update_bytes-ok :
      (sender : Resource R) (ps : List (List ℕ)) (segment : ℕ)
      → sender.total_parts ≡ length ps
      → sender.hashmap ≡ hashmap_of dbl host ps sender.random_hash
      → update_bytes dbl host segment sender
        ≡ sender.resource_hash
          ++ (pack_array_header 2
              ++ (pack_uint segment
                  ++ pack_bin (
                      hashmap_of dbl host
                        (take (count_of (length ps) segment) (drop (first_of segment) ps))
                        sender.random_hash)))
  unfolding update_bytes
  update_bytes-ok sender ps segment total hashmap =
      let rh : List ℕ = sender.random_hash in
      let whole = length-hashmap_of dbl host rh hash_size ps in
      let to : ℕ = min ((segment + 1) * hashmap_max_len) (length ps) in
      let all : leb (to * maphash_len) (length (hashmap_of dbl host ps rh)) ≡ true =
        ground (arith, whole) in
      elim (Bool-cases (ltb (first_of segment) to)) [
        | inl e ↦
            rw
              (
                total,
                hashmap,
                e,
                all,
                drop-hashmap_of dbl host rh hash_size (first_of segment) ps,
                take-hashmap_of dbl host rh hash_size (to - first_of segment)
                    (drop (first_of segment) ps),
              )
              refl
        | inr e ↦
            let nothing : to - first_of segment ≡ 0 = ground (arith, e) in
            unfold hashmap_of in rw (total, hashmap, e, nothing) refl
      ]

  hashmap_update_packet-ok :
      (now : R) (segment : ℕ) (hash hashes : List ℕ) (d : Resource R)
      → length hash ≡ 32
      → segment < 2 ^ 64
      → length (pack_array_header 2 ++ (pack_uint segment ++ pack_bin hashes)) < 2 ^ 32
      → is_failed d.status ≡ false
      → hashmap_update_packet dbl now
          (hash ++ (pack_array_header 2 ++ (pack_uint segment ++ pack_bin hashes)))
          d
        ≡ ok (
            apply_update dbl now segment hashes
              (record d { pace = record d.pace { last_activity = now } }))
  unfolding hashmap_update_packet
  hashmap_update_packet-ok now segment hash hashes d size word small alive =
      let body : List ℕ = pack_array_header 2 ++ (pack_uint segment ++ pack_bin hashes) in
      let long = length-append hash body in
      let more = length-append (pack_array_header 2) (pack_uint segment ++ pack_bin hashes) in
      let behind : drop 32 (hash ++ body) ≡ body = rw (← size) (drop-append_self hash body) in
      let one : length (pack_array_header 2) ≡ 1 = unfold pack_array_header in refl in
      let enough : leb (length (hash ++ body)) 32 ≡ false = ground (arith, size, long, more, one) in
      rw (alive, enough, behind, parse_update-ok segment hashes word small) refl

  update_bytes-short :
      (segment : ℕ) (qs : List (List ℕ)) (rh : List ℕ)
      → length qs < 2 ^ 28
      → length (pack_array_header 2 ++ (pack_uint segment ++ pack_bin (hashmap_of dbl host qs rh)))
        < 2 ^ 32
  unfolding pack_bin
  update_bytes-short segment qs rh few =
      let hashes : List ℕ = hashmap_of dbl host qs rh in
      let one : length (pack_array_header 2) ≡ 1 = unfold pack_array_header in refl in
      let word = length-pack_uint_le segment in
      let front = length-bin_prefix_le (length hashes) in
      let all = length-hashmap_of dbl host rh hash_size qs in
      let size = length-append (pack_array_header 2) (pack_uint segment ++ pack_bin hashes) in
      let size' = length-append (pack_uint segment) (pack_bin hashes) in
      let size'' = length-append (bin_prefix (length hashes)) hashes in omega arith

  -- A request after the end asks for nothing.
  request_window-over :
      (now : R) (d : Resource R) → d.status ≡ complete → request_window dbl now d ≡ d
  unfolding request_window
  request_window-over now d over = ground (arith, over)

  -- A transfer of the parts `ps`, with what the sender knows of them.
  module _ (ps : List (List ℕ)) (plaintext rh resource_hash : List ℕ) (flags : ResourceFlags)
      (total_size : ℕ) (filled : IsFilled ps) (distinct : IsDistinct host rh ps)
      (opens : read_stream dbl host flags total_size (host.link_decrypt (concat ps))
        ≡ some plaintext)
      (hashed : resource_hash ≡ take 32 (host.full_hash (plaintext ++ rh))) (sender : Resource R)
      (total : sender.total_parts ≡ length ps) (salt : sender.random_hash ≡ rh)
      (named : sender.resource_hash ≡ resource_hash)
      (hashmap : sender.hashmap ≡ hashmap_of dbl host ps rh) (few : length ps < 2 ^ 28) where
    abbrev Held : List Bool → List Bool → Resource R → Type 0
    Held =
        Holds dbl host ps plaintext rh resource_hash flags total_size filled distinct opens hashed

    abbrev state_at : List Bool → List Bool → Core
    state_at =
        receiver dbl host ps plaintext rh resource_hash flags total_size filled distinct opens
          hashed

    -- The receiver behind an update of a segment.
    apply_update-Held :
        (now : R) (segment : ℕ) (d : Resource R) (known arrived : List Bool)
        → first_of segment < 2 ^ 32
        → Held known arrived d
        → Held (learn (count_of (length ps) segment) (first_of segment) known) arrived (
            apply_update dbl now segment
              (hashmap_of dbl host
                (take (count_of (length ps) segment) (drop (first_of segment) ps))
                rh)
              d)
    unfolding apply_update
    apply_update-Held now segment d known arrived low (k, n, core, state) =
        let n' : ℕ = count_of (length ps) segment in
        let from : ℕ = first_of segment in
        let qs : List (List ℕ) = take n' (drop from ps) in
        let hashes : List ℕ = hashmap_of dbl host qs rh in
        let all = length-drop from ps in
        let size : length qs ≡ n' = length-take n' (drop from ps) ∙ omega arith in
        let learnt =
          learn_hashes-view dbl host rh hash_size ps qs (drop n' (drop from ps)) known arrived from
            0 from (omega arith) k (omega arith) (sym (take-append-drop n' (drop from ps))) in
        let long = length-hashmap_of dbl host rh hash_size qs in
        let rounds : length hashes / 4 ≡ length qs = omega arith in
        let start : segment % size_mod * hashmap_max_len % size_mod ≡ from = omega arith in
        let slots : d.slots ≡ view host rh ps known arrived = ap (λ (c : Core). c.slots) core in
        let t : d.total_parts ≡ length ps = ap (λ (c : Core). c.total_parts) core in
        let after : Slots =
          learn_hashes (length hashes / maphash_len) d.total_parts
            (segment % size_mod * hashmap_max_len % size_mod) 0 hashes d.slots in
        let applied : Resource R = record d { slots = after; waiting_hmu = false } in
        let learned : after ≡ view host rh ps (learn n' from known) arrived =
          rw (t, slots, rounds, start) learnt
          ∙ ap (λ (j : ℕ). view host rh ps (learn j from known) arrived) size in
        let kept = verdict_of-request_window dbl host now applied in
        let core' : core_of (request_window dbl now applied)
            ≡ state_at (learn n' from known) arrived =
          core_of-request_window dbl host now applied
          ∙ ap (λ (c : Core). record c { slots = after }) core
          ∙ ap (λ (s : Slots). record (state_at known arrived) { slots = s }) learned in
        (
          length-learn dbl host rh hash_size n' from known ∙ k,
          n,
          core',
          elim state [
            | inl (short, under, told) ↦ inl (short, kept.0 ∙ under, kept.1 ∙ told)
            | inr (full, over) ↦ inr (full, rw (request_window-over now applied over.0) over)
          ],
        )

    -- The sender's update of a segment, read by the receiver: the map hashes of that segment's parts
    -- are known, and nothing else changes.
    pub hashmap_update_packet-Held :
        (now : R) (segment : ℕ) (d : Resource R) (known arrived : List Bool)
        → first_of segment < 2 ^ 32
        → Held known arrived d
        → (d' : Resource R) × (hashmap_update_packet dbl now
              (update_bytes dbl host segment sender)
              d
            ≡ ok d')
          × Held (learn (count_of (length ps) segment) (first_of segment) known) arrived d'
    hashmap_update_packet-Held now segment d known arrived low held =
        let n' : ℕ = count_of (length ps) segment in
        let hashes : List ℕ = hashmap_of dbl host (take n' (drop (first_of segment) ps)) rh in
        let seen : Resource R = record d { pace = record d.pace { last_activity = now } } in
        let named_size : length resource_hash ≡ 32 = rw hashed (
          length-take 32 (host.full_hash (plaintext ++ rh))
          ∙ ap (min 32) (hash_size (plaintext ++ rh))) in
        let short : length (pack_array_header 2 ++ (pack_uint segment ++ pack_bin hashes))
            < 2 ^ 32 =
          update_bytes-short segment (take n' (drop (first_of segment) ps)) rh (
            omega (
              arith,
              length-take n' (drop (first_of segment) ps),
              length-drop (first_of segment) ps,
            )) in
        let alive : is_failed d.status ≡ false = elim held.3 [
          | inl (few_in, under, told) ↦ ap is_failed under
          | inr (full, over) ↦ ap is_failed over.0
        ] in
        let read =
          hashmap_update_packet-ok now segment resource_hash hashes d named_size (omega arith) short
            alive in
        let after = apply_update-Held now segment seen known arrived low held in
        (
          apply_update dbl now segment hashes seen,
          rw
              (
                update_bytes-ok sender ps segment total
                    (hashmap ∙ ap (λ (x : List ℕ). hashmap_of dbl host ps x) (sym salt)),
                named,
                salt,
              )
              read,
          after,
        )
