-- ===== src/Resource/Serving.antt =====
-- What a sender does for its receiver: request with its hashmap updates, validate_proof and cancel,
-- and the request hashes that it remembers.
use rns.Prelude.{
  ℕ, zero, suc, ◌+◌, ◌-◌, ◌*◌, ◌/◌, ◌%◌, List, [], ◌∷◌, ◌++◌, Bool, true, false, not, ◌&&◌, ◌||◌,
  Option, none, some, ltb, leb, ◌==◌, if◌then◌else◌, length, take, drop, min,
}
use rns.Bytes.{same_bytes}
use rns.MsgPack.Pack.{pack_array_header, pack_uint, pack_bin}
use rns.Resource.State.{
  Doubles, Host, Resource, ResourceStatus, no_status, queued, advertised, transferring,
  awaiting_proof, assembling, complete, failed, corrupt, LinkPacket, resource_hmu, resource_part,
  resource_icl, maphash_len, hashmap_max_len, max_retries, hashmap_is_exhausted,
}
use rns.Resource.Slots.{get_or, set, map_hash}
use rns.Resource.Pace.{whole}
use rns.Resource.Receiver.{is_failed}

abbrev pub is_complete : ResourceStatus → Bool
is_complete complete = true
is_complete no_status = false
is_complete queued = false
is_complete advertised = false
is_complete transferring = false
is_complete awaiting_proof = false
is_complete assembling = false
is_complete failed = false
is_complete corrupt = false

module _ {R : Type 0} (dbl : Doubles R) (host : Host R) where
  unfoldable pub cancel : Resource R → Resource R
  cancel d =
      let told : List LinkPacket =
        if d.outbound && host.link_is_active
        then d.sent ++ (resource_icl d.resource_hash ∷ [])
        else d.sent in
      if is_complete d.status
      then record d { concluded = suc d.concluded }
      else record d { status = failed; sent = told; concluded = suc d.concluded }

  unfoldable pub validate_proof : List ℕ → Resource R → Resource R
  validate_proof proof_data d =
      if leb 64 (length proof_data)
        && leb 32 (length d.expected_proof)
        && same_bytes (take 32 (drop 32 proof_data)) (take 32 d.expected_proof)
      then record d { status = complete; concluded = suc d.concluded }
      else d

  -- The first part with a map hash, from index `i` on.
  unfoldable pub find_part : List (List ℕ) → List ℕ → List ℕ → ℕ → Option (ℕ × List ℕ)
  find_part [] rh wanted i = none
  find_part (p ∷ ps) rh wanted i =
      if same_bytes (map_hash host p rh) wanted then some (i, p) else find_part ps rh wanted (suc i)

  unfoldable pub send_part : R → ℕ → List ℕ → Resource R → Resource R
  send_part now i part d =
      let again : Bool = get_or d.part_sent i true in
      record d {
        sent = d.sent ++ (resource_part part ∷ []);
        part_sent = set d.part_sent i true;
        sent_parts = if again then d.sent_parts else suc d.sent_parts;
        pace = record d.pace { last_activity = now };
        last_part_sent = now;
      }

  -- The loop over `n` requested map hashes.
  unfoldable pub serve_parts : ℕ → R → List ℕ → Resource R → Resource R
  serve_parts zero now wanted d = d
  serve_parts (suc n) now wanted d =
      serve_parts n now (drop maphash_len wanted)
        (elim (find_part d.slots.parts d.random_hash (take maphash_len wanted) 0) [
          | none ↦ d
          | some (i, part) ↦ send_part now i part d
        ])

  -- The index of a map hash in the hashmap, of which `n` are left.
  unfoldable pub find_hash : ℕ → List ℕ → List ℕ → ℕ → Option ℕ
  find_hash zero hashes wanted i = none
  find_hash (suc n) hashes wanted i =
      if ltb (length hashes) maphash_len
      then none
      else if same_bytes (take maphash_len hashes) wanted
      then some i
      else find_hash n (drop maphash_len hashes) wanted (suc i)

  -- The body of a hashmap update for a segment.
  unfoldable pub update_bytes : ℕ → Resource R → List ℕ
  update_bytes segment d =
      let from : ℕ = segment * hashmap_max_len in
      let to : ℕ = min ((segment + 1) * hashmap_max_len) d.total_parts in
      let hashes : List ℕ =
        if ltb from to && leb (to * maphash_len) (length d.hashmap)
        then take ((to - from) * maphash_len) (drop (from * maphash_len) d.hashmap)
        else [] in
      d.resource_hash ++ (pack_array_header 2 ++ (pack_uint segment ++ pack_bin hashes))

  unfoldable pub send_update : R → ℕ → Resource R → Resource R
  send_update now segment d = record d {
    sent = d.sent ++ (resource_hmu (update_bytes segment d) ∷ []);
    pace = record d.pace { last_activity = now };
  }

  -- The end of `request`: every part has been sent once.
  unfoldable pub note_all_sent : Resource R → Resource R
  note_all_sent d =
      if leb (length d.slots.parts) d.sent_parts
      then record d { status = awaiting_proof; retries_left = 3 }
      else d

  -- The answer to an exhausted hashmap: the segment behind the last map hash that the peer has, which
  -- must end a segment.
  unfoldable pub serve_hashmap : R → List ℕ → Resource R → Resource R
  serve_hashmap now last_map_hash d = elim (find_hash d.total_parts d.hashmap last_map_hash 0) [
    | none ↦ cancel d
    | some i ↦
        if suc i % hashmap_max_len == 0
        then note_all_sent (send_update now (suc i / hashmap_max_len) d)
        else cancel d
  ]

  -- The head of `request`: the round trip of the advertisement, and the receiver is alive.
  unfoldable pub note_request : R → Resource R → Resource R
  note_request now d = record d {
    status = transferring;
    retries_left = max_retries;
    pace = record d.pace {
      rtt =
          if dbl.at_most d.pace.rtt (whole dbl 0) && dbl.less (whole dbl 0) d.adv_sent
          then dbl.sub now d.adv_sent
          else d.pace.rtt;
    };
  }

  unfoldable pub request : R → List ℕ → Resource R → Resource R
  request now request_data d =
      let e : Resource R = note_request now d in
      let exhausted : Bool = get_or request_data 0 0 == hashmap_is_exhausted in
      let last : List ℕ = take maphash_len (drop 1 request_data) in
      let wanted : List ℕ = drop (if exhausted then 37 else 33) request_data in
      let served : Resource R = serve_parts (length wanted / maphash_len) now wanted e in
      if not d.outbound || is_failed d.status || ltb (length request_data) 33
      then d
      else if exhausted && ltb (length request_data) 37
      then e
      else if exhausted
      then serve_hashmap now last served
      else note_all_sent served

-- The request hashes that were answered, the latest 64.
abbrev pub req_hashlist_max : ℕ
req_hashlist_max = 64

unfoldable pub has_request_hash : List ℕ → List (List ℕ) → Bool
has_request_hash packet_hash [] = false
has_request_hash packet_hash (seen ∷ hashes) =
    same_bytes seen packet_hash || has_request_hash packet_hash hashes

unfoldable pub note_request_hash : List ℕ → List (List ℕ) → List (List ℕ)
note_request_hash packet_hash hashes =
    (if leb req_hashlist_max (length hashes) then drop 1 hashes else hashes) ++ (packet_hash ∷ [])
