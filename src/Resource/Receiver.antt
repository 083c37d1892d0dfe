-- ===== src/Resource/Receiver.antt =====
-- The receiver of a resource: accept, _request_window, hashmap_update_packet and receive_part. Each
-- call reads the clock once, as `now`; the callbacks are set; the link takes every packet.
use rns.Prelude.{
  ℕ, suc, ◌-◌, ◌*◌, ◌/◌, ◌%◌, List, [], ◌∷◌, ◌++◌, Bool, true, false, not, ◌&&◌, ◌||◌, Option, none,
  some, ltb, leb, ◌==◌, if◌then◌else◌, Result, ok, throw, fault, stuck, ◌>>=◌, length, take, drop,
  replicate, add_size, size_mod,
}
use rns.Bytes.{same_bytes}
use rns.MsgPack.Unpack.{unpack_array_header, unpack_uint, unpack_bin}
use rns.MsgPack.Envelope.{feed, consume}
use rns.Resource.State.{
  Doubles, Host, Resource, ResourceStatus, no_status, queued, advertised, transferring,
  awaiting_proof, assembling, complete, failed, corrupt, Slots, resource_req, resource_prf,
  maphash_len, random_hash_size, hashmap_max_len, max_retries, hashmap_is_not_exhausted,
  hashmap_is_exhausted,
}
use rns.Resource.Slots.{
  get_or, is_empty, map_hash, store_part, learn_hashes, Wanted, no_wanted, scan, new_slots,
}
use rns.Resource.Pace.{whole, sample_response, grow_window, measure_round, new_pace}
use rns.Resource.Compression.{bz2_decompress}
use rns.Resource.Advert.{Advert, from_byte, unpack}

abbrev pub is_transferring : ResourceStatus → Bool
is_transferring transferring = true
is_transferring no_status = false
is_transferring queued = false
is_transferring advertised = false
is_transferring awaiting_proof = false
is_transferring assembling = false
is_transferring complete = false
is_transferring failed = false
is_transferring corrupt = false

abbrev pub is_failed : ResourceStatus → Bool
is_failed failed = true
is_failed no_status = false
is_failed queued = false
is_failed advertised = false
is_failed transferring = false
is_failed awaiting_proof = false
is_failed assembling = false
is_failed complete = false
is_failed corrupt = false

-- The body of an update behind the resource's hash, [segment, map hashes]; `none` if it is shorter.
unfoldable pub parse_update : List ℕ → Result (Option (ℕ × List ℕ))
parse_update bytes = do
  (count, u₁) ← consume unpack_array_header (feed bytes)
  if ltb count 2 then ok none else (do
    (segment, u₂) ← consume unpack_uint u₁
    (hashes, u₃) ← consume unpack_bin u₂
    ok (some (segment, hashes)))

module _ {R : Type 0} (dbl : Doubles R) where
  -- The bytes of a part request.
  unfoldable pub request_bytes : Resource R → Wanted → List ℕ
  request_bytes d w =
      if w.exhausted
      then (let last : List ℕ =
            if d.slots.hashmap_height == 0
            then take maphash_len d.resource_hash
            else get_or d.slots.map_hashes (d.slots.hashmap_height - 1) [] in
          hashmap_is_exhausted ∷ (last ++ (d.resource_hash ++ w.requested)))
      else hashmap_is_not_exhausted ∷ (d.resource_hash ++ w.requested)

  -- The end of `_request_window`: the request goes out.
  unfoldable pub send_request : R → Wanted → Resource R → Resource R
  send_request now w d =
      let req : List ℕ = request_bytes d w in
      record d {
        sent = d.sent ++ (resource_req req ∷ []);
        waiting_hmu = w.exhausted || d.waiting_hmu;
        pace = record d.pace {
          outstanding_parts = w.number;
          last_activity = now;
          req_sent = now;
          req_sent_bytes = length req;
          rtt_rxd_bytes_at_part_req = d.pace.rtt_rxd_bytes;
          req_resp = dbl.minus_one;
        };
      }

  unfoldable pub request_window : R → Resource R → Resource R
  request_window now d =
      let w : Wanted = scan d.pace.window d.total_parts d.slots.consec d.slots no_wanted in
      if d.outbound || d.waiting_hmu || not (is_transferring d.status)
      then d
      else if (length w.requested == 0) && not w.exhausted
      then record d { pace = record d.pace { outstanding_parts = w.number } }
      else send_request now w d

  -- The loop over the hashes of an update, and the next request.
  unfoldable pub apply_update : R → ℕ → List ℕ → Resource R → Resource R
  apply_update now segment hashes d = request_window now (record d {
    slots =
        learn_hashes (length hashes / maphash_len) d.total_parts
          (segment % size_mod * hashmap_max_len % size_mod) 0 hashes d.slots;
    waiting_hmu = false;
  })

  -- An exception of the parser is caught.
  unfoldable pub hashmap_update_packet : R → List ℕ → Resource R → Result (Resource R)
  hashmap_update_packet now plaintext d =
      let seen : Resource R = record d { pace = record d.pace { last_activity = now } } in
      if is_failed d.status || leb (length plaintext) 32
      then ok d
      else elim (parse_update (drop 32 plaintext)) [
        | ok none ↦ ok seen
        | ok (some (segment, hashes)) ↦ ok (apply_update now segment hashes seen)
        | throw e ↦ ok seen
        | fault ↦ fault
        | stuck ↦ stuck
      ]

  module _ (host : Host R) where
    -- The assembly loop: `none` where a part is missing.
    unfoldable pub assemble : List (List ℕ) → Option (List ℕ)
    assemble [] = some []
    assemble (p ∷ ps) =
        if is_empty p
        then none
        else elim (assemble ps) [ none ↦ none | some rest ↦ some (p ++ rest) ]

    unfoldable pub generate_proof : Resource R → List ℕ
    generate_proof d = host.full_hash (d.bytes ++ d.resource_hash)

    -- The payload of the decrypted stream, which starts with the randomiser.
    unfoldable pub payload_of : Resource R → List ℕ → Option (List ℕ)
    payload_of d decrypted =
        if leb (length decrypted) random_hash_size
        then none
        else if d.flags.compressed
        then bz2_decompress host (drop random_hash_size decrypted) d.total_size
        else some (drop random_hash_size decrypted)

    -- The integrity check, and the proof for the sender.
    unfoldable pub check_payload : List ℕ → Resource R → Resource R
    check_payload payload d =
        let done : Resource R = record d { bytes = payload; status = complete } in
        if same_bytes (take 32 (host.full_hash (payload ++ d.random_hash))) d.resource_hash
        then record done {
          sent = d.sent ++ (resource_prf (d.resource_hash ++ generate_proof done) ∷ []);
        }
        else record d { status = corrupt }

    -- All parts are in: from the parts to the data.
    unfoldable pub finish : Resource R → Resource R
    finish d = elim (assemble (take d.total_parts d.slots.parts)) [
      | none ↦ record d { status = corrupt }
      | some assembled ↦ elim (payload_of d (host.link_decrypt assembled)) [
        | none ↦ record d { status = corrupt }
        | some payload ↦ check_payload payload d
      ]
    ]

    -- The clock and the rate sample at the head of `receive_part`.
    unfoldable pub note_part : R → ℕ → Resource R → Resource R
    note_part now part_size d = record d {
      retries_left = max_retries;
      pace = sample_response dbl host now part_size (record d.pace { last_activity = now });
    }

    -- An accepted part: the slots, the counters of its window, and the progress callback.
    unfoldable pub take_part : ℕ → Slots → Resource R → Resource R
    take_part part_size s d = record d {
      slots = s;
      progressed = suc d.progressed;
      pace = record d.pace {
        rtt_rxd_bytes = add_size d.pace.rtt_rxd_bytes part_size;
        outstanding_parts = d.pace.outstanding_parts - 1;
      };
    }

    -- The next window, once the current one has drained.
    unfoldable pub next_window : R → Resource R → Resource R
    next_window now d =
        if ltb d.slots.received d.total_parts
          && not d.waiting_hmu
          && (d.pace.outstanding_parts == 0)
        then request_window now
            (record d { pace = measure_round dbl host now (grow_window dbl d.pace) })
        else d

    -- The end of `receive_part`, with the concluded callback.
    unfoldable pub conclude_parts : Resource R → Resource R
    conclude_parts d =
        let e : Resource R = finish d in
        if ltb 0 d.total_parts && leb d.total_parts d.slots.received
        then record e { concluded = suc e.concluded }
        else d

    unfoldable pub receive_part : R → List ℕ → Resource R → Bool × Resource R
    receive_part now part d =
        let e : Resource R = note_part now (length part) d in
        if d.outbound
        then (false, d)
        else elim (store_part host (map_hash host part d.random_hash) part e.slots) [
          | none ↦ (false, e)
          | some s ↦ (true, conclude_parts (next_window now (take_part (length part) s e)))
        ]

    -- The state that an advertisement opens.
    unfoldable pub accepted : R → Advert → List ℕ → Resource R
    accepted now adv request_id = record {
      outbound = false;
      status = transferring;
      request_id = if length request_id == 0 then adv.q else request_id;
      bytes = [];
      size = adv.t;
      total_size = adv.d;
      transfer_size = adv.t;
      data_size = adv.d;
      total_parts = adv.n;
      resource_hash = take 32 adv.h;
      random_hash = take random_hash_size adv.r;
      original_hash = if leb 32 (length adv.o) then take 32 adv.o else replicate 32 0;
      expected_proof = [];
      hashmap = [];
      slots = new_slots adv.n adv.m;
      pace = new_pace dbl now;
      waiting_hmu = false;
      flags = from_byte adv.f;
      timeout = whole dbl 0;
      timeout_factor = host.traffic_timeout_factor;
      adv_sent = whole dbl 0;
      last_part_sent = whole dbl 0;
      started_at = now;
      retries_left = max_retries;
      part_sent = [];
      sent_parts = 0;
      req_hashlist = [];
      sent = [];
      concluded = 0;
      progressed = 0;
    }

    -- `has_link` says whether the packet came over a link; an exception of the parser is caught.
    unfoldable pub accept : ℕ → R → Bool → List ℕ → List ℕ → Result (Option (Resource R))
    accept depth now has_link plaintext request_id =
        if has_link
        then elim (unpack depth plaintext) [
          | ok adv ↦
              if ltb (length adv.h) 32 || ltb (length adv.r) random_hash_size
              then ok none
              else ok (some (request_window now (accepted now adv request_id)))
          | throw e ↦ ok none
          | fault ↦ fault
          | stuck ↦ stuck
        ]
        else ok none
