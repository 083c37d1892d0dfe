-- ===== src/Resource/Delivery/Machine.antt =====
-- Whole transfers: parts and hashmap updates of the sender that reach the receiver in any order, and
-- as often as the network repeats them.
use rns.Prelude.{
  ℕ, ◌≤◌, ◌<◌, ◌^◌, ◌≡◌, ◌∙◌, refl, ap, List, [], ◌∷◌, ◌++◌, Bool, true, false, arith, leb,
  if◌then◌else◌, length, take, drop, replicate, inl, inr, min, length-append, length-take,
  drop-append_self, Result, ok, ◌>>=◌, some,
}
use rns.Bytes.{same_bytes_refl}
use rns.Resource.State.{
  Doubles, Host, Resource, LinkPacket, resource_prf, hashmap_max_len, random_hash_size, complete,
}
use rns.Resource.Slots.{get_or, set}
use rns.Resource.Compression.{is_bz2}
use rns.Resource.Receiver.{receive_part, hashmap_update_packet}
use rns.Resource.Sender.{split_stream}
use rns.Resource.Serving.{update_bytes, validate_proof}
use rns.Resource.Delivery.Sets.{IsFilled, IsDistinct, size_of}
use rns.Resource.Delivery.Arrival.{receive_part-Holds}
use rns.Resource.Delivery.Core.{concat, read_stream}
use rns.Resource.Delivery.Learning.{learn}
use rns.Resource.Delivery.Updates.{first_of, count_of, hashmap_update_packet-Held}
use rns.Resource.Delivery.Start.{
  stream, sent_flags, sent_parts, sender, name, IsAt, opened, opened-IsAt, filled, opens, few_parts,
}

-- What reaches the receiver: the part of a number, or the update of a segment, with the time.
pub data Event (R : Type 0) : Type 0 where
  part_arrives : R → ℕ → Event R
  update_arrives : R → ℕ → Event R

abbrev pub IsEvent : {R : Type 0} → ℕ → Event R → Type 0
IsEvent n (part_arrives now i) = i < n
IsEvent n (update_arrives now segment) = first_of segment < 2 ^ 32

abbrev pub AreEvents : {R : Type 0} → ℕ → List (Event R) → Type 0
AreEvents n [] = Unit
AreEvents n (e ∷ es) = IsEvent n e × AreEvents n es

-- The abstract receiver: the parts whose map hash is known, and those that have arrived.
pub record Progress : Type 0 where
  pub known : List Bool
  pub arrived : List Bool

abbrev pub follow : {R : Type 0} → ℕ → Event R → Progress → Progress
follow n (part_arrives now i) s = record s {
  arrived = if get_or s.known i false then set s.arrived i true else s.arrived;
}
follow n (update_arrives now segment) s = record s {
  known = learn (count_of n segment) (first_of segment) s.known;
}

abbrev pub follow_all : {R : Type 0} → ℕ → List (Event R) → Progress → Progress
follow_all n [] s = s
follow_all n (e ∷ es) s = follow_all n es (follow n e s)

-- The first segment's map hashes are known, and nothing has arrived.
abbrev pub first_progress : ℕ → Progress
first_progress n = record {
  known = learn (min n hashmap_max_len) 0 (replicate n false);
  arrived = replicate n false;
}

module _ {R : Type 0} (dbl : Doubles R) (host : Host R) where
  abbrev pub deliver : Resource R → Event R → Resource R → Result (Resource R)
  deliver from (part_arrives now i) d =
      ok (receive_part dbl host now (get_or from.slots.parts i []) d).1
  deliver from (update_arrives now segment) d =
      hashmap_update_packet dbl now (update_bytes dbl host segment from) d

  abbrev pub run : Resource R → List (Event R) → Resource R → Result (Resource R)
  run from [] d = ok d
  run from (e ∷ es) d = do d' ← deliver from e d; run from es d'

-- A proof that ends in the expected hash.
validate_proof-expected :
    {R : Type 0} (dbl : Doubles R) (host : Host R) (front proof : List ℕ) (d : Resource R)
    → length front ≡ 32
    → length proof ≡ 32
    → d.expected_proof ≡ proof
    → (validate_proof dbl host (front ++ proof) d).status ≡ complete
unfolding validate_proof
validate_proof-expected dbl host front proof d size size' expected =
    let behind : drop 32 (front ++ proof) ≡ proof = rw (← size) (drop-append_self front proof) in
    let long : leb 64 (length (front ++ proof)) ≡ true =
      ground (arith, length-append front proof, size, size') in
    let long' : leb 32 (length proof) ≡ true = ground (arith, size') in
    rw (expected, behind, long, long', same_bytes_refl (take 32 proof)) refl

module _ {R : Type 0} (dbl : Doubles R) (host : Host R) (plaintext srh salt request_id : List ℕ)
    (is_request is_response auto_compress : Bool) (timeout : R) where
  abbrev pub the_sender : Resource R
  the_sender =
      sender dbl host plaintext srh salt request_id is_request is_response auto_compress timeout

  abbrev pub the_parts : List (List ℕ)
  the_parts =
      sent_parts dbl host plaintext srh salt request_id is_request is_response auto_compress timeout

  module _ (hash_size : (x : List ℕ) → length (host.full_hash x) ≡ 32)
      (decrypts : (x s : List ℕ) → host.link_encrypt x ≡ ok s → host.link_decrypt s ≡ x)
      (bz2 : (cap : ℕ) (input out : List ℕ)
        → host.bz_compress cap input ≡ some out
        → (is_bz2 out ≡ true) × (host.bz_decompress (length input) out ≡ some input))
      (some_data : 0 < length plaintext) (random : 4 ≤ length srh)
      (some_stream : 0
        < length (
            stream dbl host plaintext srh salt request_id is_request is_response auto_compress
              timeout))
      (short : length (
          stream dbl host plaintext srh salt request_id is_request is_response auto_compress
            timeout)
        < 2 ^ 32)
      (distinct : IsDistinct host (take random_hash_size salt) the_parts) where
    -- The receiver holds exactly the parts and the map hashes of the abstract one.
    abbrev pub Shows : Progress → Resource R → Type 0
    Shows s d =
        IsAt dbl host plaintext srh salt request_id is_request is_response auto_compress timeout
          hash_size decrypts bz2 some_data random some_stream short distinct s.known s.arrived d

    abbrev fills : IsFilled the_parts
    fills =
        filled dbl host plaintext srh salt request_id is_request is_response auto_compress timeout
          hash_size decrypts bz2 some_data random some_stream short distinct

    abbrev opening :
        read_stream dbl host
          (sent_flags dbl host plaintext srh salt request_id is_request is_response auto_compress
            timeout)
          (length plaintext)
          (host.link_decrypt (concat the_parts))
        ≡ some plaintext
    opening =
        opens dbl host plaintext srh salt request_id is_request is_response auto_compress timeout
          hash_size decrypts bz2 some_data random some_stream short distinct

    abbrev the_name : List ℕ
    the_name =
        name dbl host plaintext srh salt request_id is_request is_response auto_compress timeout
          hash_size decrypts bz2 some_data random some_stream short distinct

    deliver-Shows :
        (e : Event R) (s : Progress) (d : Resource R)
        → IsEvent (length the_parts) e
        → Shows s d
        → (d' : Resource R) × (deliver dbl host the_sender e d ≡ ok d')
          × Shows (follow (length the_parts) e s) d'
    unfolding split_stream
    deliver-Shows (part_arrives now i) s d inside shows = (
      (receive_part dbl host now (get_or the_parts i []) d).1,
      refl,
      receive_part-Holds dbl host the_parts plaintext (take random_hash_size salt) the_name
          (sent_flags dbl host plaintext srh salt request_id is_request is_response auto_compress
            timeout)
          (length plaintext) fills distinct opening refl now i d s.known s.arrived inside shows,
    )
    deliver-Shows (update_arrives now segment) s d low shows =
        hashmap_update_packet-Held dbl host hash_size the_parts plaintext
          (take random_hash_size salt) the_name
          (sent_flags dbl host plaintext srh salt request_id is_request is_response auto_compress
            timeout)
          (length plaintext) fills distinct opening refl the_sender refl refl refl refl
          (few_parts dbl host plaintext srh salt request_id is_request is_response auto_compress
            timeout hash_size decrypts bz2 some_data random some_stream short distinct)
          now segment d s.known s.arrived low shows

    -- The receiver implements a machine of two sets, the parts whose map hashes are known and the
    -- parts that have arrived: whatever parts and hashmap updates of the sender come, in any
    -- order and repetition, the state is handled without an exception, its vectors, counters and
    -- height are those of the two sets, and it is TRANSFERRING, with no callback yet, as long as
    -- a part is missing, and otherwise COMPLETE with the payload, the proof as its last packet
    -- and one call of the callback. A part joins the second set if it is in the first, and an
    -- update adds its segment to the first. The conditions on the payload, the link and the map
    -- hashes are those of a transfer that arrives.
    pub run-Shows :
        (es : List (Event R)) (s : Progress) (d : Resource R)
        → AreEvents (length the_parts) es
        → Shows s d
        → (d' : Resource R) × (run dbl host the_sender es d ≡ ok d')
          × Shows (follow_all (length the_parts) es s) d'
    run-Shows [] s d events shows = (d, refl, shows)
    run-Shows (e ∷ es) s d (event, events) shows =
        let (d₁, one, shows₁) = deliver-Shows e s d event shows in
        let (d₂, more, shows₂) = run-Shows es (follow (length the_parts) e s) d₁ events shows₁ in
        (d₂, rw one more, shows₂)

    -- The sender accepts the proof of the whole payload.
    validate_proof-the_sender :
        (validate_proof dbl host
          (the_name ++ host.full_hash (plaintext ++ the_name))
          the_sender).status
        ≡ complete
    unfolding split_stream
    validate_proof-the_sender =
        validate_proof-expected dbl host the_name (host.full_hash (plaintext ++ the_name))
          the_sender
          (length-take 32 (host.full_hash (plaintext ++ take random_hash_size salt))
            ∙ ap (min 32) (hash_size (plaintext ++ take random_hash_size salt)))
          (hash_size (plaintext ++ the_name)) refl

    -- A resource arrives: let the parts and the hashmap updates that a sender serves for a
    -- payload reach the receiver of its advertisement in any order and any repetition, such that
    -- each part comes at least once when its map hash is known. Then the receiver is COMPLETE
    -- with the payload as its data, its concluded callback has been called once, and the last
    -- packet that it sent is a proof by which the sender is COMPLETE too. The payload is not
    -- empty, its encrypted stream has at least one and fewer than 2^32 bytes, the random hash has
    -- four bytes, no two parts have the same map hash, digests have 32 bytes, and the link and
    -- bzip2 invert themselves.
    pub run-delivers :
        (now : R) (rid : List ℕ) (es : List (Event R))
        → AreEvents (length the_parts) es
        → length the_parts
          ≤ size_of (follow_all (length the_parts) es (first_progress (length the_parts))).arrived
        → (d : Resource R) × (run dbl host the_sender es (
              opened dbl host plaintext srh salt request_id is_request is_response auto_compress
                timeout hash_size decrypts bz2 some_data random some_stream short distinct now rid)
            ≡ ok d)
          × (d.status ≡ complete)
          × (d.bytes ≡ plaintext)
          × (d.concluded ≡ 1)
          × (proof : List ℕ) × (before : List LinkPacket) × (d.sent
              ≡ before ++ (resource_prf proof ∷ []))
          × ((validate_proof dbl host proof the_sender).status ≡ complete)
    run-delivers now rid es events all =
        let n : ℕ = length the_parts in
        let start =
          opened-IsAt dbl host plaintext srh salt request_id is_request is_response auto_compress
            timeout hash_size decrypts bz2 some_data random some_stream short distinct now rid in
        let (d, ran, shows) =
          run-Shows es (first_progress n)
            (opened dbl host plaintext srh salt request_id is_request is_response auto_compress
              timeout hash_size decrypts bz2 some_data random some_stream short distinct now rid)
            events start in
        elim shows.3 [
          | inl (short_of, under, told) ↦ absurd (omega arith)
          | inr (full, over) ↦
              let (status, bytes, told, before, sent) = over in
              (
                d,
                ran,
                status,
                bytes,
                told,
                the_name ++ host.full_hash (plaintext ++ the_name),
                before,
                sent,
                validate_proof-the_sender,
              )
        ]
