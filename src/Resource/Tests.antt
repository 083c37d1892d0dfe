-- ===== src/Resource/Tests.antt =====
-- Runs of resources on small inputs: doubles are whole numbers from -1 on, the hash of a string is its
-- first 32 bytes, and the link does not encrypt.
use rns.Prelude.{
  ℕ, zero, suc, ◌+◌, ◌-◌, ◌*◌, ◌/◌, ◌≤◌, ◌<◌, ◌^◌, ◌≡◌, refl, List, [], ◌∷◌, ◌++◌, true, false,
  arith, leb, ltb, ◌==◌, length, take, replicate, Result, ok, throw, fault, stuck, sym, ap, none,
  some, length-append, length-take, length-replicate,
}
use rns.Bytes.{same_bytes}
use rns.MsgPack.Pack.{
  pack_map_header, pack_uint, pack_bin, pack_str, bin_prefix, str_prefix, pack_nil,
}
use rns.Resource.Advert.Reading.{encode_members}
use rns.Resource.Advert.RoundTrip.{IsAdvert, members, unpack-pack}
use rns.Resource.Delivery.Opening.{accept-advertise}
use rns.Resource.State.{resource_adv}
use rns.Resource.Advert.{pack, unpack}
use rns.Resource.Receiver.{accept}
use rns.Resource.Sender.{advertise, advert_of, split_stream, new_outbound}
use rns.Resource.State.{
  Doubles, Host, Resource, Pace, LinkPacket, resource_prf, complete, failed, random_hash_size,
}
use rns.Resource.Slots.{
  map_hash, store_part, find_slot, new_slots, learn_hashes, learn_hash, consec_from, scan,
}
use rns.Resource.Pace.{
  sample_response, new_pace, update_eifr, back_off, grow_window, measure_round, note_fast_rate,
  note_slow_rate,
}
use rns.Resource.Advert.{Advert, from_byte}
use rns.Resource.Receiver.{
  accepted, receive_part, note_part, take_part, next_window, conclude_parts, finish, assemble,
  payload_of, check_payload, request_window, send_request, request_bytes,
}
use rns.Resource.Watchdog.{parts_deadline, retry_window}
use rns.Resource.Integrity.{IsGenuine, receive_part-IsGenuine}
use rns.Resource.Retry.{polls, AreLate, polls-failed}
use rns.Resource.PaceInv.{
  IsPaced, requested, part_comes, cancelled, stay, go_on, reachable-IsPaced, back_off-window_max,
}
use rns.Resource.Requests.{note_all, last, note_all-last}
use rns.Resource.Compression.{is_bz2, bz2_compress}
use rns.Resource.Sender.{cut_parts, compressed_form}
use rns.Resource.Serving.{validate_proof, cancel, is_complete, req_hashlist_max}
use rns.Resource.Delivery.Sets.{IsDistinct, size_of}
use rns.Resource.Delivery.Start.{stream, opened, opened-IsAt}
use rns.Resource.Delivery.Machine.{
  Event, part_arrives, update_arrives, AreEvents, first_progress, follow_all, run, the_sender,
  the_parts, Shows, run-Shows, run-delivers,
}

-- The number `n` stands for `n - 1`.
abbrev whole_doubles : Doubles ℕ
whole_doubles = record {
  ratio = λ a b. a / b + 1;
  minus_one = 0;
  add = λ a b. a + b - 1;
  sub = λ a b. suc a - b;
  mul = λ a b. (a - 1) * (b - 1) + 1;
  div = λ a b. (a - 1) / (b - 1) + 1;
  less = ltb;
  at_most = leb;
  is_zero = λ a. a == 1;
}

abbrev plain_host : Host ℕ
plain_host = record {
  link_encrypt = λ x. ok x;
  link_decrypt = λ x. x;
  link_is_active = true;
  link_rtt = 3;
  traffic_timeout_factor = 6;
  establishment_cost = 300;
  full_hash = λ x. take 32 (x ++ replicate 32 0);
  bz_compress = λ cap x. none;
  bz_decompress = λ cap x. none;
}

hash_size : (x : List ℕ) → length (plain_host.full_hash x) ≡ 32
hash_size x = omega (
  arith,
  length-take 32 (x ++ replicate 32 0),
  length-append x (replicate 32 0),
  length-replicate {A = ℕ} 32 0,
)

link_opens : (x s : List ℕ) → plain_host.link_encrypt x ≡ ok s → plain_host.link_decrypt s ≡ x
link_opens x s made = sym (
    ap (λ (r : Result (List ℕ)). elim r [ ok y ↦ y | throw e ↦ [] | fault ↦ [] | stuck ↦ [] ]) made)

abbrev payload : List ℕ
payload = replicate 470 7

abbrev front : List ℕ
front = 1 ∷ 2 ∷ 3 ∷ 4 ∷ []

abbrev salt : List ℕ
salt = 5 ∷ 6 ∷ 7 ∷ 8 ∷ []

no_bz2 :
    (cap : ℕ) (input out : List ℕ)
    → plain_host.bz_compress cap input ≡ some out
    → (is_bz2 out ≡ true) × (plain_host.bz_decompress (length input) out ≡ some input)
no_bz2 cap input out made = ground arith

-- The second part comes twice, before the first.
abbrev arrivals : List (Event ℕ)
arrivals = part_arrives 5 1 ∷ part_arrives 6 1 ∷ update_arrives 6 0 ∷ part_arrives 7 0 ∷ []

abbrev parts : List (List ℕ)
parts = the_parts whole_doubles plain_host payload front salt [] false false true 1

parts_distinct : IsDistinct plain_host (take random_hash_size salt) parts
unfolding cut_parts map_hash compressed_form bz2_compress same_bytes
parts_distinct = ((refl, tt), (tt, tt))

some_payload : 0 < length payload
some_payload = omega arith

random_enough : 4 ≤ length front
random_enough = omega arith

some_stream : 0 < length (stream whole_doubles plain_host payload front salt [] false false true 1)
unfolding compressed_form bz2_compress
some_stream = omega arith

short_stream :
    length (stream whole_doubles plain_host payload front salt [] false false true 1) < 2 ^ 32
unfolding compressed_form bz2_compress
short_stream = omega arith

arrivals_can_come : AreEvents (length parts) arrivals
unfolding cut_parts compressed_form bz2_compress
arrivals_can_come = (omega arith, (omega arith, (omega arith, (omega arith, tt))))

all_arrive :
    length parts
    ≤ size_of (follow_all (length parts) arrivals (first_progress (length parts))).arrived
unfolding cut_parts compressed_form bz2_compress
all_arrive = omega arith

abbrev the_start : Resource ℕ
the_start =
    opened whole_doubles plain_host payload front salt [] false false true 1 hash_size link_opens
      no_bz2 some_payload random_enough some_stream short_stream parts_distinct 4 []

run-delivers_example :
    (d : Resource ℕ) × (run whole_doubles plain_host
        (the_sender whole_doubles plain_host payload front salt [] false false true 1)
        arrivals
        the_start
      ≡ ok d)
    × (d.status ≡ complete)
    × (d.bytes ≡ payload)
    × (d.concluded ≡ 1)
    × (proof : List ℕ) × (before : List LinkPacket) × (d.sent ≡ before ++ (resource_prf proof ∷ []))
    × ((validate_proof whole_doubles plain_host proof
          (the_sender whole_doubles plain_host payload front salt [] false false true 1)).status
        ≡ complete)
run-delivers_example =
    run-delivers whole_doubles plain_host payload front salt [] false false true 1 hash_size
      link_opens no_bz2 some_payload random_enough some_stream short_stream parts_distinct 4 []
      arrivals arrivals_can_come all_arrive

run-Shows_example :
    (d : Resource ℕ) × (run whole_doubles plain_host
        (the_sender whole_doubles plain_host payload front salt [] false false true 1)
        arrivals
        the_start
      ≡ ok d)
    × Shows whole_doubles plain_host payload front salt [] false false true 1 hash_size link_opens
        no_bz2 some_payload random_enough some_stream short_stream parts_distinct
        (follow_all (length parts) arrivals (first_progress (length parts)))
        d
run-Shows_example =
    run-Shows whole_doubles plain_host payload front salt [] false false true 1 hash_size link_opens
      no_bz2 some_payload random_enough some_stream short_stream parts_distinct arrivals
      (first_progress (length parts)) the_start arrivals_can_come
      (opened-IsAt whole_doubles plain_host payload front salt [] false false true 1 hash_size
        link_opens no_bz2 some_payload random_enough some_stream short_stream parts_distinct 4 [])

-- A resource of one part.
abbrev small_advert : Advert
small_advert = record {
  t = 44;
  d = 40;
  n = 1;
  i = 1;
  l = 1;
  f = 0x01;
  h = replicate 32 7;
  r = salt;
  o = replicate 32 7;
  m = front;
  q = [];
  flags = from_byte 0x01;
}

abbrev small_part : List ℕ
small_part = front ++ replicate 40 7

abbrev small_receiver : Resource ℕ
small_receiver = accepted whole_doubles plain_host 4 small_advert []

small_receiver-is_complete :
    is_complete (receive_part whole_doubles plain_host 9 small_part small_receiver).1.status ≡ true
unfolding accepted receive_part note_part sample_response store_part find_slot map_hash same_bytes
    new_slots learn_hashes learn_hash consec_from take_part next_window conclude_parts finish
    assemble payload_of check_payload from_byte new_pace
small_receiver-is_complete = refl

receive_part-IsGenuine_example :
    IsGenuine whole_doubles plain_host
      (receive_part whole_doubles plain_host 9 small_part small_receiver).1
unfolding accepted
receive_part-IsGenuine_example =
    receive_part-IsGenuine whole_doubles plain_host 9 small_part small_receiver refl
      small_receiver-is_complete

-- A receiver with one retry left that hears nothing more.
abbrev lone_receiver : Resource ℕ
lone_receiver = record small_receiver { retries_left = 1 }

lone_receiver-AreLate : AreLate whole_doubles plain_host (1_000_000 ∷ 2_000_000 ∷ []) lone_receiver
unfolding accepted new_pace update_eifr parts_deadline retry_window back_off request_window scan
    send_request request_bytes new_slots learn_hashes learn_hash
lone_receiver-AreLate = (refl, refl, (refl, refl, tt))

polls-failed_example :
    (e : Resource ℕ) × (polls whole_doubles plain_host (1_000_000 ∷ 2_000_000 ∷ []) lone_receiver
      ≡ ok e)
    × (e.status ≡ failed)
    × (e.concluded ≡ suc lone_receiver.concluded)
unfolding accepted
polls-failed_example =
    polls-failed whole_doubles plain_host (1_000_000 ∷ 2_000_000 ∷ []) lone_receiver refl refl refl
      lone_receiver-AreLate

-- A window of eight on a link that turned out to be very slow.
abbrev slow_pace : Pace ℕ
slow_pace = record small_receiver.pace {
  window = 8;
  window_max = 4;
  window_min = 2;
  flexibility = 4;
}

back_off-window_max_example : (back_off whole_doubles slow_pace).window_max ≡ 4 - 2
back_off-window_max_example =
    back_off-window_max whole_doubles plain_host slow_pace (omega arith) (omega arith) (omega arith)
      (omega arith) (omega arith) (omega arith)

-- Five parts of one byte: the first window of four drains, and its rate is measured.
abbrev five_advert : Advert
five_advert = record small_advert {
  t = 5;
  n = 5;
  m = 1 ∷ 5 ∷ 6 ∷ 7 ∷ 2 ∷ 5 ∷ 6 ∷ 7 ∷ 3 ∷ 5 ∷ 6 ∷ 7 ∷ 4 ∷ 5 ∷ 6 ∷ 7 ∷ 9 ∷ 5 ∷ 6 ∷ 7 ∷ [];
}

abbrev part_at : ℕ → ℕ → Resource ℕ → Resource ℕ
part_at now byte d = (receive_part whole_doubles plain_host now (byte ∷ []) d).1

abbrev opened_five : Resource ℕ
opened_five = accepted whole_doubles plain_host 4 five_advert []

abbrev asked_five : Resource ℕ
asked_five = request_window whole_doubles 5 opened_five

abbrev first_two : Resource ℕ
first_two = part_at 6 2 (part_at 6 1 asked_five)

abbrev drained : Resource ℕ
drained = part_at 6 4 (part_at 6 3 first_two)

-- The window has grown, and the rate of its round is known.
drained-measured :
    (drained.pace.window ≡ 5) × (drained.pace.req_sent ≡ 6) × (drained.pace.req_data_rtt_rate ≡ 5)
unfolding accepted receive_part note_part sample_response store_part find_slot map_hash same_bytes
    new_slots learn_hashes learn_hash consec_from take_part next_window conclude_parts finish
    assemble payload_of check_payload from_byte new_pace request_window scan send_request
    request_bytes grow_window measure_round update_eifr note_fast_rate note_slow_rate
drained-measured = (refl, refl, refl)

reachable-IsPaced_example : IsPaced (cancel whole_doubles plain_host drained).pace
reachable-IsPaced_example =
    reachable-IsPaced whole_doubles plain_host 4 five_advert []
      (cancel whole_doubles plain_host drained)
      (go_on opened_five asked_five (cancel whole_doubles plain_host drained)
        (requested 5 opened_five)
        (go_on asked_five (part_at 6 1 asked_five) (cancel whole_doubles plain_host drained)
          (part_comes 6 (1 ∷ []) asked_five)
          (go_on (part_at 6 1 asked_five) first_two (cancel whole_doubles plain_host drained)
            (part_comes 6 (2 ∷ []) (part_at 6 1 asked_five))
            (go_on first_two (part_at 6 3 first_two) (cancel whole_doubles plain_host drained)
              (part_comes 6 (3 ∷ []) first_two)
              (go_on (part_at 6 3 first_two) drained (cancel whole_doubles plain_host drained)
                (part_comes 6 (4 ∷ []) (part_at 6 3 first_two))
                (go_on drained (cancel whole_doubles plain_host drained)
                  (cancel whole_doubles plain_host drained) (cancelled drained)
                  (stay (cancel whole_doubles plain_host drained))))))))

-- The hashes of `n` requests.
abbrev numbered : ℕ → List (List ℕ)
numbered zero = []
numbered (suc n) = (n ∷ []) ∷ numbered n

note_all-last_example : note_all (numbered 70) [] ≡ last req_hashlist_max ([] ++ numbered 70)
note_all-last_example = note_all-last (numbered 70) [] (omega arith)

small_advert-IsAdvert : IsAdvert small_advert
small_advert-IsAdvert =
    (omega arith, omega arith, omega arith, omega arith, omega arith, omega arith, refl)

small_advert_size : length (pack_map_header 11 ++ encode_members (members small_advert)) < 2 ^ 32
unfolding pack_map_header pack_uint pack_bin pack_str bin_prefix str_prefix pack_nil
small_advert_size = omega arith

unpack-pack_example :
    (packed : List ℕ) × (pack small_advert ≡ ok packed) × (unpack 1 packed ≡ ok small_advert)
unpack-pack_example = unpack-pack small_advert 0 small_advert-IsAdvert small_advert_size

abbrev the_outbound : Resource ℕ
the_outbound = the_sender whole_doubles plain_host payload front salt [] false false true 1

accept-advertise_example :
    (packed : List ℕ) × (e : Resource ℕ) × (advertise whole_doubles plain_host 4 the_outbound
      ≡ ok e)
    × (e.sent ≡ the_outbound.sent ++ (resource_adv packed ∷ []))
    × (accept whole_doubles plain_host 1 5 true packed []
        ≡ ok (
            some (
              request_window whole_doubles 5 (
                accepted whole_doubles plain_host 5
                  (advert_of whole_doubles plain_host the_outbound)
                  []))))
unfolding split_stream new_outbound cut_parts compressed_form bz2_compress
accept-advertise_example =
    accept-advertise whole_doubles plain_host 4 5 [] 0 the_outbound (omega arith) (omega arith)
      (omega arith) refl refl refl (omega arith)
