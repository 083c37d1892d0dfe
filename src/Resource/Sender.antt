-- ===== src/Resource/Sender.antt =====
-- The sender of a resource: the constructors, advertise, request, validate_proof and cancel. Each
-- call reads the clock once, as `now`; the callbacks are set; the link takes every packet.
use rns.Prelude.{
  ℕ, zero, suc, ◌+◌, ◌-◌, ◌*◌, ◌/◌, List, [], ◌∷◌, ◌++◌, Bool, true, false, ◌&&◌, none, some, leb,
  ◌==◌, if◌then◌else◌, Result, ok, ◌>>=◌, length, take, drop, replicate, min,
}
use rns.Resource.State.{
  Doubles, Host, Resource, no_status, advertised, failed, ResourceFlags, resource_adv, maphash_len,
  random_hash_size, hashmap_max_len, sdu, auto_compress_max_size, max_adv_retries,
}
use rns.Resource.Slots.{map_hash, new_slots}
use rns.Resource.Pace.{whole, new_pace}
use rns.Resource.Compression.{bz2_compress}
use rns.Resource.Advert.{Advert, to_byte, pack}

-- The loop that cuts the encrypted stream into `n` parts.
unfoldable pub cut_parts : ℕ → List ℕ → List (List ℕ)
cut_parts zero stream = []
cut_parts (suc n) stream = take sdu stream ∷ cut_parts n (drop sdu stream)

module _ {R : Type 0} (dbl : Doubles R) (host : Host R) where
  -- The map hashes of the parts, one behind the other.
  unfoldable pub hashmap_of : List (List ℕ) → List ℕ → List ℕ
  hashmap_of [] rh = []
  hashmap_of (p ∷ ps) rh = map_hash host p rh ++ hashmap_of ps rh

  -- `ResourceAdvertisement` as `advertise` fills it.
  unfoldable pub advert_of : Resource R → Advert
  advert_of d = record {
    t = d.transfer_size;
    d = d.data_size;
    n = d.total_parts;
    h = d.resource_hash;
    r = d.random_hash;
    o = d.original_hash;
    i = 1;
    l = 1;
    q = d.request_id;
    m = take (min d.total_parts hashmap_max_len * maphash_len) d.hashmap;
    f = to_byte d.flags;
    flags = d.flags;
  }

  unfoldable pub advertise : R → Resource R → Result (Resource R)
  advertise now d = do
    packed ← pack (advert_of d)
    ok (record d {
      sent = d.sent ++ (resource_adv packed ∷ []);
      adv_sent = now;
      pace = record d.pace { last_activity = now; rtt = whole dbl 0 };
      status = advertised;
    })

  -- What the constructors set before `_init_outbound`, and what it sets first.
  unfoldable pub new_outbound : List ℕ → List ℕ → ResourceFlags → R → Resource R
  new_outbound plaintext request_id flags timeout = record {
    outbound = true;
    status = no_status;
    request_id = request_id;
    bytes = [];
    size = 0;
    total_size = length plaintext;
    transfer_size = 0;
    data_size = length plaintext;
    total_parts = 0;
    resource_hash = replicate 32 0;
    random_hash = replicate 4 0;
    original_hash = replicate 32 0;
    expected_proof = [];
    hashmap = [];
    slots = new_slots 0 [];
    pace = record (new_pace dbl (whole dbl 0)) { last_activity = whole dbl 0 };
    waiting_hmu = false;
    flags = flags;
    timeout = timeout;
    timeout_factor = 1;
    adv_sent = whole dbl 0;
    last_part_sent = whole dbl 0;
    started_at = whole dbl 0;
    retries_left = 0;
    part_sent = [];
    sent_parts = 0;
    req_hashlist = [];
    sent = [];
    concluded = 0;
    progressed = 0;
  }

  -- Compression, if it is wanted and helps: the payload on the wire, and whether it is compressed.
  unfoldable pub compressed_form : Bool → List ℕ → List ℕ × Bool
  compressed_form auto_compress plaintext =
      if auto_compress && leb (length plaintext) auto_compress_max_size
      then elim (bz2_compress host plaintext) [
        | none ↦ (plaintext, false)
        | some shorter ↦ (shorter, true)
      ]
      else (plaintext, false)

  -- The parts, hashes and watchdog parameters for an encrypted stream.
  unfoldable pub split_stream : List ℕ → List ℕ → List ℕ → Resource R → Resource R
  split_stream plaintext encrypted rh d =
      let random_hash : List ℕ = take random_hash_size rh in
      let resource_hash : List ℕ = take 32 (host.full_hash (plaintext ++ random_hash)) in
      let parts : List (List ℕ) = cut_parts ((length encrypted + sdu - 1) / sdu) encrypted in
      record d {
        transfer_size = length encrypted;
        size = length encrypted;
        random_hash = random_hash;
        resource_hash = resource_hash;
        original_hash = resource_hash;
        expected_proof = host.full_hash (plaintext ++ resource_hash);
        slots = record d.slots { parts = parts };
        hashmap = hashmap_of parts random_hash;
        total_parts = length parts;
        part_sent = replicate (length parts) false;
        sent_parts = 0;
        status = advertised;
        timeout_factor = host.traffic_timeout_factor;
        timeout =
            if dbl.at_most d.timeout (whole dbl 0)
            then dbl.mul host.link_rtt (whole dbl host.traffic_timeout_factor)
            else d.timeout;
        retries_left = max_adv_retries;
      }

  -- `_init_outbound`; `srh` and `rh` are the two random hashes. Registering the resource with its
  -- link is left to the link.
  unfoldable pub init_outbound :
      R → List ℕ → List ℕ → List ℕ → Bool → List ℕ → Bool → Bool → Bool → R → Result (Resource R)
  init_outbound now srh rh plaintext advertise_now request_id is_request is_response auto_compress
        timeout =
      let (on_wire, compressed) = compressed_form auto_compress plaintext in
      let flags : ResourceFlags = record {
        encrypted = true;
        compressed = compressed;
        split = false;
        is_request = is_request;
        is_response = is_response;
        has_metadata = false;
      } in
      let d : Resource R = new_outbound plaintext request_id flags timeout in
      host.link_encrypt (take random_hash_size srh ++ on_wire) >>= λ encrypted.
      let ready : Resource R = split_stream plaintext encrypted rh d in
      if length encrypted == 0
      then ok (record d { status = failed })
      else if advertise_now
      then advertise now ready
      else ok ready
