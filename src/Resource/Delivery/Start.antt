-- ===== src/Resource/Delivery/Start.antt =====
-- Both ends of a transfer at its start: the sender that _init_outbound makes, and the receiver that
-- its advertisement opens.
use rns.Prelude.{
  ℕ, zero, suc, ◌+◌, ◌-◌, ◌/◌, ◌≤◌, ◌<◌, ◌^◌, ◌≡◌, ◌∙◌, refl, ap, List, [], ◌∷◌, ◌++◌, Bool, true,
  false, ◌&&◌, ◌==◌, arith, leb, length, take, drop, replicate, Bool-cases, Option-cases, ◌⊎◌, inl,
  inr, min, length-append, length-take, drop-append_self, Result, ok, throw, fault, stuck, some,
  length-replicate,
}
use rns.Resource.State.{
  Doubles, Host, Resource, ResourceFlags, hashmap_max_len, random_hash_size, sdu,
  auto_compress_max_size,
}
use rns.Resource.Compression.{is_bz2, bz2_stream_decompress, bz2_decompress, bz2_compress}
use rns.Resource.Advert.{to_byte, from_byte}
use rns.Resource.Receiver.{request_window, accepted}
use rns.Resource.Sender.{
  cut_parts, advert_of, new_outbound, compressed_form, split_stream, init_outbound,
}
use rns.Resource.Delivery.Sets.{IsFilled, IsDistinct, size_of}
use rns.Resource.Delivery.Arrival.{Holds, receiver}
use rns.Resource.Delivery.Core.{
  concat, read_stream, core_of, core_of-request_window, verdict_of-request_window,
}
use rns.Resource.Delivery.Learning.{learn, length-learn, new_slots-view, size_of-none}
use rns.Resource.Delivery.Cutting.{length-cut_parts, concat-cut_parts, cut_parts-IsFilled}

-- The flags survive their byte.
pub from_byte-to_byte : (f : ResourceFlags) → from_byte (to_byte f) ≡ f
unfolding from_byte to_byte
from_byte-to_byte f = ground arith

take-take : (n : ℕ) (xs : List ℕ) → take n (take n xs) ≡ take n xs
take-take zero xs = refl
take-take (suc n) [] = refl
take-take (suc n) (x ∷ xs) = ap (x ∷◌) (take-take n xs)

-- A payload's way through compression and back.
module _ {R : Type 0} (dbl : Doubles R) (host : Host R)
    (bz2 : (cap : ℕ) (input out : List ℕ)
      → host.bz_compress cap input ≡ some out
      → (is_bz2 out ≡ true) × (host.bz_decompress (length input) out ≡ some input)) where
  is_bz2-length : (out : List ℕ) → is_bz2 out ≡ true → 0 < length out
  unfolding is_bz2
  is_bz2-length [] marked = ground arith
  is_bz2-length (a ∷ out) marked = omega arith

  decompressed :
      (input form : List ℕ)
      → 0 < length input
      → is_bz2 form ≡ true
      → host.bz_decompress (length input) form ≡ some input
      → bz2_decompress host form (length input) ≡ some input
  unfolding bz2_decompress bz2_stream_decompress
  decompressed input form some_data marked back = ground (arith, some_data, marked, back)

  -- A form that bz2_compress answers is longer than nothing and is decompressed to the payload.
  bz2_compress-back :
      (input out : List ℕ)
      → 0 < length input
      → bz2_compress host input ≡ some out
      → (0 < length out) × (bz2_decompress host out (length input) ≡ some input)
  unfolding bz2_compress
  bz2_compress-back input out some_data made =
      elim (Option-cases (host.bz_compress (length input + length input / 100 + 600) input)) [
        | inl e ↦ ground (arith, e, made)
        | inr (form, e) ↦
            let (marked, back) = bz2 (length input + length input / 100 + 600) input form e in
            let same : form ≡ out = ground (arith, e, made) in
            rw (← same) (is_bz2-length form marked, decompressed input form some_data marked back)
      ]

  compressed_form-back :
      (auto_compress : Bool) (plaintext : List ℕ)
      → 0 < length plaintext
      → ((compressed_form dbl host auto_compress plaintext ≡ (plaintext, false))
          ⊎ ((compressed_form dbl host auto_compress plaintext).1 ≡ true)
            × (0 < length (compressed_form dbl host auto_compress plaintext).0)
            × (bz2_decompress host
                  (compressed_form dbl host auto_compress plaintext).0
                  (length plaintext)
                ≡ some plaintext))
  unfolding compressed_form
  compressed_form-back auto_compress plaintext some_data =
      elim (Option-cases (bz2_compress host plaintext)) [
        | inl e ↦ inl (ground (arith, e))
        | inr (form, e) ↦
            elim (Bool-cases (auto_compress && leb (length plaintext) auto_compress_max_size)) [
              | inr f ↦ inl (ground (arith, f))
              | inl f ↦ inr (
                  rw (f, e)
                    (let back = bz2_compress-back plaintext form some_data e in
                      (refl, back.0, back.1)))
            ]
      ]

  -- The receiver reads the payload out of the decrypted stream.
  read_stream-form :
      (auto_compress : Bool) (plaintext front : List ℕ) (flags : ResourceFlags)
      → 0 < length plaintext
      → length front ≡ 4
      → flags.compressed ≡ (compressed_form dbl host auto_compress plaintext).1
      → read_stream dbl host flags
          (length plaintext)
          (front ++ (compressed_form dbl host auto_compress plaintext).0)
        ≡ some plaintext
  read_stream-form auto_compress plaintext front flags some_data four same =
      let form : List ℕ = (compressed_form dbl host auto_compress plaintext).0 in
      let size = length-append front form in
      let behind : drop 4 (front ++ form) ≡ form = rw (← four) (drop-append_self front form) in
      elim (compressed_form-back auto_compress plaintext some_data) [
        | inl plain ↦
            let long : leb (length (front ++ plaintext)) 4 ≡ false =
              ground (arith, length-append front plaintext) in
            let off : flags.compressed ≡ false = same ∙ ap (λ (f : List ℕ × Bool). f.1) plain in
            let behind' : drop 4 (front ++ plaintext) ≡ plaintext =
              rw (← four) (drop-append_self front plaintext) in
            rw (plain, long, off, behind') refl
        | inr (on, some_form, back) ↦
            let long : leb (length (front ++ form)) 4 ≡ false = ground (arith, size) in
            rw (long, same, on, behind, back) refl
      ]

-- What an encryption gives, and nothing where it throws.
abbrev pub sealed : Result (List ℕ) → List ℕ
sealed (ok s) = s
sealed (throw e) = []
sealed fault = []
sealed stuck = []

sealed-ok : (r : Result (List ℕ)) → 0 < length (sealed r) → r ≡ ok (sealed r)
sealed-ok (ok s) some_bytes = refl
sealed-ok (throw e) some_bytes = ground arith
sealed-ok fault some_bytes = ground arith
sealed-ok stuck some_bytes = ground arith

module _ {R : Type 0} (dbl : Doubles R) (host : Host R) (plaintext srh salt request_id : List ℕ)
    (is_request is_response auto_compress : Bool) (timeout : R) where
  -- The flags, the encrypted stream and the parts of `_init_outbound`.
  abbrev pub sent_flags : ResourceFlags
  sent_flags = record {
    encrypted = true;
    compressed = (compressed_form dbl host auto_compress plaintext).1;
    split = false;
    is_request = is_request;
    is_response = is_response;
    has_metadata = false;
  }

  abbrev pub clear_stream : List ℕ
  clear_stream = take random_hash_size srh ++ (compressed_form dbl host auto_compress plaintext).0

  abbrev pub stream : List ℕ
  stream = sealed (host.link_encrypt clear_stream)

  abbrev pub sent_parts : List (List ℕ)
  sent_parts = cut_parts ((length stream + sdu - 1) / sdu) stream

  abbrev pub sender : Resource R
  sender =
      split_stream dbl host plaintext stream salt
        (new_outbound dbl host plaintext request_id sent_flags timeout)

  pub init_outbound-sender :
      (now : R)
      → 0 < length stream
      → init_outbound dbl host now srh salt plaintext false request_id is_request is_response
          auto_compress timeout
        ≡ ok sender
  unfolding init_outbound
  init_outbound-sender now some_stream =
      let e : (length stream == 0) ≡ false = ground (arith, some_stream) in
      let made : host.link_encrypt clear_stream ≡ ok stream =
        sealed-ok (host.link_encrypt clear_stream) some_stream in
      rw (made, e) refl

  module _ (hash_size : (x : List ℕ) → length (host.full_hash x) ≡ 32)
      (decrypts : (x s : List ℕ) → host.link_encrypt x ≡ ok s → host.link_decrypt s ≡ x)
      (bz2 : (cap : ℕ) (input out : List ℕ)
        → host.bz_compress cap input ≡ some out
        → (is_bz2 out ≡ true) × (host.bz_decompress (length input) out ≡ some input))
      (some_data : 0 < length plaintext) (random : 4 ≤ length srh) (some_stream : 0 < length stream)
      (short : length stream < 2 ^ 32)
      (distinct : IsDistinct host (take random_hash_size salt) sent_parts) where
    pub whole_stream : concat sent_parts ≡ stream
    whole_stream = concat-cut_parts ((length stream + sdu - 1) / sdu) stream (omega arith)

    pub filled : IsFilled sent_parts
    filled = cut_parts-IsFilled ((length stream + sdu - 1) / sdu) stream (omega arith)

    pub opens :
        read_stream dbl host sent_flags (length plaintext) (host.link_decrypt (concat sent_parts))
        ≡ some plaintext
    opens =
        rw
          (
            whole_stream,
            decrypts clear_stream stream (sealed-ok (host.link_encrypt clear_stream) some_stream),
          )
          (read_stream-form dbl host bz2 auto_compress plaintext (take 4 srh) sent_flags some_data
            (length-take 4 srh ∙ omega arith) refl)

    -- The receiver behind `accept`.
    abbrev pub opened : R → List ℕ → Resource R
    opened now rid = request_window dbl now (accepted dbl host now (advert_of dbl host sender) rid)

    pub few_parts : length sent_parts < 2 ^ 28
    few_parts = let n = length-cut_parts ((length stream + sdu - 1) / sdu) stream in omega arith

    -- The hash of the resource.
    abbrev pub name : List ℕ
    name = take 32 (host.full_hash (plaintext ++ take random_hash_size salt))

    abbrev pub IsAt : List Bool → List Bool → Resource R → Type 0
    IsAt =
        Holds dbl host sent_parts plaintext (take random_hash_size salt) name sent_flags
          (length plaintext) filled distinct opens refl

    none_of : (n : ℕ) → length (replicate n false) ≡ n
    none_of n = length-replicate n false

    -- The receiver starts with the map hashes of the first segment and without parts.
    pub opened-IsAt :
        (now : R) (rid : List ℕ)
        → IsAt
            (learn
              (min (length sent_parts) hashmap_max_len)
              0
              (replicate (length sent_parts) false))
            (replicate (length sent_parts) false)
            (opened now rid)
    unfolding accepted advert_of split_stream new_outbound
    opened-IsAt now rid =
        let n : ℕ = length sent_parts in
        let rh : List ℕ = take random_hash_size salt in
        let fresh : Resource R = accepted dbl host now (advert_of dbl host sender) rid in
        let learnt = new_slots-view dbl host rh hash_size sent_parts (omega (arith, few_parts)) in
        let whole : take 32 name ≡ name = take-take 32 (host.full_hash (plaintext ++ rh)) in
        let salted : take 4 rh ≡ rh = take-take 4 salt in
        let some_parts : size_of (replicate n false) < n = omega (
          arith,
          size_of-none dbl host rh hash_size n,
          length-cut_parts ((length stream + sdu - 1) / sdu) stream,
        ) in
        let begun : core_of fresh
            ≡ receiver dbl host sent_parts plaintext rh name sent_flags (length plaintext) filled
                distinct opens refl (learn (min n hashmap_max_len) 0 (replicate n false))
                (replicate n false) =
          rw (whole, salted, learnt, from_byte-to_byte sent_flags) refl in
        let kept = verdict_of-request_window dbl host now fresh in
        (
          length-learn dbl host rh hash_size (min n hashmap_max_len) 0 (replicate n false)
              ∙ none_of n,
          none_of n,
          core_of-request_window dbl host now fresh ∙ begun,
          inl (some_parts, kept.0, kept.1),
        )
