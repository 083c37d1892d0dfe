-- ===== src/MsgPack/RoundTrip/Envelopes.antt =====
-- `from_request` and `from_response` on the envelopes that `to_array` writes.
use rns.Prelude.{
  ℕ, suc, ◌+◌, ◌-◌, ◌≤◌, ◌<◌, ◌^◌, ◌≡◌, ◌∙◌, sym, List, [], ◌++◌, arith, Result, ok, length, drop,
  length-append, append_assoc, append-nil, drop-advance, sub_size, add_size,
}
use rns.MsgPack.Pack.{pack_array_header, pack_double, pack_bin, bin_prefix}
use rns.MsgPack.Unpack.{unpack_one_bin, unpack_bin}
use rns.MsgPack.Skip.{unpack_blob_or_object}
use rns.MsgPack.Envelope.{Unpacker, feed, consume, skip_rest}
use rns.MsgPack.RoundTrip.Blobs.{unpack_bin-pack_bin}
use rns.MsgPack.RoundTrip.Whole.{pack_bin_small}
use rns.MsgPack.RoundTrip.Exact.{skip_items-encode}
use rns.MsgPack.RoundTrip.Payload.{payload_of, unpack_blob_or_object-encode}
use rns.MsgPack.RoundTrip.Values.{
  Value, Items, count_items, depth, depth_items, encode, encode_items,
}

-- A read at the cursor, of an encoding `e` that stands there.
pub consume-ok {ℓ} :
    {A : Type ℓ} (read : List ℕ → ℕ → Result (A × ℕ)) (u : Unpacker) (e tail : List ℕ) (a : A)
    → drop u.off u.raw ≡ e ++ tail
    → length u.raw < 2 ^ 32
    → u.off + length e ≤ length u.raw
    → read (e ++ tail) (length u.raw - u.off) ≡ ok (a, length e)
    → consume read u ≡ ok (a, record u { off = u.off + length e })
unfolding consume
consume-ok read u e tail a at small fits h =
    let size : sub_size (length u.raw) u.off ≡ length u.raw - u.off = omega arith in
    let moved : add_size u.off (length e) ≡ u.off + length e = omega arith in
    rw (at, size, h, moved)

-- The first read of a fed buffer.
pub consume_start {ℓ} :
    {A : Type ℓ} (read : List ℕ → ℕ → Result (A × ℕ)) (e tail : List ℕ) (a : A)
    → length (e ++ tail) < 2 ^ 32
    → read (e ++ tail) (length (e ++ tail)) ≡ ok (a, length e)
    → consume read (feed (e ++ tail)) ≡ ok (a, record { raw = e ++ tail; off = length e })
unfolding consume feed
consume_start read e tail a small h =
    let size : sub_size (length (e ++ tail)) 0 ≡ length (e ++ tail) = omega arith in
    let moved : add_size 0 (length e) ≡ length e = omega (arith, length-append e tail) in
    rw (size, h, moved)

unpack_one_bin-prefix :
    (len n : ℕ) (tail : List ℕ)
    → unpack_one_bin (bin_prefix len ++ tail) n ≡ unpack_bin (bin_prefix len ++ tail) n
unfolding unpack_one_bin bin_prefix
unpack_one_bin-prefix len n tail = ground arith

pub unpack_one_bin-pack_bin :
    (d rest : List ℕ) (n : ℕ)
    → n < 2 ^ 32
    → length (pack_bin d) ≤ n
    → unpack_one_bin (pack_bin d ++ rest) n ≡ ok (d, length (pack_bin d))
unpack_one_bin-pack_bin d rest n h fits =
    same ∙ unpack_bin-pack_bin d rest n (pack_bin_small d n h fits) fits
  where
    same : unpack_one_bin (pack_bin d ++ rest) n ≡ unpack_bin (pack_bin d ++ rest) n
    same =
        unfold pack_bin in
        rw (append_assoc (bin_prefix (length d)) d rest)
          (unpack_one_bin-prefix (length d) n (d ++ rest))

-- The wire form of an envelope: a header that counts the slots and the extra members, the slots, and
-- the extra members that a newer peer may add.
abbrev pub request_bytes : ℕ → List ℕ → Value → Items → List ℕ
request_bytes t path v extra =
    pack_array_header (3 + count_items extra)
    ++ (pack_double t ++ (pack_bin path ++ (encode v ++ encode_items extra)))

abbrev pub response_bytes : List ℕ → Value → Items → List ℕ
response_bytes id v extra =
    pack_array_header (2 + count_items extra) ++ (pack_bin id ++ (encode v ++ encode_items extra))

abbrev pub at_end : List ℕ → Unpacker
at_end raw = record { raw = raw; off = length raw }

-- The reads from a cursor in front of the payload slot on, common to both envelopes.
module _ (v : Value) (extra : Items) (f : ℕ) (deep : depth v ≤ f) (deep' : depth_items extra ≤ f)
    (raw : List ℕ) (off : ℕ) (small : length raw < 2 ^ 32)
    (at : drop off raw ≡ encode v ++ encode_items extra)
    (fits : off + (length (encode v) + length (encode_items extra)) ≡ length raw) where
  pub payload-ok :
      consume (unpack_blob_or_object (suc f)) (record { raw = raw; off = off })
      ≡ ok (payload_of v, record { raw = raw; off = off + length (encode v) })
  payload-ok =
      consume-ok (unpack_blob_or_object (suc f)) (record { raw = raw; off = off }) (encode v)
        (encode_items extra) (payload_of v) at small (omega arith)
        (unpack_blob_or_object-encode v f (length raw - off) (encode_items extra) deep (omega arith)
          (omega arith))

  pub rest-ok :
      (taken : ℕ)
      → skip_rest
          (suc f)
          taken
          (taken + count_items extra)
          (record { raw = raw; off = off + length (encode v) })
        ≡ ok (at_end raw)
  unfolding skip_rest
  rest-ok taken =
      let count : taken + count_items extra - taken ≡ count_items extra = omega arith in
      let here : drop (off + length (encode v)) raw ≡ encode_items extra ++ [] =
        drop-advance off raw (encode v) (encode_items extra) at ∙ sym (append-nil _) in
      let total : off + length (encode v) + length (encode_items extra) ≡ length raw =
        omega arith in
      rw (
        count,
        skip_items-encode extra f (length raw) (off + length (encode v)) raw [] deep' small here
            (omega arith),
        total,
      )
