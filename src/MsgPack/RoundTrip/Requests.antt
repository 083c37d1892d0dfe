-- ===== src/MsgPack/RoundTrip/Requests.antt =====
-- The two envelopes read back whole.
use rns.Prelude.{
  ℕ, suc, ◌+◌, ◌-◌, ◌≤◌, ◌<◌, ◌^◌, ◌≡◌, refl, List, [], ◌∷◌, ◌++◌, arith, ok, length, length-append,
  append_assoc, append-nil, drop-advance, drop-append_self,
}
use rns.MsgPack.Pack.{
  pack_array_header, pack_double, pack_bin, to_array, serialize, pack_one, double_arg, bytes_arg,
  put_be64,
}
use rns.MsgPack.Unpack.{unpack_double, unpack_array_header}
use rns.MsgPack.Envelope.{feed, open_array, from_request, from_response}
use rns.MsgPack.RoundTrip.Scalars.{unpack_double-pack_double}
use rns.MsgPack.Unpack.{unpack_one_bin}
use rns.MsgPack.RoundTrip.Blobs.{unpack_array_header-pack_array_header}
use rns.MsgPack.RoundTrip.Whole.{count_items-le, length-encode_pos}
use rns.MsgPack.RoundTrip.Payload.{payload_of}
use rns.MsgPack.RoundTrip.Envelopes.{
  consume-ok, consume_start, unpack_one_bin-pack_bin, request_bytes, response_bytes, at_end,
  payload-ok, rest-ok,
}
use rns.MsgPack.RoundTrip.Values.{
  Value, bin, Items, nil, count_items, depth, depth_items, encode, encode_items,
}

open_array-ok :
    (least more : ℕ) (tail : List ℕ)
    → length (pack_array_header (least + more) ++ tail) < 2 ^ 32
    → least + more < 2 ^ 32
    → open_array least (feed (pack_array_header (least + more) ++ tail))
      ≡ ok (
        least + more,
        record {
          raw = pack_array_header (least + more) ++ tail;
          off = length (pack_array_header (least + more));
        },
      )
unfolding open_array
open_array-ok least more tail small counted =
    let header = pack_array_header (least + more) in
    let opened = consume_start unpack_array_header header tail (least + more) small (
      unpack_array_header-pack_array_header (least + more) (length (header ++ tail)) tail counted
        (omega (arith, length-append header tail))) in
    rw opened (unfold feed in ground arith)

length-pack_double : (t : ℕ) → length (pack_double t) ≡ 9
unfolding pack_double put_be64
length-pack_double t = refl

module _ (v : Value) (extra : Items) (f : ℕ) (deep : depth v ≤ f)
    (deep' : depth_items extra ≤ f) where
  -- A REQUEST envelope of less than 2^32 bytes with a 64-bit time is read back: the time, the
  -- path hash, and for the payload the bytes of a blob, nothing for nil, and the own encoding of
  -- any other value; members that a peer appended are skipped, and the cursor ends at the end of
  -- the buffer. The recursion depth is one above the nesting of the payload and of the extra
  -- members.
  pub from_request-request_bytes :
      (t : ℕ) (path : List ℕ)
      → t < 2 ^ 64
      → length (request_bytes t path v extra) < 2 ^ 32
      → from_request (suc f) (feed (request_bytes t path v extra))
        ≡ ok ((t, path, payload_of v), at_end (request_bytes t path v extra))
  unfolding from_request
  from_request-request_bytes t path ht small =
      let header = pack_array_header (3 + count_items extra) in
      let raw = request_bytes t path v extra in
      let slots = encode v ++ encode_items extra in
      let after_time = drop-append_self header (pack_double t ++ (pack_bin path ++ slots)) in
      let after_path =
        drop-advance (length header) raw (pack_double t) (pack_bin path ++ slots) after_time in
      let at_payload =
        drop-advance (length header + length (pack_double t)) raw (pack_bin path) slots
          after_path in
      let l₁ = length-append header (pack_double t ++ (pack_bin path ++ slots)) in
      let l₂ = length-append (pack_double t) (pack_bin path ++ slots) in
      let l₃ = length-append (pack_bin path) slots in
      let l₄ = length-append (encode v) (encode_items extra) in
      let l₅ = length-pack_double t in
      let opened =
        open_array-ok 3 (count_items extra) (pack_double t ++ (pack_bin path ++ slots)) small
          (omega (arith, count_items-le extra)) in
      let time =
        consume-ok unpack_double (record { raw = raw; off = length header }) (pack_double t)
          (pack_bin path ++ slots) t after_time small (omega arith)
          (unpack_double-pack_double t (length raw - length header) (pack_bin path ++ slots) ht
            (omega arith)) in
      let hash =
        consume-ok unpack_one_bin
          (record { raw = raw; off = length header + length (pack_double t) }) (pack_bin path) slots
          path after_path small (omega arith)
          (unpack_one_bin-pack_bin path slots
            (length raw - (length header + length (pack_double t))) (omega arith) (omega arith)) in
      let start = length header + length (pack_double t) + length (pack_bin path) in
      let payload = payload-ok v extra f deep deep' raw start small at_payload (omega arith) in
      let rest = rest-ok v extra f deep deep' raw start small at_payload (omega arith) 3 in
      rw (opened, time, hash, payload, rest)

  -- A RESPONSE envelope of less than 2^32 bytes is read back: the request id, and for the payload
  -- the bytes of a blob, nothing for nil, and the own encoding of any other value; members that a
  -- peer appended are skipped, and the cursor ends at the end of the buffer. The recursion depth
  -- is one above the nesting of the payload and of the extra members.
  pub from_response-response_bytes :
      (id : List ℕ)
      → length (response_bytes id v extra) < 2 ^ 32
      → from_response (suc f) (feed (response_bytes id v extra))
        ≡ ok ((id, payload_of v), at_end (response_bytes id v extra))
  unfolding from_response
  from_response-response_bytes id small =
      let some_id : 1 ≤ length (pack_bin id) = unfold encode in length-encode_pos (bin id) in
      let header = pack_array_header (2 + count_items extra) in
      let raw = response_bytes id v extra in
      let slots = encode v ++ encode_items extra in
      let after_header = drop-append_self header (pack_bin id ++ slots) in
      let at_payload = drop-advance (length header) raw (pack_bin id) slots after_header in
      let l₁ = length-append header (pack_bin id ++ slots) in
      let l₂ = length-append (pack_bin id) slots in
      let l₃ = length-append (encode v) (encode_items extra) in
      let opened =
        open_array-ok 2 (count_items extra) (pack_bin id ++ slots) small
          (omega (arith, count_items-le extra, length-encode_pos v, some_id)) in
      let name =
        consume-ok unpack_one_bin (record { raw = raw; off = length header }) (pack_bin id) slots id
          after_header small (omega arith)
          (unpack_one_bin-pack_bin id slots (length raw - length header) (omega arith)
            (omega arith)) in
      let start = length header + length (pack_bin id) in
      let payload = payload-ok v extra f deep deep' raw start small at_payload (omega arith) in
      let rest = rest-ok v extra f deep deep' raw start small at_payload (omega arith) 2 in
      rw (opened, name, payload, rest)

-- `to_array(double, Bytes, Bytes)` writes the REQUEST with a bin payload and nothing behind it.
pub to_array-request :
    (t : ℕ) (path d : List ℕ)
    → to_array [] (double_arg t ∷ bytes_arg path ∷ bytes_arg d ∷ [])
      ≡ request_bytes t path (bin d) nil
unfolding to_array serialize pack_one encode encode_items count_items
to_array-request t path d = simp (append_assoc, append-nil)

pub to_array-response :
    (id d : List ℕ) → to_array [] (bytes_arg id ∷ bytes_arg d ∷ []) ≡ response_bytes id (bin d) nil
unfolding to_array serialize pack_one encode encode_items count_items
to_array-response id d = simp (append_assoc, append-nil)
