-- ===== src/MsgPack/Tests.antt =====
-- Runs of the MessagePack codec, and the theorems at concrete inputs.
use rns.Prelude.{
  ℕ, List, true, is_answer, ◌≡◌, refl, [], ◌∷◌, ◌++◌, arith, ok, throw, stuck, length, replicate,
}
use rns.Prelude.Int.{pos, negsuc}
use rns.MsgPack.Pack.{
  put_be16, put_be32, put_be64, pack_nil, pack_uint, pack_negative, pack_int, pack_double, pack_str,
  pack_bin, bin_prefix, str_prefix, pack_array_header, pack_map_header, pack_fixstr,
}
use rns.MsgPack.Unpack.{unpack_bin, unpack_str}
use rns.MsgPack.Skip.{skip_value}
use rns.MsgPack.Envelope.{feed, from_request, from_response}
use rns.MsgPack.RoundTrip.Values.{
  Value, null, int, str, arr, obj, nil, cons, end, pair, depth, encode, count_items, count_pairs,
}
use rns.MsgPack.RoundTrip.Exact.{skip_value-encode}
use rns.MsgPack.RoundTrip.Payload.{payload_of, unpack_blob_or_object-encode}
use rns.MsgPack.RoundTrip.Envelopes.{request_bytes, response_bytes, at_end}
use rns.MsgPack.RoundTrip.Requests.{from_request-request_bytes, from_response-response_bytes}
use rns.MsgPack.Blobs.{unpack-is_answer}
use rns.MsgPack.Overflow.{endless, skip_value-endless}
use rns.MsgPack.Skip.{unpack_blob_or_object}

-- ["get", {1: nil}, -300].
abbrev sample : Value
sample = arr (
    cons (str (103 ∷ 101 ∷ 116 ∷ []))
      (cons (obj (pair (int (pos 1)) null end)) (cons (int (negsuc 299)) nil)))

sample_bytes :
    encode sample ≡ 0x93 ∷ 0xa3 ∷ 103 ∷ 101 ∷ 116 ∷ 0x81 ∷ 1 ∷ 0xc0 ∷ 0xd1 ∷ 0xfe ∷ 0xd4 ∷ []
unfolding encode pack_array_header pack_str str_prefix pack_map_header pack_int pack_uint
    pack_negative pack_nil put_be16 count_items count_pairs
sample_bytes = refl

skip_value-encode_example :
    skip_value 3 (encode sample ++ (7 ∷ [])) 12 ≡ ok (length (encode sample))
unfolding depth encode pack_array_header pack_str str_prefix pack_map_header pack_int pack_uint
    pack_negative pack_nil put_be16 count_items count_pairs
skip_value-encode_example =
    skip_value-encode sample 2 12 (7 ∷ []) (omega arith) (omega arith) (omega arith)

unpack_blob_or_object-encode_example :
    unpack_blob_or_object 3 (encode sample ++ []) 11
    ≡ ok (payload_of sample, length (encode sample))
unfolding depth encode pack_array_header pack_str str_prefix pack_map_header pack_int pack_uint
    pack_negative pack_nil put_be16 count_items count_pairs
unpack_blob_or_object-encode_example =
    unpack_blob_or_object-encode sample 2 11 [] (omega arith) (omega arith) (omega arith)

from_request-request_bytes_example :
    from_request 3 (feed (request_bytes 5 (1 ∷ 2 ∷ []) sample (cons null nil)))
    ≡ ok (
      (5, 1 ∷ 2 ∷ [], payload_of sample),
      at_end (request_bytes 5 (1 ∷ 2 ∷ []) sample (cons null nil)),
    )
unfolding depth encode pack_array_header pack_str str_prefix pack_map_header pack_int pack_uint
    pack_negative pack_nil put_be16 pack_double put_be64 pack_bin bin_prefix count_items count_pairs
from_request-request_bytes_example =
    from_request-request_bytes sample (cons null nil) 2 (omega arith) (omega arith) 5 (1 ∷ 2 ∷ [])
      (omega arith) (omega arith)

from_response-response_bytes_example :
    from_response 3 (feed (response_bytes (9 ∷ []) sample nil))
    ≡ ok ((9 ∷ [], payload_of sample), at_end (response_bytes (9 ∷ []) sample nil))
unfolding depth encode pack_array_header pack_str str_prefix pack_map_header pack_int pack_uint
    pack_negative pack_nil put_be16 pack_bin bin_prefix count_items count_pairs
from_response-response_bytes_example =
    from_response-response_bytes sample nil 2 (omega arith) (omega arith) (9 ∷ []) (omega arith)

-- A length of 2^32 - 1 on six bytes.
abbrev hostile_bytes : List ℕ
hostile_bytes = 0xc6 ∷ 0xff ∷ 0xff ∷ 0xff ∷ 0xff ∷ 1 ∷ []

unpack-is_answer_example :
    (is_answer (unpack_bin hostile_bytes (length hostile_bytes)) ≡ true)
    × (is_answer (unpack_str hostile_bytes (length hostile_bytes)) ≡ true)
unpack-is_answer_example = unpack-is_answer hostile_bytes

-- Six bytes on the wire, and four of padding.
endless_bytes :
    endless 2 (0 ∷ 0 ∷ 0 ∷ 0 ∷ []) ≡ 0x92 ∷ 0xdb ∷ 0xff ∷ 0xff ∷ 0xff ∷ 0xfa ∷ 0 ∷ 0 ∷ 0 ∷ 0 ∷ []
unfolding pack_array_header put_be32
endless_bytes = refl

skip_value-endless_example : skip_value 50 (endless 2 (0 ∷ 0 ∷ 0 ∷ 0 ∷ [])) 10 ≡ stuck
skip_value-endless_example =
    skip_value-endless 50 0 10 (0 ∷ 0 ∷ 0 ∷ 0 ∷ []) (omega arith) (omega arith) (omega arith)

long_fixstr : pack_fixstr (replicate 32 0) ≡ throw "MsgPack: pack_fixstr len > 31"
unfolding pack_fixstr
long_fixstr = refl
