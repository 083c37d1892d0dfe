-- ===== src/Packet/Answers.antt =====
-- unpack answers whatever bytes a packet holds, and reads none outside of them.
use rns.Prelude.{
  ℕ, ◌≤◌, ◌<◌, ◌≡◌, refl, List, [], ◌∷◌, Bool, true, false, arith, ltb, Bool-cases, inl, inr, ok,
  byte, length, take, drop, bit_and, get_elem?-some,
}
use rns.Bytes.{mid_to_end}
use rns.Packet.State.{
  Packet, Net, HeaderType, header_1, header_2, header_minsize, header_maxsize, destination_length,
}
use rns.Packet.Flags.{unpack_flags}
use rns.Packet.Codec.{get_hash, get_hashable_part, update_hash, unpack, unpack_addresses}

byte-some : (bytes : List ℕ) (i : ℕ) → i < length bytes → (b : ℕ) × (byte bytes i ≡ ok b)
byte-some bytes i h = let (b, e) = get_elem?-some bytes i h in (b, rw (byte, e) refl)

module _ {D L : Type 0} (net : Net D L) where
  update_hash-some :
      (p : Packet D L) → 0 < length p.raw → (q : Packet D L) × (update_hash net p ≡ ok q)
  unfolding update_hash get_hash get_hashable_part
  update_hash-some p h =
      let (b, e) = byte-some p.raw 0 h in
      let rest : List ℕ = elim p.header_type [
        | header_2 ↦ mid_to_end p.raw 18
        | header_1 ↦ mid_to_end p.raw 2
      ] in
      let hash : List ℕ = net.full_hash (bit_and b 0b00001111 ∷ rest) in
      (record p { packet_hash = hash }, rw e refl)

  unpack_addresses-answers :
      (type : HeaderType) (p : Packet D L)
      → 19 ≤ length p.raw
      → (b : Bool) × (u : Packet D L) × (unpack_addresses net type p ≡ ok (b, u))
  unfolding unpack_addresses
  unpack_addresses-answers header_1 p h =
      let (c, e) = byte-some p.raw 18 (omega arith) in
      let (q, f) =
        update_hash-some
          (record p {
            transport_id = [];
            destination_hash = take destination_length (drop 2 p.raw);
            context = c;
            bytes = drop 19 p.raw;
            encrypted = false;
            packed = false;
          })
          (omega arith) in
      (true, q, rw (e, f) refl)
  unpack_addresses-answers header_2 p h = elim (Bool-cases (ltb (length p.raw) header_maxsize)) [
    | inl short ↦ (false, p, rw short refl)
    | inr long ↦
        let (c, e) = byte-some p.raw 34 (ground arith) in
        let (q, f) =
          update_hash-some
            (record p {
              transport_id = take destination_length (drop 2 p.raw);
              destination_hash = take destination_length (drop 18 p.raw);
              context = c;
              bytes = drop 35 p.raw;
              encrypted = false;
              packed = false;
            })
            (omega arith) in
        (true, q, rw (long, e, f) refl)
  ]

  -- unpack answers on every packet, whatever bytes it holds, without a read outside of them; it
  -- accepts only packets of at least the smallest header.
  pub unpack-answers :
      (p : Packet D L)
      → (b : Bool) × (u : Packet D L) × (unpack net p ≡ ok (b, u))
        × (b ≡ true → header_minsize ≤ length p.raw)
  unfolding unpack unpack_flags
  unpack-answers p = elim (Bool-cases (ltb (length p.raw) header_minsize)) [
    | inl short ↦ (false, p, rw short refl, λ e. absurd (ground arith))
    | inr long ↦
        let (f, e) = byte-some p.raw 0 (ground arith) in
        let (h, g) = byte-some p.raw 1 (ground arith) in
        let q : Packet D L = unpack_flags f (record p { flags = f; hops = h }) in
        let (b, u, answer) = unpack_addresses-answers q.header_type q (ground arith) in
        (b, u, rw (long, e, g) answer, λ _. ground arith)
  ]
