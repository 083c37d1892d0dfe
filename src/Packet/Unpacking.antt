-- ===== src/Packet/Unpacking.antt =====
-- What unpack reads from the parts of a packet, and the hash that it computes.
use rns.Prelude.{
  ℕ, suc, ◌<◌, ◌≡◌, refl, ap, List, [], ◌∷◌, ◌++◌, true, false, some, arith, ltb, leb, ok, byte,
  length, take, drop, bit_and, append_assoc, length-append, take-append_self, drop-append_self,
  get_elem?,
}
use rns.Bytes.{mid_to_end}
use rns.Packet.State.{Packet, Net, header_1, header_2, header_minsize, header_maxsize}
use rns.Packet.Flags.{header_of, unpack_flags}
use rns.Packet.Codec.{
  get_hashable_part, get_hash, update_hash, unpack_addresses, unpack, raw_packet,
}

-- The parts of a list with an address of `n` bytes in front.
take_front : (n : ℕ) (front rest : List ℕ) → length front ≡ n → take n (front ++ rest) ≡ front
take_front n front rest size = rw (← size) (take-append_self front rest)

drop_front : (n : ℕ) (front rest : List ℕ) → length front ≡ n → drop n (front ++ rest) ≡ rest
drop_front n front rest size = rw (← size) (drop-append_self front rest)

drop_behind :
    (n : ℕ) (front rest : List ℕ) (x : ℕ)
    → suc (length front) ≡ n
    → drop n (front ++ (x ∷ rest)) ≡ rest
drop_behind n [] rest x size = rw (← size) refl
drop_behind n (y ∷ front) rest x size =
    rw (← size) (drop_behind (suc (length front)) front rest x refl)

elem_behind :
    (n : ℕ) (front rest : List ℕ) (x : ℕ)
    → length front ≡ n
    → get_elem? (front ++ (x ∷ rest)) n ≡ some x
elem_behind n [] rest x size = rw (← size) refl
elem_behind n (y ∷ front) rest x size = rw (← size) (elem_behind (length front) front rest x refl)

-- What stands behind two addresses.
two_addresses :
    (tid dest rest : List ℕ) (c : ℕ)
    → length tid ≡ 16
    → length dest ≡ 16
    → let behind = tid ++ (dest ++ (c ∷ rest)) in
      (get_elem? behind 32 ≡ some c) × (take 16 (drop 16 behind) ≡ dest) × (drop 33 behind ≡ rest)
two_addresses tid dest rest c size size' =
    let both : length (tid ++ dest) ≡ 32 = omega (arith, length-append tid dest) in
    let front : drop 16 (tid ++ (dest ++ (c ∷ rest))) ≡ dest ++ (c ∷ rest) =
      drop_front 16 tid (dest ++ (c ∷ rest)) size in
    (
      rw (← append_assoc tid dest (c ∷ rest)) (elem_behind 32 (tid ++ dest) rest c both),
      rw front (take_front 16 dest (c ∷ rest) size'),
      rw (← append_assoc tid dest (c ∷ rest)) (drop_behind 33 (tid ++ dest) rest c (omega arith)),
    )

mid_to_end-header_1 :
    (f h : ℕ) (rest : List ℕ) → 0 < length rest → mid_to_end (f ∷ h ∷ rest) 2 ≡ rest
unfolding mid_to_end
mid_to_end-header_1 f h rest some_byte =
    let e : leb (length (f ∷ h ∷ rest)) 2 ≡ false = ground arith in rw e refl

mid_to_end-header_2 :
    (f h : ℕ) (tid rest : List ℕ)
    → length tid ≡ 16
    → 0 < length rest
    → mid_to_end (f ∷ h ∷ (tid ++ rest)) 18 ≡ rest
unfolding mid_to_end
mid_to_end-header_2 f h tid rest size some_byte =
    let e : leb (length (f ∷ h ∷ (tid ++ rest))) 18 ≡ false =
      ground (arith, length-append tid rest) in
    rw e (drop_front 16 tid rest size)

module _ {D L : Type 0} (net : Net D L) where
  -- The hash of the packet with these flags and these bytes behind its transport address.
  abbrev pub hash_of : ℕ → List ℕ → List ℕ
  hash_of flags rest = net.full_hash (bit_and flags 0b00001111 ∷ rest)

  pub get_hash-header_1 :
      (p : Packet D L) (f h : ℕ) (rest : List ℕ)
      → p.raw ≡ f ∷ h ∷ rest
      → 0 < length rest
      → p.header_type ≡ header_1
      → get_hash net p ≡ ok (hash_of f rest)
  unfolding get_hash get_hashable_part
  get_hash-header_1 p f h rest raw some_byte one =
      rw (one, raw, mid_to_end-header_1 f h rest some_byte) refl

  pub get_hash-header_2 :
      (p : Packet D L) (f h : ℕ) (tid rest : List ℕ)
      → p.raw ≡ f ∷ h ∷ (tid ++ rest)
      → length tid ≡ 16
      → 0 < length rest
      → p.header_type ≡ header_2
      → get_hash net p ≡ ok (hash_of f rest)
  unfolding get_hash get_hashable_part
  get_hash-header_2 p f h tid rest raw size some_byte two =
      rw (two, raw, mid_to_end-header_2 f h tid rest size some_byte) refl

  -- What unpack makes of a packet with these parts.
  abbrev pub filled : Packet D L → List ℕ → List ℕ → ℕ → List ℕ → Packet D L
  filled p tid dest context rest = record p {
    transport_id = tid;
    destination_hash = dest;
    context = context;
    bytes = rest;
    encrypted = false;
    packed = false;
  }

  -- With the hash, which is over the address, the context and the data.
  abbrev pub hashed : Packet D L → ℕ → List ℕ → List ℕ → ℕ → List ℕ → Packet D L
  hashed p f tid dest context rest = record (filled p tid dest context rest) {
    packet_hash = hash_of f (dest ++ (context ∷ rest));
  }

  -- The packet with its flags and hops read.
  unfoldable pub opened : List ℕ → ℕ → ℕ → Packet D L
  unfolding unpack_flags raw_packet
  opened raw f h = unpack_flags f (record (raw_packet net raw) { flags = f; hops = h })

  unpack_addresses-header_1 :
      (p : Packet D L) (f h c : ℕ) (dest rest : List ℕ)
      → p.raw ≡ f ∷ h ∷ (dest ++ (c ∷ rest))
      → length dest ≡ 16
      → p.header_type ≡ header_1
      → unpack_addresses net header_1 p ≡ ok (true, hashed p f [] dest c rest)
  unfolding unpack_addresses update_hash
  unpack_addresses-header_1 p f h c dest rest raw size one =
      let hash : get_hash net (filled p [] dest c rest) ≡ ok (hash_of f (dest ++ (c ∷ rest))) =
        get_hash-header_1 (filled p [] dest c rest) f h (dest ++ (c ∷ rest)) raw
          (omega (arith, length-append dest (c ∷ rest))) one in
      rw
        (
          ap (λ bytes. byte bytes 18) raw,
          ap (drop 2) raw,
          ap (drop 19) raw,
          byte,
          elem_behind 16 dest rest c size,
          take_front 16 dest (c ∷ rest) size,
          drop_behind 17 dest rest c (omega arith),
          hash,
        )
        refl

  unpack_addresses-header_2 :
      (p : Packet D L) (f h c : ℕ) (tid dest rest : List ℕ)
      → p.raw ≡ f ∷ h ∷ (tid ++ (dest ++ (c ∷ rest)))
      → length tid ≡ 16
      → length dest ≡ 16
      → p.header_type ≡ header_2
      → unpack_addresses net header_2 p ≡ ok (true, hashed p f tid dest c rest)
  unfolding unpack_addresses update_hash
  unpack_addresses-header_2 p f h c tid dest rest raw size size' two =
      let behind : List ℕ = tid ++ (dest ++ (c ∷ rest)) in
      let (context, at_dest, at_rest) = two_addresses tid dest rest c size size' in
      let long : ltb (length p.raw) header_maxsize ≡ false =
        rw (ap length raw)
          (ground (arith, length-append tid (dest ++ (c ∷ rest)), length-append dest (c ∷ rest))) in
      let hash : get_hash net (filled p tid dest c rest) ≡ ok (hash_of f (dest ++ (c ∷ rest))) =
        get_hash-header_2 (filled p tid dest c rest) f h tid (dest ++ (c ∷ rest)) raw size
          (omega (arith, length-append dest (c ∷ rest))) two in
      rw
        (
          long,
          ap (λ bytes. byte bytes 34) raw,
          ap (drop 2) raw,
          ap (drop 18) raw,
          ap (drop 35) raw,
          byte,
          context,
          take_front 16 tid (dest ++ (c ∷ rest)) size,
          at_dest,
          at_rest,
          hash,
        )
        refl

  pub unpack-header_1 :
      (f h c : ℕ) (dest rest : List ℕ)
      → length dest ≡ 16
      → header_of f ≡ header_1
      → let raw = f ∷ h ∷ (dest ++ (c ∷ rest)) in
        unpack net (raw_packet net raw) ≡ ok (true, hashed (opened raw f h) f [] dest c rest)
  unfolding unpack opened unpack_flags raw_packet
  unpack-header_1 f h c dest rest size one =
      let raw : List ℕ = f ∷ h ∷ (dest ++ (c ∷ rest)) in
      let long : ltb (length raw) header_minsize ≡ false =
        ground (arith, length-append dest (c ∷ rest)) in
      let q : Packet D L = opened raw f h in
      rw (long, ap (λ h. unpack_addresses net h q) one)
        (unpack_addresses-header_1 q f h c dest rest refl size one)

  pub unpack-header_2 :
      (f h c : ℕ) (tid dest rest : List ℕ)
      → length tid ≡ 16
      → length dest ≡ 16
      → header_of f ≡ header_2
      → let raw = f ∷ h ∷ (tid ++ (dest ++ (c ∷ rest))) in
        unpack net (raw_packet net raw) ≡ ok (true, hashed (opened raw f h) f tid dest c rest)
  unfolding unpack opened unpack_flags raw_packet
  unpack-header_2 f h c tid dest rest size size' two =
      let raw : List ℕ = f ∷ h ∷ (tid ++ (dest ++ (c ∷ rest))) in
      let long : ltb (length raw) header_minsize ≡ false =
        ground (arith, length-append tid (dest ++ (c ∷ rest)), length-append dest (c ∷ rest)) in
      let q : Packet D L = opened raw f h in
      rw (long, ap (λ h. unpack_addresses net h q) two)
        (unpack_addresses-header_2 q f h c tid dest rest refl size size' two)
