-- ===== src/Packet/RoundTrip.antt =====
-- What pack writes, and that unpack reads it.
use rns.Prelude.{
  ℕ, ◌≤◌, ◌≡◌, ◌∙◌, refl, sym, ap, List, [], ◌∷◌, ◌++◌, Bool, true, false, inl, inr, none, some,
  arith, ◌==◌, if◌then◌else◌, Bool-cases, Option-cases, Result, ok, ◌>>=◌, length, append_assoc,
  bind-ok,
}
use rns.Packet.State.{Packet, Net, header_1, header_2, context_lrproof}
use rns.Packet.Codec.{
  get_hash, get_hashable_part, update_hash, is_clear, encrypt_bytes, pack_lrproof, pack_header_1,
  pack_header_2, kept_ciphertext, written, pack_addresses, pack_raw, pack,
}

-- The hashes of a node have 16 bytes.
pub record IsNet {D L : Type 0} (net : Net D L) : Type 0 where
  pub length-dest_hash : (d : D) → length (net.dest_hash d) ≡ 16
  pub length-link_id : (l : L) → length (net.link_id l) ≡ 16

module _ {D L : Type 0} (net : Net D L) where
  -- A packet with its addresses written, for a ciphertext and whether it was encrypted.
  abbrev addressed : Packet D L → List ℕ → List ℕ → Bool → Packet D L
  addressed p header ciphertext encrypted = record p {
    header = header;
    ciphertext = ciphertext;
    encrypted = encrypted;
  }

  -- The address of a packet: the id of its link for a link proof, otherwise the destination's hash.
  unfoldable pub address_of : D → Packet D L → List ℕ
  address_of d p =
      if p.context == context_lrproof
      then elim p.destination_link [ some l ↦ net.link_id l | none ↦ net.dest_hash d ]
      else net.dest_hash d

  pub length-address_of : IsNet net → (d : D) (p : Packet D L) → length (address_of d p) ≡ 16
  unfolding address_of
  length-address_of laws d p = elim (Option-cases p.destination_link) [
    | inl e ↦ rw e (ground (arith, laws.length-dest_hash d))
    | inr (l, e) ↦ rw e (ground (arith, laws.length-dest_hash d, laws.length-link_id l))
  ]

  pack_lrproof-ok :
      (p q : Packet D L)
      → pack_lrproof net p ≡ ok q
      → (l : L) × (p.destination_link ≡ some l)
        × (q ≡ addressed p (p.header ++ net.link_id l) p.bytes p.encrypted)
  unfolding pack_lrproof
  pack_lrproof-ok p q h = elim (Option-cases p.destination_link) [
    | inl e ↦ absurd (ground arith)
    | inr (l, e) ↦ (l, e, ground arith)
  ]

  pack_header_1-ok :
      (d : D) (p q : Packet D L)
      → pack_header_1 net d p ≡ ok q
      → (ciphertext : List ℕ) × (encrypted : Bool) × (q
          ≡ addressed p (p.header ++ net.dest_hash d) ciphertext encrypted)
  unfolding pack_header_1
  pack_header_1-ok d p q h =
      elim (Bool-cases (is_clear net p.packet_type (net.dest_type d) p.context)) [
        | inl e ↦ (p.bytes, p.encrypted, ground arith)
        | inr e ↦
            let sealed : List ℕ → Result (Packet D L) =
              λ c. ok (addressed p (p.header ++ net.dest_hash d) c true) in
            let bound : (encrypt_bytes net d p >>= sealed) ≡ ok q = ground arith in
            let (c, _, same) = bind-ok (encrypt_bytes net d p) sealed q bound in
            (c, true, ground arith)
      ]

  pack_header_2-ok :
      (d : D) (p q : Packet D L)
      → pack_header_2 net d p ≡ ok q
      → q
        ≡ addressed p
            ((p.header ++ p.transport_id) ++ net.dest_hash d)
            (kept_ciphertext net p)
            p.encrypted
  unfolding pack_header_2
  pack_header_2-ok d p q h = ground arith

  get_hash-kept :
      (p : Packet D L) (hash : List ℕ)
      → get_hash net (record p { packet_hash = hash }) ≡ get_hash net p
  unfolding get_hash get_hashable_part
  get_hash-kept p hash = refl

  pack_raw-ok :
      (p q : Packet D L)
      → pack_raw net p ≡ ok q
      → (q.raw ≡ (p.header ++ (p.context ∷ [])) ++ p.ciphertext)
        × (q.ciphertext ≡ p.ciphertext)
        × (q.packed ≡ true)
        × (q.header_type ≡ p.header_type)
        × (get_hash net q ≡ ok q.packet_hash)
        × (length q.raw ≤ p.mtu)
  unfolding pack_raw update_hash
  pack_raw-ok p q h =
      let w : Packet D L = written net p in
      let finish : List ℕ → Result (Packet D L) = λ hash. ok (record w { packet_hash = hash }) in
      let fits : length w.raw ≤ p.mtu = ground arith in
      let bound : (get_hash net w >>= finish) ≡ ok q = ground arith in
      let (hash, e, same) = bind-ok (get_hash net w) finish q bound in
      let f : q ≡ record w { packet_hash = hash } = ground arith in
      rw f (refl, refl, refl, refl, get_hash-kept w hash ∙ e, fits)

  -- What pack has written: flags, hops, addresses, context, ciphertext, within the MTU.
  unfoldable pub IsWritten : Packet D L → Packet D L → List ℕ → Type 0
  IsWritten p q addresses =
      (q.raw ≡ p.flags ∷ p.hops ∷ (addresses ++ (p.context ∷ q.ciphertext)))
      × (q.packed ≡ true)
      × (q.header_type ≡ p.header_type)
      × (get_hash net q ≡ ok q.packet_hash)
      × (length q.raw ≤ p.mtu)

  -- The packet at the start of pack.
  abbrev started : D → Packet D L → Packet D L
  started d p = record p {
    destination_hash = net.dest_hash d;
    encrypted = false;
    header = p.flags ∷ p.hops ∷ [];
  }

  pack_raw-IsWritten :
      (d : D) (p q : Packet D L) (addresses ciphertext : List ℕ) (encrypted : Bool)
      → pack_raw net (addressed (started d p) (p.flags ∷ p.hops ∷ addresses) ciphertext encrypted)
        ≡ ok q
      → IsWritten p q addresses
  unfolding IsWritten
  pack_raw-IsWritten d p q addresses ciphertext encrypted h =
      let (raw, same, packed, type, hash, fits) = pack_raw-ok _ q h in
      (
        raw
            ∙ ap (λ xs. p.flags ∷ p.hops ∷ xs)
                (append_assoc addresses (p.context ∷ []) ciphertext
                  ∙ ap (λ xs. addresses ++ (p.context ∷ xs)) (sym same)),
        packed,
        type,
        hash,
        fits,
      )

  -- A packet with one address that pack returns holds its flags, hops, address, context and
  -- ciphertext in this order, in at most its MTU of bytes; it is marked as packed, and its hash
  -- is that of these bytes.
  pub pack-header_1 :
      (d : D) (p q : Packet D L)
      → p.destination ≡ some d
      → p.header_type ≡ header_1
      → pack net p ≡ ok q
      → IsWritten p q (address_of d p)
  unfolding pack pack_addresses address_of IsWritten
  pack-header_1 d p q e one h =
      let bound : (pack_addresses net d (started d p) >>= pack_raw net) ≡ ok q = ground arith in
      let (r, f, g) = bind-ok (pack_addresses net d (started d p)) (pack_raw net) q bound in
      elim (Bool-cases (p.context == context_lrproof)) [
        | inl y ↦
            let (l, there, same) = pack_lrproof-ok (started d p) r (ground arith) in
            rw (y, there) (pack_raw-IsWritten d p q (net.link_id l) p.bytes false (rw (← same) g))
        | inr n ↦
            let (c, enc, same) = pack_header_1-ok d (started d p) r (ground arith) in
            rw n (pack_raw-IsWritten d p q (net.dest_hash d) c enc (rw (← same) g))
      ]

  pub pack-header_2 :
      (d : D) (p q : Packet D L)
      → p.destination ≡ some d
      → p.header_type ≡ header_2
      → (p.context == context_lrproof) ≡ false
      → pack net p ≡ ok q
      → IsWritten p q (p.transport_id ++ net.dest_hash d)
  unfolding pack pack_addresses
  pack-header_2 d p q e two n h =
      let bound : (pack_addresses net d (started d p) >>= pack_raw net) ≡ ok q = ground arith in
      let (r, f, g) = bind-ok (pack_addresses net d (started d p)) (pack_raw net) q bound in
      let same = pack_header_2-ok d (started d p) r (ground arith) in
      pack_raw-IsWritten d p q (p.transport_id ++ net.dest_hash d) (kept_ciphertext net p) false
        (rw (← same) g)
