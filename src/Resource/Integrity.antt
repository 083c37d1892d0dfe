-- ===== src/Resource/Integrity.antt =====
-- What must hold of the data when receive_part reports a resource complete, whatever was received.
use rns.Prelude.{
  ℕ, ◌≡◌, ◌∙◌, refl, ap, List, ◌++◌, true, false, ◌&&◌, arith, leb, ltb, length, take, Bool-cases,
  Option-cases, inl, inr,
}
use rns.Bytes.{same_bytes, same_bytes→eq}
use rns.Resource.State.{Doubles, Host, Resource}
use rns.Resource.Slots.{map_hash, store_part}
use rns.Resource.Receiver.{
  assemble, payload_of, check_payload, finish, note_part, take_part, next_window, conclude_parts,
  receive_part,
}
use rns.Resource.Serving.{is_complete}
use rns.Resource.Delivery.Core.{verdict_of-next_window, receive_part-none, receive_part-some}

module _ {R : Type 0} (dbl : Doubles R) (host : Host R) where
  -- The data has the hash that was announced.
  abbrev pub IsGenuine : Resource R → Type 0
  IsGenuine d = take 32 (host.full_hash (d.bytes ++ d.random_hash)) ≡ d.resource_hash

  check_payload-IsGenuine :
      (payload : List ℕ) (d : Resource R)
      → is_complete (check_payload dbl host payload d).status ≡ true
      → IsGenuine (check_payload dbl host payload d)
  unfolding check_payload
  check_payload-IsGenuine payload d over =
      elim (Bool-cases
        (same_bytes (take 32 (host.full_hash (payload ++ d.random_hash))) d.resource_hash)) [
          | inl e ↦ rw e (
              same_bytes→eq (take 32 (host.full_hash (payload ++ d.random_hash))) d.resource_hash e)
          | inr e ↦ absurd (ground (arith, e, over))
        ]

  finish-IsGenuine :
      (d : Resource R)
      → is_complete (finish dbl host d).status ≡ true
      → IsGenuine (finish dbl host d)
  unfolding finish
  finish-IsGenuine d over =
      elim (Option-cases (assemble dbl host (take d.total_parts d.slots.parts))) [
        | inl e ↦ absurd (ground (arith, e, over))
        | inr (assembled, e) ↦
            elim (Option-cases (payload_of dbl host d (host.link_decrypt assembled))) [
              | inl f ↦ absurd (ground (arith, e, f, over))
              | inr (payload, f) ↦
                  let same : finish dbl host d ≡ check_payload dbl host payload d =
                    rw (e, finish, f) refl in
                  rw same (check_payload-IsGenuine payload d (rw same at over))
            ]
      ]

  conclude_parts-IsGenuine :
      (d : Resource R)
      → is_complete d.status ≡ false
      → is_complete (conclude_parts dbl host d).status ≡ true
      → IsGenuine (conclude_parts dbl host d)
  unfolding conclude_parts
  conclude_parts-IsGenuine d before over =
      elim (Bool-cases (ltb 0 d.total_parts && leb d.total_parts d.slots.received)) [
        | inl e ↦ rw e (finish-IsGenuine d (rw e at over))
        | inr e ↦ absurd (ground (arith, e, before, over))
      ]

  -- If a part makes a receiver COMPLETE that was not, whatever came before it, then the digest of
  -- its data and the random hash is the hash that was announced.
  pub receive_part-IsGenuine :
      (now : R) (part : List ℕ) (d : Resource R)
      → is_complete d.status ≡ false
      → is_complete (receive_part dbl host now part d).1.status ≡ true
      → IsGenuine (receive_part dbl host now part d).1
  unfolding note_part take_part
  receive_part-IsGenuine now part d before over =
      let seen : Resource R = note_part dbl host now (length part) d in
      elim (Bool-cases d.outbound) [
        | inl out ↦ absurd (unfold receive_part in ground (arith, out, before, over))
        | inr inbound ↦
            elim (Option-cases (store_part host (map_hash host part d.random_hash) part d.slots)) [
              | inl e ↦
                  let ends = receive_part-none dbl host now part d inbound e in
                  let over' : is_complete seen.status ≡ true = rw ends at over in
                  absurd (ground (arith, before, over'))
              | inr (s, e) ↦
                  let taken : Resource R = take_part dbl host (length part) s seen in
                  let next : Resource R = next_window dbl host now taken in
                  let ends = receive_part-some dbl host now part d s inbound e in
                  let kept : is_complete next.status ≡ false =
                    ap is_complete ((verdict_of-next_window dbl host now taken).0) ∙ before in
                  rw ends (conclude_parts-IsGenuine next kept (rw ends at over))
            ]
      ]
