-- ===== src/Resource/Delivery/Core.antt =====
-- What the slots of a receiver and the verdict on its data depend on, and the lemmas on
-- receive_part that the proofs of a transfer share.
use rns.Prelude.{
  ℕ, zero, suc, ◌≤◌, ◌≡◌, refl, sym, ap, List, [], ◌∷◌, ◌++◌, Bool, true, false, Option, none, some,
  arith, if◌then◌else◌, length, take, drop, leb,
}
use rns.Resource.State.{Doubles, Host, Slots, Resource, ResourceFlags, random_hash_size}
use rns.Resource.Slots.{get_or, set, map_hash, store_part}
use rns.Resource.Receiver.{
  request_window, send_request, assemble, note_part, take_part, next_window, conclude_parts,
  receive_part,
}
use rns.Resource.Compression.{bz2_decompress}
use rns.Resource.Pace.{measure_round, grow_window}
use rns.Resource.Delivery.Sets.{pick, size_of, IsFilled}

abbrev pub concat : List (List ℕ) → List ℕ
concat [] = []
concat (p ∷ ps) = p ++ concat ps

-- What the slots and the verdict on the data depend on.
pub record Core : Type 0 where
  pub outbound : Bool
  pub total_parts : ℕ
  pub total_size : ℕ
  pub resource_hash : List ℕ
  pub random_hash : List ℕ
  pub flags : ResourceFlags
  pub slots : Slots

abbrev pub core_of : {R : Type 0} → Resource R → Core
core_of d = record {
  outbound = d.outbound;
  total_parts = d.total_parts;
  total_size = d.total_size;
  resource_hash = d.resource_hash;
  random_hash = d.random_hash;
  flags = d.flags;
  slots = d.slots;
}

pub set-same :
    (arrived : List Bool) (i : ℕ) → get_or arrived i false ≡ true → set arrived i true ≡ arrived
set-same [] i old = refl
set-same (a ∷ arrived) zero old = ap (◌∷ arrived) (sym old)
set-same (a ∷ arrived) (suc i) old = ap (a ∷◌) (set-same arrived i old)

pub size_of-length : (arrived : List Bool) → size_of arrived ≤ length arrived
size_of-length [] = omega arith
size_of-length (true ∷ arrived) = let rest = size_of-length arrived in omega arith
size_of-length (false ∷ arrived) = let rest = size_of-length arrived in omega arith

pub pick-whole :
    (ps : List (List ℕ)) (arrived : List Bool)
    → length arrived ≡ length ps
    → length ps ≤ size_of arrived
    → pick arrived ps ≡ ps
pick-whole [] [] n full = refl
pick-whole [] (a ∷ arrived) n full = ground arith
pick-whole (p ∷ ps) [] n full = ground arith
pick-whole (p ∷ ps) (true ∷ arrived) n full =
    ap (p ∷◌) (pick-whole ps arrived (omega arith) (omega arith))
pick-whole (p ∷ ps) (false ∷ arrived) n full = let short = size_of-length arrived in ground arith

pub take-length : (ps : List (List ℕ)) → take (length ps) ps ≡ ps
take-length [] = refl
take-length (p ∷ ps) = ap (p ∷◌) (take-length ps)

module _ {R : Type 0} (dbl : Doubles R) (host : Host R) where
  pub core_of-request_window :
      (now : R) (d : Resource R) → core_of (request_window dbl now d) ≡ core_of d
  unfolding request_window send_request
  core_of-request_window now d = ground arith

  pub core_of-next_window :
      (now : R) (d : Resource R) → core_of (next_window dbl host now d) ≡ core_of d
  unfolding next_window
  core_of-next_window now d = ground (
    arith,
    core_of-request_window now
        (record d { pace = measure_round dbl host now (grow_window dbl d.pace) }),
  )

  -- Asking for parts concludes nothing.
  pub verdict_of-request_window :
      (now : R) (d : Resource R)
      → ((request_window dbl now d).status ≡ d.status)
        × ((request_window dbl now d).concluded ≡ d.concluded)
  unfolding request_window send_request
  verdict_of-request_window now d = ground arith

  pub verdict_of-next_window :
      (now : R) (d : Resource R)
      → ((next_window dbl host now d).status ≡ d.status)
        × ((next_window dbl host now d).concluded ≡ d.concluded)
  unfolding next_window
  verdict_of-next_window now d = ground (
    arith,
    verdict_of-request_window now
        (record d { pace = measure_round dbl host now (grow_window dbl d.pace) }),
  )

  pub assemble-filled : (ps : List (List ℕ)) → IsFilled ps → assemble dbl host ps ≡ some (concat ps)
  unfolding assemble
  assemble-filled [] filled = refl
  assemble-filled (p ∷ ps) (f, filled) = rw (f, assemble-filled ps filled) refl

  pub receive_part-none :
      (now : R) (part : List ℕ) (d : Resource R)
      → d.outbound ≡ false
      → store_part host (map_hash host part d.random_hash) part d.slots ≡ none
      → (receive_part dbl host now part d).1 ≡ note_part dbl host now (length part) d
  unfolding receive_part note_part
  receive_part-none now part d inbound stored = ground (arith, inbound, stored)

  pub receive_part-some :
      (now : R) (part : List ℕ) (d : Resource R) (s : Slots)
      → d.outbound ≡ false
      → store_part host (map_hash host part d.random_hash) part d.slots ≡ some s
      → (receive_part dbl host now part d).1
        ≡ conclude_parts dbl host (
            next_window dbl host now
              (take_part dbl host (length part) s (note_part dbl host now (length part) d)))
  unfolding receive_part note_part
  receive_part-some now part d s inbound stored = ground (arith, inbound, stored)

  -- What `payload_of` makes of a decrypted stream.
  abbrev pub read_stream : ResourceFlags → ℕ → List ℕ → Option (List ℕ)
  read_stream flags total_size decrypted =
      if leb (length decrypted) random_hash_size
      then none
      else if flags.compressed
      then bz2_decompress host (drop random_hash_size decrypted) total_size
      else some (drop random_hash_size decrypted)
