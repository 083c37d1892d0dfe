-- ===== src/Resource/Slots.antt =====
-- The slots of an inbound resource: the loops over its parts and its map hashes.
use rns.Prelude.{
  ℕ, zero, suc, ◌+◌, ◌/◌, List, [], ◌∷◌, ◌++◌, Bool, true, false, ◌&&◌, Option, none, some, ltb,
  leb, if◌then◌else◌, length, take, drop, replicate, add_size,
}
use rns.Bytes.{same_bytes}
use rns.Resource.State.{Host, Slots, maphash_len}

-- `xs[i]` and `xs[i] = x` of a vector; the source stays inside its vectors.
abbrev pub get_or {ℓ} : {A : Type ℓ} → List A → ℕ → A → A
get_or [] i x = x
get_or (y ∷ ys) zero x = y
get_or (y ∷ ys) (suc i) x = get_or ys i x

abbrev pub set {ℓ} : {A : Type ℓ} → List A → ℕ → A → List A
set [] i x = []
set (y ∷ ys) zero x = x ∷ ys
set (y ∷ ys) (suc i) x = y ∷ set ys i x

-- `size() == 0`.
abbrev pub is_empty : List ℕ → Bool
is_empty [] = true
is_empty (x ∷ xs) = false

-- The first slot that is empty and whose known map hash is this one, from index `i` on: the three
-- vectors are read together.
unfoldable pub find_slot : List (List ℕ) → List (List ℕ) → List Bool → List ℕ → ℕ → Option ℕ
find_slot (p ∷ ps) (h ∷ hs) (k ∷ ks) mh i =
    if k && (is_empty p && same_bytes h mh) then some i else find_slot ps hs ks mh (suc i)
find_slot [] hs ks mh i = none
find_slot (p ∷ ps) [] ks mh i = none
find_slot (p ∷ ps) (h ∷ hs) [] mh i = none

-- The number of parts in front that are there, from the parts behind `consec`.
unfoldable pub consec_from : List (List ℕ) → ℕ
consec_from [] = 0
consec_from (p ∷ ps) = if is_empty p then 0 else suc (consec_from ps)

module _ {R : Type 0} (host : Host R) where
  unfoldable pub map_hash : List ℕ → List ℕ → List ℕ
  map_hash bytes rh = take maphash_len (host.full_hash (bytes ++ rh))

  -- `receive_part`'s loop over the slots and the advance of the height.
  unfoldable pub store_part : List ℕ → List ℕ → Slots → Option Slots
  store_part mh part s = elim (find_slot s.parts s.map_hashes s.hash_known mh 0) [
    | none ↦ none
    | some i ↦
        let parts : List (List ℕ) = set s.parts i part in
        some (record s {
          parts = parts;
          received = suc s.received;
          consec = s.consec + consec_from (drop s.consec parts);
        })
  ]

-- One map hash of a hashmap update, at its index; a known one is kept.
unfoldable pub learn_hash : ℕ → List ℕ → Slots → Slots
learn_hash idx mh s = if get_or s.hash_known idx true then s else record s {
  map_hashes = set s.map_hashes idx mh;
  hash_known = set s.hash_known idx true;
  hashmap_height = if ltb s.hashmap_height (suc idx) then suc idx else s.hashmap_height;
}

-- The loop over the map hashes of an update: `idx = i + segment * seg_len` in 32 bits, up to the
-- first index that is not below the number of parts.
unfoldable pub learn_hashes : ℕ → ℕ → ℕ → ℕ → List ℕ → Slots → Slots
learn_hashes zero total start i hm s = s
learn_hashes (suc n) total start i hm s =
    let idx : ℕ = add_size i start in
    let rest : Slots =
      learn_hashes n total start (suc i) (drop maphash_len hm)
        (learn_hash idx (take maphash_len hm) s) in
    if leb total idx then s else rest

-- What the scan of `_request_window` finds: the flag, the requested hashes and their number.
pub record Wanted : Type 0 where
  pub exhausted : Bool
  pub requested : List ℕ
  pub number : ℕ

abbrev pub no_wanted : Wanted
no_wanted = record { exhausted = false; requested = []; number = 0 }

-- `n` rounds of the scan from part `pn` on; it stops at an unknown hash and behind the last
-- part. (A window's worth of hashes is found in the last round at the earliest.)
unfoldable pub scan : ℕ → ℕ → ℕ → Slots → Wanted → Wanted
scan zero total pn s w = w
scan (suc n) total pn s w =
    let next : Wanted = scan n total (suc pn) s w in
    let asked : Wanted =
      scan n total (suc pn) s (record w {
        requested = w.requested ++ get_or s.map_hashes pn [];
        number = suc w.number;
      }) in
    if leb total pn
    then w
    else if is_empty (get_or s.parts pn [])
    then (if get_or s.hash_known pn false then asked else record w { exhausted = true })
    else next

-- The slots of a new transfer: `n` parts, of which the advertisement brings the first map hashes,
-- in a loop that does what an update's does.
unfoldable pub new_slots : ℕ → List ℕ → Slots
new_slots n hm =
    let empty_slots : Slots = record {
      parts = replicate n [];
      map_hashes = replicate n [];
      hash_known = replicate n false;
      received = 0;
      consec = 0;
      hashmap_height = 0;
    } in
    learn_hashes (length hm / 4) n 0 0 hm empty_slots
