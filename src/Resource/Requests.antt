-- ===== src/Resource/Requests.antt =====
-- The request hashes that a sender remembers.
use rns.Prelude.{
  ℕ, zero, suc, ◌+◌, ◌-◌, ◌≤◌, ◌≡◌, ◌∙◌, refl, sym, ap, List, [], ◌∷◌, ◌++◌, arith, leb, length,
  drop, Bool-cases, inl, inr, length-append, length-drop, drop-drop, append-nil, append_assoc,
}
use rns.Resource.Serving.{req_hashlist_max, note_request_hash}

-- Every request of a run, oldest first.
abbrev pub note_all : List (List ℕ) → List (List ℕ) → List (List ℕ)
note_all [] hashes = hashes
note_all (h ∷ hs) hashes = note_all hs (note_request_hash h hashes)

length-note_request_hash :
    (h : List ℕ) (hashes : List (List ℕ))
    → length hashes ≤ req_hashlist_max
    → length (note_request_hash h hashes) ≤ req_hashlist_max
unfolding note_request_hash
length-note_request_hash h hashes bounded = ground (
  arith,
  length-append hashes (h ∷ []),
  length-append (drop 1 hashes) (h ∷ []),
  length-drop 1 hashes,
)

-- The list without its first `n` members, behind `m` more.
abbrev pub last : ℕ → List (List ℕ) → List (List ℕ)
last n hashes = drop (length hashes - n) hashes

drop-append_past :
    (n : ℕ) (xs ys : List (List ℕ)) → n ≤ length xs → drop n (xs ++ ys) ≡ drop n xs ++ ys
drop-append_past zero xs ys few = refl
drop-append_past (suc n) [] ys few = ground arith
drop-append_past (suc n) (x ∷ xs) ys few = drop-append_past n xs ys (omega arith)

last-last : (n : ℕ) (xs ys : List (List ℕ)) → last n (last n xs ++ ys) ≡ last n (xs ++ ys)
last-last n xs ys =
    let a : ℕ = length xs - n in
    let joined : drop a xs ++ ys ≡ drop a (xs ++ ys) =
      sym (drop-append_past a xs ys (omega arith)) in
    let size = length-append xs ys in
    let rest = length-drop a (xs ++ ys) in
    let sum : a + (length (drop a (xs ++ ys)) - n) ≡ length (xs ++ ys) - n = omega arith in
    rw (joined, drop-drop a (length (drop a (xs ++ ys)) - n) (xs ++ ys), sum) refl

note_request_hash-last :
    (h : List ℕ) (hashes : List (List ℕ))
    → length hashes ≤ req_hashlist_max
    → note_request_hash h hashes ≡ last req_hashlist_max (hashes ++ (h ∷ []))
unfolding note_request_hash
note_request_hash-last h hashes bounded =
    let size : length (hashes ++ (h ∷ [])) ≡ length hashes + 1 = length-append hashes (h ∷ []) in
    elim (Bool-cases (leb req_hashlist_max (length hashes))) [
      | inl e ↦
          let one : length hashes + 1 - 64 ≡ 1 = ground (arith, e, bounded) in
          rw (e, size, one) (sym (drop-append_past 1 hashes (h ∷ []) (ground (arith, e))))
      | inr e ↦
          let none_over : length hashes + 1 - 64 ≡ 0 = ground (arith, e) in
          rw (e, size, none_over) refl
    ]

-- The request hashes that a sender remembers, from at most 64 on, are always the latest 64 of all
-- that it noted.
pub note_all-last :
    (hs hashes : List (List ℕ))
    → length hashes ≤ req_hashlist_max
    → note_all hs hashes ≡ last req_hashlist_max (hashes ++ hs)
note_all-last [] hashes bounded =
    let none_over : length hashes - 64 ≡ 0 = omega arith in rw (append-nil hashes, none_over) refl
note_all-last (h ∷ hs) hashes bounded =
    note_all-last hs (note_request_hash h hashes) (length-note_request_hash h hashes bounded)
    ∙ ap (λ (x : List (List ℕ)). last req_hashlist_max (x ++ hs))
        (note_request_hash-last h hashes bounded)
    ∙ last-last req_hashlist_max (hashes ++ (h ∷ [])) hs
    ∙ ap (last req_hashlist_max) (append_assoc hashes (h ∷ []) hs)
