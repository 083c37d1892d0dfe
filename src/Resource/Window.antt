-- ===== src/Resource/Window.antt =====
-- What _request_window asks for.
use rns.Prelude.{
  ℕ, zero, suc, ◌+◌, ◌-◌, ◌≤◌, ◌<◌, ◌≡◌, ◌∙◌, refl, sym, List, [], ◌∷◌, ◌++◌, Bool, true, false,
  arith, leb, if◌then◌else◌, length, Bool-cases, ◌⊎◌, inl, inr, min, append-nil, append_assoc,
}
use mathlib.Core.Path.{subst}
use rns.Resource.State.{Resource, Slots}
use rns.Resource.Slots.{get_or, is_empty, Wanted, scan}

-- Numbers of parts that are missing and whose map hashes are known, in ascending order from `from`
-- on.
abbrev pub AreWanted : Slots → ℕ → ℕ → List ℕ → Type 0
AreWanted s total from [] = Unit
AreWanted s total from (i ∷ is) =
    (from ≤ i)
    × (i < total)
    × (is_empty (get_or s.parts i []) ≡ true)
    × (get_or s.hash_known i false ≡ true)
    × AreWanted s total (suc i) is

abbrev pub hashes_at : Slots → List ℕ → List ℕ
hashes_at s [] = []
hashes_at s (i ∷ is) = get_or s.map_hashes i [] ++ hashes_at s is

-- A later start is as good.
later :
    (s : Slots) (total from : ℕ) (is : List ℕ)
    → AreWanted s total (suc from) is
    → AreWanted s total from is
later s total from [] wanted = tt
later s total from (i ∷ is) (above, below, empty, known, rest) =
    (omega arith, below, empty, known, rest)

-- All the numbers of missing parts among `n` from `from` on.
abbrev pub missing : Slots → ℕ → ℕ → List ℕ
missing s from zero = []
missing s from (suc n) =
    if is_empty (get_or s.parts from [])
    then from ∷ missing s (suc from) n
    else missing s (suc from) n

-- How a scan of `n` rounds from part `pn` on ends after `m` of them: it has seen all the parts of the
-- window, and the flag is as before, or the next part is missing and its hash is unknown.
abbrev pub Ends : Slots → ℕ → ℕ → ℕ → ℕ → Bool → Bool → Type 0
Ends s total n pn m before after =
    ((m ≡ min n (total - pn)) × (after ≡ before))
    ⊎ ((m < min n (total - pn))
        × (is_empty (get_or s.parts (pn + m) []) ≡ true)
        × (get_or s.hash_known (pn + m) false ≡ false)
        × (after ≡ true))

-- `n` rounds from part `pn` on lead from `w` to `r`.
abbrev pub Asks : Slots → ℕ → ℕ → ℕ → Wanted → Wanted → Type 0
Asks s total n pn w r =
    (m : ℕ) × AreWanted s total pn (missing s pn m)
    × (r.requested ≡ w.requested ++ hashes_at s (missing s pn m))
    × (r.number ≡ w.number + length (missing s pn m))
    × (length (missing s pn m) ≤ n)
    × Ends s total n pn m w.exhausted r.exhausted

-- One round more in front.
Ends-suc :
    (s : Slots) (total n pn m : ℕ) (before after : Bool)
    → pn < total
    → Ends s total n (suc pn) m before after
    → Ends s total (suc n) pn (suc m) before after
Ends-suc s total n pn m before after inside (inl (all, same)) = inl (omega arith, same)
Ends-suc s total n pn m before after inside (inr (some_left, empty, unknown, told)) =
    let next : pn + suc m ≡ suc pn + m = omega arith in
    inr (omega arith, rw next empty, rw next unknown, told)

-- A missing part of a known hash in front.
ask :
    (s : Slots) (total n pn : ℕ) (w r : Wanted)
    → pn < total
    → is_empty (get_or s.parts pn []) ≡ true
    → get_or s.hash_known pn false ≡ true
    → Asks s total n
        (suc pn)
        (record w { requested = w.requested ++ get_or s.map_hashes pn []; number = suc w.number })
        r
    → Asks s total (suc n) pn w r
ask s total n pn w r inside empty known (m, wanted, hashes, number, few, ends) =
    let more : missing s pn (suc m) ≡ pn ∷ missing s (suc pn) m = rw empty refl in
    (
      suc m,
      subst (AreWanted s total pn) (sym more) (omega arith, inside, empty, known, wanted),
      rw more (
          hashes
          ∙ append_assoc w.requested (get_or s.map_hashes pn [])
              (hashes_at s (missing s (suc pn) m))),
      rw more (number ∙ omega arith),
      rw more (omega arith),
      Ends-suc s total n pn m w.exhausted r.exhausted inside ends,
    )

-- A part that is there.
pass :
    (s : Slots) (total n pn : ℕ) (w r : Wanted)
    → pn < total
    → is_empty (get_or s.parts pn []) ≡ false
    → Asks s total n (suc pn) w r
    → Asks s total (suc n) pn w r
pass s total n pn w r inside there (m, wanted, hashes, number, few, ends) =
    let same : missing s pn (suc m) ≡ missing s (suc pn) m = rw there refl in
    (
      suc m,
      subst (AreWanted s total pn) (sym same) (later s total pn (missing s (suc pn) m) wanted),
      rw same hashes,
      rw same number,
      rw same (omega arith),
      Ends-suc s total n pn m w.exhausted r.exhausted inside ends,
    )

pub scan-Asks :
    (n total pn : ℕ) (s : Slots) (w : Wanted) → Asks s total n pn w (scan n total pn s w)
unfolding scan
scan-Asks zero total pn s w =
    (0, tt, sym (append-nil w.requested), omega arith, omega arith, inl (omega arith, refl))
scan-Asks (suc n) total pn s w = elim (Bool-cases (leb total pn)) [
  | inl e ↦
      let none_left : 0 ≡ min (suc n) (total - pn) = ground (arith, e) in
      rw e (0, tt, sym (append-nil w.requested), omega arith, omega arith, inl (none_left, refl))
  | inr e ↦
      let inside : pn < total = ground (arith, e) in
      elim (Bool-cases (is_empty (get_or s.parts pn []))) [
        | inr there ↦
            rw (e, there)
              (pass s total n pn w (scan n total (suc pn) s w) inside there
                (scan-Asks n total (suc pn) s w))
        | inl empty ↦ elim (Bool-cases (get_or s.hash_known pn false)) [
          | inr unknown ↦
              let here : pn + 0 ≡ pn = omega arith in
              rw (e, empty, unknown)
                (
                  0,
                  tt,
                  sym (append-nil w.requested),
                  omega arith,
                  omega arith,
                  inr (omega arith, rw here empty, rw here unknown, refl),
                )
          | inl known ↦
              let asked : Wanted = record w {
                requested = w.requested ++ get_or s.map_hashes pn [];
                number = suc w.number;
              } in
              rw (e, empty, known)
                (ask s total n pn w (scan n total (suc pn) s asked) inside empty known
                  (scan-Asks n total (suc pn) s asked))
        ]
      ]
]
