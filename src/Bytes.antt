-- ===== src/Bytes.antt =====
-- Byte strings: the slices and the comparison of Bytes.h and Bytes.cpp.
use rns.Prelude.{
  ℕ, ◌-◌, ◌≡◌, refl, List, [], ◌∷◌, ◌++◌, Bool, true, false, ◌&&◌, arith, leb, ltb, ◌==◌,
  if◌then◌else◌, length, take, drop, min, length-take, length-drop, length-append, take-append_self,
  drop-append_self,
}

unfoldable pub left : List ℕ → ℕ → List ℕ
left bytes len = take (if ltb (length bytes) len then length bytes else len) bytes

unfoldable pub right : List ℕ → ℕ → List ℕ
right bytes len = drop (length bytes - (if ltb (length bytes) len then length bytes else len)) bytes

-- `mid(beginpos)`: up to the end.
unfoldable pub mid_to_end : List ℕ → ℕ → List ℕ
mid_to_end bytes beginpos = if leb (length bytes) beginpos then [] else drop beginpos bytes

-- `mid(beginpos, len)`.
unfoldable pub mid : List ℕ → ℕ → ℕ → List ℕ
mid bytes beginpos len =
    if leb (length bytes) beginpos
    then []
    else (let remaining : ℕ = length bytes - beginpos in
        take (if ltb remaining len then remaining else len) (drop beginpos bytes))

-- `operator==`.
unfoldable pub same_bytes : List ℕ → List ℕ → Bool
same_bytes [] [] = true
same_bytes [] (y ∷ ys) = false
same_bytes (x ∷ xs) [] = false
same_bytes (x ∷ xs) (y ∷ ys) = (x == y) && same_bytes xs ys

pub same_bytes_refl : (xs : List ℕ) → same_bytes xs xs ≡ true
unfolding same_bytes
same_bytes_refl [] = refl
same_bytes_refl (x ∷ xs) = ground (arith, same_bytes_refl xs)

pub same_bytes_comm : (xs ys : List ℕ) → same_bytes xs ys ≡ same_bytes ys xs
unfolding same_bytes
same_bytes_comm [] [] = refl
same_bytes_comm [] (y ∷ ys) = refl
same_bytes_comm (x ∷ xs) [] = refl
same_bytes_comm (x ∷ xs) (y ∷ ys) = ground (arith, same_bytes_comm xs ys)

pub same_bytes→eq : (xs ys : List ℕ) → same_bytes xs ys ≡ true → xs ≡ ys
unfolding same_bytes
same_bytes→eq [] [] h = refl
same_bytes→eq [] (y ∷ ys) h = ground arith
same_bytes→eq (x ∷ xs) [] h = ground arith
same_bytes→eq (x ∷ xs) (y ∷ ys) h = ground (arith, same_bytes→eq xs ys)

pub length-left : (bytes : List ℕ) (len : ℕ) → length (left bytes len) ≡ min len (length bytes)
unfolding left
length-left bytes len = ground (arith, length-take len bytes, length-take (length bytes) bytes)

pub length-right : (bytes : List ℕ) (len : ℕ) → length (right bytes len) ≡ min len (length bytes)
unfolding right
length-right bytes len =
    ground (
      arith,
      length-drop (length bytes - len) bytes,
      length-drop (length bytes - length bytes) bytes,
    )

-- The parts of a string that was put together.
pub left-append : (xs ys : List ℕ) → left (xs ++ ys) (length xs) ≡ xs
unfolding left
left-append xs ys = ground (arith, length-append xs ys, take-append_self xs ys)

pub right-append : (xs ys : List ℕ) → right (xs ++ ys) (length ys) ≡ ys
unfolding right
right-append xs ys =
    let e : length (xs ++ ys) - length ys ≡ length xs = omega (arith, length-append xs ys) in
    let f : ltb (length (xs ++ ys)) (length ys) ≡ false = ground (arith, length-append xs ys) in
    rw (f, e) (drop-append_self xs ys)
