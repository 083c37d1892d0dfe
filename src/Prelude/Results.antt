-- ===== src/Prelude/Results.antt =====
-- What a call of C++ can come to: a value, an exception, a read outside the buffer that the pointer
-- belongs to, or (in a model with fuel) a recursion that goes deeper than the fuel.
use Prim.Native.Nat.{ℕ, zero, suc, ◌<◌, ◌+◌, ◌%◌, ◌-◌, ◌^◌}
use mathlib.Core.List.{List}
use mathlib.Core.Option.{none, some}
use Prim.Native.String.{String}
use rns.Prelude.Lists.{get_elem?, length}
use mathlib.Core.Path.{◌≡◌, refl}
use mathlib.Core.Bool.{Bool, true, false}
use mathlib.Core.List.{[], ◌∷◌}
use native.Mathlib.Omega.{arith}

pub data Result {ℓ} (A : Type ℓ) : Type ℓ where
  ok : A → Result A
  throw : String → Result A
  fault : Result A
  stuck : Result A

-- `abbrev`, so that `ok a >>= f` computes wherever it stands.
infixl 5 ◌>>=◌
abbrev pub ◌>>=◌ {ℓ κ} : {A : Type ℓ} {B : Type κ} → Result A → (A → Result B) → Result B
ok a >>= f = f a
throw e >>= f = throw e
fault >>= f = fault
stuck >>= f = stuck

-- A call that gives a value or an exception: no read outside a buffer, and fuel enough.
abbrev pub is_answer {ℓ} : {A : Type ℓ} → Result A → Bool
is_answer (ok a) = true
is_answer (throw e) = true
is_answer fault = false
is_answer stuck = false

module _ {ℓ κ} {A : Type ℓ} {B : Type κ} where
  pub bind-ok :
      (r : Result A) (f : A → Result B) (b : B)
      → (r >>= f) ≡ ok b
      → (a : A) × (r ≡ ok a) × (f a ≡ ok b)
  bind-ok (ok a) f b h = (a, refl, h)
  bind-ok (throw e) f b h = ground arith
  bind-ok fault f b h = ground arith
  bind-ok stuck f b h = ground arith

  pub bind-is_answer :
      (r : Result A) (f : A → Result B)
      → is_answer r ≡ true
      → ((a : A) → r ≡ ok a → is_answer (f a) ≡ true)
      → is_answer (r >>= f) ≡ true
  bind-is_answer (ok a) f h k = k a refl
  bind-is_answer (throw e) f h k = refl
  bind-is_answer fault f h k = h
  bind-is_answer stuck f h k = h

-- `p[i]`.
abbrev pub byte : List ℕ → ℕ → Result ℕ
byte p i = elim (get_elem? p i) [ none ↦ fault | some b ↦ ok b ]

-- The target is the ESP32, where `size_t` has 32 bits; sums and differences wrap.
abbrev pub size_mod : ℕ
size_mod = 2 ^ 32

abbrev pub add_size : ℕ → ℕ → ℕ
add_size a b = (a + b) % size_mod

abbrev pub sub_size : ℕ → ℕ → ℕ
sub_size a b = (a + size_mod - b) % size_mod

-- An index below the length reads a byte.
pub get_elem?-some {ℓ} :
    {A : Type ℓ} (xs : List A) (i : ℕ) → i < length xs → (a : A) × (get_elem? xs i ≡ some a)
get_elem?-some [] i h = absurd (omega arith)
get_elem?-some (x ∷ xs) zero h = (x, refl)
get_elem?-some (x ∷ xs) (suc i) h = get_elem?-some xs i (omega arith)
