-- ===== src/Prelude/Bits.antt =====
-- Masks on one byte as arithmetic; each is a table of at most 256 entries, checked by evaluation.
use Prim.Native.Nat.{ℕ, zero, suc, ◌+◌, ◌*◌, ◌/◌, ◌%◌, ◌<◌, bit_and, bit_or}
use mathlib.Core.Path.{◌≡◌, refl}
use mathlib.Core.Bool.{Bool, true, false}
use mathlib.Core.Logic.{ite}
use native.Mathlib.Decide.{ℕ_discrete}
use native.Mathlib.Omega.{arith}

module _ (f g : ℕ → ℕ) where
  agree_below : ℕ → Bool
  unfolding ℕ_discrete
  agree_below zero = true
  agree_below (suc n) = ite (ℕ_discrete (f n) (g n)) (agree_below n) false

  agree_below→eq : (n : ℕ) → agree_below n ≡ true → (i : ℕ) → i < n → f i ≡ g i
  unfolding agree_below
  agree_below→eq zero e i h = absurd (omega arith)
  agree_below→eq (suc n) e i h = ground (arith, agree_below→eq n (ground arith) i)

pub bit_and-0x80 : (b : ℕ) → b < 256 → bit_and b 0x80 ≡ b / 128 * 128
unfolding agree_below
bit_and-0x80 = agree_below→eq _ _ 256 refl

pub bit_and-0xe0 : (b : ℕ) → b < 256 → bit_and b 0xe0 ≡ b / 32 * 32
unfolding agree_below
bit_and-0xe0 = agree_below→eq _ _ 256 refl

pub bit_and-0xf0 : (b : ℕ) → b < 256 → bit_and b 0xf0 ≡ b / 16 * 16
unfolding agree_below
bit_and-0xf0 = agree_below→eq _ _ 256 refl

pub bit_and-0x1f : (b : ℕ) → b < 256 → bit_and b 0x1f ≡ b % 32
unfolding agree_below
bit_and-0x1f = agree_below→eq _ _ 256 refl

pub bit_and-0x0f : (b : ℕ) → b < 256 → bit_and b 0x0f ≡ b % 16
unfolding agree_below
bit_and-0x0f = agree_below→eq _ _ 256 refl

pub bit_or-0x80 : (b : ℕ) → b < 16 → bit_or 0x80 b ≡ 0x80 + b
unfolding agree_below
bit_or-0x80 = agree_below→eq _ _ 16 refl

pub bit_or-0x90 : (b : ℕ) → b < 16 → bit_or 0x90 b ≡ 0x90 + b
unfolding agree_below
bit_or-0x90 = agree_below→eq _ _ 16 refl

pub bit_or-0xa0 : (b : ℕ) → b < 32 → bit_or 0xa0 b ≡ 0xa0 + b
unfolding agree_below
bit_or-0xa0 = agree_below→eq _ _ 32 refl

pub bit_or-0xe0 : (b : ℕ) → b < 32 → bit_or 0xe0 b ≡ 0xe0 + b
unfolding agree_below
bit_or-0xe0 = agree_below→eq _ _ 32 refl
