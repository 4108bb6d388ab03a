-- ===== src/Base/Bits.antt =====
-- Single bits of a byte, by evaluation over all bytes.
use h3os.Base.Tests.{◌==◌, if◌then◌else◌, ltb, ltb→lt}
use Prim.Native.Nat.{ℕ, zero, suc, ◌-◌, ◌^◌, ◌<◌, bit_and, bit_or}
use mathlib.Core.Path.{◌≡◌, refl, sym}
use mathlib.Core.Bool.{Bool, true, false, ◌&&◌, not}
use native.Mathlib.Omega.{arith}

-- A test that every number below the bound passes, by evaluation.
unfoldable pub all_below : (bound : ℕ) → (ℕ → Bool) → Bool
all_below zero test = true
all_below (suc bound) test = all_below bound test && test bound

pub all_below_sound :
    (bound : ℕ) (test : ℕ → Bool) (x : ℕ) → all_below bound test ≡ true → x < bound → test x ≡ true
unfolding all_below
all_below_sound zero test x passed below = absurd (omega arith)
all_below_sound (suc bound) test x passed below = ground (arith, all_below_sound bound test x)

-- `b & (1u << k)` as a truth value, `b |= (u8)(1u << k)` and `b &= (u8)~(1u << k)`.
unfoldable pub get_bit : ℕ → ℕ → Bool
get_bit b k = not (bit_and b (2 ^ k) == 0)

unfoldable pub set_bit : ℕ → ℕ → ℕ
set_bit b k = bit_or b (2 ^ k)

unfoldable pub clear_bit : ℕ → ℕ → ℕ
clear_bit b k = bit_and b (255 - 2 ^ k)

abbrev same : Bool → Bool → Bool
same true b = b
same false b = not b

same→eq : (a b : Bool) → same a b ≡ true → a ≡ b
same→eq true true h = refl
same→eq true false h = sym h
same→eq false true h = h
same→eq false false h = refl

abbrev set_holds : ℕ → ℕ → ℕ → Bool
set_holds k j b =
    same (get_bit (set_bit b k) j) (if k == j then true else get_bit b j) && ltb (set_bit b k) 256

abbrev clear_holds : ℕ → ℕ → ℕ → Bool
clear_holds k j b =
    same (get_bit (clear_bit b k) j) (if k == j then false else get_bit b j)
    && ltb (clear_bit b k) 256

abbrev Table : (ℕ → ℕ → ℕ → Bool) → Type 0
Table p = all_below 8 (λ k. all_below 8 (λ j. all_below 256 (p k j))) ≡ true

set-Table : Table set_holds
unfolding all_below get_bit set_bit
set-Table = refl

clear-Table : Table clear_holds
unfolding all_below get_bit clear_bit
clear-Table = refl

read-Table :
    (p : ℕ → ℕ → ℕ → Bool) → Table p → (k j b : ℕ) → k < 8 → j < 8 → b < 256 → p k j b ≡ true
read-Table p t k j b hk hj hb =
    all_below_sound 256 _ b (all_below_sound 8 _ j (all_below_sound 8 _ k t hk) hj) hb

and_parts : (a b : Bool) → (a && b) ≡ true → (a ≡ true) × (b ≡ true)
and_parts a b h = ground arith

module _ (k j b : ℕ) (hk : k < 8) (hj : j < 8) (hb : b < 256) where
  pub get_bit-set_bit : get_bit (set_bit b k) j ≡ (if k == j then true else get_bit b j)
  get_bit-set_bit = same→eq _ _ (and_parts _ _ (read-Table set_holds set-Table k j b hk hj hb)).0

  pub get_bit-clear_bit : get_bit (clear_bit b k) j ≡ (if k == j then false else get_bit b j)
  get_bit-clear_bit =
      same→eq _ _ (and_parts _ _ (read-Table clear_holds clear-Table k j b hk hj hb)).0

pub set_bit-lt : (k b : ℕ) → k < 8 → b < 256 → set_bit b k < 256
set_bit-lt k b hk hb =
    ltb→lt _ _ (and_parts _ _ (read-Table set_holds set-Table k 0 b hk (omega arith) hb)).1

pub clear_bit-lt : (k b : ℕ) → k < 8 → b < 256 → clear_bit b k < 256
clear_bit-lt k b hk hb =
    ltb→lt _ _ (and_parts _ _ (read-Table clear_holds clear-Table k 0 b hk (omega arith) hb)).1
