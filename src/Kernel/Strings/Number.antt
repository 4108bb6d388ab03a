-- ===== src/Kernel/Strings/Number.antt =====
-- The digits that `utoa` and `itoa` write.
use native.Mathlib.Nat.{mul-le-mul_right, mul-div-le, div-add-mod, mod-lt, mul_comm}
use h3os.Base.{
  ℕ, zero, suc, ◌+◌, ◌-◌, ◌*◌, ◌/◌, ◌%◌, ◌^◌, ◌≡◌, ◌≤◌, ◌<◌, refl, ◌∙◌, arith, false, List, [], ◌∷◌,
  length, ◌==◌, ◌||◌, ltb, if◌then◌else◌, u64, Bool-cases, inl, inr,
}
use h3os.Base.Int.{pos, negsuc}
use h3os.Kernel.Strings.{digit_char, low_digits, turn, utoa, itoa}

-- The digit that a character stands for, and the number that a text of digits stands for.
abbrev pub digit_value : ℕ → ℕ
digit_value c = if ltb c b'a' then c - b'0' else c - b'a' + 10

unfoldable pub read_digits : ℕ → ℕ → List ℕ → ℕ
read_digits base acc [] = acc
read_digits base acc (c ∷ cs) = read_digits base (acc * base + digit_value c) cs

-- The same for digits that stand the lowest first.
unfoldable read_low : ℕ → List ℕ → ℕ
read_low base [] = 0
read_low base (c ∷ cs) = read_low base cs * base + digit_value c

digit_value-digit_char : (d : ℕ) → d < 16 → digit_value (digit_char d) ≡ d
digit_value-digit_char d lt = ground arith

-- 2 ^ rounds
abbrev doubled : ℕ → ℕ
doubled zero = 1
doubled (suc n) = 2 * doubled n

read_low-low_digits :
    (fuel value base : ℕ)
    → 1 < base
    → base ≤ 16
    → value < doubled fuel
    → read_low base (low_digits fuel value base) ≡ value
unfolding read_low low_digits
read_low-low_digits zero value base lo hi lt = omega arith
read_low-low_digits (suc fuel) value base lo hi lt = elim (Bool-cases (value == 0)) [
  | inl none_left ↦ rw none_left (ground arith)
  | inr more ↦
      let twice : 2 * (value / base) ≤ base * (value / base) = mul-le-mul_right (value / base) lo in
      let under = mul-div-le value base in
      let whole = div-add-mod value base in
      let swap : base * (value / base) ≡ value / base * base = mul_comm base (value / base) in
      let small : value % base < base = mod-lt value (omega arith) in
      let digit = digit_value-digit_char (value % base) (omega arith) in
      let rest = read_low-low_digits fuel (value / base) base lo hi (omega (arith, twice, under)) in
      rw (more, rest, digit) (omega (arith, whole, swap))
]

read_digits-turn :
    (base : ℕ) (tmp out : List ℕ)
    → read_digits base 0 (turn tmp out) ≡ read_digits base (read_low base tmp) out
unfolding read_digits read_low turn
read_digits-turn base [] out = refl
read_digits-turn base (c ∷ tmp) out = read_digits-turn base tmp (c ∷ out)

length-low_digits : (fuel value base : ℕ) → length (low_digits fuel value base) ≤ fuel
unfolding low_digits
length-low_digits zero value base = omega arith
length-low_digits (suc fuel) value base = ground (arith, length-low_digits fuel (value / base) base)

length-turn : (tmp out : List ℕ) → length (turn tmp out) ≡ length tmp + length out
unfolding turn
length-turn [] out = omega arith
length-turn (c ∷ tmp) out = omega (arith, length-turn tmp (c ∷ out))

low_digits_nonempty :
    (fuel value base : ℕ) → 0 < value → 0 < length (low_digits (suc fuel) value base)
unfolding low_digits
low_digits_nonempty fuel value base more =
    let e : (value == 0) ≡ false = ground arith in rw e (omega arith)

pub read_digits-utoa :
    (value base : ℕ)
    → 1 < base
    → base ≤ 16
    → value < 2 ^ 64
    → (read_digits base 0 (utoa value base) ≡ value)
      × (0 < length (utoa value base))
      × (length (utoa value base) ≤ 64)
unfolding utoa
read_digits-utoa value base lo hi lt =
    let fits : (ltb base 2 || ltb 16 base) ≡ false = ground arith in
    elim (Bool-cases (value == 0)) [
      | inl nothing ↦
          rw (fits, nothing) (unfold read_digits in ground arith, omega arith, omega arith)
      | inr some_digits ↦
          let low = low_digits 64 value base in
          let back = read_low-low_digits 64 value base lo hi lt in
          let few = length-low_digits 64 value base in
          let same = length-turn low [] in
          let digits = low_digits_nonempty 63 value base (ground arith) in
          rw (fits, some_digits)
            (
              read_digits-turn base low [] ∙ unfold read_digits in back,
              omega (arith, same, digits),
              omega (arith, few, same),
            )
    ]

-- `itoa` in base 10 writes a sign before the digits exactly if the value is negative, and the digits
-- stand for its absolute value; every i64 is covered, the least one too.
pub read_digits-itoa :
    (n : ℕ)
    → n < 2 ^ 63
    → ((t : List ℕ) × (itoa (negsuc n) 10 ≡ b'-' ∷ t) × (read_digits 10 0 t ≡ n + 1))
      × (read_digits 10 0 (itoa (pos n) 10) ≡ n)
unfolding itoa
read_digits-itoa n lt =
    let small : u64 (n + 1) ≡ n + 1 = omega arith in
    let small' : u64 n ≡ n = omega arith in
    (
      (
        utoa (u64 (n + 1)) 10,
        refl,
        (read_digits-utoa (u64 (n + 1)) 10 (omega arith) (omega arith) (omega arith)).0 ∙ small,
      ),
      (read_digits-utoa (u64 n) 10 (omega arith) (omega arith) (omega arith)).0 ∙ small',
    )
