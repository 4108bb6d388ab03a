-- ===== src/Memory/Pmm/Count.antt =====
-- Counting the pages of a set below a bound.
use h3os.Base.{
  ℕ, zero, suc, ◌+◌, ◌≡◌, ◌≤◌, ◌<◌, Bool, true, false, if◌then◌else◌, ◌==◌, refl, ap, arith, min,
}
use native.Mathlib.Decide.{dec_lt}

unfoldable pub count_used : (ℕ → Bool) → ℕ → ℕ
count_used t zero = 0
count_used t (suc n) = count_used t n + (if t n then 1 else 0)

pub count_used-le : (t : ℕ → Bool) (n : ℕ) → count_used t n ≤ n
unfolding count_used
count_used-le t zero = omega arith
count_used-le t (suc n) = ground (arith, count_used-le t n)

pub count_used_same :
    (t u : ℕ → Bool) (n : ℕ) → ((q : ℕ) → q < n → u q ≡ t q) → count_used u n ≡ count_used t n
unfolding count_used
count_used_same t u zero h = refl
count_used_same t u (suc n) h =
    ground (arith, h n (omega arith), count_used_same t u n (λ q l. h q (omega arith)))

-- `u` is `t` with the bit of `p` written.
abbrev pub Writes : (ℕ → Bool) → (ℕ → Bool) → ℕ → Bool → Type 0
Writes t u p v = (q : ℕ) → u q ≡ (if p == q then v else t q)

count_used_outside :
    (t u : ℕ → Bool) (p n : ℕ) (v : Bool) → Writes t u p v → n ≤ p → count_used u n ≡ count_used t n
count_used_outside t u p n v w h = count_used_same t u n (λ q l. ground (arith, w q))

pub count_used_set :
    (t u : ℕ → Bool) (p n : ℕ)
    → Writes t u p true
    → t p ≡ false
    → p < n
    → count_used u n ≡ count_used t n + 1
unfolding count_used
count_used_set t u p zero w c h = absurd (omega arith)
count_used_set t u p (suc n) w c h =
    ground (arith, w n, count_used_set t u p n w c, count_used_outside t u p n _ w)

pub count_used_clear :
    (t u : ℕ → Bool) (p n : ℕ)
    → Writes t u p false
    → t p ≡ true
    → p < n
    → count_used u n + 1 ≡ count_used t n
unfolding count_used
count_used_clear t u p zero w c h = absurd (omega arith)
count_used_clear t u p (suc n) w c h =
    ground (arith, w n, count_used_clear t u p n w c, count_used_outside t u p n _ w)

pub count_used_step :
    (t : ℕ → Bool) (n : ℕ) → count_used t (n + 1) ≡ count_used t n + (if t n then 1 else 0)
unfolding count_used
count_used_step t n = ap (count_used t) {x = n + 1} {y = suc n} (omega arith)

pub count_used_zero : (t : ℕ → Bool) → count_used t 0 ≡ 0
unfolding count_used
count_used_zero t = refl

pub count_used_prefix :
    (t : ℕ → Bool) (lo n : ℕ)
    → ((q : ℕ) → q < lo → t q ≡ true)
    → ((q : ℕ) → lo ≤ q → q < n → t q ≡ false)
    → count_used t n ≡ min lo n
unfolding count_used
count_used_prefix t lo zero low high = omega arith
count_used_prefix t lo (suc n) low high =
    let ih = count_used_prefix t lo n low (λ q le lt. high q le (omega arith)) in
    elim (dec_lt n lo) [
      | yes below ↦ ground (arith, ih, low n below)
      | no over ↦ ground (arith, ih, high n (omega arith) (omega arith))
    ]
