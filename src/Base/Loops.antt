-- ===== src/Base/Loops.antt =====
-- Counted loops: recursion on the rounds left.
use Prim.Native.Nat.{ℕ, zero, suc, ◌+◌, ◌≤◌, ◌<◌}
use mathlib.Core.Path.{◌≡◌}
use native.Mathlib.Omega.{arith}

-- `for (; rounds--; k++) st = step(k, st)`
unfoldable pub for_range {ℓ} : {S : Type ℓ} (rounds k : ℕ) (step : ℕ → S → S) → S → S
for_range zero k step st = st
for_range (suc rounds) k step st = for_range rounds (k + 1) step (step k st)

-- A property of the counter and the state that each round keeps, its counter in range, holds at the
-- end.
pub for_range_inv {ℓ κ} :
    {S : Type ℓ} (Inv : ℕ → S → Type κ) (step : ℕ → S → S) (rounds lo hi : ℕ) (st : S)
    → lo + rounds ≡ hi
    → ((k : ℕ) (t : S) → lo ≤ k → k < hi → Inv k t → Inv (k + 1) (step k t))
    → Inv lo st
    → Inv hi (for_range rounds lo step st)
unfolding for_range
for_range_inv Inv step zero lo hi st sum kept start =
    let done : lo ≡ hi = omega arith in rw (← done) start
for_range_inv Inv step (suc rounds) lo hi st sum kept start =
    for_range_inv Inv step rounds (lo + 1) hi (step lo st) (omega arith)
      (λ k t above below. kept k t (omega arith) below)
      (kept lo st (omega arith) (omega arith) start)
