-- ===== src/Memory/Heap/Chain.antt =====
-- The list of blocks, and the walk over it.
use h3os.Base.{
  ℕ, zero, suc, ◌≡◌, ◌≢◌, ◌≤◌, ◌<◌, refl, arith, true, List, [], ◌∷◌, ◌++◌, length, ◌==◌, ◌&&◌, leb,
  ap, Bool-cases, inl, inr,
}
use h3os.Memory.Heap.{Blocks, magic_number, Search, fits, no_fit, find_fit}

-- From `b` the `next` fields lead through the blocks of the list to `NULL`, each with its magic.
abbrev pub IsChain : Blocks → ℕ → List ℕ → Type 0
IsChain m b [] = b ≡ 0
IsChain m b (a ∷ bs) = (b ≡ a) × (a ≢ 0) × ((m a).magic ≡ magic_number) × IsChain m (m a).next bs

-- The `prev` fields lead back: that of the first block to `pv`, and that of each other one to the block
-- before it.
abbrev pub IsLinked : Blocks → ℕ → List ℕ → Type 0
IsLinked m pv [] = Unit {0}
IsLinked m pv (a ∷ bs) = ((m a).prev ≡ pv) × IsLinked m a bs

-- A block that is free and holds `size` bytes.
abbrev pub Fits : Blocks → ℕ → ℕ → Type 0
Fits m size b = ((m b).free ≡ true) × (size ≤ (m b).size)

-- No block of the list fits.
abbrev pub NoFit : Blocks → ℕ → List ℕ → Type 0
NoFit m size [] = Unit {0}
NoFit m size (a ∷ bs) = (Fits m size a → ⊥) × NoFit m size bs

-- The first block of the list that fits, or none.
pub data FirstFit (m : Blocks) (size : ℕ) (bs : List ℕ) : Search → Type 0 where
  first :
      (before after : List ℕ) (b : ℕ)
      → bs ≡ before ++ b ∷ after
      → Fits m size b
      → NoFit m size before
      → b ≢ 0
      → (m b).magic ≡ magic_number
      → FirstFit m size bs (fits b)
  none_fits : NoFit m size bs → FirstFit m size bs no_fit

FirstFit-skip :
    {m : Blocks} {size : ℕ} {bs : List ℕ} {r : Search} (a : ℕ)
    → (Fits m size a → ⊥)
    → FirstFit m size bs r
    → FirstFit m size (a ∷ bs) r
FirstFit-skip a out (first before after b e f n ne mg) =
    first (a ∷ before) after b (ap (λ l. a ∷ l) e) f (out, n) ne mg
FirstFit-skip a out (none_fits n) = none_fits (out, n)

-- Over a list shorter than the rounds the walk ends at the first block that fits.
pub find_fit_lem :
    (fuel : ℕ) (m : Blocks) (size b : ℕ) (bs : List ℕ)
    → IsChain m b bs
    → length bs < fuel
    → FirstFit m size bs (find_fit fuel m size b)
unfolding find_fit
find_fit_lem zero m size b bs h lt = absurd (omega arith)
find_fit_lem (suc fuel) m size b [] h lt = rw h (none_fits tt)
find_fit_lem (suc fuel) m size b (a ∷ bs) h lt =
    rw (h.0, h.2)
      (elim (Bool-cases (a == 0)) [
        | inl z ↦ absurd (h.1 (ground arith))
        | inr nz ↦ rw nz (elim (Bool-cases ((m a).free && leb size (m a).size)) [
          | inl t ↦ rw t (first [] bs a refl (ground arith, ground arith) tt h.1 h.2)
          | inr f ↦ rw f (
              FirstFit-skip a (λ u. ground arith)
                (find_fit_lem fuel m size (m a).next bs h.3 (omega arith)))
        ])
      ])
