-- ===== src/Memory/Heap/Fit.antt =====
-- Taking a block: what `use_block` leaves of it and of the list.
use h3os.Base.{
  ℕ, ◌+◌, ◌^◌, ◌≡◌, ◌≢◌, ◌≤◌, ◌<◌, refl, sym, arith, true, false, List, [], ◌∷◌, ◌++◌, leb, ap, ◌∙◌,
  update, Bool-cases, inl, inr, AllOf, Distinct,
}
use h3os.Memory.Heap.{Blocks, header, heap_min, split}
use h3os.Memory.Heap.Chain.{IsChain, IsLinked}
use h3os.Memory.Heap.Split.{
  remainder, split_whole, split_kept, split_block, split_rest, next_linked, next_prev, rest_prev,
  own_prev,
}
use h3os.Memory.Heap.Links.{
  IsLinked-frame, IsLinked-graft, IsLinked-at, Distinct-right, IsChain-frame, IsChain-graft,
  IsChain-at, Off, AllOf-any, apart_next, AllOf-apart, AllOf-Off,
}

-- The block is taken whole, or cut: then the remainder is a free block behind it in the list, and
-- the two with the new header make up the old size.
pub data Cut (m m' : Blocks) (p b size : ℕ) (before after : List ℕ) : Type 0 where
  whole :
      IsChain m' p (before ++ b ∷ after)
      → IsLinked m' 0 (before ++ b ∷ after)
      → size ≤ (m' b).size
      → (m' b).size < size + header + heap_min
      → (m' b).size ≡ (m b).size
      → Cut m m' p b size before after
  cut :
      IsChain m' p (before ++ b ∷ remainder b size ∷ after)
      → IsLinked m' 0 (before ++ b ∷ remainder b size ∷ after)
      → (m' b).size ≡ size
      → (m' (remainder b size)).free ≡ true
      → (m' b).size + header + (m' (remainder b size)).size ≡ (m b).size
      → Cut m m' p b size before after

module _ (m : Blocks) (p b size : ℕ) (before after : List ℕ) (h : IsChain m p (before ++ b ∷ after))
    (back : IsLinked m 0 (before ++ b ∷ after)) (distinct : Distinct (before ++ b ∷ after))
    (small : size ≤ 2 ^ 63 + 32) (fits : size ≤ (m b).size) (off_before : AllOf (Off b size) before)
    (off_after : AllOf (Off b size) after) where
  -- The array in which the block is marked as taken.
  abbrev pub marked : Blocks
  marked = update (split m b size) b (record (split m b size b) { free = false })

  marked_kept :
      (a : ℕ) → Off b size a → ((marked a).magic ≡ (m a).magic) × ((marked a).next ≡ (m a).next)
  marked_kept a o = ground (arith, split_kept m b size small a o.0 o.1)

  at_b : IsChain m b (b ∷ after)
  at_b = IsChain-at m p b before after h

  after_kept : IsChain marked (m b).next after
  after_kept = IsChain-frame m marked (m b).next after (Off b size) marked_kept off_after at_b.3

  module _ (le : size + header + heap_min ≤ (m b).size) where
    ahead : (b ≢ remainder b size) × (b ≢ (m b).next)
    ahead = (
      omega arith,
      apart_next m b b after at_b.1 at_b (Distinct-right before (b ∷ after) distinct).0,
    )

    marked_prev : (a : ℕ) → Off b size a × a ≢ (m b).next → (marked a).prev ≡ (m a).prev
    marked_prev a (o, ne) = ground (arith, next_linked m b size small a o.0 o.1 ne)

    rest-IsLinked :
        (cs : List ℕ)
        → IsChain m b (b ∷ cs)
        → IsLinked m b cs
        → Distinct cs
        → AllOf (Off b size) cs
        → IsLinked marked b (remainder b size ∷ cs)
    rest-IsLinked [] at l d off =
        let r = rest_prev m b size small le (rw at.3 (omega arith)) (λ e. ahead.0 (sym e)) in
        (ground (arith, r), tt)
    rest-IsLinked (c ∷ cs) at l d off =
        let e : (m b).next ≡ c = at.3.0 in
        let r = rest_prev m b size small le (rw e off.0.1) (λ q. ahead.0 (sym q)) in
        let n = next_prev m b size small le (rw e at.3.1) (rw e off.0.0) in
        let there : (marked (m b).next).prev ≡ remainder b size = ground (arith, n, ahead.1) in
        (
          ground (arith, r),
          (
            sym (ap (λ q. (marked q).prev) e) ∙ there,
            IsLinked-frame m marked c cs (λ a. Off b size a × a ≢ (m b).next) marked_prev
                (rw e (AllOf-Off b size c cs d.0 off.1)) l.1,
          ),
        )

    cut-IsLinked : IsLinked marked 0 (before ++ b ∷ remainder b size ∷ after)
    cut-IsLinked =
        let own : (marked b).prev ≡ (m b).prev =
          ground (arith, own_prev m b size small ahead.0 ahead.1) in
        IsLinked-graft m marked 0 b before after (remainder b size ∷ after)
          (λ a. Off b size a × a ≢ (m b).next) marked_prev own
          (AllOf-apart m b size p before after at_b h distinct off_before) back
          (rest-IsLinked after at_b (IsLinked-at m 0 b before after back)
            (Distinct-right before (b ∷ after) distinct).1 off_after)

    next_of_rest : (marked (remainder b size)).next ≡ (m b).next
    next_of_rest = let (z, n, g, f) = split_rest m b size small le in ground arith

    cut-IsChain : IsChain marked b (b ∷ remainder b size ∷ after)
    cut-IsChain =
        let (z, n, g) = split_block m b size small le in
        let (z', n', g', f') = split_rest m b size small le in
        (
          refl,
          at_b.1,
          ground (arith, at_b.2),
          (ground arith, omega arith, ground arith, rw next_of_rest after_kept),
        )

    marked-Cut_large : Cut m marked p b size before after
    marked-Cut_large =
        let (z, n, g) = split_block m b size small le in
        let (z', n', g', f') = split_rest m b size small le in
        cut
          (IsChain-graft m marked p b before after (remainder b size ∷ after) (Off b size)
            marked_kept off_before h cut-IsChain)
          cut-IsLinked (ground arith) (ground arith) (ground arith)

  whole-IsChain : split m b size ≡ m → IsChain marked b (b ∷ after)
  whole-IsChain e = (refl, at_b.1, ground (arith, at_b.2), rw next_same after_kept)
    where
      next_same : (marked b).next ≡ (m b).next
      next_same = ground (arith, ap (λ (f : Blocks). (f b).next) e)

  whole-IsLinked : split m b size ≡ m → IsLinked marked 0 (before ++ b ∷ after)
  whole-IsLinked e =
      IsLinked-frame m marked 0 (before ++ b ∷ after) (λ a. Unit {0})
        (λ a u.
          ground (arith, ap (λ (f : Blocks). (f a).prev) e, ap (λ (f : Blocks). (f b).prev) e))
        (AllOf-any (before ++ b ∷ after)) back

  pub marked-Cut : Cut m marked p b size before after
  marked-Cut = elim (Bool-cases (leb (size + header + heap_min) (m b).size)) [
    | inl t ↦ marked-Cut_large (ground arith)
    | inr f ↦
        let e : split m b size ≡ m = split_whole m b size small (ground arith) in
        whole
          (IsChain-graft m marked p b before after after (Off b size) marked_kept off_before h
            (whole-IsChain e))
          (whole-IsLinked e) (ground (arith, ap (λ (f : Blocks). (f b).size) e))
          (ground (arith, ap (λ (f : Blocks). (f b).size) e))
          (ground (arith, ap (λ (f : Blocks). (f b).size) e))
  ]
