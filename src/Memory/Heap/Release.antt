-- ===== src/Memory/Heap/Release.antt =====
-- `kfree`: what becomes of the block and its neighbour in the list.
use h3os.Base.{
  ℕ, ◌+◌, ◌-◌, ◌^◌, ◌≡◌, ◌≢◌, ◌<◌, refl, sym, arith, true, false, ◌↔◌, ◌==◌, ◌∙◌, update,
  Bool-cases, inl, inr, u64, sub_u64,
}
use h3os.Memory.Heap.{
  Blocks, Heap, magic_number, header, set_prev, join_next, join_prev, coalesce, kfree,
}

set_prev_rest :
    (m : Blocks) (p v a : ℕ)
    → ((set_prev m p v a).free ≡ (m a).free)
      × ((set_prev m p v a).size ≡ (m a).size)
      × ((set_prev m p v a).next ≡ (m a).next)
unfolding set_prev
set_prev_rest m p v a = ground arith

-- The byte behind a block.
abbrev pub end_of : Blocks → ℕ → ℕ
end_of m b = b + header + (m b).size

module _ (m : Blocks) (b : ℕ) where
  -- The block after it has taken in its successor.
  abbrev grown : Blocks
  grown = update m b (record (m b) {
    size = u64 ((m b).size + header + (m (m b).next).size);
    next = (m (m b).next).next;
  })

  join_next_block :
      (m b).next ≢ 0
      → (m (m b).next).free ≡ true
      → ((join_next m b b).free ≡ (m b).free)
        × ((join_next m b b).size ≡ u64 ((m b).size + header + (m (m b).next).size))
        × ((join_next m b b).next ≡ (m (m b).next).next)
  unfolding join_next
  join_next_block ne f = ground (arith, set_prev_rest grown (m (m b).next).next b b)

join_next_prev :
    (m : Blocks) (b : ℕ)
    → (m b).next ≢ 0
    → (m (m b).next).next ≢ b
    → (join_next m b b).prev ≡ (m b).prev
unfolding join_next set_prev
join_next_prev m b ne acyclic = ground arith

join_prev_first : (m : Blocks) (b : ℕ) → (m b).prev ≡ 0 → join_prev m b ≡ m
unfolding join_prev
join_prev_first m b e = ground arith

coalesce_first :
    (m : Blocks) (b : ℕ)
    → (m b).prev ≡ 0
    → (m b).next ≢ 0
    → (m (m b).next).next ≢ b
    → coalesce m b ≡ join_next m b
unfolding coalesce
coalesce_first m b first ne acyclic =
    join_prev_first (join_next m b) b (join_next_prev m b ne acyclic ∙ first)

-- What `kfree` makes of the first block of the list when the next one in the list is free: the two
-- are one block.
pub record Joined (s : Heap) (b : ℕ) (t : Heap) : Type 0 where
  pub free : (t.mem b).free ≡ true
  pub next : (t.mem b).next ≡ (s.mem (s.mem b).next).next
  pub used : t.heap_used ≡ sub_u64 s.heap_used (s.mem b).size
  pub exact : (end_of t.mem b ≡ end_of s.mem (s.mem b).next) ↔ ((s.mem b).next ≡ end_of s.mem b)

abbrev freed : Heap → ℕ → Blocks
freed s b = update s.mem b (record (s.mem b) { free = true })

kfree_valid :
    (s : Heap) (b : ℕ)
    → (s.mem b).magic ≡ magic_number
    → (s.mem b).free ≡ false
    → kfree s (b + header)
      ≡ record s { mem = coalesce (freed s b) b; heap_used = sub_u64 s.heap_used (s.mem b).size }
unfolding kfree
kfree_valid s b mg nf =
    let e : b + header - header ≡ b = omega arith in
    elim (Bool-cases (b + header == 0)) [
      | inl z ↦ absurd (ground arith)
      | inr nz ↦ rw (nz, e) (simp (mg, nf))
    ]

freed_same :
    (s : Heap) (b a : ℕ)
    → ((freed s b a).next ≡ (s.mem a).next)
      × ((freed s b a).prev ≡ (s.mem a).prev)
      × ((freed s b a).size ≡ (s.mem a).size)
      × ((freed s b b).free ≡ true)
freed_same s b a = ground arith

freed_free : (s : Heap) (b a : ℕ) → (s.mem a).free ≡ true → (freed s b a).free ≡ true
freed_free s b a f = ground arith

module _ (s : Heap) (b : ℕ) (ne : (s.mem b).next ≢ 0) (f : (s.mem (s.mem b).next).free ≡ true) where
  joined_next :
      ((join_next (freed s b) b b).free ≡ true)
      × ((join_next (freed s b) b b).size
          ≡ u64 ((s.mem b).size + header + (s.mem (s.mem b).next).size))
      × ((join_next (freed s b) b b).next ≡ (s.mem (s.mem b).next).next)
  joined_next =
      let (n, p, z, fr) = freed_same s b b in
      let (n', p', z', fr') = freed_same s b (s.mem b).next in
      let (a, c, d) =
        join_next_block (freed s b) b (ne_next n) (rw n (freed_free s b (s.mem b).next f)) in
      (a ∙ fr, c ∙ rw (n, z, z') refl, d ∙ rw n n')
    where
      ne_next : (freed s b b).next ≡ (s.mem b).next → (freed s b b).next ≢ 0
      ne_next e z = ne (sym e ∙ z)

  coalesce-freed :
      (s.mem b).prev ≡ 0
      → (s.mem (s.mem b).next).next ≢ b
      → coalesce (freed s b) b ≡ join_next (freed s b) b
  coalesce-freed first acyclic =
      let (n, p, z, fr) = freed_same s b b in
      let (n', p', z', fr') = freed_same s b (s.mem b).next in
      coalesce_first (freed s b) b (p ∙ first) (λ e. ne (sym n ∙ e))
        (λ e. acyclic (sym n' ∙ (rw n at e)))

-- When the first block of the list is given back and the next one is free, `kfree` makes one free
-- block of them and takes its bytes off the count. The new block ends where the second one ended
-- exactly if the second one began right behind the first: `kfree` does not test that, so behind a
-- block that is the last of its region it takes in the first block of another region and claims
-- bytes that belong to neither.
pub kfree-Joined :
    (s : Heap) (b : ℕ)
    → (s.mem b).magic ≡ magic_number
    → (s.mem b).free ≡ false
    → (s.mem b).prev ≡ 0
    → (s.mem b).next ≢ 0
    → (s.mem b).next ≢ b
    → (s.mem (s.mem b).next).free ≡ true
    → (s.mem (s.mem b).next).next ≢ b
    → (s.mem b).size + header + (s.mem (s.mem b).next).size < 2 ^ 64
    → Joined s b (kfree s (b + header))
kfree-Joined s b mg nf first ne nb f acyclic small =
    rw (kfree_valid s b mg nf, coalesce-freed s b ne f first acyclic)
      (let (a, c, d) = joined_next s b ne f in
        record {
          free = a;
          next = d;
          used = refl;
          exact = (λ e. omega (arith, c), λ e. omega (arith, c));
        })
