-- ===== src/Memory/Heap/Split.antt =====
-- `split` in memory/heap.c: the headers that it writes.
use h3os.Base.{ℕ, ◌+◌, ◌-◌, ◌^◌, ◌≡◌, ◌≢◌, ◌≤◌, ◌<◌, arith, true, update}
use h3os.Memory.Heap.{Block, Blocks, magic_number, header, heap_min, set_prev, split}

-- Only the `prev` fields differ.
abbrev pub Same : Block → Block → Type 0
Same x y = (x.magic ≡ y.magic) × (x.size ≡ y.size) × (x.free ≡ y.free) × (x.next ≡ y.next)

pub set_prev-Same : (m : Blocks) (p v a : ℕ) → Same (set_prev m p v a) (m a)
unfolding set_prev
set_prev-Same m p v a = ground arith

-- The header of what is left over.
abbrev pub remainder : ℕ → ℕ → ℕ
remainder b size = b + header + size

module _ (m : Blocks) (b size : ℕ) (small : size ≤ 2 ^ 63 + 32) where
  -- The array after the header of the remainder is written.
  abbrev carved : Blocks
  carved = update m (remainder b size) (record {
    magic = magic_number;
    size = (m b).size - size - header;
    free = true;
    next = (m b).next;
    prev = b;
  })

  linked : (a : ℕ) → Same (set_prev carved (m b).next (remainder b size) a) (carved a)
  linked a = set_prev-Same carved (m b).next (remainder b size) a

  pub split_whole : (m b).size < size + header + heap_min → split m b size ≡ m
  unfolding split
  split_whole lt = ground arith

  pub split_kept : (a : ℕ) → a ≢ b → a ≢ remainder b size → Same (split m b size a) (m a)
  unfolding split
  split_kept a nb nn = ground (arith, linked a)

  pub split_block :
      size + header + heap_min ≤ (m b).size
      → ((split m b size b).size ≡ size)
        × ((split m b size b).next ≡ remainder b size)
        × ((split m b size b).magic ≡ (m b).magic)
  unfolding split
  split_block le = ground (arith, linked b)

  pub split_rest :
      size + header + heap_min ≤ (m b).size
      → ((split m b size (remainder b size)).size ≡ (m b).size - size - header)
        × ((split m b size (remainder b size)).next ≡ (m b).next)
        × ((split m b size (remainder b size)).magic ≡ magic_number)
        × ((split m b size (remainder b size)).free ≡ true)
  unfolding split
  split_rest le = ground (arith, linked (remainder b size))

  pub next_linked :
      (a : ℕ) → a ≢ b → a ≢ remainder b size → a ≢ (m b).next → (split m b size a).prev ≡ (m a).prev
  unfolding split set_prev
  next_linked a nb nn ne = ground arith

  pub next_prev :
      size + header + heap_min ≤ (m b).size
      → (m b).next ≢ 0
      → (m b).next ≢ b
      → (split m b size (m b).next).prev ≡ remainder b size
  unfolding split set_prev
  next_prev le nz nb = ground arith

  pub rest_prev :
      size + header + heap_min ≤ (m b).size
      → (m b).next ≢ remainder b size
      → remainder b size ≢ b
      → (split m b size (remainder b size)).prev ≡ b
  unfolding split set_prev
  rest_prev le ne nb = ground arith

  pub own_prev : b ≢ remainder b size → b ≢ (m b).next → (split m b size b).prev ≡ (m b).prev
  unfolding split set_prev
  own_prev nn ne = ground arith
