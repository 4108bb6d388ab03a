-- ===== src/Memory/Heap.antt =====
-- memory/heap.c: the kernel heap, a doubly linked list of block headers, first fit. Addresses are
-- numbers, 0 for `NULL`; `mem` gives the header that stands at an address. The bytes of the payloads
-- are not modelled: a client is taken to write only inside the block it was given, and so `memset`
-- and `memcpy` on payloads leave every header as it is.
pub mod Chain
pub mod Split
pub mod Links
pub mod Fit
pub mod Alloc
pub mod Release
pub mod Limits
mod Tests
use h3os.Base.{
  ℕ, zero, suc, ◌+◌, ◌-◌, ◌*◌, ◌/◌, ◌%◌, ◌^◌, Bool, true, false, not, Option, none, some, ◌||◌,
  ◌&&◌, ◌==◌, leb, ltb, if◌then◌else◌, u64, sub_u64, update, page_size, align_up,
}
use h3os.Memory.Pmm
use h3os.Memory.Pmm.{Pmm}

-- `HEAP_MAGIC`
abbrev pub magic_number : ℕ
magic_number = 0x4833414C4C4F43

abbrev pub heap_align : ℕ
heap_align = 16

abbrev pub heap_min : ℕ
heap_min = 32

abbrev pub early_heap : ℕ
early_heap = 524288

-- `sizeof(block_t)`: four words and a `bool` padded to one.
abbrev pub header : ℕ
header = 40

-- `block_t`
pub record Block : Type 0 where
  pub magic : ℕ
  pub size : ℕ
  pub free : Bool
  pub next : ℕ
  pub prev : ℕ

abbrev pub Blocks : Type 0
Blocks = ℕ → Block

-- The static variables, and the page allocator that the heap grows from.
pub record Heap : Type 0 where
  pub mem : Blocks
  pub heap_head : ℕ
  pub heap_used : ℕ
  pub heap_total : ℕ
  pub heap_allocs : ℕ
  pub pmm : Pmm

-- `if (p) p->prev = v;`
pub set_prev : Blocks → ℕ → ℕ → Blocks
set_prev m p v = if p == 0 then m else update m p (record (m p) { prev = v })

pub heap_add_region : Heap → ℕ → ℕ → Heap
heap_add_region s addr size = if ltb size (header + heap_min) then s else record s {
  mem =
      set_prev
        (update s.mem addr (record {
          magic = magic_number;
          size = size - header;
          free = true;
          next = s.heap_head;
          prev = 0;
        }))
        s.heap_head addr;
  heap_head = addr;
  heap_total = u64 (s.heap_total + size);
}

-- `arena` is the address of `early_arena`.
pub heap_init : ℕ → Heap → Heap
heap_init arena s =
    heap_add_region (record s { heap_head = 0; heap_used = 0; heap_total = 0; heap_allocs = 0 })
      arena early_heap

-- The first half of `coalesce`: the block takes in the next one in the list.
pub join_next : Blocks → ℕ → Blocks
join_next m b =
    let n = (m b).next in
    if not (n == 0) && (m n).free
    then set_prev
        (update m b
          (record (m b) { size = u64 ((m b).size + header + (m n).size); next = (m n).next }))
        (m n).next b
    else m

-- The second half: the previous one takes in the block.
pub join_prev : Blocks → ℕ → Blocks
join_prev m b =
    let p = (m b).prev in
    if not (p == 0) && (m p).free
    then set_prev
        (update m p
          (record (m p) { size = u64 ((m p).size + header + (m b).size); next = (m b).next }))
        (m b).next p
    else m

pub coalesce : Blocks → ℕ → Blocks
coalesce m b = join_prev (join_next m b) b

-- The pages that `expand_heap` asks for.
abbrev pub pages_for : ℕ → ℕ
pages_for need = align_up (u64 (need + header + page_size)) page_size / page_size

pub expand_heap : Heap → ℕ → Bool × Heap
expand_heap s need =
    let (phys, pmm) = Pmm.pmm_alloc_pages s.pmm (pages_for need) in
    let s' : Heap = record s { pmm = pmm } in
    if phys == 0
    then (false, s')
    else (true, heap_add_region s' phys (u64 (pages_for need * page_size)))

-- The size that `kmalloc` looks for.
pub rounded : ℕ → ℕ
rounded size = let up = align_up size heap_align in if ltb up heap_min then heap_min else up

-- How the walk over the list ends.
pub data Search : Type 0 where
  fits : ℕ → Search
  no_fit : Search
  corrupt : Search
  endless : Search

-- The loop over the blocks, within so many rounds.
pub find_fit : ℕ → Blocks → ℕ → ℕ → Search
find_fit zero m size b = endless
find_fit (suc fuel) m size b =
    let rest = find_fit fuel m size (m b).next in
    if b == 0
    then no_fit
    else if not ((m b).magic == magic_number)
    then corrupt
    else if (m b).free && leb size (m b).size
    then fits b
    else rest

-- Splitting off what is left over, if that is useful.
pub split : Blocks → ℕ → ℕ → Blocks
split m b size =
    if leb (u64 (size + header + heap_min)) (m b).size
    then (let n = b + header + size in
        let m' = update m n (record {
          magic = magic_number;
          size = (m b).size - size - header;
          free = true;
          next = (m b).next;
          prev = b;
        }) in
        let m'' = set_prev m' (m b).next n in
        update m'' b (record (m'' b) { next = n; size = size }))
    else m

-- What is done to the block that fits.
pub use_block : Heap → ℕ → ℕ → Heap
use_block s b size =
    let m = split s.mem b size in
    record s {
      mem = update m b (record (m b) { free = false });
      heap_used = u64 (s.heap_used + (m b).size);
      heap_allocs = u64 (s.heap_allocs + 1);
    }

-- How a call ends: with a pointer (0 is `NULL`), in `kpanic`, or not within the rounds given.
pub data Outcome : Type 0 where
  returned : ℕ → Heap → Outcome
  panic : Outcome
  out_of_fuel : Outcome

-- `for (attempt ...)` with the attempts left; `fuel` bounds each walk.
pub attempts : ℕ → ℕ → Heap → ℕ → Outcome
attempts zero fuel s size = returned 0 s
attempts (suc left) fuel s size = elim (find_fit fuel s.mem size s.heap_head) [
  | endless ↦ out_of_fuel
  | corrupt ↦ panic
  | fits b ↦ returned (b + header) (use_block s b size)
  | no_fit ↦
      let (grown, s') = expand_heap s size in
      let again = attempts left fuel s' size in if grown then again else returned 0 s'
]

pub kmalloc : ℕ → Heap → ℕ → Outcome
kmalloc fuel s size = if size == 0 then returned 0 s else attempts 2 fuel s (rounded size)

-- The payload's `memset` leaves the headers.
pub kcalloc : ℕ → Heap → ℕ → ℕ → Outcome
kcalloc fuel s n size = kmalloc fuel s (u64 (n * size))

-- A bad pointer is only logged.
pub kfree : Heap → ℕ → Heap
kfree s ptr =
    if ptr == 0
    then s
    else (let b = ptr - header in
        if not ((s.mem b).magic == magic_number) || (s.mem b).free then s else record s {
          mem = coalesce (update s.mem b (record (s.mem b) { free = true })) b;
          heap_used = sub_u64 s.heap_used (s.mem b).size;
        })

-- After a `kmalloc` for `krealloc`: the old block is freed unless the new one is `NULL`.
pub move_block : ℕ → Outcome → Outcome
move_block ptr (returned n s) = if n == 0 then returned 0 s else returned n (kfree s ptr)
move_block ptr panic = panic
move_block ptr out_of_fuel = out_of_fuel

pub krealloc : ℕ → Heap → ℕ → ℕ → Outcome
krealloc fuel s ptr size =
    if ptr == 0
    then kmalloc fuel s size
    else if size == 0
    then returned 0 (kfree s ptr)
    else if leb size (s.mem (ptr - header)).size
    then returned ptr s
    else move_block ptr (kmalloc fuel s size)

-- `heap_stats_t`
pub record HeapStats : Type 0 where
  pub total_bytes : ℕ
  pub used_bytes : ℕ
  pub free_bytes : ℕ
  pub allocations : ℕ

pub heap_get_stats : Heap → HeapStats
heap_get_stats s = record {
  total_bytes = s.heap_total;
  used_bytes = s.heap_used;
  free_bytes = if ltb s.heap_used s.heap_total then s.heap_total - s.heap_used else 0;
  allocations = s.heap_allocs;
}
