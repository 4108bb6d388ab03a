-- ===== src/Boot/Tags.antt =====
-- The walk over the multiboot2 tags ends, and it finds the first tag of its type.
use h3os.Base.{ℕ, zero, suc, ◌+◌, ◌≡◌, ◌≢◌, ◌<◌, arith, Bool-cases, inl, inr, ltb, ◌==◌}
use h3os.Boot.{
  Bytes, tag_type, tag_size, tag_step, tag_end, load_u32, Found, at, null, mb2_walk, mb2_find,
}

module _ (m : Bytes) (end type : ℕ) where
  -- From `p` the tags lead to `q`, past none that ends the list or has the type.
  pub data Before : ℕ → ℕ → Type 0 where
    here : (p : ℕ) → Before p p
    past :
        (p q : ℕ)
        → p < end
        → tag_type m p ≢ tag_end
        → tag_type m p ≢ type
        → Before (p + tag_step (tag_size m p)) q
        → Before p q

  -- What `mb2_find` promises of its result.
  pub data FindsFirst (start : ℕ) : Found → Type 0 where
    first :
        (q : ℕ)
        → Before start q
        → q < end
        → tag_type m q ≡ type
        → tag_type m q ≢ tag_end
        → FindsFirst start (at q)
    ended : (q : ℕ) → Before start q → q < end → tag_type m q ≡ tag_end → FindsFirst start null
    ran_out : (q : ℕ) → Before start q → (q < end → ⊥) → FindsFirst start null

  -- Every tag that the walk from `start` passes has a size that moves it on.
  abbrev pub Moves : ℕ → Type 0
  Moves start =
      (p : ℕ)
      → Before start p
      → p < end
      → tag_type m p ≢ tag_end
      → tag_type m p ≢ type
      → 0 < tag_step (tag_size m p)

  FindsFirst-past :
      (p : ℕ) {r : Found}
      → p < end
      → tag_type m p ≢ tag_end
      → tag_type m p ≢ type
      → FindsFirst (p + tag_step (tag_size m p)) r
      → FindsFirst p r
  FindsFirst-past p l a b (first q c d e f) = first q (past p q l a b c) d e f
  FindsFirst-past p l a b (ended q c d e) = ended q (past p q l a b c) d e
  FindsFirst-past p l a b (ran_out q c d) = ran_out q (past p q l a b c) d

  Moves-past :
      (p : ℕ)
      → p < end
      → tag_type m p ≢ tag_end
      → tag_type m p ≢ type
      → Moves p
      → Moves (p + tag_step (tag_size m p))
  Moves-past p lt a b mv q c = mv q (past p q lt a b c)

  mb2_walk_first :
      (fuel ptr : ℕ)
      → Moves ptr
      → 0 < fuel
      → end < ptr + fuel
      → FindsFirst ptr (mb2_walk m end type fuel ptr)
  unfolding mb2_walk
  mb2_walk_first zero ptr mv f h = absurd (omega arith)
  mb2_walk_first (suc n) ptr mv f h = elim (Bool-cases (ltb ptr end)) [
    | inr ge ↦ rw ge (ran_out ptr (here ptr) (ground arith))
    | inl lt ↦ rw lt (elim (Bool-cases (tag_type m ptr == tag_end)) [
      | inl e ↦ rw e (ended ptr (here ptr) (ground arith) (ground arith))
      | inr ne ↦ rw ne (elim (Bool-cases (tag_type m ptr == type)) [
        | inl e ↦ rw e (first ptr (here ptr) (ground arith) (ground arith) (ground arith))
        | inr other ↦
            let lt' : ptr < end = ground arith in
            let a : tag_type m ptr ≢ tag_end = ground arith in
            let b : tag_type m ptr ≢ type = ground arith in
            let moved = mv ptr (here ptr) lt' a b in
            rw other (
              FindsFirst-past ptr lt' a b (
                mb2_walk_first n (ptr + tag_step (tag_size m ptr)) (Moves-past ptr lt' a b mv)
                  (omega arith) (omega arith)))
      ])
    ])
  ]

-- Where every tag that the walk passes moves it on, `mb2_find` at an address other than `NULL` ends within the
-- rounds of the model, and returns the first tag of the type if it stands before the end tag and
-- the end of the information, and `NULL` otherwise.
pub mb2_find_first :
    (m : Bytes) (info type : ℕ)
    → info ≢ 0
    → Moves m (info + load_u32 m info) type (info + 8)
    → FindsFirst m (info + load_u32 m info) type (info + 8) (mb2_find m info type)
unfolding mb2_find
mb2_find_first m info type ne mv = elim (Bool-cases (info == 0)) [
  | inl e ↦ absurd (ground arith)
  | inr e ↦ rw e (
      mb2_walk_first m (info + load_u32 m info) type (load_u32 m info + 1) (info + 8) mv
        (omega arith) (omega arith))
]
