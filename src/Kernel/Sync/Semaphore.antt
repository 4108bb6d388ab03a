-- ===== src/Kernel/Sync/Semaphore.antt =====
-- The count of the semaphore of kernel/sync/sync.c.
use h3os.Base.{
  ℕ, zero, suc, ◌+◌, ◌≤◌, ◌<◌, Bool, true, false, List, [], ◌∷◌, if◌then◌else◌, ◌==◌, update, ◌&&◌,
  ◌≡◌, refl, ap, arith, Bool-cases, inl, inr, AllOf,
}
use h3os.Base.Int.{ℤ, pos, pos_part, neg_part, +ℤ_parts, -ℤ_parts}
use h3os.Kernel.Sync.{
  Pc, idle, swap, pause, test, take, done, retry, inside, swap_back, pause_back, give, leave, store,
  store_back, Sys, semaphore, semaphore_init, step_pc, step, run,
}
use h3os.Kernel.Sync.Spin.{
  owns, fits, apart, apart_sym, take_holds, loaded_free, Together, KeepsOwn, KeepsOther,
  step-Together,
}

abbrev unit_of : Pc → ℕ
unit_of a = if owns a then 1 else 0

-- The threads below `n` that have a unit of the semaphore.
unfoldable pub owners : ℕ → (ℕ → Pc) → ℕ
owners zero pcs = 0
owners (suc n) pcs = owners n pcs + unit_of (pcs n)

owners_above :
    (n : ℕ) (pcs : ℕ → Pc) (i : ℕ) (a : Pc) → n ≤ i → owners n (update pcs i a) ≡ owners n pcs
unfolding owners
owners_above zero pcs i a le = refl
owners_above (suc n) pcs i a le =
    let ne : (i == n) ≡ false = ground arith in rw (ne, owners_above n pcs i a (omega arith)) refl

owners-update :
    (n : ℕ) (pcs : ℕ → Pc) (i : ℕ) (a : Pc)
    → i < n
    → owners n (update pcs i a) + unit_of (pcs i) ≡ owners n pcs + unit_of a
unfolding owners
owners-update zero pcs i a lt = absurd (omega arith)
owners-update (suc n) pcs i a lt = elim (Bool-cases (i == n)) [
  | inl e ↦
      let same : i ≡ n = ground arith in
      let below = owners_above n pcs i a (omega arith) in
      let unit : unit_of (pcs i) ≡ unit_of (pcs n) = ap (λ k. unit_of (pcs k)) same in
      rw e (omega (arith, below, unit))
  | inr ne ↦ rw ne (omega (arith, owners-update n pcs i a (ground arith)))
]

abbrev fits_count : Pc → ℕ → ℤ → Bool
fits_count a locked v = fits semaphore a locked v && (neg_part v == 0)

keeps_own : KeepsOwn semaphore fits_count apart
unfolding step_pc
keeps_own locked v idle h = ground arith
keeps_own locked v swap h = ground arith
keeps_own locked v pause h = ground arith
keeps_own locked v test h = ground arith
keeps_own locked v take h = ground arith
keeps_own locked v (store w) h = let less = -ℤ_parts v (pos 1) in ground arith
keeps_own locked v done h = ground arith
keeps_own locked v retry h = ground arith
keeps_own locked v inside h = ground arith
keeps_own locked v swap_back h = ground arith
keeps_own locked v pause_back h = ground arith
keeps_own locked v give h = ground arith
keeps_own locked v (store_back w) h = let more = +ℤ_parts v (pos 1) in ground arith
keeps_own locked v leave h = ground arith

keeps_other : KeepsOther semaphore fits_count apart
unfolding step_pc
keeps_other locked v idle b h k ap = let held = take_holds b in ground arith
keeps_other locked v swap b h k ap = let held = take_holds b in ground arith
keeps_other locked v pause b h k ap = let held = take_holds b in ground arith
keeps_other locked v test b h k ap = let held = take_holds b in ground arith
keeps_other locked v take b h k ap = let held = take_holds b in ground arith
keeps_other locked v (store w) b h k ap =
    let held = take_holds b in
    let free = loaded_free semaphore b w in let less = -ℤ_parts v (pos 1) in ground arith
keeps_other locked v done b h k ap = let held = take_holds b in ground arith
keeps_other locked v retry b h k ap = let held = take_holds b in ground arith
keeps_other locked v inside b h k ap = let held = take_holds b in ground arith
keeps_other locked v swap_back b h k ap = let held = take_holds b in ground arith
keeps_other locked v pause_back b h k ap = let held = take_holds b in ground arith
keeps_other locked v give b h k ap = let held = take_holds b in ground arith
keeps_other locked v (store_back w) b h k ap =
    let held = take_holds b in
    let free = loaded_free semaphore b w in let more = +ℤ_parts v (pos 1) in ground arith
keeps_other locked v leave b h k ap = let held = take_holds b in ground arith

-- A step of a thread moves a unit between the count and the thread.
step_unit :
    (a : Pc) (locked : ℕ) (v : ℤ)
    → fits_count a locked v ≡ true
    → (let (a', locked', v') = step_pc semaphore a locked v in pos_part v' + unit_of a')
      ≡ pos_part v + unit_of a
unfolding step_pc
step_unit idle locked v h = ground arith
step_unit swap locked v h = ground arith
step_unit pause locked v h = ground arith
step_unit test locked v h = ground arith
step_unit take locked v h = ground arith
step_unit (store w) locked v h = let less = -ℤ_parts v (pos 1) in ground arith
step_unit done locked v h = ground arith
step_unit retry locked v h = ground arith
step_unit inside locked v h = ground arith
step_unit swap_back locked v h = ground arith
step_unit pause_back locked v h = ground arith
step_unit give locked v h = ground arith
step_unit (store_back w) locked v h = let more = +ℤ_parts v (pos 1) in ground arith
step_unit leave locked v h = ground arith

abbrev Sound : ℕ → ℕ → Sys → Type 0
Sound n units s =
    Together semaphore fits_count apart s × (pos_part s.value + owners n s.pcs ≡ units)

step_units :
    (n units : ℕ) (s : Sys) (i : ℕ)
    → i < n
    → Sound n units s
    → pos_part (step semaphore s i).value + owners n (step semaphore s i).pcs ≡ units
unfolding step
step_units n units s i lt (t, sum) =
    let moved = step_unit (s.pcs i) s.locked s.value (t.0 i) in
    let counted = owners-update n s.pcs i (step_pc semaphore (s.pcs i) s.locked s.value).0 lt in
    omega (arith, moved, counted)

run-Sound :
    (n units : ℕ) (s : Sys) (schedule : List ℕ)
    → AllOf (λ i. i < n) schedule
    → Sound n units s
    → Sound n units (run semaphore s schedule)
unfolding run
run-Sound n units s [] below sound = sound
run-Sound n units s (i ∷ schedule) (lt, below) sound =
    run-Sound n units (step semaphore s i) schedule below (
      step-Together semaphore fits_count apart apart_sym keeps_own keeps_other s i sound.0,
      step_units n units s i lt sound,
    )

owners_none : (n : ℕ) → owners n (λ i. idle) ≡ 0
unfolding owners
owners_none zero = refl
owners_none (suc n) = omega (arith, owners_none n)

-- `n` threads use a semaphore that starts with `units`, each posting only after it waited. Whatever the
-- order of their steps, loads and stores of the count apart, the count is never negative, and the count
-- and the threads that took a unit and have not given it back add up to `units`: no update is lost, and
-- at most `units` threads are inside.
pub semaphore_units :
    (n units : ℕ) (schedule : List ℕ)
    → AllOf (λ i. i < n) schedule
    → (let s = run semaphore (semaphore_init (pos units)) schedule in
        (neg_part s.value ≡ 0) × (pos_part s.value + owners n s.pcs ≡ units))
semaphore_units n units schedule below =
    let sound =
      run-Sound n units (semaphore_init (pos units)) schedule below
        (((λ k. refl), λ k l ne. refl), omega (arith, owners_none n)) in
    ((let fit = sound.0.0 n in ground arith), sound.1)
