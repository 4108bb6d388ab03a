-- ===== src/Kernel/Sync/Mutex.antt =====
-- Mutual exclusion by the mutex of kernel/sync/sync.c.
use h3os.Base.{
  ℕ, Bool, true, false, not, List, ◌==◌, ◌&&◌, ◌≡◌, ◌≢◌, refl, sym, ap, ap₂, ◌∙◌, arith,
}
use h3os.Base.Int.{ℤ, pos, negsuc, pos_part, neg_part}
use h3os.Kernel.Sync.{
  Pc, idle, swap, pause, test, take, done, retry, inside, swap_back, pause_back, give, leave, store,
  store_back, mutex, mutex_init, is_unlocked, step_pc, run,
}
use h3os.Kernel.Sync.Spin.{
  owns, implies, fits, apart, take_holds, loaded_free, Together, KeepsOwn, KeepsOther, run-Together,
}

abbrev is_locked : ℤ → Bool
is_locked (pos n) = n == 1
is_locked (negsuc n) = false

abbrev fits_mutex : Pc → ℕ → ℤ → Bool
fits_mutex a locked v = fits mutex a locked v && implies (owns a) (is_locked v)

abbrev apart_mutex : Pc → Pc → Bool
apart_mutex a b = apart a b && not (owns a && owns b)

not_both : (v : ℤ) → is_unlocked v ≡ true → is_locked v ≡ true → true ≡ false
not_both (pos n) h k = ground arith
not_both (negsuc n) h k = sym h

-- What `mutex_lock` writes.
stored_locked : (w : ℤ) → pos_part w ≡ 1 → neg_part w ≡ 0 → is_locked w ≡ true
stored_locked (pos n) p q = ground arith
stored_locked (negsuc n) p q = absurd (omega arith)

apart_mutex_sym : (a b : Pc) → apart_mutex a b ≡ true → apart_mutex b a ≡ true
apart_mutex_sym a b h = ground arith

keeps_own : KeepsOwn mutex fits_mutex apart_mutex
unfolding step_pc
keeps_own locked v idle h = ground arith
keeps_own locked v swap h = ground arith
keeps_own locked v pause h = ground arith
keeps_own locked v test h = ground arith
keeps_own locked v take h = ground arith
keeps_own locked v (store w) h = ground (arith, stored_locked w)
keeps_own locked v done h = ground arith
keeps_own locked v retry h = ground arith
keeps_own locked v inside h = ground arith
keeps_own locked v swap_back h = ground arith
keeps_own locked v pause_back h = ground arith
keeps_own locked v give h = ground arith
keeps_own locked v (store_back w) h = ground arith
keeps_own locked v leave h = ground arith

keeps_other : KeepsOther mutex fits_mutex apart_mutex
unfolding step_pc
keeps_other locked v idle b h k ap = let held = take_holds b in ground (arith, not_both v)
keeps_other locked v swap b h k ap = let held = take_holds b in ground (arith, not_both v)
keeps_other locked v pause b h k ap = let held = take_holds b in ground (arith, not_both v)
keeps_other locked v test b h k ap = let held = take_holds b in ground (arith, not_both v)
keeps_other locked v take b h k ap = let held = take_holds b in ground (arith, not_both v)
keeps_other locked v (store w) b h k ap =
    let held = take_holds b in
    let free = loaded_free mutex b w in ground (arith, not_both v, stored_locked w)
keeps_other locked v done b h k ap = let held = take_holds b in ground (arith, not_both v)
keeps_other locked v retry b h k ap = let held = take_holds b in ground (arith, not_both v)
keeps_other locked v inside b h k ap = let held = take_holds b in ground (arith, not_both v)
keeps_other locked v swap_back b h k ap = let held = take_holds b in ground (arith, not_both v)
keeps_other locked v pause_back b h k ap = let held = take_holds b in ground (arith, not_both v)
keeps_other locked v give b h k ap = let held = take_holds b in ground (arith, not_both v)
keeps_other locked v (store_back w) b h k ap =
    let held = take_holds b in
    let free = loaded_free mutex b w in ground (arith, not_both v, stored_locked w)
keeps_other locked v leave b h k ap = let held = take_holds b in ground (arith, not_both v)

-- Whatever the order in which threads make their steps: when a thread has returned from `mutex_lock` and
-- has not called `mutex_unlock` since, no other thread has.
pub mutual_exclusion :
    (schedule : List ℕ) (i j : ℕ)
    → i ≢ j
    → (run mutex mutex_init schedule).pcs i ≡ inside
    → (run mutex mutex_init schedule).pcs j ≢ inside
mutual_exclusion schedule i j differ hi hj =
    let t : Together mutex fits_mutex apart_mutex (run mutex mutex_init schedule) =
      run-Together mutex fits_mutex apart_mutex apart_mutex_sym keeps_own keeps_other mutex_init
        schedule ((λ k. refl), λ k l ne. refl) in
    let ne : (i == j) ≡ false = ground arith in
    let both : apart_mutex inside inside ≡ true = sym (ap₂ apart_mutex hi hj) ∙ t.1 i j ne in
    absurd (ground arith)
