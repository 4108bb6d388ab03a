-- ===== src/Kernel/Sync/Tests.antt =====
-- Two threads at one mutex, and at a semaphore of one unit.
use h3os.Base.{ℕ, ◌+◌, ◌≡◌, ◌≢◌, refl, arith, List, [], ◌∷◌}
use h3os.Base.Int.{pos, pos_part, neg_part}
use h3os.Kernel.Sync.{inside, mutex, mutex_init, semaphore, semaphore_init, step_pc, step, run}
use h3os.Kernel.Sync.Mutex.{mutual_exclusion}
use h3os.Kernel.Sync.Semaphore.{owners, semaphore_units}

-- Thread 1 tries to lock while thread 0 has the spinlock, and thread 0 gets the mutex.
abbrev turns : List ℕ
turns = 0 ∷ 1 ∷ 0 ∷ 1 ∷ 0 ∷ 0 ∷ 0 ∷ 0 ∷ 1 ∷ []

gets_it : (run mutex mutex_init turns).pcs 0 ≡ inside
unfolding run step step_pc
gets_it = refl

mutual_exclusion_example : (run mutex mutex_init turns).pcs 1 ≢ inside
mutual_exclusion_example = mutual_exclusion turns 0 1 (omega arith) gets_it

semaphore_units_example :
    (neg_part (run semaphore (semaphore_init (pos 1)) turns).value ≡ 0)
    × (pos_part (run semaphore (semaphore_init (pos 1)) turns).value
          + owners 2 (run semaphore (semaphore_init (pos 1)) turns).pcs
        ≡ 1)
semaphore_units_example = semaphore_units 2 1 turns (omega arith)
