-- ===== src/Kernel/Sync.antt =====
-- kernel/sync/sync.c: spinlocks, mutexes and semaphores, with threads that run at once. A thread's
-- program counter stands before its next access to the shared words, and each step does at most one:
-- `count--` and `count++` are a load and, one step later, a store of what was loaded. Threads lock before
-- they unlock, and post only after they waited.
pub mod Spin
pub mod Mutex
pub mod Semaphore
mod Tests
use h3os.Base.{
  ℕ, zero, suc, ◌+◌, Bool, true, false, List, [], ◌∷◌, if◌then◌else◌, ◌==◌, ltb, update,
}
use h3os.Base.Int.{ℤ, pos, negsuc, ◌+ℤ◌, ◌-ℤ◌, pos_part}

-- `mutex_lock` and `semaphore_wait`: idle, then in `spin_lock` (swap, pause), with the lock (test, take, and
-- store with the value to be written), before `spin_unlock` (done after the value was taken, retry
-- otherwise), and returned (inside). `mutex_unlock` and `semaphore_post`: in `spin_lock` (swap_back,
-- pause_back), with the lock (give, store_back), and before `spin_unlock` (leave).
pub data Pc : Type 0 where
  idle swap pause test take done retry inside swap_back pause_back give leave : Pc
  store store_back : ℤ → Pc

-- `mutex_t` or `semaphore_t`, and the threads.
pub record Sys : Type 0 where
  pub locked : ℕ
  pub value : ℤ
  pub pcs : ℕ → Pc

-- What is done with the value under the lock: the test, and what the two writes make of the value that
-- was loaded (the mutex writes 1 and 0 whatever it is).
pub record Guard : Type 0 where
  pub may_take : ℤ → Bool
  pub taken : ℤ → ℤ
  pub given : ℤ → ℤ

-- `state == 0`, `state = 1` and `state = 0`
abbrev pub is_unlocked : ℤ → Bool
is_unlocked (pos n) = n == 0
is_unlocked (negsuc n) = false

abbrev pub mutex : Guard
mutex = record { may_take = is_unlocked; taken = λ v. pos 1; given = λ v. pos 0 }

-- `count > 0`, `count--` and `count++`
abbrev pub is_positive : ℤ → Bool
is_positive v = ltb 0 (pos_part v)

abbrev pub semaphore : Guard
semaphore = record { may_take = is_positive; taken = λ v. v -ℤ pos 1; given = λ v. v +ℤ pos 1 }

-- `__sync_lock_test_and_set(&lock->locked, 1)`: the lock was free, and the word is 1.
abbrev pub spin_trylock : ℕ → Bool × ℕ
spin_trylock locked = (locked == 0, 1)

-- What one step of a thread makes of its counter, the lock and the value.
unfoldable pub step_pc : Guard → Pc → ℕ → ℤ → Pc × ℕ × ℤ
step_pc g idle locked v = (swap, locked, v)
step_pc g swap locked v =
    let (free, locked') = spin_trylock locked in (if free then test else pause, locked', v)
step_pc g pause locked v = (if locked == 0 then swap else pause, locked, v)
step_pc g test locked v = (if g.may_take v then take else retry, locked, v)
step_pc g take locked v = (store (g.taken v), locked, v)
step_pc g (store w) locked v = (done, locked, w)
step_pc g done locked v = (inside, 0, v)
step_pc g retry locked v = (swap, 0, v)
step_pc g inside locked v = (swap_back, locked, v)
step_pc g swap_back locked v =
    let (free, locked') = spin_trylock locked in (if free then give else pause_back, locked', v)
step_pc g pause_back locked v = (if locked == 0 then swap_back else pause_back, locked, v)
step_pc g give locked v = (store_back (g.given v), locked, v)
step_pc g (store_back w) locked v = (leave, locked, w)
step_pc g leave locked v = (idle, 0, v)

unfoldable pub step : Guard → Sys → ℕ → Sys
step g s i =
    let (pc, locked, value) = step_pc g (s.pcs i) s.locked s.value in
    record { locked = locked; value = value; pcs = update s.pcs i pc }

-- A run: which thread makes the next step.
unfoldable pub run : Guard → Sys → List ℕ → Sys
run g s [] = s
run g s (i ∷ schedule) = run g (step g s i) schedule

-- `mutex_init` and `semaphore_init`, before any thread calls.
abbrev pub mutex_init : Sys
mutex_init = record { locked = 0; value = pos 0; pcs = λ i. idle }

abbrev pub semaphore_init : ℤ → Sys
semaphore_init value = record { locked = 0; value = value; pcs = λ i. idle }
