-- ===== src/Kernel/Sched/Tests.antt =====
-- Runs of the scheduler, and its theorems at concrete states.
use h3os.Base.{◌≡◌, refl, false, none, some, [], ◌∷◌, ◌==◌, if◌then◌else◌}
use h3os.Kernel.Sched.{
  Sched, zero_task, sched_create, sched_yield, sched_init, find_slot, enter, spin_lock, spin_unlock,
  start_idle,
}
use h3os.Kernel.Sched.Create.{Creates, sched_create_lem}
use h3os.Kernel.Sched.Hang.{boot_and_yield, second_yield_hangs}

-- After `sched_init` the idle task is the current one and the head of the queue.
init_queues_current :
    (s : Sched) × (sched_init ≡ some s) × (s.current ≡ some 0) × (s.ready_q ≡ some 0)
unfolding sched_init sched_create find_slot enter spin_lock spin_unlock start_idle
init_queues_current = (_, refl, refl, refl)

second_yield_hangs_example :
    (s : Sched) × (boot_and_yield none 0 0 1000 1 ≡ some s)
    × (s.locked ≡ false)
    × (s.current ≡ some 1)
    × (s.ready_q ≡ some 0)
    × (sched_yield 1000 s ≡ none)
    × (boot_and_yield none 0 0 1000 2 ≡ none)
second_yield_hangs_example = second_yield_hangs none 0 0 999

-- The first slot was never used; the second is the idle task's.
abbrev one_task : Sched
one_task = record {
  tasks = λ i. if i == 1 then record zero_task { id = 1 } else zero_task;
  current = some 1;
  ready_q = some 1;
  next_id = 2;
  task_count = 1;
  locked = false;
}

sched_create_lem_example :
    Creates one_task (some (b'a' ∷ [])) 0x4000 7 (sched_create (some (b'a' ∷ [])) 0x4000 7 one_task)
sched_create_lem_example = sched_create_lem (some (b'a' ∷ [])) 0x4000 7 one_task refl
