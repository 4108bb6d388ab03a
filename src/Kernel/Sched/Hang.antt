-- ===== src/Kernel/Sched/Hang.antt =====
-- What `sched_init` leaves: the idle task runs and also waits in the ready queue, and the second
-- yield after the first new task walks round a queue without an end.
use h3os.Base.{ℕ, zero, suc, ◌≡◌, ◌≢◌, refl, arith, Option, none, some, List, false}
use h3os.Kernel.Sched.{
  Tasks, ready, Sched, set_next, append_after, append, requeue, switch_to, rotate, spin_lock,
  spin_unlock, sched_yield, ◌>>=◌, sched_init, sched_create, find_slot, enter, start_idle,
}
use h3os.Kernel.Sched.Yield.{requeue_alive, ready_at, held, yields}

-- A task that is its own successor: the walk makes all its rounds.
walk_forever :
    (fuel : ℕ) (ts : Tasks) (i c : ℕ) → (ts i).next ≡ some i → append_after fuel ts i c ≡ none
unfolding append_after
walk_forever zero ts i c e = refl
walk_forever (suc fuel) ts i c e = rw (append_after, e) (walk_forever fuel ts i c e)

append_forever :
    (fuel : ℕ) (ts : Tasks) (n c : ℕ) → (ts n).next ≡ some n → append fuel ts (some n) c ≡ none
unfolding append
append_forever fuel ts n c e = rw (walk_forever fuel ts n c e)

rotate_forever :
    (fuel : ℕ) (s : Sched) (c n : ℕ)
    → s.current ≡ some c
    → (s.tasks c).state ≡ ready
    → c ≢ n
    → (s.tasks n).next ≡ some n
    → rotate fuel s (some n) ≡ none
unfolding rotate
rotate_forever fuel s c n cur e ne self = rw cur (
    rw (
      requeue_alive fuel s.tasks (s.tasks n).next c e,
      self,
      append_forever fuel (set_next s.tasks c none) n c (ground arith),
    ))

-- `sched_yield` does not return, whatever the fuel, when the first task of the queue is its own
-- successor and another task runs.
sched_yield_forever :
    (fuel : ℕ) (s : Sched) (c n : ℕ)
    → s.locked ≡ false
    → s.current ≡ some c
    → s.ready_q ≡ some n
    → c ≢ n
    → (s.tasks n).next ≡ some n
    → sched_yield fuel s ≡ none
unfolding sched_yield spin_lock
sched_yield_forever fuel s c n open_ cur rq ne self =
    rw (open_, cur, rq, rotate_forever fuel (held s c n) c n refl (ready_at s c) ne (ground arith))

bind_hangs :
    {A B : Type 0} {t : B} (m : Option A) (f g : A → Option B)
    → ((a : A) → f a ≡ some t → g a ≡ none)
    → (m >>= f) ≡ some t
    → (m >>= g) ≡ none
bind_hangs none f g k h = refl
bind_hangs (some a) f g k h = k a h

yields_hang :
    (fuel : ℕ) (s t : Sched)
    → sched_yield fuel t ≡ none
    → yields fuel 1 s ≡ some t
    → yields fuel 2 s ≡ none
unfolding yields
yields_hang fuel s t f =
    bind_hangs (sched_yield fuel s) _ _ (λ a e. let e' : a ≡ t = cc in rw (e', f) refl)

module _ (name : Option (List ℕ)) (entry arg : ℕ) where
  -- `sched_init`, one `sched_create`, and `k` yields.
  pub boot_and_yield : ℕ → ℕ → Option Sched
  boot_and_yield fuel k = do s ← sched_init; r ← sched_create name entry arg s; yields fuel k r.1

  -- The first yield of a booted system returns, with any fuel but 0.
  one_yield :
      (fuel : ℕ)
      → (s : Sched) × (boot_and_yield (suc fuel) 1 ≡ some s)
        × (s.locked ≡ false)
        × (s.current ≡ some 1)
        × (s.ready_q ≡ some 0)
        × ((s.tasks 0).next ≡ some 0)
  unfolding boot_and_yield sched_init sched_create find_slot enter start_idle spin_lock spin_unlock
      yields sched_yield rotate requeue append append_after switch_to
  one_yield fuel = (_, refl, refl, refl, refl, refl)

  two_yields :
      (fuel : ℕ) (t : Sched)
      → boot_and_yield fuel 1 ≡ some t
      → sched_yield fuel t ≡ none
      → boot_and_yield fuel 2 ≡ none
  unfolding boot_and_yield
  two_yields fuel t e f =
      bind_hangs sched_init _ _
        (λ s. bind_hangs (sched_create name entry arg s) _ _ (λ r. yields_hang fuel r.1 t f)) e

  -- After `sched_init` and the first `sched_create`, the first `sched_yield` returns, given one round
  -- or more: task 1 runs, the idle task waits, and the lock is free. The second never returns, whatever
  -- the name, entry and argument of the task, and however many rounds its walk is given.
  pub second_yield_hangs :
      (fuel : ℕ)
      → (s : Sched) × (boot_and_yield (suc fuel) 1 ≡ some s)
        × (s.locked ≡ false)
        × (s.current ≡ some 1)
        × (s.ready_q ≡ some 0)
        × (sched_yield (suc fuel) s ≡ none)
        × (boot_and_yield (suc fuel) 2 ≡ none)
  second_yield_hangs fuel =
      let (s, e, unlocked, cur, rq, self) = one_yield fuel in
      let hangs = sched_yield_forever (suc fuel) s 1 0 unlocked cur rq (omega arith) self in
      (s, e, unlocked, cur, rq, hangs, two_yields (suc fuel) s e hangs)
