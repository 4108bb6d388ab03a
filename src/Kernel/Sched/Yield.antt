-- ===== src/Kernel/Sched/Yield.antt =====
-- What a `sched_yield` starts from, and several in a row.
use h3os.Base.{ℕ, zero, suc, ◌≡◌, arith, true, false, Option, none, some, ap}
use h3os.Kernel.Sched.{
  Tasks, ready, is_dead, Sched, set_next, set_state, append, requeue, sched_yield, ◌>>=◌,
}

abbrev pub readied : Sched → ℕ → Tasks
readied s c = set_state s.tasks c ready

pub ready_at : (s : Sched) (c : ℕ) → (readied s c c).state ≡ ready
ready_at s c = ground arith

alive : (ts : Tasks) (c : ℕ) → (ts c).state ≡ ready → is_dead (ts c).state ≡ false
alive ts c e = ap is_dead e

pub requeue_alive :
    (fuel : ℕ) (ts : Tasks) (p : Option ℕ) (c : ℕ)
    → (ts c).state ≡ ready
    → requeue fuel ts p (some c) ≡ append fuel (set_next ts c none) p c
unfolding requeue
requeue_alive fuel ts p c e = rw (alive ts c e)

-- The state that the branch starts from.
abbrev pub held : Sched → ℕ → ℕ → Sched
held s c n = record s { tasks = readied s c; current = some c; ready_q = some n; locked = true }

-- `k` yields in a row.
unfoldable pub yields : ℕ → ℕ → Sched → Option Sched
yields fuel zero s = some s
yields fuel (suc k) s = sched_yield fuel s >>= yields fuel k
