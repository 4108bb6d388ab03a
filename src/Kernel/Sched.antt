-- ===== src/Kernel/Sched.antt =====
-- kernel/core/sched.c: the task table, the ready queue threaded through it, and the lock. Pointers
-- to tasks are indices into the table, `none` for `NULL`; a computation that never returns (a lock
-- that stays taken, a list without an end) is `none`.
pub mod Create
pub mod Yield
pub mod Hang
mod Tests
use h3os.Base.{
  ℕ, zero, suc, ◌+◌, ◌-◌, ◌%◌, ◌^◌, Bool, true, false, not, Option, none, some, List, [], ◌∷◌, ◌||◌,
  ◌&&◌, ◌==◌, if◌then◌else◌, u32, update, take,
}

-- `MAX_TASKS`
abbrev pub max_tasks : ℕ
max_tasks = 64

-- `task_state_t`
pub data TaskState : Type 0 where
  ready running blocked dead : TaskState

abbrev pub is_dead : TaskState → Bool
is_dead dead = true
is_dead _ = false

-- `task_t`. A name holds what is kept of the string: `strncpy` of `TASK_NAME - 1` bytes into a
-- field of zeros. Entry and argument are addresses, 0 for `NULL`.
pub record Task : Type 0 where
  pub id : ℕ
  pub name : List ℕ
  pub state : TaskState
  pub ticks : ℕ
  pub entry : ℕ
  pub arg : ℕ
  pub next : Option ℕ

-- A field of zeros.
abbrev pub zero_task : Task
zero_task = record { id = 0; name = []; state = ready; ticks = 0; entry = 0; arg = 0; next = none }

abbrev pub Tasks : Type 0
Tasks = ℕ → Task

pub record Sched : Type 0 where
  pub tasks : Tasks
  pub current : Option ℕ
  pub ready_q : Option ℕ
  pub next_id : ℕ
  pub task_count : ℕ
  pub locked : Bool

abbrev pub set_next : Tasks → ℕ → Option ℕ → Tasks
set_next ts i p = update ts i (record (ts i) { next = p })

abbrev pub set_state : Tasks → ℕ → TaskState → Tasks
set_state ts i st = update ts i (record (ts i) { state = st })

infixl 5 ◌>>=◌
abbrev pub ◌>>=◌ : {A B : Type 0} → Option A → (A → Option B) → Option B
none >>= f = none
some a >>= f = f a

-- `spin_lock(&sched_lock)` on one processor: a lock that is taken is never given back.
pub spin_lock : Sched → Option Sched
spin_lock s = if s.locked then none else some (record s { locked = true })

pub spin_unlock : Sched → Sched
spin_unlock s = record s { locked = false }

-- The first slot that is dead or was never used.
pub find_slot : Tasks → ℕ → ℕ → Option ℕ
find_slot ts zero i = none
find_slot ts (suc n) i =
    let rest = find_slot ts n (i + 1) in
    if is_dead (ts i).state || ((ts i).id == 0) then some i else rest

-- `name ? name : "task"`, cut to 31 bytes; `none` is `NULL`.
abbrev pub task_name : Option (List ℕ) → List ℕ
task_name none = b't' ∷ b'a' ∷ b's' ∷ b'k' ∷ []
task_name (some n) = take 31 n

-- The slot `i` is filled, and the task goes to the front of the ready queue.
pub enter : ℕ → Option (List ℕ) → ℕ → ℕ → Sched → Sched
enter i name entry arg s = record s {
  tasks = update s.tasks i (record zero_task {
    id = s.next_id;
    name = task_name name;
    entry = entry;
    arg = arg;
    next = s.ready_q;
  });
  next_id = u32 (s.next_id + 1);
  ready_q = some i;
  task_count = u32 (s.task_count + 1);
}

pub sched_create : Option (List ℕ) → ℕ → ℕ → Sched → Option (Option ℕ × Sched)
sched_create name entry arg s = do
  s₁ ← spin_lock s
  elim (find_slot s₁.tasks max_tasks 0) [
    | none ↦ some (none, spin_unlock s₁)
    | some i ↦ some (some i, spin_unlock (enter i name entry arg s₁))
  ]

abbrev pub idle_name : List ℕ
idle_name = b'k' ∷ b'e' ∷ b'r' ∷ b'n' ∷ b'e' ∷ b'l' ∷ b'-' ∷ b'i' ∷ b'd' ∷ b'l' ∷ b'e' ∷ []

-- `if (idle) { idle->state = TASK_RUNNING; current = idle; }`
pub start_idle : Option ℕ × Sched → Sched
start_idle (none, s) = s
start_idle (some i, s) = record s { tasks = set_state s.tasks i running; current = some i }

pub sched_init : Option Sched
sched_init = do
  r ← sched_create (some idle_name) 0 0 (record {
    tasks = λ _. zero_task;
    current = none;
    ready_q = none;
    next_id = 1;
    task_count = 0;
    locked = false;
  })
  some (start_idle r)

-- The walk `while (*tail) tail = &(*tail)->next; *tail = current;` from a task's `next` field on.
pub append_after : ℕ → Tasks → ℕ → ℕ → Option Tasks
append_after zero ts i c = none
append_after (suc fuel) ts i c = elim (ts i).next [
  | none ↦ some (set_next ts i (some c))
  | some j ↦ append_after fuel ts j c
]

-- The same from `&ready_q`, with the new head of the queue.
pub append : ℕ → Tasks → Option ℕ → ℕ → Option (Tasks × Option ℕ)
append fuel ts none c = some (ts, some c)
append fuel ts (some i) c = do ts' ← append_after fuel ts i c; some (ts', some i)

-- `if (current) current->state = TASK_READY;`
abbrev pub set_ready : Tasks → Option ℕ → Tasks
set_ready ts none = ts
set_ready ts (some c) = set_state ts c ready

-- The branch `if (current && current->state != TASK_DEAD)`: the current task goes to the end.
pub requeue : ℕ → Tasks → Option ℕ → Option ℕ → Option (Tasks × Option ℕ)
requeue fuel ts q none = some (ts, q)
requeue fuel ts q (some c) =
    if is_dead (ts c).state then some (ts, q) else append fuel (set_next ts c none) q c

-- `current = next; current->state = TASK_RUNNING; current->next = NULL;`
pub switch_to : ℕ → Sched → Tasks × Option ℕ → Sched
switch_to n s (ts, q) = record s {
  tasks = set_next (set_state ts n running) n none;
  current = some n;
  ready_q = q;
}

-- The branch `if (ready_q)`.
pub rotate : ℕ → Sched → Option ℕ → Option Sched
rotate fuel s none = some s
rotate fuel s (some n) = do
  r ← requeue fuel s.tasks (s.tasks n).next s.current
  some (switch_to n s r)

-- With `fuel` rounds for the walk to the end of the queue.
pub sched_yield : ℕ → Sched → Option Sched
sched_yield fuel s = do
  s₁ ← spin_lock s
  s₂ ← rotate fuel (record s₁ { tasks = set_ready s₁.tasks s₁.current }) s₁.ready_q
  some (spin_unlock s₂)

-- `if (current) current->ticks++;`
pub sched_tick : Sched → Sched
sched_tick s = elim s.current [
  | none ↦ s
  | some c ↦ record s {
    tasks = update s.tasks c (record (s.tasks c) { ticks = ((s.tasks c).ticks + 1) % 2 ^ 64 });
  }
]
