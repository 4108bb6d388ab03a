-- ===== src/Kernel/Sched/Create.antt =====
-- `sched_create`: which slot a task gets, and that it never takes one that is in use.
use h3os.Base.{
  ℕ, zero, suc, ◌+◌, ◌≡◌, ◌≢◌, ◌≤◌, ◌<◌, refl, sym, arith, true, false, Option, none, some, List,
  ◌==◌, ◌||◌, update, u32, Bool-cases, inl, inr,
}
use h3os.Kernel.Sched.{
  task_name, ready, Task, Tasks, is_dead, Sched, max_tasks, find_slot, enter, sched_create,
  spin_lock, spin_unlock,
}

-- A slot that `sched_create` leaves alone.
abbrev pub InUse : Tasks → ℕ → Type 0
InUse ts i = (is_dead (ts i).state ≡ false) × ((ts i).id ≢ 0)

data SlotFound (ts : Tasks) (i j : ℕ) : Option ℕ → Type 0 where
  slot :
      (k : ℕ)
      → i ≤ k
      → k < j
      → (InUse ts k → ⊥)
      → ((l : ℕ) → i ≤ l → l < k → InUse ts l)
      → SlotFound ts i j (some k)
  full : ((l : ℕ) → i ≤ l → l < j → InUse ts l) → SlotFound ts i j none

SlotFound-skip :
    {ts : Tasks} {i j : ℕ} {o : Option ℕ}
    → InUse ts i
    → SlotFound ts (i + 1) j o
    → SlotFound ts i j o
SlotFound-skip {ts} {i} u (slot k lo hi free least) = slot k (omega arith) hi free (λ l lo' hi'.
    elim (Bool-cases (i == l)) [
      | inl e ↦ let e' : i ≡ l = ground arith in rw e' at u
      | inr ne ↦ least l (ground arith) hi'
    ])
SlotFound-skip {ts} {i} u (full all) = full λ l lo hi. elim (Bool-cases (i == l)) [
  | inl e ↦ let e' : i ≡ l = ground arith in rw e' at u
  | inr ne ↦ all l (ground arith) hi
]

find_slot_lem : (ts : Tasks) (n i j : ℕ) → i + n ≡ j → SlotFound ts i j (find_slot ts n i)
unfolding find_slot
find_slot_lem ts zero i j e = full λ l lo hi. absurd (omega arith)
find_slot_lem ts (suc n) i j e = elim (Bool-cases (is_dead (ts i).state || ((ts i).id == 0))) [
  | inl t ↦ rw t (
      slot i (omega arith) (omega arith) (λ u. absurd (ground arith))
        (λ l lo hi. absurd (omega arith)))
  | inr f ↦
      rw f
        (SlotFound-skip (ground arith, ground arith) (find_slot_lem ts n (i + 1) j (omega arith)))
]

-- What `sched_create` does: it fills the first slot that is dead or unused and puts the task in
-- front of the queue, or every slot is in use and nothing changes.
pub data Creates (s : Sched) (name : Option (List ℕ)) (entry arg : ℕ)
    : Option (Option ℕ × Sched) → Type 0 where
  created :
      (i : ℕ) (t : Sched)
      → i < max_tasks
      → (InUse s.tasks i → ⊥)
      → ((l : ℕ) → l < i → InUse s.tasks l)
      → t.tasks i ≡ (record {
        id = s.next_id;
        name = task_name name;
        state = ready;
        entry = entry;
        arg = arg;
        ticks = 0;
        next = s.ready_q;
      })
      → ((j : ℕ) → j ≢ i → t.tasks j ≡ s.tasks j)
      → t.ready_q ≡ some i
      → t.current ≡ s.current
      → t.next_id ≡ u32 (s.next_id + 1)
      → t.task_count ≡ u32 (s.task_count + 1)
      → t.locked ≡ false
      → Creates s name entry arg (some (some i, t))
  table_full :
      (t : Sched)
      → t ≡ s
      → ((l : ℕ) → l < max_tasks → InUse s.tasks l)
      → Creates s name entry arg (some (none, t))

relock : (s : Sched) → s.locked ≡ false → record s { locked = false } ≡ s
relock s e i = record s { locked = sym e i }

filled_at : (ts : Tasks) (i : ℕ) (t : Task) → update ts i t i ≡ t
filled_at ts i t = ground arith

filled_off : (ts : Tasks) (i : ℕ) (t : Task) (j : ℕ) → j ≢ i → update ts i t j ≡ ts j
filled_off ts i t j ne = ground arith

create_found :
    (name : Option (List ℕ)) (entry arg : ℕ) (s : Sched) {o : Option ℕ}
    → s.locked ≡ false
    → SlotFound s.tasks 0 max_tasks o
    → Creates s name entry arg (elim o [
      | none ↦ some (none, spin_unlock (record s { locked = true }))
      | some i ↦ some (some i, spin_unlock (enter i name entry arg (record s { locked = true })))
    ])
unfolding spin_unlock enter
create_found name entry arg s open_ (slot i lo hi free least) =
    created i _ hi free (λ l lt. least l (omega arith) lt) (filled_at s.tasks i _)
      (filled_off s.tasks i _) refl refl refl refl refl
create_found name entry arg s open_ (full h) =
    table_full _ (relock s open_) (λ l lt. h l (omega arith) lt)

-- With the lock free, a call of `sched_create` returns and leaves it free: the first slot that is dead or
-- unused becomes a ready task with the next identifier, the name cut to 31 bytes and the entry and
-- argument given, in front of the ready queue, and the other slots and the current task stay; or all
-- 64 slots are in use, and it reports that and changes nothing.
pub sched_create_lem :
    (name : Option (List ℕ)) (entry arg : ℕ) (s : Sched)
    → s.locked ≡ false
    → Creates s name entry arg (sched_create name entry arg s)
unfolding sched_create spin_lock
sched_create_lem name entry arg s open_ = simp open_ (
    create_found name entry arg s open_ (find_slot_lem s.tasks max_tasks 0 max_tasks (omega arith)))
