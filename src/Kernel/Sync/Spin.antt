-- ===== src/Kernel/Sync/Spin.antt =====
-- The spinlock of kernel/sync/sync.c: one thread at a time is between `spin_lock` and `spin_unlock`.
use h3os.Base.{
  ℕ, ◌||◌, Bool, true, false, not, List, [], ◌∷◌, if◌then◌else◌, ◌==◌, ◌&&◌, ◌≡◌, ap, arith,
  Bool-cases, inl, inr,
}
use h3os.Base.Int.{ℤ, pos_part, neg_part}
use h3os.Kernel.Sync.{
  Pc, idle, swap, pause, test, take, done, retry, inside, swap_back, pause_back, give, leave, store,
  store_back, Sys, Guard, step_pc, step, run,
}

-- Whether a thread holds the spinlock, and whether it is about to take the value.
abbrev pub holds_spin : Pc → Bool
holds_spin test = true
holds_spin take = true
holds_spin (store w) = true
holds_spin done = true
holds_spin retry = true
holds_spin give = true
holds_spin (store_back w) = true
holds_spin leave = true
holds_spin _ = false

abbrev pub at_take : Pc → Bool
at_take take = true
at_take (store w) = true
at_take _ = false

-- Whether a thread has the value: from the write in `mutex_lock` up to that in `mutex_unlock`.
abbrev pub owns : Pc → Bool
owns done = true
owns inside = true
owns swap_back = true
owns pause_back = true
owns give = true
owns (store_back w) = true
owns _ = false

abbrev pub implies : Bool → Bool → Bool
implies a b = if a then b else true

abbrev pub same_ℤ : ℤ → ℤ → Bool
same_ℤ v w = (pos_part v == pos_part w) && (neg_part v == neg_part w)

-- What a thread is about to write is made of the value that stands there.
abbrev pub loaded : Guard → Pc → ℤ → Bool
loaded g (store w) v = same_ℤ w (g.taken v)
loaded g (store_back w) v = same_ℤ w (g.given v)
loaded g _ v = true

-- What a thread's place says about the lock and the value, and which places exclude each other.
abbrev pub fits : Guard → Pc → ℕ → ℤ → Bool
fits g a locked v =
    implies (holds_spin a) (locked == 1) && implies (at_take a) (g.may_take v) && loaded g a v

abbrev pub apart : Pc → Pc → Bool
apart a b = not (holds_spin a && holds_spin b)

pub take_holds : (b : Pc) → implies (at_take b) (holds_spin b) ≡ true
take_holds b = ground arith

pub loaded_free : (g : Guard) (b : Pc) (v : ℤ) → (holds_spin b || loaded g b v) ≡ true
loaded_free g b v = ground arith

pub same_ℤ_refl : (v : ℤ) → same_ℤ v v ≡ true
same_ℤ_refl v = ground arith

module _ (g : Guard) (locked : ℕ) (v : ℤ) where
  pub step_fits :
      (a : Pc)
      → fits g a locked v ≡ true
      → (let (a', locked', v') = step_pc g a locked v in fits g a' locked' v') ≡ true
  unfolding step_pc
  step_fits idle h = ground arith
  step_fits swap h = ground arith
  step_fits pause h = ground arith
  step_fits test h = ground arith
  step_fits take h = ground (arith, same_ℤ_refl (g.taken v))
  step_fits (store w) h = ground arith
  step_fits done h = ground arith
  step_fits retry h = ground arith
  step_fits inside h = ground arith
  step_fits swap_back h = ground arith
  step_fits pause_back h = ground arith
  step_fits give h = ground (arith, same_ℤ_refl (g.given v))
  step_fits (store_back w) h = ground arith
  step_fits leave h = ground arith

  pub step_other :
      (a b : Pc)
      → fits g a locked v ≡ true
      → fits g b locked v ≡ true
      → apart a b ≡ true
      → (let (a', locked', v') = step_pc g a locked v in fits g b locked' v' && apart a' b) ≡ true
  unfolding step_pc
  step_other idle b h k ap = let held = take_holds b in ground arith
  step_other swap b h k ap = let held = take_holds b in ground arith
  step_other pause b h k ap = let held = take_holds b in ground arith
  step_other test b h k ap = let held = take_holds b in ground arith
  step_other take b h k ap = let held = take_holds b in ground arith
  step_other (store w) b h k ap =
      let held = take_holds b in let free = loaded_free g b w in ground arith
  step_other done b h k ap = let held = take_holds b in ground arith
  step_other retry b h k ap = let held = take_holds b in ground arith
  step_other inside b h k ap = let held = take_holds b in ground arith
  step_other swap_back b h k ap = let held = take_holds b in ground arith
  step_other pause_back b h k ap = let held = take_holds b in ground arith
  step_other give b h k ap = let held = take_holds b in ground arith
  step_other (store_back w) b h k ap =
      let held = take_holds b in let free = loaded_free g b w in ground arith
  step_other leave b h k ap = let held = take_holds b in ground arith

-- A test on each thread's place and one on every two threads, that steps keep.
module _ (g : Guard) (F : Pc → ℕ → ℤ → Bool) (A : Pc → Pc → Bool) where
  abbrev pub Together : Sys → Type 0
  Together s =
      ((i : ℕ) → F (s.pcs i) s.locked s.value ≡ true)
      × ((i j : ℕ) → (i == j) ≡ false → A (s.pcs i) (s.pcs j) ≡ true)

  abbrev pub KeepsOwn : Type 0
  KeepsOwn =
      (locked : ℕ) (v : ℤ) (a : Pc)
      → F a locked v ≡ true
      → (let (a', locked', v') = step_pc g a locked v in F a' locked' v') ≡ true

  abbrev pub KeepsOther : Type 0
  KeepsOther =
      (locked : ℕ) (v : ℤ) (a b : Pc)
      → F a locked v ≡ true
      → F b locked v ≡ true
      → A a b ≡ true
      → (let (a', locked', v') = step_pc g a locked v in F b locked' v' && A a' b) ≡ true

  module _ (symmetric : (a b : Pc) → A a b ≡ true → A b a ≡ true) (own : KeepsOwn)
      (other : KeepsOther) where
    pub step-Together : (s : Sys) (i : ℕ) → Together s → Together (step g s i)
    unfolding step
    step-Together s i (f, a) = (each, two)
      where
        next : Pc × ℕ × ℤ
        next = step_pc g (s.pcs i) s.locked s.value

        beside :
            (j : ℕ) → (i == j) ≡ false → (F (s.pcs j) next.1 next.2 && A next.0 (s.pcs j)) ≡ true
        beside j ne = other s.locked s.value (s.pcs i) (s.pcs j) (f i) (f j) (a i j ne)

        each : (j : ℕ) → F (if i == j then next.0 else s.pcs j) next.1 next.2 ≡ true
        each j = elim (Bool-cases (i == j)) [
          | inl e ↦ rw e (own s.locked s.value (s.pcs i) (f i))
          | inr ne ↦ rw ne (let b = beside j ne in ground arith)
        ]

        two :
            (j k : ℕ)
            → (j == k) ≡ false
            → A (if i == j then next.0 else s.pcs j) (if i == k then next.0 else s.pcs k) ≡ true
        two j k ne = elim (Bool-cases (i == j)) [
          | inl e ↦
              let ne' : (i == k) ≡ false = ground arith in
              rw (e, ne') (let b = beside k ne' in ground arith)
          | inr ne_j ↦ elim (Bool-cases (i == k)) [
            | inl e ↦
                rw (ne_j, e) (symmetric next.0 (s.pcs j) (let b = beside j ne_j in ground arith))
            | inr ne_k ↦ rw (ne_j, ne_k) (a j k ne)
          ]
        ]

    pub run-Together : (s : Sys) (schedule : List ℕ) → Together s → Together (run g s schedule)
    unfolding run
    run-Together s [] t = t
    run-Together s (i ∷ schedule) t = run-Together (step g s i) schedule (step-Together s i t)

pub apart_sym : (a b : Pc) → apart a b ≡ true → apart b a ≡ true
apart_sym a b h = ground arith

pub spin-Together :
    (g : Guard) (s : Sys) (schedule : List ℕ)
    → Together g (fits g) apart s
    → Together g (fits g) apart (run g s schedule)
spin-Together g s schedule t =
    run-Together g (fits g) apart apart_sym (step_fits g) (step_other g) s schedule t
