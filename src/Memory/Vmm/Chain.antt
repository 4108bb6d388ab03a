-- ===== src/Memory/Vmm/Chain.antt =====
-- The tables on the way of an address (memory/vmm.c): what a further step, and a write in the last
-- table, leave as it was.
use h3os.Base.{
  ℕ, ◌+◌, ◌*◌, ◌%◌, ◌≤◌, ◌<◌, true, false, not, if◌then◌else◌, ◌==◌, update, ◌≡◌, refl, sym, ap,
  ◌∙◌, arith, Bool-cases, ◌⊎◌, inl, inr,
}
use mathlib.Core.Path.{subst}
use h3os.Memory.Vmm.{
  Vmm, is_present, is_huge, frame_of, slot, index, entry_4, entry_3, entry_2, slot_1, vmm_resolve,
}
use h3os.Memory.Vmm.Walk.{Levels, entry, IsValid, Keeps, same_slot}

-- The entry that an address has in a table leads to the table in page `p`.
abbrev pub Leads : ℕ → ℕ → Type 0
Leads e p = (is_present e ≡ true) × (frame_of e ≡ p * 4096)

pub Leads-at : (e e' p : ℕ) → e' ≡ e → Leads e p → Leads e' p
Leads-at e e' p same h = rw same h

pub index_lt : (shift virt : ℕ) → index shift virt < 512
index_lt shift virt = omega arith

module _ (level : Levels) (t : Vmm) (virt : ℕ) where
  -- Where an address leads to: its tables of level 3, 2 and 1.
  pub record Chain3 (p3 : ℕ) : Type 0 where
    pub leads : Leads (entry_4 t virt) p3
    pub is_level : level p3 ≡ 3

  pub record Chain2 (p3 p2 : ℕ) : Type 0 where
    pub chain : Chain3 p3
    pub leads : Leads (entry_3 t virt) p2
    pub is_level : level p2 ≡ 2

  pub record Chain1 (p3 p2 p1 : ℕ) : Type 0 where
    pub chain : Chain2 p3 p2
    pub leads : Leads (entry_2 t virt) p1
    pub small : is_huge (entry_2 t virt) ≡ false
    pub is_level : level p1 ≡ 1

  pub entry_4_lem : (v : IsValid level t) → entry_4 t virt ≡ entry t v.root (index 39 virt)
  entry_4_lem v = ap (λ a. t.words (slot a (index 39 virt))) v.at_root

  pub entry_3_lem : (p3 : ℕ) → Chain3 p3 → entry_3 t virt ≡ entry t p3 (index 30 virt)
  entry_3_lem p3 c = ap (λ a. t.words (slot a (index 30 virt))) c.leads.1

  pub entry_2_lem : (p3 p2 : ℕ) → Chain2 p3 p2 → entry_2 t virt ≡ entry t p2 (index 21 virt)
  entry_2_lem p3 p2 c = ap (λ a. t.words (slot a (index 21 virt))) c.leads.1

  slot_1_lem : (p3 p2 p1 : ℕ) → Chain1 p3 p2 p1 → slot_1 t virt ≡ slot (p1 * 4096) (index 12 virt)
  slot_1_lem p3 p2 p1 c = ap (λ a. slot a (index 12 virt)) c.leads.1

-- A table is not at address 0.
pub not_null :
    (level : Levels) (t : Vmm) → IsValid level t → (p : ℕ) → 0 < level p → (p * 4096 == 0) ≡ false
not_null level t v p lt = elim (Bool-cases (p == 0)) [
  | inr e ↦ ground arith
  | inl e ↦
      let same : p ≡ 0 = ground arith in
      let low : level p ≡ 0 = rw same v.zero_level in absurd (omega arith)
]

-- A step further down keeps the chain so far.
module _ (level : Levels) (s : Vmm) (v : IsValid level s) (level' : Levels) (t : Vmm)
    (keeps : Keeps level s level' t) (virt : ℕ) where
  same_4 : is_present (entry_4 s virt) ≡ true → entry_4 t virt ≡ entry_4 s virt
  same_4 here =
      let e = entry_4_lem level s virt v in
      ap (λ a. t.words (slot a (index 39 virt))) (keeps.0 ∙ v.at_root)
      ∙ (keeps.2 v.root (index 39 virt) (omega (arith, v.root_level)) (index_lt 39 virt)
            (subst (λ x. is_present x ≡ true) e here)
          ∙ sym e)

  pub Chain3-Keeps : (p3 : ℕ) → Chain3 level s virt p3 → Chain3 level' t virt p3
  Chain3-Keeps p3 c = record {
    leads = Leads-at (entry_4 s virt) (entry_4 t virt) p3 (same_4 c.leads.0) c.leads;
    is_level = keeps.1 p3 (omega (arith, c.is_level)) ∙ c.is_level;
  }

  same_3 :
      (p3 : ℕ)
      → Chain3 level s virt p3
      → is_present (entry_3 s virt) ≡ true
      → entry_3 t virt ≡ entry_3 s virt
  same_3 p3 c here =
      let e = entry_3_lem level s virt p3 c in
      entry_3_lem level' t virt p3 (Chain3-Keeps p3 c)
      ∙ (keeps.2 p3 (index 30 virt) (omega (arith, c.is_level)) (index_lt 30 virt)
            (subst (λ x. is_present x ≡ true) e here)
          ∙ sym e)

  pub Chain2-Keeps : (p3 p2 : ℕ) → Chain2 level s virt p3 p2 → Chain2 level' t virt p3 p2
  Chain2-Keeps p3 p2 c = record {
    chain = Chain3-Keeps p3 c.chain;
    leads = Leads-at (entry_3 s virt) (entry_3 t virt) p2 (same_3 p3 c.chain c.leads.0) c.leads;
    is_level = keeps.1 p2 (omega (arith, c.is_level)) ∙ c.is_level;
  }

update_self : (f : ℕ → ℕ) (i w : ℕ) → update f i w i ≡ w
update_self f i w = ground arith

resolve_lem :
    (s : Vmm) (virt w : ℕ)
    → is_present (entry_4 s virt) ≡ true
    → is_present (entry_3 s virt) ≡ true
    → is_huge (entry_2 s virt) ≡ false
    → is_present (entry_2 s virt) ≡ true
    → s.words (slot_1 s virt) ≡ w
    → vmm_resolve s virt ≡ (if not (is_present w) then 0 else frame_of w + virt % 4096)
unfolding vmm_resolve
resolve_lem s virt w here_4 here_3 small here_2 word = rw (here_4, here_3, small, here_2, word) refl

module _ (level : Levels) (t : Vmm) (v : IsValid level t) (virt : ℕ) where
  -- A word of a table of level 1 is written: all other tables are as before.
  module _ (w p1 : ℕ) (low : level p1 ≡ 1) where
    abbrev pub after_write : Vmm
    after_write = record t { words = update t.words (slot (p1 * 4096) (index 12 virt)) w }

    write_entry : (p i : ℕ) → 2 ≤ level p → i < 512 → entry after_write p i ≡ entry t p i
    write_entry p i high hi =
        let apart : (p1 == p) ≡ false = other p high in
        rw (same_slot p1 p (index 12 virt) i (index_lt 12 virt) hi, apart) refl
      where
        other : (p : ℕ) → 2 ≤ level p → (p1 == p) ≡ false
        other p high = elim (Bool-cases (p1 == p)) [
          | inr e ↦ e
          | inl e ↦
              let same : p1 ≡ p = ground arith in
              let levels : level p1 ≡ level p = ap level same in absurd (omega arith)
        ]

    pub write-IsValid : IsValid level after_write
    write-IsValid = record {
      root = v.root;
      at_root = v.at_root;
      root_level = v.root_level;
      owned = v.owned;
      zero_used = v.zero_used;
      zero_level = v.zero_level;
      pages_valid = v.pages_valid;
      links = λ p k i high hi here small.
          let same = write_entry p i (omega arith) hi in
          rw same (
            v.links p k i high hi (subst (λ e. is_present e ≡ true) same here)
              (subst (λ e. (0 < k) ⊎ (is_huge e ≡ false)) same small));
    }

    module _ (p3 p2 : ℕ) (c : Chain1 level t virt p3 p2 p1) where
      abbrev c2 : Chain2 level t virt p3 p2
      c2 = c.chain

      write_4 : entry_4 after_write virt ≡ entry_4 t virt
      unfolding write-IsValid
      write_4 =
          entry_4_lem level after_write virt write-IsValid
          ∙ (write_entry v.root (index 39 virt) (omega (arith, v.root_level)) (index_lt 39 virt)
              ∙ sym (entry_4_lem level t virt v))

      write_3 : entry_3 after_write virt ≡ entry_3 t virt
      write_3 =
          ap (λ a. after_write.words (slot a (index 30 virt)))
            (ap frame_of write_4 ∙ c2.chain.leads.1)
          ∙ (write_entry p3 (index 30 virt) (omega (arith, c2.chain.is_level)) (index_lt 30 virt)
              ∙ sym (entry_3_lem level t virt p3 c2.chain))

      write_2 : entry_2 after_write virt ≡ entry_2 t virt
      write_2 =
          ap (λ a. after_write.words (slot a (index 21 virt))) (ap frame_of write_3 ∙ c2.leads.1)
          ∙ (write_entry p2 (index 21 virt) (omega (arith, c2.is_level)) (index_lt 21 virt)
              ∙ sym (entry_2_lem level t virt p3 p2 c2))

      write_1 : after_write.words (slot_1 after_write virt) ≡ w
      write_1 =
          ap after_write.words (ap (λ a. slot a (index 12 virt)) (ap frame_of write_2 ∙ c.leads.1))
          ∙ update_self t.words (slot (p1 * 4096) (index 12 virt)) w

      pub write_resolves :
          vmm_resolve after_write virt
          ≡ (if not (is_present w) then 0 else frame_of w + virt % 4096)
      write_resolves =
          resolve_lem after_write virt w (ap is_present write_4 ∙ c2.chain.leads.0)
            (ap is_present write_3 ∙ c2.leads.0) (ap is_huge write_2 ∙ c.small)
            (ap is_present write_2 ∙ c.leads.0) write_1
