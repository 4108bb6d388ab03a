-- ===== src/Memory/Vmm/Unmap.antt =====
-- `vmm_unmap_page` of memory/vmm.c: an address that was unmapped does not resolve.
use h3os.Base.{
  ℕ, ◌+◌, ◌/◌, ◌<◌, Bool, true, false, ◌≡◌, refl, ap, ◌∙◌, arith, Bool-cases, ◌⊎◌, inl, inr,
}
use mathlib.Core.Path.{subst}
use h3os.Memory.Vmm.{
  Vmm, is_present, is_huge, index, entry_4, entry_3, entry_2, vmm_unmap_page, vmm_resolve,
}
use h3os.Memory.Vmm.Walk.{Levels, entry, IsValid}
use h3os.Memory.Vmm.Chain.{
  index_lt, Chain3, Chain2, Chain1, entry_4_lem, after_write, write-IsValid, write_resolves,
}

-- What `vmm_unmap_page` does.
pub data Unmaps (level : Levels) (s : Vmm) (virt : ℕ) : Bool × Vmm → Type 0 where
  unmapped : (t : Vmm) → IsValid level t → vmm_resolve t virt ≡ 0 → Unmaps level s virt (true, t)
  not_mapped :
      (vmm_resolve s virt ≡ 0) ⊎ (is_huge (entry_2 s virt) ≡ true) → Unmaps level s virt (false, s)

module _ (level : Levels) (s : Vmm) (v : IsValid level s) (virt : ℕ) where
  level_below :
      (p k i e : ℕ)
      → e ≡ entry s p i
      → level p ≡ k + 2
      → i < 512
      → is_present e ≡ true
      → (0 < k) ⊎ (is_huge e ≡ false)
      → level (e / 4096) ≡ k + 1
  level_below p k i e same high hi here small =
      ap (λ w. level (w / 4096)) same
      ∙ v.links p k i high hi (subst (λ w. is_present w ≡ true) same here)
          (subst (λ w. (0 < k) ⊎ (is_huge w ≡ false)) same small)

  all_present :
      (here_4 : is_present (entry_4 s virt) ≡ true)
      → is_present (entry_3 s virt) ≡ true
      → is_huge (entry_2 s virt) ≡ false
      → is_present (entry_2 s virt) ≡ true
      → Chain1 level s virt (entry_4 s virt / 4096) (entry_3 s virt / 4096) (entry_2 s virt / 4096)
  all_present here_4 here_3 small here_2 =
      let l3 =
        level_below v.root 2 (index 39 virt) (entry_4 s virt) (entry_4_lem level s virt v)
          v.root_level (index_lt 39 virt) here_4 (inl (omega arith)) in
      let c3 : Chain3 level s virt (entry_4 s virt / 4096) = record {
        leads = (here_4, refl);
        is_level = l3;
      } in
      let l2 =
        level_below (entry_4 s virt / 4096) 1 (index 30 virt) (entry_3 s virt) refl l3
          (index_lt 30 virt) here_3 (inl (omega arith)) in
      let c2 : Chain2 level s virt (entry_4 s virt / 4096) (entry_3 s virt / 4096) = record {
        chain = c3;
        leads = (here_3, refl);
        is_level = l2;
      } in
      record {
        chain = c2;
        leads = (here_2, refl);
        small = small;
        is_level =
            level_below (entry_3 s virt / 4096) 0 (index 21 virt) (entry_2 s virt) refl l2
              (index_lt 21 virt) here_2 (inr small);
      }

  -- On sound tables `vmm_unmap_page` makes an address resolve to 0 and leaves sound tables, or it
  -- changes nothing: then the address resolved to 0 before or is in a huge page.
  pub vmm_unmap_page-Unmaps : Unmaps level s virt (vmm_unmap_page s virt)
  unfolding vmm_unmap_page
  vmm_unmap_page-Unmaps = elim (Bool-cases (is_present (entry_4 s virt))) [
    | inr a4 ↦ rw a4 (not_mapped (inl (unfold vmm_resolve in rw a4 refl)))
    | inl h4 ↦ elim (Bool-cases (is_present (entry_3 s virt))) [
      | inr a3 ↦ rw (h4, a3) (not_mapped (inl (unfold vmm_resolve in rw (h4, a3) refl)))
      | inl h3 ↦ elim (Bool-cases (is_huge (entry_2 s virt))) [
        | inl huge ↦ rw (h4, h3, huge) (not_mapped (inr huge))
        | inr small ↦ elim (Bool-cases (is_present (entry_2 s virt))) [
          | inr a2 ↦
              rw (h4, h3, small, a2)
                (not_mapped (inl (unfold vmm_resolve in rw (h4, h3, small, a2) refl)))
          | inl h2 ↦
              let c = all_present h4 h3 small h2 in
              rw (h4, h3, small, h2)
                (unmapped (after_write level s v virt 0 (entry_2 s virt / 4096) c.is_level)
                  (write-IsValid level s v virt 0 (entry_2 s virt / 4096) c.is_level)
                  (write_resolves level s v virt 0 (entry_2 s virt / 4096) c.is_level
                    (entry_4 s virt / 4096) (entry_3 s virt / 4096) c))
        ]
      ]
    ]
  ]
