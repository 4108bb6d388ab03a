-- ===== src/Memory/Vmm/Map.antt =====
-- `vmm_map_page` of memory/vmm.c: an address that was mapped resolves.
use h3os.Base.{
  ℕ, ◌+◌, ◌*◌, ◌%◌, Bool, true, false, not, if◌then◌else◌, ◌==◌, ◌≡◌, refl, sym, ap, ◌∙◌, arith,
  Bool-cases, ◌⊎◌, inl, inr,
}
use mathlib.Core.Path.{subst}
use h3os.Memory.Vmm.{
  Vmm, is_present, is_huge, frame_of, slot, index, table_walk_alloc, leaf, set_leaf, map_in_pd,
  map_in_pdpt, vmm_map_page, entry_4, entry_3, entry_2, vmm_resolve,
}
use h3os.Memory.Vmm.Walk.{Levels, entry, IsValid, IsFull, Walked, found, failed, step_down}
use h3os.Memory.Vmm.Chain.{
  Leads-at, index_lt, Chain3, Chain2, Chain1, entry_3_lem, entry_2_lem, Chain3-Keeps, Chain2-Keeps,
  not_null, after_write, write-IsValid, write_resolves,
}

-- What `vmm_map_page` does: the address resolves to the frame, or a refusal, since no page is left or
-- the address is in a huge page. The tables stay sound.
pub data Maps (virt phys flags : ℕ) : Bool × Vmm → Type 0 where
  mapped :
      (level : Levels) (t : Vmm)
      → IsValid level t
      → vmm_resolve t virt ≡ frame_of phys + virt % 4096
      → Maps virt phys flags (true, t)
  refused :
      (level : Levels) (t : Vmm)
      → IsValid level t
      → IsFull t ⊎ (is_huge (entry_2 t virt) ≡ true)
      → Maps virt phys flags (false, t)

leaf_present : (phys flags : ℕ) → is_present (leaf phys flags) ≡ true
leaf_present phys flags = ground arith

leaf_frame : (phys flags : ℕ) → frame_of (leaf phys flags) ≡ frame_of phys
leaf_frame phys flags = ground arith

module _ (virt phys flags : ℕ) where
  map_found :
      (level : Levels) (t : Vmm) (p3 p2 p1 : ℕ)
      → IsValid level t
      → Chain1 level t virt p3 p2 p1
      → Maps virt phys flags
          (if p1 * 4096 == 0 then (false, t) else (true, set_leaf t (p1 * 4096) virt phys flags))
  map_found level t p3 p2 p1 v c =
      let positive : (p1 * 4096 == 0) ≡ false = not_null level t v p1 (omega (arith, c.is_level)) in
      let w = leaf phys flags in
      let frame : (if not (is_present w) then 0 else frame_of w + virt % 4096)
          ≡ frame_of phys + virt % 4096 =
        rw (leaf_present phys flags, leaf_frame phys flags) refl in
      rw positive (
        mapped level (after_write level t v virt w p1 c.is_level)
          (write-IsValid level t v virt w p1 c.is_level)
          (write_resolves level t v virt w p1 c.is_level p3 p2 c ∙ frame))

  map_in_pd-Maps :
      (level : Levels) (t : Vmm) (p3 p2 : ℕ)
      → IsValid level t
      → Chain2 level t virt p3 p2
      → Maps virt phys flags (map_in_pd (p2 * 4096, t) virt phys flags)
  unfolding map_in_pd
  map_in_pd-Maps level t p3 p2 v c =
      let positive : (p2 * 4096 == 0) ≡ false = not_null level t v p2 (omega (arith, c.is_level)) in
      elim (Bool-cases (is_huge (entry t p2 (index 21 virt)))) [
        | inl huge ↦
            rw (positive, huge)
              (refused level t v (inr (ap is_huge (entry_2_lem level t virt p3 p2 c) ∙ huge)))
        | inr small ↦
            rw (positive, small)
              (go small (table_walk_alloc t (p2 * 4096) (index 21 virt)) (
                step_down level t v p2 (index 21 virt) 0 c.is_level (index_lt 21 virt) (inr small)))
      ]
    where
      go :
          is_huge (entry t p2 (index 21 virt)) ≡ false
          → (o : ℕ × Vmm) → Walked level t p2 (index 21 virt) 0 o
          → Maps virt phys flags
              (if o.0 == 0 then (false, o.1) else (true, set_leaf o.1 o.0 virt phys flags))
      go small _ (failed full) = refused level t v (inl full)
      go small _ (found level' t' p1 v' keeps low here frame stays) =
          let c' = Chain2-Keeps level t v level' t' keeps virt p3 p2 c in
          let e = entry_2_lem level' t' virt p3 p2 c' in
          map_found level' t' p3 p2 p1 v' (record {
            chain = c';
            leads = Leads-at (entry t' p2 (index 21 virt)) (entry_2 t' virt) p1 e (here, frame);
            small = ap is_huge e ∙ stays small;
            is_level = low;
          })

  map_in_pdpt-Maps :
      (level : Levels) (t : Vmm) (p3 : ℕ)
      → IsValid level t
      → Chain3 level t virt p3
      → Maps virt phys flags (map_in_pdpt (p3 * 4096, t) virt phys flags)
  unfolding map_in_pdpt
  map_in_pdpt-Maps level t p3 v c =
      let positive : (p3 * 4096 == 0) ≡ false = not_null level t v p3 (omega (arith, c.is_level)) in
      rw positive (
        go (table_walk_alloc t (p3 * 4096) (index 30 virt)) (
          step_down level t v p3 (index 30 virt) 1 c.is_level (index_lt 30 virt)
            (inl (omega arith))))
    where
      go :
          (o : ℕ × Vmm)
          → Walked level t p3 (index 30 virt) 1 o
          → Maps virt phys flags (map_in_pd o virt phys flags)
      go _ (failed full) = unfold map_in_pd in refused level t v (inl full)
      go _ (found level' t' p2 v' keeps low here frame stays) =
          let c' = Chain3-Keeps level t v level' t' keeps virt p3 c in
          let e = entry_3_lem level' t' virt p3 c' in
          map_in_pd-Maps level' t' p3 p2 v' (record {
            chain = c';
            leads = Leads-at (entry t' p3 (index 30 virt)) (entry_3 t' virt) p2 e (here, frame);
            is_level = low;
          })

-- On sound tables `vmm_map_page` either maps: then `vmm_resolve` of the address is the frame of `phys`
-- and the address's offset in its page; or it refuses, since all pages are in use or the address is
-- in a huge page. The tables are sound afterwards in both cases.
pub vmm_map_page-Maps :
    (level : Levels) (s : Vmm) (virt phys flags : ℕ)
    → IsValid level s
    → Maps virt phys flags (vmm_map_page s virt phys flags)
unfolding vmm_map_page
vmm_map_page-Maps level s virt phys flags v =
    subst
      (λ a.
        Maps virt phys flags (map_in_pdpt (table_walk_alloc s a (index 39 virt)) virt phys flags))
      (sym v.at_root)
      (go (table_walk_alloc s (v.root * 4096) (index 39 virt)) (
        step_down level s v v.root (index 39 virt) 2 v.root_level (index_lt 39 virt)
          (inl (omega arith))))
  where
    go :
        (o : ℕ × Vmm)
        → Walked level s v.root (index 39 virt) 2 o
        → Maps virt phys flags (map_in_pdpt o virt phys flags)
    go _ (failed full) = unfold map_in_pdpt in refused level s v (inl full)
    go _ (found level' t p3 v' keeps low here frame stays) =
        let e : entry_4 t virt ≡ entry t v.root (index 39 virt) =
          ap (λ a. t.words (slot a (index 39 virt))) (keeps.0 ∙ v.at_root) in
        map_in_pdpt-Maps virt phys flags level' t p3 v' (record {
          leads = Leads-at (entry t v.root (index 39 virt)) (entry_4 t virt) p3 e (here, frame);
          is_level = low;
        })
