-- ===== src/Loader/Image.antt =====
-- The image that `pe_run` of loader/pe.c builds from a file, byte by byte.
use h3os.Base.{
  ℕ, zero, suc, ◌+◌, ◌-◌, ◌*◌, ◌≤◌, ◌<◌, Bool, true, false, ◌&&◌, ltb, if◌then◌else◌, min, ◌≡◌,
  refl, ap, ◌∙◌, arith, Bool-cases, ◌⊎◌, inl, inr,
}
use h3os.Base.Loops.{for_range_inv}
use h3os.Boot.{Bytes, load_u32}
use h3os.Kernel.Strings.{memset, memcpy}
use h3os.Kernel.Strings.Copy.{in_range, memset_lem, memcpy_lem}
use h3os.Loader.{
  PeInfo, Section, section_at, is_copied, copy_section, load_image, secs_of, section_size,
}

-- Two ranges of memory that do not meet.
abbrev pub Apart : (p n q k : ℕ) → Type 0
Apart p n q k = (p + n ≤ q) ⊎ (q + k ≤ p)

module _ (m : Bytes) (file size : ℕ) (info : PeInfo) where
  abbrev covers : Section → ℕ → Bool
  covers s rva =
      is_copied size info.size_of_image s && in_range s.virtual_address s.size_of_raw_data rva

  -- What the first `n` sections make of the byte `rva` of the image: the last one that covers it counts.
  unfoldable pub image_byte : ℕ → ℕ → ℕ
  image_byte zero rva =
      if ltb rva (min (min info.size_of_headers size) info.size_of_image) then m (file + rva) else 0
  image_byte (suc n) rva =
      let s = section_at m (secs_of m file) n in
      let before = image_byte n rva in
      if covers s rva then m (file + s.pointer_to_raw_data + (rva - s.virtual_address)) else before

  module _ (image : ℕ) (file_apart : Apart file size image info.size_of_image)
      (table_apart : Apart
        (secs_of m file)
        (section_size * info.number_of_sections)
        image
        info.size_of_image) where
    abbrev Built : ℕ → Bytes → Type 0
    Built k n =
        (q : ℕ)
        → n q ≡ (if in_range image info.size_of_image q then image_byte k (q - image) else m q)

    Built-outside :
        (k : ℕ) (n : Bytes)
        → Built k n
        → (q : ℕ) → in_range image info.size_of_image q ≡ false
        → n q ≡ m q
    Built-outside k n b q out = b q ∙ rw out refl

    headed_at :
        (h : ℕ)
        → h ≤ size
        → h ≤ info.size_of_image
        → (q : ℕ)
        → (let cleared = memset m image 0 info.size_of_image in
            if in_range image h q then cleared (file + (q - image)) else cleared q)
          ≡ (if in_range image info.size_of_image q
              then (if ltb (q - image) h then m (file + (q - image)) else 0)
              else m q)
    headed_at h in_file in_image q =
        let there = memset_lem m image 0 info.size_of_image (file + (q - image)) in
        let here = memset_lem m image 0 info.size_of_image q in ground arith

    headed : Built 0 (
        memcpy
          (memset m image 0 info.size_of_image)
          image
          file
          (min (min info.size_of_headers size) info.size_of_image))
    unfolding image_byte
    headed q =
        let h = min (min info.size_of_headers size) info.size_of_image in
        let in_file : h ≤ size = omega arith in
        let in_image : h ≤ info.size_of_image = omega arith in
        let cleared = memset m image 0 info.size_of_image in
        memcpy_lem h cleared image file q (λ i j lt lt' e. ground arith)
        ∙ headed_at h in_file in_image q

    same_word :
        (k : ℕ) (n : Bytes) (a : ℕ)
        → Built k n
        → Apart a 4 image info.size_of_image
        → load_u32 n a ≡ load_u32 m a
    same_word k n a b away =
        let out_0 = Built-outside k n b a (ground arith) in
        let out_1 = Built-outside k n b (a + 1) (ground arith) in
        let out_2 = Built-outside k n b (a + 2) (ground arith) in
        let out_3 = Built-outside k n b (a + 3) (ground arith) in
        rw (out_0, out_1, out_2, out_3) refl

    copied_at :
        (k : ℕ) (n : Bytes) (s : Section)
        → Built k n
        → (q : ℕ)
        → copy_section file size image info.size_of_image s n q ≡ (
            if in_range image info.size_of_image q
            then (if covers s (q - image)
                then m (file + s.pointer_to_raw_data + (q - image - s.virtual_address))
                else image_byte k (q - image))
            else m q)
    unfolding copy_section
    copied_at k n s b q = elim (Bool-cases (is_copied size info.size_of_image s)) [
      | inr skipped ↦ rw skipped (b q)
      | inl kept ↦
          let in_file : s.pointer_to_raw_data + s.size_of_raw_data ≤ size = ground arith in
          let in_image : s.virtual_address + s.size_of_raw_data ≤ info.size_of_image =
            ground arith in
          let copy =
            memcpy_lem s.size_of_raw_data n (image + s.virtual_address)
              (file + s.pointer_to_raw_data) q (λ i j lt lt' e. ground arith) in
          elim (Bool-cases (in_range (image + s.virtual_address) s.size_of_raw_data q)) [
            | inr out ↦ elim (Bool-cases (in_range image info.size_of_image q)) [
              | inr beyond ↦ rw kept (copy ∙ rw (out, beyond) (b q ∙ rw beyond refl))
              | inl in_image' ↦
                  let uncovered : in_range s.virtual_address s.size_of_raw_data (q - image)
                      ≡ false =
                    ground arith in
                  rw kept (copy ∙ rw (out, in_image', uncovered) (b q ∙ rw in_image' refl))
            ]
            | inl inside ↦
                let source = file + s.pointer_to_raw_data + (q - (image + s.virtual_address)) in
                let same : n source ≡ m source = Built-outside k n b source (ground arith) in
                let e : source ≡ file + s.pointer_to_raw_data + (q - image - s.virtual_address) =
                  omega arith in
                let in_image' : in_range image info.size_of_image q ≡ true = ground arith in
                let covered : in_range s.virtual_address s.size_of_raw_data (q - image) ≡ true =
                  ground arith in
                rw kept (copy ∙ rw (inside, in_image', covered) (same ∙ ap m e))
          ]
    ]

    same_section :
        (k : ℕ) (n : Bytes) (i : ℕ)
        → Built k n
        → i < info.number_of_sections
        → section_at n (secs_of m file) i ≡ section_at m (secs_of m file) i
    same_section k n i b lt =
        let row = secs_of m file + section_size * i in
        let e_12 = same_word k n (row + 12) b (ground arith) in
        let e_16 = same_word k n (row + 16) b (ground arith) in
        let e_20 = same_word k n (row + 20) b (ground arith) in rw (e_12, e_16, e_20) refl

    copied :
        (k : ℕ) (n : Bytes)
        → Built k n
        → k < info.number_of_sections
        → Built
            (k + 1)
            (copy_section file size image info.size_of_image (section_at n (secs_of m file) k) n)
    unfolding image_byte
    copied k n b lt q =
        let next : k + 1 ≡ suc k = omega arith in
        rw next (
          ap (λ s. copy_section file size image info.size_of_image s n q) (same_section k n k b lt)
          ∙ copied_at k n (section_at m (secs_of m file) k) b q)

-- Where neither the file nor its section table meets the image's memory, loading makes every byte of
-- the image the byte that the last section to cover it has in the file, or else the byte of the
-- headers, or else 0; sections that do not lie in the file and in the image are passed over. No byte
-- outside the image changes, whatever the file says.
pub load_image_lem :
    (m : Bytes) (file size image : ℕ) (info : PeInfo)
    → Apart file size image info.size_of_image
    → Apart (secs_of m file) (section_size * info.number_of_sections) image info.size_of_image
    → (q : ℕ)
    → load_image m file size image info q ≡ (
        if in_range image info.size_of_image q
        then image_byte m file size info info.number_of_sections (q - image)
        else m q)
unfolding load_image
load_image_lem m file size image info file_apart table_apart =
    for_range_inv (Built m file size info image file_apart table_apart) _ info.number_of_sections 0
      info.number_of_sections _ (omega arith)
      (λ k n above below built.
        copied m file size info image file_apart table_apart k n built below)
      (headed m file size info image file_apart table_apart)
