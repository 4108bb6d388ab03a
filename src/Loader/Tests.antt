-- ===== src/Loader/Tests.antt =====
-- A file at 1000 whose headers lie at 1064, and a place for its image.
use h3os.Base.{
  ℕ, ◌+◌, ◌%◌, ◌≤◌, ◌<◌, ◌≡◌, refl, arith, if◌then◌else◌, ◌==◌, ltb, get_or, List, [], ◌∷◌, ◌-◌,
  ◌⊎◌, inl, sub_u64,
}
use h3os.Boot.{Bytes, load_u64}
use h3os.Kernel.Strings.Copy.{in_range}
use h3os.Loader.{
  rejected, bad_lfanew, PeInfo, pe_probe, load_image, apply_entry, info_of, accepted, probe_coff,
}
use h3os.Loader.Image.{image_byte, load_image_lem}
use h3os.Loader.Relocs.{apply_entry_lem}

-- The headers of the program: the signature, the machine, one section, and the size and the first bytes
-- of the optional header.
abbrev tail : List ℕ
tail =
    0x50 ∷ 0x45 ∷ 0 ∷ 0 ∷ 0x64 ∷ 0x86 ∷ 1 ∷ 0 ∷ 0 ∷ 0 ∷ 0 ∷ 0 ∷ 0 ∷ 0 ∷ 0 ∷ 0 ∷ 0 ∷ 0 ∷ 0 ∷ 0 ∷ 112
    ∷ 0 ∷ 0 ∷ 0 ∷ 0x0B ∷ 2 ∷ []

-- The DOS header says that the others begin at 64; they end with the file, at 92 bytes, and what lies
-- behind it passes for an optional header.
abbrev short : Bytes
short a =
    if a == 1000
    then 0x4D
    else (if a == 1001
        then 0x5A
        else (if a == 1060 then 64 else (if ltb a 1064 then 0 else get_or tail (a - 1064) 0)))

-- A file of 92 bytes is accepted, although only 4 of the 112 bytes of its optional header are in it.
accepts_short : pe_probe short 1000 92 ≡ accepted (info_of short 1000)
unfolding pe_probe probe_coff
accepts_short = refl

rejects_shorter : pe_probe short 1000 91 ≡ rejected bad_lfanew
unfolding pe_probe probe_coff
rejects_shorter = refl

abbrev one_section : PeInfo
one_section = record {
  machine = 0x8664;
  entry_rva = 16;
  image_base = 0x400000;
  size_of_image = 64;
  size_of_headers = 92;
  number_of_sections = 1;
}

load_image_lem_example : load_image short 1000 92 8192 one_section 8193 ≡ (
    if in_range 8192 64 8193
    then image_byte short 1000 92 one_section 1 (8193 - 8192)
    else short 8193)
load_image_lem_example =
    load_image_lem short 1000 92 8192 one_section (inl (omega arith)) (inl (omega arith)) 8193

-- Four little-endian words that hold 0x400010, for an image that is at 0x7000.
abbrev pointers : Bytes
pointers a = get_or (0x10 ∷ 0 ∷ 0x40 ∷ 0 ∷ 0 ∷ 0 ∷ 0 ∷ 0 ∷ []) (a % 8) 0

apply_entry_lem_example :
    (load_u64
        (apply_entry pointers 0x7000 (sub_u64 0x7000 0x400000) 0xA008)
        (0x7000 + 0xA008 % 4096)
      ≡ 0x7000 + 0x10)
    × ((b : ℕ)
        → (b < 0x7000 + 0xA008 % 4096) ⊎ (0x7000 + 0xA008 % 4096 + 8 ≤ b)
        → apply_entry pointers 0x7000 (sub_u64 0x7000 0x400000) 0xA008 b ≡ pointers b)
apply_entry_lem_example =
    apply_entry_lem pointers 0x7000 0x400000 0x7000 0xA008 0x10 refl (omega arith) (omega arith)
      (omega arith) refl
