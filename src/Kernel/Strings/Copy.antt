-- ===== src/Kernel/Strings/Copy.antt =====
-- What the copies of `string.c` leave in memory.
use h3os.Base.{
  ℕ, zero, suc, ◌+◌, ◌-◌, ◌≡◌, ◌≢◌, ◌≤◌, ◌<◌, refl, ◌∙◌, arith, Bool, true, false, ◌==◌, ◌&&◌, ltb,
  leb, if◌then◌else◌, update, u8, Bool-cases, inl, inr,
}
use h3os.Boot.{Bytes}
use h3os.Kernel.Strings.{memset, memcpy, copy_down, memmove}

pub ne→not_eq : (a b : ℕ) → a ≢ b → (a == b) ≡ false
ne→not_eq a b ne = ground (arith, ne)

-- `q` lies in the `n` bytes from `p` on.
abbrev pub in_range : ℕ → ℕ → ℕ → Bool
in_range p n q = leb p q && ltb q (p + n)

pub memset_lem :
    (m : Bytes) (p c n q : ℕ) → memset m p c n q ≡ (if in_range p n q then u8 c else m q)
unfolding memset
memset_lem m p c zero q = ground arith
memset_lem m p c (suc n) q = ground (arith, memset_lem (update m p (u8 c)) (p + 1) c n q)

-- A copy upwards reads each byte before it is overwritten, if the target starts below the source, or
-- the two do not meet.
pub memcpy_lem :
    (n : ℕ) (m : Bytes) (d s q : ℕ)
    → ((i j : ℕ) → i < j → j < n → d + i ≢ s + j)
    → memcpy m d s n q ≡ (if in_range d n q then m (s + (q - d)) else m q)
unfolding memcpy
memcpy_lem zero m d s q apart = ground arith
memcpy_lem (suc n) m d s q apart =
    let m' : Bytes = update m d (m s) in
    let rest =
      memcpy_lem n m' (d + 1) (s + 1) q
        (λ i j lt lt' e. apart (i + 1) (j + 1) (omega arith) (omega arith) (omega (arith, e))) in
    elim (Bool-cases (in_range (d + 1) n q)) [
      | inl inside ↦
          let outer : in_range d (suc n) q ≡ true = ground arith in
          let e : s + 1 + (q - (d + 1)) ≡ s + (q - d) = ground arith in
          let lt : d < q = ground arith in
          let lt' : q - d < suc n = ground arith in
          let other : (d == s + (q - d)) ≡ false =
            ne→not_eq d (s + (q - d)) (λ f. apart 0 (q - d) (omega arith) lt' (omega (arith, f))) in
          rest ∙ rw (inside, outer, e, other) refl
      | inr outside ↦ elim (Bool-cases (d == q)) [
        | inl same ↦
            let outer : in_range d (suc n) q ≡ true = ground arith in
            let e : s + (q - d) ≡ s = ground arith in rest ∙ rw (outside, outer, same, e) refl
        | inr differ ↦
            let outer : in_range d (suc n) q ≡ false = ground arith in
            rest ∙ rw (outside, outer, differ) refl
      ]
    ]

-- A copy downwards, if the target does not start below the source.
pub copy_down_lem :
    (n : ℕ) (m : Bytes) (d s q : ℕ)
    → s ≤ d
    → copy_down m d s n q ≡ (if in_range d n q then m (s + (q - d)) else m q)
unfolding copy_down
copy_down_lem zero m d s q le = ground arith
copy_down_lem (suc n) m d s q le =
    let m' : Bytes = update m (d + n) (m (s + n)) in
    let rest = copy_down_lem n m' d s q le in
    elim (Bool-cases (in_range d n q)) [
      | inl inside ↦
          let outer : in_range d (suc n) q ≡ true = ground arith in
          let other : (d + n == s + (q - d)) ≡ false = ground arith in
          rest ∙ rw (inside, outer, other) refl
      | inr outside ↦ elim (Bool-cases (d + n == q)) [
        | inl same ↦
            let outer : in_range d (suc n) q ≡ true = ground arith in
            let e : s + (q - d) ≡ s + n = ground arith in rest ∙ rw (outside, outer, same, e) refl
        | inr differ ↦
            let outer : in_range d (suc n) q ≡ false = ground arith in
            rest ∙ rw (outside, outer, differ) refl
      ]
    ]

-- However the two ranges overlap, `memmove` leaves in the target what stood in the source before, and
-- every other byte as it was.
pub memmove_lem :
    (m : Bytes) (d s n q : ℕ)
    → memmove m d s n q ≡ (if in_range d n q then m (s + (q - d)) else m q)
unfolding memmove
memmove_lem m d s n q = elim (Bool-cases (ltb d s)) [
  | inl below ↦ rw below (memcpy_lem n m d s q (λ i j lt lt' e. absurd (ground (arith, e, below))))
  | inr above ↦ rw above (copy_down_lem n m d s q (ground arith))
]
