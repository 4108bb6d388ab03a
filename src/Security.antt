-- ===== src/Security.antt =====
-- security/security.c: the users and the permission check.
mod Tests
use h3os.Base.{
  ℕ, zero, suc, ◌+◌, ◌-◌, ◌*◌, ◌/◌, ◌%◌, ◌^◌, ◌≡◌, ◌≢◌, ◌≤◌, ◌<◌, refl, sym, arith, Bool, true,
  false, not, Option, none, some, List, [], ◌∷◌, ◌++◌, length, ◌↔◌, ◌⊎◌, ◌==◌, ◌&&◌, ◌||◌, ltb, leb,
  leb→le, ==_iff, if◌then◌else◌, ap, ◌∙◌, update, Bool-cases, inl, inr, u8, u16, u32, u64, sub_u64,
  take, get_or, xor, min,
}
use h3os.Base.Bits.{get_bit, all_below, all_below_sound}

-- `user_t`
pub record User : Type 0 where
  pub uid : ℕ
  pub gid : ℕ
  pub name : List ℕ
  pub active : Bool

pub record Users : Type 0 where
  pub users : ℕ → User
  pub current : Option ℕ

abbrev pub zero_user : User
zero_user = record { uid = 0; gid = 0; name = []; active = false }

abbrev pub root_user : User
root_user = record { uid = 0; gid = 0; name = b'r' ∷ b'o' ∷ b'o' ∷ b't' ∷ []; active = true }

abbrev pub plain_user : User
plain_user = record { uid = 1000; gid = 1000; name = b'u' ∷ b's' ∷ b'e' ∷ b'r' ∷ []; active = true }

-- `current = &users[1]`
pub security_init : Users
security_init = record {
  users = update (update (λ _. zero_user) 0 root_user) 1 plain_user;
  current = some 1;
}

-- The shift to the bits of the class that the user is in.
abbrev pub class_shift : User → ℕ → ℕ → ℕ
class_shift u uid gid = if u.uid == uid then 6 else if u.gid == gid then 3 else 0

-- `(mode >> shift) & 7`
abbrev pub class_bits : ℕ → ℕ → ℕ
class_bits mode shift = mode / 2 ^ shift % 8

pub check_user : User → ℕ → ℕ → ℕ → Bool → Bool
check_user u mode uid gid write =
    if u.uid == 0
    then true
    else (let bits = class_bits mode (class_shift u uid gid) in
        if write then get_bit bits 1 else get_bit bits 2)

pub security_check_perm : Users → ℕ → ℕ → ℕ → Bool → Bool
security_check_perm s mode uid gid write = elim s.current [
  | none ↦ false
  | some i ↦ check_user (s.users i) mode uid gid write
]

-- One octal digit of a mode: read, write and execute.
pub record Rwx : Type 0 where
  pub r : Bool
  pub w : Bool
  pub x : Bool

abbrev pub digit : Rwx → ℕ
digit p = (if p.r then 4 else 0) + (if p.w then 2 else 0) + (if p.x then 1 else 0)

-- The mode with the digits of owner, group and others.
abbrev pub mode_of : Rwx → Rwx → Rwx → ℕ
mode_of o g a = digit o * 64 + digit g * 8 + digit a

digit_bits :
    (r w x : Bool)
    → (get_bit (digit (record { r = r; w = w; x = x })) 1 ≡ w)
      × (get_bit (digit (record { r = r; w = w; x = x })) 2 ≡ r)
unfolding get_bit
digit_bits true true true = (refl, refl)
digit_bits true true false = (refl, refl)
digit_bits true false true = (refl, refl)
digit_bits true false false = (refl, refl)
digit_bits false true true = (refl, refl)
digit_bits false true false = (refl, refl)
digit_bits false false true = (refl, refl)
digit_bits false false false = (refl, refl)

digit-lt : (p : Rwx) → digit p < 8
digit-lt p = ground arith

-- The digit that decides: the owner's, else the group's, else the others'.
abbrev pub class_of : User → ℕ → ℕ → Rwx → Rwx → Rwx → Rwx
class_of u uid gid o g a = if u.uid == uid then o else if u.gid == gid then g else a

class_bits_lem :
    (u : User) (uid gid : ℕ) (o g a : Rwx)
    → class_bits (mode_of o g a) (class_shift u uid gid) ≡ digit (class_of u uid gid o g a)
class_bits_lem u uid gid o g a = elim (Bool-cases (u.uid == uid)) [
  | inl e ↦ rw e (omega (arith, digit-lt o, digit-lt g, digit-lt a))
  | inr ne ↦ rw ne (elim (Bool-cases (u.gid == gid)) [
    | inl e ↦ rw e (omega (arith, digit-lt o, digit-lt g, digit-lt a))
    | inr ne' ↦ rw ne' (omega (arith, digit-lt o, digit-lt g, digit-lt a))
  ])
]

bits_of :
    (p : Rwx) (write : Bool)
    → (if write then get_bit (digit p) 1 else get_bit (digit p) 2) ≡ (if write then p.w else p.r)
bits_of p true = (digit_bits p.r p.w p.x).0
bits_of p false = (digit_bits p.r p.w p.x).1

-- For the current user the permission check is that of UNIX: root may do everything; otherwise the
-- owner's digit of the mode decides for the owner, the group's for a member of the group who is not
-- the owner, and the last for all others, a write by its write bit and a read by its read bit.
pub security_check_perm_lem :
    (s : Users) (i : ℕ) (o g a : Rwx) (uid gid : ℕ) (write : Bool)
    → s.current ≡ some i
    → security_check_perm s (mode_of o g a) uid gid write ≡ (
        (s.users i).uid == 0
        || (if write
            then (class_of (s.users i) uid gid o g a).w
            else (class_of (s.users i) uid gid o g a).r))
unfolding security_check_perm check_user
security_check_perm_lem s i o g a uid gid write e = rw e (elim (Bool-cases ((s.users i).uid == 0)) [
  | inl root ↦ rw root refl
  | inr user ↦
      rw (user, class_bits_lem (s.users i) uid gid o g a)
        (bits_of (class_of (s.users i) uid gid o g a) write)
])
