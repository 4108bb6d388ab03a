-- ===== src/Kernel/Strings.antt =====
-- kernel/core/string.c: the memory and string functions. Memory is a byte at each address, and
-- pointers are addresses. A walk to a terminating 0 takes a number of rounds, and answers `none` when
-- they do not suffice.
pub mod Copy
pub mod Text
pub mod Append
pub mod Number
mod Tests
use h3os.Base.{
  ℕ, zero, suc, ◌+◌, ◌-◌, ◌*◌, ◌/◌, ◌%◌, ◌^◌, Bool, true, false, not, Option, none, some, List, [],
  ◌∷◌, ◌++◌, ◌==◌, ◌&&◌, ◌||◌, ltb, leb, if◌then◌else◌, update, u8, u64,
}
use h3os.Base.Int.{ℤ, pos, negsuc, sub_ℕ}
use h3os.Boot.{Bytes}

-- The loop of `memset`, `n` bytes from `p` on.
unfoldable pub memset : Bytes → ℕ → ℕ → ℕ → Bytes
memset m p c zero = m
memset m p c (suc n) = memset (update m p (u8 c)) (p + 1) c n

-- The first byte first.
unfoldable pub memcpy : Bytes → ℕ → ℕ → ℕ → Bytes
memcpy m d s zero = m
memcpy m d s (suc n) = memcpy (update m d (m s)) (d + 1) (s + 1) n

-- The last byte first.
unfoldable pub copy_down : Bytes → ℕ → ℕ → ℕ → Bytes
copy_down m d s zero = m
copy_down m d s (suc n) = copy_down (update m (d + n) (m (s + n))) d s n

unfoldable pub memmove : Bytes → ℕ → ℕ → ℕ → Bytes
memmove m d s n = if ltb d s then memcpy m d s n else copy_down m d s n

unfoldable pub memcmp : Bytes → ℕ → ℕ → ℕ → ℤ
memcmp m a b zero = pos 0
memcmp m a b (suc n) =
    let rest = memcmp m (a + 1) (b + 1) n in if m a == m b then rest else sub_ℕ (m a) (m b)

-- The loop of `strlen` with `n` bytes counted.
unfoldable pub count_bytes : ℕ → Bytes → ℕ → ℕ → Option ℕ
count_bytes zero m s n = none
count_bytes (suc fuel) m s n =
    let rest = count_bytes fuel m s (n + 1) in if m (s + n) == 0 then some n else rest

abbrev pub strlen : ℕ → Bytes → ℕ → Option ℕ
strlen fuel m s = count_bytes fuel m s 0

unfoldable pub strcmp : ℕ → Bytes → ℕ → ℕ → Option ℤ
strcmp zero m a b = none
strcmp (suc fuel) m a b =
    let rest = strcmp fuel m (a + 1) (b + 1) in
    if not (m a == 0) && (m a == m b) then rest else some (sub_ℕ (m a) (m b))

unfoldable pub strncmp : Bytes → ℕ → ℕ → ℕ → ℤ
strncmp m a b zero = pos 0
strncmp m a b (suc n) =
    let rest = strncmp m (a + 1) (b + 1) n in
    if not (m a == 0) && (m a == m b) then rest else sub_ℕ (m a) (m b)

-- `while ((*d++ = *src++));`
unfoldable pub strcpy : ℕ → Bytes → ℕ → ℕ → Option Bytes
strcpy zero m d s = none
strcpy (suc fuel) m d s =
    let m' = update m d (m s) in
    let rest = strcpy fuel m' (d + 1) (s + 1) in if m s == 0 then some m' else rest

-- The first loop of `strncpy` stops at the 0; the second one fills up with zeros.
unfoldable pub strncpy : Bytes → ℕ → ℕ → ℕ → Bytes
strncpy m d s zero = m
strncpy m d s (suc n) =
    let rest = strncpy (update m d (m s)) (d + 1) (s + 1) n in
    if m s == 0 then memset m d 0 (suc n) else rest

unfoldable pub strcat : ℕ → Bytes → ℕ → ℕ → Option Bytes
strcat fuel m d s = elim (strlen fuel m d) [ none ↦ none | some n ↦ strcpy fuel m (d + n) s ]

-- The inner loop of `strstr`: whether the needle ends before it differs from the text at `h`.
unfoldable pub matches_at : ℕ → Bytes → ℕ → ℕ → Option Bool
matches_at zero m h n = none
matches_at (suc fuel) m h n =
    let rest = matches_at fuel m (h + 1) (n + 1) in
    if not (m h == 0) && not (m n == 0) && (m h == m n) then rest else some (m n == 0)

-- The outer loop: the address found, 0 for `NULL`.
unfoldable pub search_from : ℕ → ℕ → Bytes → ℕ → ℕ → Option ℕ
search_from zero inner m h n = none
search_from (suc fuel) inner m h n =
    let rest = search_from fuel inner m (h + 1) n in
    if m h == 0
    then some 0
    else elim (matches_at inner m h n) [ none ↦ none | some found ↦ if found then some h else rest ]

unfoldable pub strstr : ℕ → Bytes → ℕ → ℕ → Option ℕ
strstr fuel m haystack needle =
    if m needle == 0 then some haystack else search_from fuel fuel m haystack needle

-- `(char)(digit < 10 ? '0' + digit : 'a' + digit - 10)`
abbrev pub digit_char : ℕ → ℕ
digit_char digit = if ltb digit 10 then b'0' + digit else b'a' + digit - 10

-- The loop that fills `tmp`, the lowest digit first. A round divides by 2 at least, so 64 suffice for
-- a u64, and `tmp` has room for 65.
unfoldable pub low_digits : ℕ → ℕ → ℕ → List ℕ
low_digits zero value base = []
low_digits (suc fuel) value base =
    let rest = low_digits fuel (value / base) base in
    if value == 0 then [] else digit_char (value % base) ∷ rest

-- `while (i--) *buf++ = tmp[i];`
unfoldable pub turn : List ℕ → List ℕ → List ℕ
turn [] out = out
turn (c ∷ tmp) out = turn tmp (c ∷ out)

-- The string that is left in `buf`.
unfoldable pub utoa : ℕ → ℕ → List ℕ
utoa value base =
    if ltb base 2 || ltb 16 base
    then []
    else if value == 0
    then b'0' ∷ []
    else turn (low_digits 64 value base) []

abbrev pub is_negative : ℤ → Bool
is_negative (pos n) = false
is_negative (negsuc n) = true

-- `(u64)value`, and `(u64)(-value)`
abbrev pub to_u64 : ℤ → ℕ
to_u64 (pos n) = u64 n
to_u64 (negsuc n) = u64 (2 ^ 64 - 1 - n)

abbrev pub negated_u64 : ℤ → ℕ
negated_u64 (pos n) = u64 (2 ^ 64 - n)
negated_u64 (negsuc n) = u64 (n + 1)

unfoldable pub itoa : ℤ → ℕ → List ℕ
itoa value base =
    if is_negative value && (base == 10)
    then b'-' ∷ utoa (negated_u64 value) base
    else utoa (to_u64 value) base
