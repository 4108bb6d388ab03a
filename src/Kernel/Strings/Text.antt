-- ===== src/Kernel/Strings/Text.antt =====
-- What the functions of `string.c` on strings answer, in terms of the text that a string holds.
use h3os.Base.{
  ℕ, zero, suc, ◌+◌, ◌≡◌, ◌≢◌, ◌<◌, refl, ap, ◌∙◌, arith, Bool, true, false, Option, some, List, [],
  ◌∷◌, length, ◌==◌, ◌&&◌, if◌then◌else◌, update, drop, Bool-cases, inl, inr,
}
use h3os.Base.Int.{ℤ, pos, sub_ℕ}
use mathlib.Core.Path.{subst}
use h3os.Boot.{Bytes}
use h3os.Kernel.Strings.Copy.{ne→not_eq}
use h3os.Kernel.Strings.{
  count_bytes, strlen, strcmp, strcpy, memcpy, matches_at, search_from, strstr,
}

-- The string at `p` holds this text.
abbrev pub IsString : Bytes → ℕ → List ℕ → Type 0
IsString m p [] = m p ≡ 0
IsString m p (x ∷ xs) = (m p ≡ x) × (0 < x) × IsString m (p + 1) xs

pub IsString-at : (m : Bytes) (p q : ℕ) (xs : List ℕ) → p ≡ q → IsString m p xs → IsString m q xs
IsString-at m p q xs e = subst (λ r. IsString m r xs) e

count_bytes_lem :
    (fuel : ℕ) (m : Bytes) (s n : ℕ) (xs : List ℕ)
    → IsString m (s + n) xs
    → length xs < fuel
    → count_bytes fuel m s n ≡ some (n + length xs)
unfolding count_bytes
count_bytes_lem zero m s n xs h lt = absurd (omega arith)
count_bytes_lem (suc fuel) m s n [] h lt = rw h (ap some (omega arith))
count_bytes_lem (suc fuel) m s n (x ∷ xs) (e, more, h) lt =
    let going : (m (s + n) == 0) ≡ false = ground (arith, e) in
    let e' : n + 1 + length xs ≡ n + suc (length xs) = omega arith in
    rw going (
      count_bytes_lem fuel m s (n + 1) xs
        (IsString-at m (s + n + 1) (s + (n + 1)) xs (omega arith) h) (omega arith)
      ∙ ap some e')

pub strlen_lem :
    (fuel : ℕ) (m : Bytes) (s : ℕ) (xs : List ℕ)
    → IsString m s xs
    → length xs < fuel
    → strlen fuel m s ≡ some (length xs)
strlen_lem fuel m s xs h lt =
    count_bytes_lem fuel m s 0 xs (IsString-at m s (s + 0) xs (omega arith) h) lt
    ∙ ap some (omega arith)

-- The order of texts: the difference at the first place where they differ, an end counting as 0.
unfoldable pub text_order : List ℕ → List ℕ → ℤ
text_order [] [] = pos 0
text_order [] (y ∷ ys) = sub_ℕ 0 y
text_order (x ∷ xs) [] = sub_ℕ x 0
text_order (x ∷ xs) (y ∷ ys) = if x == y then text_order xs ys else sub_ℕ x y

-- `strcmp` of two strings, with more rounds than the first is long, is the order of their texts.
pub strcmp_lem :
    (fuel : ℕ) (m : Bytes) (a b : ℕ) (xs ys : List ℕ)
    → IsString m a xs
    → IsString m b ys
    → length xs < fuel
    → strcmp fuel m a b ≡ some (text_order xs ys)
unfolding strcmp text_order
strcmp_lem zero m a b xs ys h k lt = absurd (omega arith)
strcmp_lem (suc fuel) m a b [] [] h k lt = rw (h, k) refl
strcmp_lem (suc fuel) m a b [] (y ∷ ys) h (e, more, k) lt = rw (h, e) refl
strcmp_lem (suc fuel) m a b (x ∷ xs) [] (e, more, h) k lt =
    let differ : (x == 0) ≡ false = ground arith in rw (e, k, differ) refl
strcmp_lem (suc fuel) m a b (x ∷ xs) (y ∷ ys) (e, more, h) (f, more', k) lt =
    let full : (x == 0) ≡ false = ground arith in
    elim (Bool-cases (x == y)) [
      | inl same ↦ rw (e, f, full, same) (strcmp_lem fuel m (a + 1) (b + 1) xs ys h k (omega arith))
      | inr differ ↦ rw (e, f, full, differ) refl
    ]

-- Whether the first text starts the second one.
unfoldable pub starts : List ℕ → List ℕ → Bool
starts [] ys = true
starts (x ∷ xs) [] = false
starts (x ∷ xs) (y ∷ ys) = x == y && starts xs ys

matches_at_lem :
    (fuel : ℕ) (m : Bytes) (h n : ℕ) (hs ns : List ℕ)
    → IsString m h hs
    → IsString m n ns
    → length ns < fuel
    → matches_at fuel m h n ≡ some (starts ns hs)
unfolding matches_at starts
matches_at_lem zero m h n hs ns a b lt = absurd (omega arith)
matches_at_lem (suc fuel) m h n [] [] a b lt = rw (a, b) refl
matches_at_lem (suc fuel) m h n [] (y ∷ ns) a (e, more, b) lt =
    let differ : (y == 0) ≡ false = ground arith in rw (a, e, differ) refl
matches_at_lem (suc fuel) m h n (x ∷ hs) [] (e, more, a) b lt =
    let full : (x == 0) ≡ false = ground arith in rw (e, b, full) refl
matches_at_lem (suc fuel) m h n (x ∷ hs) (y ∷ ns) (e, more, a) (f, more', b) lt =
    let full : (x == 0) ≡ false = ground arith in
    let full' : (y == 0) ≡ false = ground arith in
    elim (Bool-cases (x == y)) [
      | inl same ↦
          let same' : (y == x) ≡ true = ground arith in
          rw (e, f, full, full', same, same')
            (matches_at_lem fuel m (h + 1) (n + 1) hs ns a b (omega arith))
      | inr differ ↦
          let differ' : (y == x) ≡ false = ground arith in
          rw (e, f, full, full', differ, differ') refl
    ]

-- What `strstr` answers: the address of the first place where the needle starts what is left of the
-- text, or 0.
pub data Occurs (ns hs : List ℕ) (h : ℕ) : Option ℕ → Type 0 where
  first :
      (k a : ℕ)
      → a ≡ h + k
      → starts ns (drop k hs) ≡ true
      → ((j : ℕ) → j < k → starts ns (drop j hs) ≡ false)
      → Occurs ns hs h (some a)
  nowhere : ((j : ℕ) → starts ns (drop j hs) ≡ false) → Occurs ns hs h (some 0)

starts_nil : (n : ℕ) (ns : List ℕ) (j : ℕ) → starts (n ∷ ns) (drop j []) ≡ false
unfolding starts
starts_nil n ns zero = refl
starts_nil n ns (suc j) = refl

Occurs-later :
    (ns hs : List ℕ) (c h : ℕ) (o : Option ℕ)
    → starts ns (c ∷ hs) ≡ false
    → Occurs ns hs (h + 1) o
    → Occurs ns (c ∷ hs) h o
Occurs-later ns hs c h o miss (first k a e hit before) = first (suc k) a (omega arith) hit λ j lt.
    elim j as (λ j. j < suc k → starts ns (drop j (c ∷ hs)) ≡ false) [
      | zero ↦ λ l. miss
      | suc i ↦ λ l. before i (omega arith)
    ]
      lt
Occurs-later ns hs c h o miss (nowhere never) =
    nowhere
      λ j. elim j as (λ j. starts ns (drop j (c ∷ hs)) ≡ false) [ zero ↦ miss | suc i ↦ never i ]

search_from_lem :
    (fuel inner : ℕ) (m : Bytes) (h n c : ℕ) (hs ns : List ℕ)
    → IsString m h hs
    → IsString m n (c ∷ ns)
    → length hs < fuel
    → suc (length ns) < inner
    → (o : Option ℕ) × (search_from fuel inner m h n ≡ o) × Occurs (c ∷ ns) hs h o
unfolding search_from
search_from_lem zero inner m h n c hs ns a b lt lt' = absurd (omega arith)
search_from_lem (suc fuel) inner m h n c [] ns a b lt lt' =
    (some 0, rw a refl, nowhere (starts_nil c ns))
search_from_lem (suc fuel) inner m h n c (x ∷ hs) ns (e, more, a) b lt lt' =
    let full : (m h == 0) ≡ false = ground (arith, e) in
    let test = matches_at_lem inner m h n (x ∷ hs) (c ∷ ns) (e, more, a) b lt' in
    elim (Bool-cases (starts (c ∷ ns) (x ∷ hs))) [
      | inl hit ↦ (
        some h,
        rw (full, test, hit) refl,
        first 0 h (omega arith) hit (λ j l. absurd (omega arith)),
      )
      | inr miss ↦
          let (o, f, occurs) =
            search_from_lem fuel inner m (h + 1) n c hs ns a b (omega arith) lt' in
          (o, rw (full, test, miss) f, Occurs-later (c ∷ ns) hs x h o miss occurs)
    ]

-- With more rounds than either text is long, `strstr` returns: for an empty needle the text itself,
-- else the first place where the needle stands in the text, and `NULL` only if it stands nowhere.
pub strstr_lem :
    (fuel : ℕ) (m : Bytes) (h n : ℕ) (hs ns : List ℕ)
    → IsString m h hs
    → IsString m n ns
    → length hs < fuel
    → length ns < fuel
    → (o : Option ℕ) × (strstr fuel m h n ≡ o) × Occurs ns hs h o
unfolding strstr
strstr_lem fuel m h n hs [] a b lt lt' = (
  some h,
  rw b refl,
  first 0 h (omega arith) (unfold starts in refl) (λ j l. absurd (omega arith)),
)
strstr_lem fuel m h n hs (c ∷ ns) a b lt lt' =
    let full : (m n == 0) ≡ false = ground arith in
    let (o, f, occurs) = search_from_lem fuel fuel m h n c hs ns a b lt lt' in
    (o, rw full f, occurs)

IsString-update :
    (m : Bytes) (d v p : ℕ) (xs : List ℕ)
    → ((j : ℕ) → j < suc (length xs) → d ≢ p + j)
    → IsString m p xs
    → IsString (update m d v) p xs
IsString-update m d v p [] apart h =
    let other : (d == p) ≡ false = ne→not_eq d p (λ e. apart 0 (omega arith) (omega (arith, e))) in
    rw other h
IsString-update m d v p (x ∷ xs) apart (e, more, h) =
    let other : (d == p) ≡ false = ne→not_eq d p (λ f. apart 0 (omega arith) (omega (arith, f))) in
    (
      rw other e,
      more,
      IsString-update m d v (p + 1) xs (λ j lt f. apart (suc j) (omega arith) (omega (arith, f))) h,
    )

-- A copy of a string copies its bytes and the 0, if the source is not overwritten before it is read.
pub strcpy-memcpy :
    (fuel : ℕ) (m : Bytes) (d s : ℕ) (xs : List ℕ)
    → IsString m s xs
    → length xs < fuel
    → ((i j : ℕ) → i < j → j < suc (length xs) → d + i ≢ s + j)
    → strcpy fuel m d s ≡ some (memcpy m d s (suc (length xs)))
unfolding strcpy memcpy
strcpy-memcpy zero m d s xs h lt apart = absurd (omega arith)
strcpy-memcpy (suc fuel) m d s [] h lt apart = rw h refl
strcpy-memcpy (suc fuel) m d s (x ∷ xs) (e, more, h) lt apart =
    let full : (m s == 0) ≡ false = ground (arith, e) in
    let kept =
      IsString-update m d (m s) (s + 1) xs
        (λ j l f. apart 0 (suc j) (omega arith) (omega arith) (omega (arith, f))) h in
    rw full (
      strcpy-memcpy fuel (update m d (m s)) (d + 1) (s + 1) xs kept (omega arith)
        (λ i j l l' f. apart (i + 1) (j + 1) (omega arith) (omega arith) (omega (arith, f))))

pub IsString-copied :
    (m t : Bytes) (d s : ℕ) (xs : List ℕ)
    → ((i : ℕ) → i < suc (length xs) → t (d + i) ≡ m (s + i))
    → IsString m s xs
    → IsString t d xs
IsString-copied m t d s [] c h =
    let e : t d ≡ m s =
      ap t {x = d} {y = d + 0} (omega arith)
      ∙ c 0 (omega arith)
      ∙ ap m {x = s + 0} {y = s} (omega arith) in
    e ∙ h
IsString-copied m t d s (x ∷ xs) c (e, more, h) =
    let e' : t d ≡ m s =
      ap t {x = d} {y = d + 0} (omega arith)
      ∙ c 0 (omega arith)
      ∙ ap m {x = s + 0} {y = s} (omega arith) in
    (
      e' ∙ e,
      more,
      IsString-copied m t (d + 1) (s + 1) xs
          (λ i lt.
            ap t {x = d + 1 + i} {y = d + suc i} (omega arith)
            ∙ c (suc i) (omega arith)
            ∙ ap m {x = s + suc i} {y = s + 1 + i} (omega arith))
          h,
    )
