-- ===== src/Kernel/Strings/Append.antt =====
-- What `strcat` leaves in memory.
use h3os.Base.{
  ℕ, suc, ◌+◌, ◌-◌, ◌≡◌, ◌≢◌, ◌<◌, refl, ap, ◌∙◌, arith, true, false, some, List, [], ◌∷◌, ◌++◌,
  length, if◌then◌else◌,
}
use h3os.Boot.{Bytes}
use h3os.Kernel.Strings.{strlen, strcat, strcpy, memcpy}
use h3os.Kernel.Strings.Copy.{in_range, memcpy_lem}
use h3os.Kernel.Strings.Text.{IsString, IsString-at, strlen_lem, strcpy-memcpy, IsString-copied}

IsString-append :
    (m t : Bytes) (d : ℕ) (xs ys : List ℕ)
    → ((i : ℕ) → i < length xs → t (d + i) ≡ m (d + i))
    → IsString m d xs
    → IsString t (d + length xs) ys
    → IsString t d (xs ++ ys)
IsString-append m t d [] ys c h k = IsString-at t (d + 0) d ys (omega arith) k
IsString-append m t d (x ∷ xs) ys c (e, more, h) k =
    let e' : t d ≡ m d =
      ap t {x = d} {y = d + 0} (omega arith)
      ∙ c 0 (omega arith)
      ∙ ap m {x = d + 0} {y = d} (omega arith) in
    (
      e' ∙ e,
      more,
      IsString-append m t (d + 1) xs ys
          (λ i lt.
            ap t {x = d + 1 + i} {y = d + suc i} (omega arith)
            ∙ c (suc i) (omega arith)
            ∙ ap m {x = d + suc i} {y = d + 1 + i} (omega arith))
          h (IsString-at t (d + suc (length xs)) (d + 1 + length xs) ys (omega arith) k),
    )

strcat_at :
    (fuel : ℕ) (m : Bytes) (d s n : ℕ)
    → strlen fuel m d ≡ some n
    → strcat fuel m d s ≡ strcpy fuel m (d + n) s
unfolding strcat strcpy
strcat_at fuel m d s n e = rw (strcat, e) refl

-- If the place behind the text at `d` does not meet the source, and there are more rounds than either
-- text is long: `strcat` returns with the two texts in one string at `d`, and only the bytes behind
-- the first text are written.
pub strcat_lem :
    (fuel : ℕ) (m : Bytes) (d s : ℕ) (xs ys : List ℕ)
    → IsString m d xs
    → IsString m s ys
    → length xs < fuel
    → length ys < fuel
    → ((i j : ℕ) → i < suc (length ys) → j < suc (length ys) → d + length xs + i ≢ s + j)
    → (t : Bytes) × (strcat fuel m d s ≡ some t)
      × IsString t d (xs ++ ys)
      × ((q : ℕ)
          → t q ≡ (
              if in_range (d + length xs) (suc (length ys)) q
              then m (s + (q - (d + length xs)))
              else m q))
strcat_lem fuel m d s xs ys a b lt lt' apart =
    let e = d + length xs in
    let n = suc (length ys) in
    let t = memcpy m e s n in
    let bytes = λ (q : ℕ). memcpy_lem n m e s q (λ i j l l'. apart i j (omega arith) l') in
    let tail =
      IsString-copied m t e s ys
        (λ i l.
          let inside : in_range e n (e + i) ≡ true = ground arith in
          let back : s + (e + i - e) ≡ s + i = omega arith in
          bytes (e + i) ∙ rw (inside, back) refl)
        b in
    let head =
      IsString-append m t d xs ys
        (λ i l.
          let outside : in_range e n (d + i) ≡ false = ground arith in
          bytes (d + i) ∙ rw outside refl)
        a tail in
    (
      t,
      strcat_at fuel m d s (length xs) (strlen_lem fuel m d xs a lt)
          ∙ (strcpy-memcpy fuel m e s ys b lt' (λ i j l l'. apart i j (omega arith) l')),
      head,
      bytes,
    )
