-- ===== src/Drivers/Rtc.antt =====
-- drivers/rtc/rtc.c: the CMOS clock. `regs` gives the byte of each CMOS register while no update is
-- in progress, `status` the bytes that successive reads of register A give.
mod Tests
use h3os.Base.{
  ℕ, zero, suc, ◌+◌, ◌-◌, ◌*◌, ◌/◌, ◌%◌, ◌^◌, ◌≡◌, ◌≢◌, ◌≤◌, ◌<◌, refl, sym, arith, Bool, true,
  false, not, Option, none, some, List, [], ◌∷◌, ◌++◌, length, ◌↔◌, ◌⊎◌, ◌==◌, ◌&&◌, ◌||◌, ltb, leb,
  leb→le, ==_iff, if◌then◌else◌, ap, ◌∙◌, update, Bool-cases, inl, inr, u8, u16, u32, u64, sub_u64,
  take, get_or, xor, min,
}
use h3os.Base.Bits.{get_bit, all_below, all_below_sound}

-- `rtc_time_t`
pub record RtcTime : Type 0 where
  pub second : ℕ
  pub minute : ℕ
  pub hour : ℕ
  pub day : ℕ
  pub month : ℕ
  pub year : ℕ

-- `(v & 0x0F) + ((v >> 4) * 10)`
pub bcd_to_bin : ℕ → ℕ
bcd_to_bin v = u8 (v % 16 + v / 16 * 10)

-- `while (cmos_read(0x0A) & 0x80) { }`: the number of reads, or `none` if so many do not suffice.
pub wait_update : ℕ → (ℕ → ℕ) → ℕ → Option ℕ
wait_update zero status k = none
wait_update (suc fuel) status k =
    let rest = wait_update fuel status (k + 1) in
    if get_bit (status k) 7 then rest else some (k + 1)

abbrev decode : Bool → ℕ → ℕ
decode true v = bcd_to_bin v
decode false v = v

-- The year of the century and the year in it, with the rule for years below 2000.
pub full_year : ℕ → ℕ → ℕ
full_year cent yr =
    let year = u16 (cent * 100 + yr) in if ltb year 2000 then u16 (year + 2000) else year

-- The fields of the time, once the wait is over.
pub decode_time : (ℕ → ℕ) → RtcTime
decode_time regs =
    let bcd = not (get_bit (regs 0x0B) 2) in
    record {
      second = decode bcd (regs 0x00);
      minute = decode bcd (regs 0x02);
      hour = decode bcd (regs 0x04);
      day = decode bcd (regs 0x07);
      month = decode bcd (regs 0x08);
      year = full_year (decode bcd (regs 0x32)) (decode bcd (regs 0x09));
    }

pub rtc_read : ℕ → (ℕ → ℕ) → (ℕ → ℕ) → Option RtcTime
rtc_read fuel status regs = elim (wait_update fuel status 0) [
  | none ↦ none
  | some k ↦ some (decode_time regs)
]

-- The two digits of a number below 100.
abbrev pub bcd : ℕ → ℕ
bcd n = n / 10 * 16 + n % 10

bcd_to_bin-bcd : (n : ℕ) → n < 100 → bcd_to_bin (bcd n) ≡ n
unfolding bcd_to_bin
bcd_to_bin-bcd n lt = omega arith

-- The registers hold this time, each number as two decimal digits.
pub record Holds (regs : ℕ → ℕ) (second minute hour day month cent yr : ℕ) : Type 0 where
  pub in_bcd : get_bit (regs 0x0B) 2 ≡ false
  pub second_at : regs 0x00 ≡ bcd second
  pub minute_at : regs 0x02 ≡ bcd minute
  pub hour_at : regs 0x04 ≡ bcd hour
  pub day_at : regs 0x07 ≡ bcd day
  pub month_at : regs 0x08 ≡ bcd month
  pub cent_at : regs 0x32 ≡ bcd cent
  pub yr_at : regs 0x09 ≡ bcd yr
  pub small :
      (second < 100)
      × (minute < 100)
      × (hour < 100)
      × (day < 100)
      × (month < 100)
      × (cent < 100)
      × (yr < 100)

apart :
    (status : ℕ → ℕ) (k j : ℕ) → get_bit (status k) 7 ≡ true → get_bit (status j) 7 ≡ false → k ≢ j
apart status k j p q e = let p' : get_bit (status j) 7 ≡ true = rw e at p in cc

wait_update_ends :
    (fuel : ℕ) (status : ℕ → ℕ) (k j : ℕ)
    → k ≤ j
    → j < k + fuel
    → get_bit (status j) 7 ≡ false
    → (n : ℕ) × (wait_update fuel status k ≡ some n)
unfolding wait_update
wait_update_ends zero status k j le lt e = absurd (omega arith)
wait_update_ends (suc fuel) status k j le lt e = elim (Bool-cases (get_bit (status k) 7)) [
  | inr free ↦ (k + 1, rw free refl)
  | inl busy ↦
      let (n, r) =
        wait_update_ends fuel status (k + 1) j (omega (arith, apart status k j busy e))
          (omega arith) e in
      (n, rw busy r)
]

decode-bcd :
    (regs : ℕ → ℕ) {v : ℕ}
    → get_bit (regs 0x0B) 2 ≡ false
    → (n : ℕ) → v ≡ bcd n
    → n < 100
    → decode (not (get_bit (regs 0x0B) 2)) v ≡ n
decode-bcd regs b n e lt = rw (b, e) (bcd_to_bin-bcd n lt)

-- If the clock holds a time in binary-coded decimal, and the update is over at one of the reads of
-- its status, `rtc_read` returns that time; a year before 2000 comes out 2000 years late.
pub rtc_read-Holds :
    (fuel : ℕ) (status regs : ℕ → ℕ) (j second minute hour day month cent yr : ℕ)
    → Holds regs second minute hour day month cent yr
    → j < fuel
    → get_bit (status j) 7 ≡ false
    → rtc_read fuel status regs
      ≡ some (record {
        second = second;
        minute = minute;
        hour = hour;
        day = day;
        month = month;
        year = if ltb (cent * 100 + yr) 2000 then cent * 100 + yr + 2000 else cent * 100 + yr;
      })
unfolding rtc_read decode_time full_year
rtc_read-Holds fuel status regs j second minute hour day month cent yr h lt e =
    let (n, w) = wait_update_ends fuel status 0 j (omega arith) (omega arith) e in
    let (a, b, c, d, f, g, k) = h.small in
    rw
      (
        rtc_read,
        w,
        decode-bcd regs h.in_bcd second h.second_at a,
        decode-bcd regs h.in_bcd minute h.minute_at b,
        decode-bcd regs h.in_bcd hour h.hour_at c,
        decode-bcd regs h.in_bcd day h.day_at d,
        decode-bcd regs h.in_bcd month h.month_at f,
        decode-bcd regs h.in_bcd cent h.cent_at g,
        decode-bcd regs h.in_bcd yr h.yr_at k,
      )
      (ground arith)
