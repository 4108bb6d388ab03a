-- ===== src/Drivers/Rtc/Tests.antt =====
-- A read of the clock.
use h3os.Base.{ℕ, ◌≡◌, refl, arith, some, ◌==◌, ltb, if◌then◌else◌}
use h3os.Base.Bits.{get_bit}
use h3os.Drivers.Rtc.{Holds, rtc_read, rtc_read-Holds}

-- 1999-12-31 23:59:58, after two reads during an update.
abbrev registers : ℕ → ℕ
registers r =
    if r == 0
    then 0x58
    else if r == 2
    then 0x59
    else if r == 4
    then 0x23
    else if r == 7
    then 0x31
    else if r == 8
    then 0x12
    else if r == 9
    then 0x99
    else if r == 0x32
    then 0x19
    else 0x02

registers-Holds : Holds registers 58 59 23 31 12 19 99
unfolding get_bit
registers-Holds = record {
  in_bcd = refl;
  second_at = refl;
  minute_at = refl;
  hour_at = refl;
  day_at = refl;
  month_at = refl;
  cent_at = refl;
  yr_at = refl;
  small = omega arith;
}

rtc_read-Holds_example :
    rtc_read 10 (λ k. if ltb k 2 then 0x80 else 0x26) registers
    ≡ some (record { second = 58; minute = 59; hour = 23; day = 31; month = 12; year = 3999 })
unfolding get_bit
rtc_read-Holds_example =
    rtc_read-Holds 10 (λ k. if ltb k 2 then 0x80 else 0x26) registers 2 58 59 23 31 12 19 99
      registers-Holds (omega arith) refl
