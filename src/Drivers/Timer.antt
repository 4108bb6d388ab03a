-- ===== src/Drivers/Timer.antt =====
-- drivers/timer/timer.c: the interval timer.
mod Tests
use native.Mathlib.Nat.{div-le_self}
use h3os.Base.Bits.{all_below, all_below_sound}
use h3os.Base.{
  ℕ, zero, suc, ◌+◌, ◌-◌, ◌*◌, ◌/◌, ◌%◌, ◌^◌, ◌≡◌, ◌≢◌, ◌≤◌, ◌<◌, refl, sym, arith, Bool, true,
  false, not, Option, none, some, List, [], ◌∷◌, ◌++◌, length, ◌↔◌, ◌⊎◌, ◌==◌, ◌&&◌, ◌||◌, ltb, leb,
  leb→le, ==_iff, if◌then◌else◌, ap, ◌∙◌, update, Bool-cases, inl, inr, u8, u16, u32, u64, sub_u64,
  take, get_or, xor, min,
}

pub record Timer : Type 0 where
  pub g_ticks : ℕ
  pub g_freq : ℕ

-- The two bounds on the frequency.
abbrev pub clamp_hz : ℕ → ℕ
clamp_hz hz = let hz' = if ltb hz 18 then 18 else hz in if ltb 1000 hz' then 1000 else hz'

-- The state, and the two bytes written to port 0x40, low and high.
pub timer_init : ℕ → Timer × ℕ × ℕ
timer_init hz =
    let divisor = 1193182 / clamp_hz hz in
    (record { g_ticks = 0; g_freq = clamp_hz hz }, u8 divisor, u8 (divisor / 256))

unfoldable pub timer_irq : Timer → Timer
timer_irq s = record s { g_ticks = u64 (s.g_ticks + 1) }

unfoldable pub timer_uptime_ms : Timer → ℕ
timer_uptime_ms s = u64 (s.g_ticks * 1000) / s.g_freq

-- So many timer interrupts.
unfoldable pub interrupts : ℕ → Timer → Timer
interrupts zero s = s
interrupts (suc n) s = interrupts n (timer_irq s)

-- The loop of `timer_sleep_ms`. Each `hlt` ends with an interrupt, of the timer or of another device:
-- the list has the number of timer interrupts during each. `none`: the list ends before the sleep.
unfoldable pub sleep_loop : List ℕ → Timer → ℕ → Option Timer
sleep_loop [] s target = if ltb (timer_uptime_ms s) target then none else some s
sleep_loop (n ∷ waits) s target =
    let rest = sleep_loop waits (interrupts n s) target in
    if ltb (timer_uptime_ms s) target then rest else some s

unfoldable pub timer_sleep_ms : List ℕ → Timer → ℕ → Option Timer
timer_sleep_ms waits s ms = sleep_loop waits s (u64 (timer_uptime_ms s + ms))

two_bytes : (d : ℕ) → d < 65536 → u8 d + 256 * u8 (d / 256) ≡ d
two_bytes d lt = omega arith

-- The divisor of every frequency the clamp lets through.
divisor_fits : (c : ℕ) → 18 < c → c ≤ 1000 → 1193182 / c < 65536
unfolding all_below
divisor_fits c lo hi =
    let tested =
      all_below_sound 1001 (λ k. leb k 18 || ltb (1193182 / k) 65536) c refl (omega arith) in
    ground arith

clamp_hz_fast : (hz : ℕ) → ltb 18 hz ≡ true → (18 < clamp_hz hz) × (clamp_hz hz ≤ 1000)
clamp_hz_fast hz e = ground arith

clamp_hz_slow : (hz : ℕ) → ltb 18 hz ≡ false → clamp_hz hz ≡ 18
clamp_hz_slow hz e = ground arith

-- The bytes written are the divisor of the frequency kept, if that is 19 Hz or more. At 18 Hz, to
-- which every lower frequency is raised too, the divisor 66287 does not fit the timer's 16 bits and
-- 751 is written, which gives about 1589 Hz.
pub timer_init_divisor :
    (hz : ℕ)
    → let (s, lo, hi) = timer_init hz in
      (18 ≤ s.g_freq)
      × (s.g_freq ≤ 1000)
      × (lo + 256 * hi ≡ (if ltb 18 hz then 1193182 / s.g_freq else 751))
unfolding timer_init
timer_init_divisor hz = elim (Bool-cases (ltb 18 hz)) [
  | inl fast ↦
      let (lo, hi) = clamp_hz_fast hz fast in
      rw fast
        (omega arith, hi, two_bytes (1193182 / clamp_hz hz) (divisor_fits (clamp_hz hz) lo hi))
  | inr slow ↦ rw (slow, clamp_hz_slow hz slow) (omega arith, omega arith, refl)
]

unfoldable pub total : List ℕ → ℕ
total [] = 0
total (n ∷ waits) = n + total waits

interrupts_lem :
    (n : ℕ) (s : Timer)
    → s.g_ticks + n < 2 ^ 64
    → ((interrupts n s).g_ticks ≡ s.g_ticks + n) × ((interrupts n s).g_freq ≡ s.g_freq)
unfolding interrupts timer_irq
interrupts_lem zero s room = (omega arith, refl)
interrupts_lem (suc n) s room =
    let next : u64 (s.g_ticks + 1) ≡ s.g_ticks + 1 = omega arith in
    let (ticks, freq) = interrupts_lem n (timer_irq s) (unfold timer_irq in omega arith) in
    (omega arith, freq)

-- Where the loop ends: behind some of the waits, when the uptime has reached the target.
pub record Wakes (s : Timer) (waits : List ℕ) (target : ℕ) (o : Option Timer) : Type 0 where
  pub before : List ℕ
  pub after : List ℕ
  pub state : Timer
  pub parts : waits ≡ before ++ after
  pub returns : o ≡ some state
  pub ticks : state.g_ticks ≡ s.g_ticks + total before
  pub freq : state.g_freq ≡ s.g_freq
  pub reached : target ≤ timer_uptime_ms state

more :
    (s : Timer) (n : ℕ) (waits : List ℕ) (target : ℕ) (o : Option Timer)
    → s.g_ticks + n < 2 ^ 64
    → Wakes (interrupts n s) waits target o
    → Wakes s (n ∷ waits) target o
unfolding total
more s n waits target o room w =
    let (ticks, freq) = interrupts_lem n s room in
    record {
      before = n ∷ w.before;
      after = w.after;
      state = w.state;
      parts = ap (λ l. n ∷ l) w.parts;
      returns = w.returns;
      ticks = omega (arith, ticks, w.ticks);
      freq = w.freq ∙ freq;
      reached = w.reached;
    }

at_once :
    (s : Timer) (waits : List ℕ) (target : ℕ)
    → target ≤ timer_uptime_ms s
    → Wakes s waits target (some s)
unfolding total
at_once s waits target le = record {
  before = [];
  after = waits;
  state = s;
  parts = refl;
  returns = refl;
  ticks = omega arith;
  freq = refl;
  reached = le;
}

sleep_loop_lem :
    (waits : List ℕ) (s : Timer) (target : ℕ)
    → (s.g_ticks + total waits) * 1000 < 2 ^ 64
    → target ≤ (s.g_ticks + total waits) * 1000 / s.g_freq
    → Wakes s waits target (sleep_loop waits s target)
unfolding sleep_loop total
sleep_loop_lem [] s target room enough =
    let whole : u64 (s.g_ticks * 1000) ≡ (s.g_ticks + 0) * 1000 = omega arith in
    let reached : target ≤ timer_uptime_ms s = unfold timer_uptime_ms in rw whole enough in
    let late : ltb (timer_uptime_ms s) target ≡ false = ground arith in
    rw late (at_once s [] target reached)
sleep_loop_lem (n ∷ waits) s target room enough =
    elim (Bool-cases (ltb (timer_uptime_ms s) target)) [
      | inr late ↦ rw late (at_once s (n ∷ waits) target (ground arith))
      | inl early ↦
          let (ticks, freq) = interrupts_lem n s (omega arith) in
          let t = interrupts n s in
          let sum : t.g_ticks + total waits ≡ s.g_ticks + (n + total waits) =
            omega (arith, ticks) in
          let rest = sleep_loop_lem waits t target (rw sum room) (rw (sum, freq) enough) in
          rw early (more s n waits target (sleep_loop waits t target) (omega arith) rest)
    ]

-- While the counter of milliseconds does not wrap: when enough timer interrupts come, however they are
-- spread over the waits and mixed with others, `timer_sleep_ms` returns; the counter was then raised by
-- the timer interrupts of the waits up to there, one each, and the uptime has grown by `ms` at least.
pub timer_sleep_ms_lem :
    (waits : List ℕ) (s : Timer) (ms : ℕ)
    → (s.g_ticks + total waits) * 1000 < 2 ^ 64
    → timer_uptime_ms s + ms ≤ (s.g_ticks + total waits) * 1000 / s.g_freq
    → Wakes s waits (timer_uptime_ms s + ms) (timer_sleep_ms waits s ms)
unfolding timer_sleep_ms
timer_sleep_ms_lem waits s ms room enough =
    let small : u64 (timer_uptime_ms s + ms) ≡ timer_uptime_ms s + ms =
      omega (arith, div-le_self ((s.g_ticks + total waits) * 1000) s.g_freq) in
    rw small (sleep_loop_lem waits s (timer_uptime_ms s + ms) room enough)
