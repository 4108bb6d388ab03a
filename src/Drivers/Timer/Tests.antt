-- ===== src/Drivers/Timer/Tests.antt =====
-- A sleep of 20 ms at 100 Hz.
use h3os.Base.{ℕ, ◌+◌, List, [], ◌∷◌, arith}
use h3os.Drivers.Timer.{Timer, Wakes, timer_sleep_ms, timer_sleep_ms_lem, timer_uptime_ms, total}

abbrev started : Timer
started = record { g_ticks = 7; g_freq = 100 }

-- One timer interrupt, another device's, then three of the timer in one wait.
abbrev waits : List ℕ
waits = 1 ∷ 0 ∷ 3 ∷ []

timer_sleep_ms_lem_example :
    Wakes started waits (timer_uptime_ms started + 20) (timer_sleep_ms waits started 20)
unfolding timer_uptime_ms total
timer_sleep_ms_lem_example = timer_sleep_ms_lem waits started 20 (omega arith) (omega arith)
