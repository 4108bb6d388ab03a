-- ===== src/Kernel/Adaptive.antt =====
-- kernel/core/adaptive.c: the performance profile chosen from the hardware.
use h3os.Base.{ℕ, ◌/◌, ◌≡◌, ◌≤◌, arith, Bool, true, false, not, ◌||◌, ltb, leb, if◌then◌else◌}

-- `perf_profile_t`
pub data PerfProfile : Type 0 where
  low balanced high : PerfProfile

-- `perf_settings_t`
pub record PerfSettings : Type 0 where
  pub profile : PerfProfile
  pub animations : Bool
  pub blur : Bool
  pub shadows : Bool
  pub transparency : Bool
  pub target_fps : ℕ
  pub max_windows : ℕ

-- `adaptive_init`: `total_bytes` is from `pmm_get_stats`, the processor's facts from `cpu_get_info`.
pub adaptive_init : ℕ → ℕ → Bool → PerfSettings
adaptive_init total_bytes logical_cpus has_sse2 =
    let mem_mb = total_bytes / 1048576 in
    if ltb mem_mb 512 || leb logical_cpus 1 || not has_sse2
    then record {
      profile = low;
      animations = false;
      blur = false;
      shadows = false;
      transparency = false;
      target_fps = 30;
      max_windows = 4;
    }
    else if ltb mem_mb 2048 || ltb logical_cpus 4
    then record {
      profile = balanced;
      animations = true;
      blur = false;
      shadows = true;
      transparency = true;
      target_fps = 60;
      max_windows = 12;
    }
    else record {
      profile = high;
      animations = true;
      blur = true;
      shadows = true;
      transparency = true;
      target_fps = 60;
      max_windows = 32;
    }

abbrev pub rank : PerfProfile → ℕ
rank low = 0
rank balanced = 1
rank high = 2

abbrev pub as_number : Bool → ℕ
as_number true = 1
as_number false = 0

-- More memory, more processors or SSE2 never turn an effect off, lower the frame rate or the number
-- of windows, or lower the profile; and the number of windows is never more than the 32 slots of
-- the window manager.
pub adaptive_init_mono :
    (b b' c c' : ℕ) (s s' : Bool)
    → b ≤ b'
    → c ≤ c'
    → (s ≡ true → s' ≡ true)
    → let p = adaptive_init b c s in
      let q = adaptive_init b' c' s' in
      (rank p.profile ≤ rank q.profile)
      × (p.max_windows ≤ q.max_windows)
      × (q.max_windows ≤ 32)
      × (p.target_fps ≤ q.target_fps)
      × (as_number p.animations ≤ as_number q.animations)
      × (as_number p.blur ≤ as_number q.blur)
      × (as_number p.shadows ≤ as_number q.shadows)
unfolding adaptive_init
adaptive_init_mono b b' c c' s s' hb hc hs = ground arith
