-- ===== src/Kernel/Log/Format.antt =====
-- The text that `kvprintf` makes of a format and its arguments, byte by byte, and the line that `klog` puts.
use mathlib.Core.List.{append_assoc}
use h3os.Base.{
  ℕ, ◌≡◌, ◌≤◌, refl, ap, ◌∙◌, arith, true, false, Option, none, some, List, [], ◌∷◌, ◌++◌, ltb,
  if◌then◌else◌, Option-cases, inl, inr,
}
use h3os.Kernel.Log.{
  Log, Arg, Mode, plain, percent, long, long2, next_byte, kvprintf, klog, is_percent, heading,
  level_name, ring_putc, ring_puts,
}
use h3os.Kernel.Log.Ring.{ring_puts-append}

-- The text that a format and its arguments stand for.
unfoldable pub format : Mode → List ℕ → List Arg → Option (List ℕ)
format mode [] args = if is_percent mode then none else some []
format mode (c ∷ fmt) args = elim (next_byte mode c args) [
  | none ↦ none
  | some (mode', text, args') ↦ elim (format mode' fmt args') [
    | none ↦ none
    | some rest ↦ some (text ++ rest)
  ]
]

abbrev written : Log → Option (List ℕ) → Option Log
written s none = none
written s (some t) = some (ring_puts s t)

join :
    (s : Log) (text : List ℕ) (o : Option (List ℕ))
    → written (ring_puts s text) o
      ≡ written s (elim o [ none ↦ none | some rest ↦ some (text ++ rest) ])
join s text none = refl
join s text (some rest) = ap some (ring_puts-append s text rest)

-- The loop writes the text piece by piece.
kvprintf-format :
    (fmt : List ℕ) (mode : Mode) (args : List Arg) (s : Log)
    → kvprintf mode fmt args s ≡ written s (format mode fmt args)
unfolding kvprintf format
kvprintf-format [] percent args s = refl
kvprintf-format [] plain args s = unfold ring_puts in refl
kvprintf-format [] long args s = unfold ring_puts in refl
kvprintf-format [] long2 args s = unfold ring_puts in refl
kvprintf-format (c ∷ fmt) mode args s = elim (Option-cases (next_byte mode c args)) [
  | inl stop ↦ rw (kvprintf, format, stop) refl
  | inr ((mode', text, args'), go) ↦
      rw (kvprintf, format, go)
        (kvprintf-format fmt mode' args' (ring_puts s text) ∙ join s text (format mode' fmt args'))
]

-- The line of a message.
abbrev pub line : ℕ → List ℕ → List ℕ → List ℕ
line level subsystem text = heading level subsystem ++ (text ++ (10 ∷ []))

ring_putc-puts : (s : Log) (c : ℕ) → ring_putc s c ≡ ring_puts s (c ∷ [])
unfolding ring_puts
ring_putc-puts s c = refl

heading_written :
    (s : Log) (level : ℕ) (subsystem : List ℕ)
    → ring_puts
        (ring_puts
          (ring_puts (ring_puts (ring_putc s b'[') (level_name level)) (b']' ∷ b'[' ∷ []))
          subsystem)
        (b']' ∷ b' ' ∷ [])
      ≡ ring_puts s (heading level subsystem)
heading_written s level subsystem = simp (ring_putc-puts, ring_puts-append, append_assoc)

pub klog_quiet :
    (level : ℕ) (subsystem fmt : List ℕ) (args : List Arg) (s : Log)
    → ltb level s.min_level ≡ true
    → klog level subsystem fmt args s ≡ some s
unfolding klog
klog_quiet level subsystem fmt args s quiet = rw quiet refl

pub klog_loud :
    (level : ℕ) (subsystem fmt text : List ℕ) (args : List Arg) (s : Log)
    → ltb level s.min_level ≡ false
    → level ≤ 5
    → format plain fmt args ≡ some text
    → klog level subsystem fmt args s ≡ some (ring_puts s (line level subsystem text))
unfolding klog
klog_loud level subsystem fmt text args s loud named e =
    let known : ltb 5 level ≡ false = ground arith in
    let run =
      kvprintf-format fmt plain args (ring_puts s (heading level subsystem))
      ∙ ap (written (ring_puts s (heading level subsystem))) e in
    let joined : ring_putc (ring_puts (ring_puts s (heading level subsystem)) text) 10
        ≡ ring_puts s (line level subsystem text) =
      simp (ring_putc-puts, ring_puts-append, append_assoc) in
    rw (loud, known, heading_written s level subsystem, run) (ap some joined)
