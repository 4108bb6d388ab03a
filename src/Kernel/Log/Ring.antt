-- ===== src/Kernel/Log/Ring.antt =====
-- The ring of the log: it holds the last 8192 bytes that were written.
use h3os.Base.{
  ℕ, zero, suc, ◌+◌, ◌%◌, ◌^◌, ◌≡◌, ◌≤◌, ◌<◌, refl, sym, ◌∙◌, arith, true, false, List, [], ◌∷◌,
  ◌++◌, length, length-append, get_or, ◌==◌, Bool-cases, inl, inr,
}
use mathlib.Core.Path.{subst}
use mathlib.Core.List.{append_assoc, append-nil}
use h3os.Kernel.Log.{Log, ring_size, ring_putc, ring_puts, klog_init}

-- The log has had this text written to it since it was set up.
pub record Holds (s : Log) (w : List ℕ) : Type 0 where
  pub position : s.log_pos ≡ length w
  pub recent :
      (k : ℕ) → k < length w → length w ≤ k + ring_size → s.log_ring (k % ring_size) ≡ get_or w k 0

get_or-append_left : (w v : List ℕ) (k : ℕ) → k < length w → get_or (w ++ v) k 0 ≡ get_or w k 0
get_or-append_left [] v k lt = absurd (omega arith)
get_or-append_left (x ∷ w) v zero lt = refl
get_or-append_left (x ∷ w) v (suc k) lt = get_or-append_left w v k (omega arith)

get_or-append_last : (w : List ℕ) (c k : ℕ) → k ≡ length w → get_or (w ++ c ∷ []) k 0 ≡ c
get_or-append_last [] c zero e = refl
get_or-append_last [] c (suc k) e = absurd (omega arith)
get_or-append_last (x ∷ w) c zero e = absurd (omega arith)
get_or-append_last (x ∷ w) c (suc k) e = get_or-append_last w c k (omega arith)

ring_putc-Holds :
    (s : Log) (w : List ℕ) (c : ℕ)
    → Holds s w
    → length w + 1 < 2 ^ 64
    → Holds (ring_putc s c) (w ++ c ∷ [])
unfolding ring_putc
ring_putc-Holds s w c h lt =
    let longer : length (w ++ c ∷ []) ≡ length w + 1 = length-append w (c ∷ []) ∙ omega arith in
    record {
      position = omega (arith, longer, h.position);
      recent = λ k l l'. elim (Bool-cases (k == length w)) [
        | inl last ↦
            let e : k ≡ length w = ground arith in
            let here : (s.log_pos % ring_size == k % ring_size) ≡ true =
              ground (arith, h.position, e) in
            rw here (sym (get_or-append_last w c k e))
        | inr older ↦
            let below : k < length w = ground (arith, longer, l) in
            let other : (s.log_pos % ring_size == k % ring_size) ≡ false =
              apart s.log_pos (length w) k h.position below (omega (arith, longer, l')) in
            rw other (
              h.recent k below (omega (arith, longer, l'))
              ∙ sym (get_or-append_left w (c ∷ []) k below))
      ];
    }
  where
    apart :
        (p n k : ℕ) → p ≡ n → k < n → n < k + ring_size → (p % ring_size == k % ring_size) ≡ false
    apart p n k e lo hi = ground arith

-- On a log that holds `w`, putting a text, up to 2^64 bytes in all, makes it hold `w` and the text: the
-- position counts the bytes, and each of the last 8192 of them stands in the ring in its place.
pub ring_puts-Holds :
    (s : Log) (w text : List ℕ)
    → Holds s w
    → length w + length text < 2 ^ 64
    → Holds (ring_puts s text) (w ++ text)
unfolding ring_puts
ring_puts-Holds s w [] h lt = rw (append-nil w) h
ring_puts-Holds s w (c ∷ text) h lt =
    let longer : length (w ++ c ∷ []) ≡ length w + 1 = length-append w (c ∷ []) ∙ omega arith in
    let rest =
      ring_puts-Holds (ring_putc s c) (w ++ c ∷ []) text (ring_putc-Holds s w c h (omega arith))
        (omega (arith, longer)) in
    let e : (w ++ c ∷ []) ++ text ≡ w ++ c ∷ text = append_assoc w (c ∷ []) text in
    subst (Holds (ring_puts (ring_putc s c) text)) e rest

pub klog_init-Holds : (s : Log) → Holds (klog_init s) []
unfolding klog_init
klog_init-Holds s = record { position = refl; recent = λ k l l'. absurd (omega arith) }

pub ring_puts-append : (s : Log) (a b : List ℕ) → ring_puts (ring_puts s a) b ≡ ring_puts s (a ++ b)
unfolding ring_puts
ring_puts-append s [] b = refl
ring_puts-append s (c ∷ a) b = ring_puts-append (ring_putc s c) a b

pub ring_puts-sent : (s : Log) (text : List ℕ) → (ring_puts s text).sent ≡ s.sent ++ text
unfolding ring_puts ring_putc
ring_puts-sent s [] = sym (append-nil s.sent)
ring_puts-sent s (c ∷ text) =
    ring_puts-sent (ring_putc s c) text ∙ append_assoc s.sent (c ∷ []) text
