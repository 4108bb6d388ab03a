-- ===== src/Kernel/Log/Directives.antt =====
-- The directives of `kvprintf`: a format that is put together from them, its arguments, and what is
-- written for it, said by reading the digits back.
use h3os.Base.{ℕ, ◌+◌, ◌^◌, ◌≡◌, ◌≤◌, ◌<◌, false, Option, none, some, List, [], ◌∷◌, ◌++◌, ◌==◌}
use h3os.Base.Int.{ℤ, pos, negsuc}
use h3os.Kernel.Strings.Number.{read_digits}
use h3os.Kernel.Log.{
  Log, Arg, string, int, long_long, unsigned, unsigned_long_long, null_text, ring_puts,
}
use h3os.Kernel.Log.Format.{line}

-- A byte other than `%`, `%%`, `%` with a decimal digit, `%s`, `%d`, `%u`, `%x`, `%lld`, `%llu` and
-- `%llx`, with its argument.
pub data Part : Type 0 where
  byte digit : ℕ → Part
  percent_sign : Part
  name : Option (List ℕ) → Part
  signed signed64 : ℤ → Part
  decimal hex decimal64 hex64 : ℕ → Part

-- What is put before the rest of the format, and before the rest of the arguments.
unfoldable pub with_part : Part → List ℕ → List ℕ
with_part (byte c) fmt = c ∷ fmt
with_part (digit d) fmt = b'%' ∷ d ∷ fmt
with_part percent_sign fmt = b'%' ∷ b'%' ∷ fmt
with_part (name t) fmt = b'%' ∷ b's' ∷ fmt
with_part (signed v) fmt = b'%' ∷ b'd' ∷ fmt
with_part (decimal v) fmt = b'%' ∷ b'u' ∷ fmt
with_part (hex v) fmt = b'%' ∷ b'x' ∷ fmt
with_part (signed64 v) fmt = b'%' ∷ b'l' ∷ b'l' ∷ b'd' ∷ fmt
with_part (decimal64 v) fmt = b'%' ∷ b'l' ∷ b'l' ∷ b'u' ∷ fmt
with_part (hex64 v) fmt = b'%' ∷ b'l' ∷ b'l' ∷ b'x' ∷ fmt

unfoldable pub with_value : Part → List Arg → List Arg
with_value (name t) args = string t ∷ args
with_value (signed v) args = int v ∷ args
with_value (decimal v) args = unsigned v ∷ args
with_value (hex v) args = unsigned v ∷ args
with_value (signed64 v) args = long_long v ∷ args
with_value (decimal64 v) args = unsigned_long_long v ∷ args
with_value (hex64 v) args = unsigned_long_long v ∷ args
with_value _ args = args

unfoldable pub format_of : List Part → List ℕ
format_of [] = []
format_of (p ∷ ps) = with_part p (format_of ps)

unfoldable pub values_of : List Part → List Arg
values_of [] = []
values_of (p ∷ ps) = with_value p (values_of ps)

-- The values are of their types.
abbrev pub IsSmall : ℤ → ℕ → Type 0
IsSmall (pos n) limit = n < limit
IsSmall (negsuc n) limit = n < limit

abbrev pub IsPart : Part → Type 0
IsPart (byte c) = (c == b'%') ≡ false
IsPart (digit d) = (b'0' ≤ d) × (d ≤ b'9')
IsPart percent_sign = Unit {0}
IsPart (name t) = Unit {0}
IsPart (signed v) = IsSmall v (2 ^ 31)
IsPart (signed64 v) = IsSmall v (2 ^ 63)
IsPart (decimal v) = v < 2 ^ 32
IsPart (hex v) = v < 2 ^ 32
IsPart (decimal64 v) = v < 2 ^ 64
IsPart (hex64 v) = v < 2 ^ 64

-- Digits that stand for a signed number: a minus sign exactly before a negative one.
abbrev pub Reads : ℤ → List ℕ → Type 0
Reads (pos n) out = read_digits 10 0 out ≡ n
Reads (negsuc n) out = (t : List ℕ) × (out ≡ b'-' ∷ t) × (read_digits 10 0 t ≡ n + 1)

-- What is written for a part.
abbrev pub Renders : Part → List ℕ → Type 0
Renders (byte c) out = out ≡ c ∷ []
Renders (digit d) out = out ≡ b'%' ∷ d ∷ []
Renders percent_sign out = out ≡ b'%' ∷ []
Renders (name none) out = out ≡ null_text
Renders (name (some t)) out = out ≡ t
Renders (signed v) out = Reads v out
Renders (signed64 v) out = Reads v out
Renders (decimal v) out = read_digits 10 0 out ≡ v
Renders (hex v) out = read_digits 16 0 out ≡ v
Renders (decimal64 v) out = read_digits 10 0 out ≡ v
Renders (hex64 v) out = read_digits 16 0 out ≡ v

pub data RendersAll : List Part → List ℕ → Type 0 where
  nothing : RendersAll [] []
  then_part :
      (p : Part) (ps : List Part) (out text : List ℕ)
      → Renders p out
      → RendersAll ps text
      → RendersAll (p ∷ ps) (out ++ text)

-- What `klog` does with a message: below the least level nothing, else one line goes to the ring and out.
pub data Logs (level : ℕ) (subsystem : List ℕ) (ps : List Part) (s : Log)
    : Option Log → Type 0 where
  quiet : level < s.min_level → Logs level subsystem ps s (some s)
  logged :
      (text : List ℕ)
      → s.min_level ≤ level
      → RendersAll ps text
      → Logs level subsystem ps s (some (ring_puts s (line level subsystem text)))
