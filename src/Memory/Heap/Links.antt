-- ===== src/Memory/Heap/Links.antt =====
-- The two chains of pointers through the list of blocks, when a part of the list is replaced.
use h3os.Base.{ℕ, ◌≡◌, ◌≢◌, sym, List, [], ◌∷◌, ◌++◌, ◌∙◌, AllOf, NotIn, Distinct}
use h3os.Memory.Heap.{Blocks}
use h3os.Memory.Heap.Chain.{IsChain, IsLinked}
use h3os.Memory.Heap.Split.{remainder}

pub IsLinked-frame :
    (m m' : Blocks) (pv : ℕ) (bs : List ℕ) (P : ℕ → Type 0)
    → ((a : ℕ) → P a → (m' a).prev ≡ (m a).prev)
    → AllOf P bs
    → IsLinked m pv bs
    → IsLinked m' pv bs
IsLinked-frame m m' pv [] P same all h = tt
IsLinked-frame m m' pv (a ∷ bs) P same all h =
    (same a all.0 ∙ h.0, IsLinked-frame m m' a bs P same all.1 h.1)

pub IsLinked-graft :
    (m m' : Blocks) (pv b : ℕ) (before after new : List ℕ) (P : ℕ → Type 0)
    → ((a : ℕ) → P a → (m' a).prev ≡ (m a).prev)
    → (m' b).prev ≡ (m b).prev
    → AllOf P before
    → IsLinked m pv (before ++ b ∷ after)
    → IsLinked m' b new
    → IsLinked m' pv (before ++ b ∷ new)
IsLinked-graft m m' pv b [] after new P same own all h g = (own ∙ h.0, g)
IsLinked-graft m m' pv b (a ∷ before) after new P same own all h g =
    (same a all.0 ∙ h.0, IsLinked-graft m m' a b before after new P same own all.1 h.1 g)

pub IsLinked-at :
    (m : Blocks) (pv b : ℕ) (before after : List ℕ)
    → IsLinked m pv (before ++ b ∷ after)
    → IsLinked m b after
IsLinked-at m pv b [] after h = h.1
IsLinked-at m pv b (a ∷ before) after h = IsLinked-at m a b before after h.1

NotIn-right : (a : ℕ) (xs ys : List ℕ) → NotIn a (xs ++ ys) → NotIn a ys
NotIn-right a [] ys h = h
NotIn-right a (x ∷ xs) ys h = NotIn-right a xs ys h.1

pub Distinct-right : (xs ys : List ℕ) → Distinct (xs ++ ys) → Distinct ys
Distinct-right [] ys h = h
Distinct-right (x ∷ xs) ys h = Distinct-right xs ys h.1

-- A chain reads only the magic and the `next` field of its blocks.
pub IsChain-frame :
    (m m' : Blocks) (p : ℕ) (bs : List ℕ) (P : ℕ → Type 0)
    → ((a : ℕ) → P a → ((m' a).magic ≡ (m a).magic) × ((m' a).next ≡ (m a).next))
    → AllOf P bs
    → IsChain m p bs
    → IsChain m' p bs
IsChain-frame m m' p [] P same all h = h
IsChain-frame m m' p (a ∷ bs) P same all h =
    let (g, n) = same a all.0 in
    (h.0, h.1, g ∙ h.2, rw n (IsChain-frame m m' (m a).next bs P same all.1 h.3))

-- The part of a chain before `b` stays, and leads to what `b` now leads to.
pub IsChain-graft :
    (m m' : Blocks) (p b : ℕ) (before after new : List ℕ) (P : ℕ → Type 0)
    → ((a : ℕ) → P a → ((m' a).magic ≡ (m a).magic) × ((m' a).next ≡ (m a).next))
    → AllOf P before
    → IsChain m p (before ++ b ∷ after)
    → IsChain m' b (b ∷ new)
    → IsChain m' p (before ++ b ∷ new)
IsChain-graft m m' p b [] after new P same all h g = rw h.0 g
IsChain-graft m m' p b (a ∷ before) after new P same all h g =
    let (mg, n) = same a all.0 in
    (h.0, h.1, mg ∙ h.2, rw n (IsChain-graft m m' (m a).next b before after new P same all.1 h.3 g))

pub IsChain-at :
    (m : Blocks) (p b : ℕ) (before after : List ℕ)
    → IsChain m p (before ++ b ∷ after)
    → IsChain m b (b ∷ after)
IsChain-at m p b [] after h = rw h.0 at h
IsChain-at m p b (a ∷ before) after h = IsChain-at m (m a).next b before after h.3

-- Neither the block nor the header of its remainder.
abbrev pub Off : ℕ → ℕ → ℕ → Type 0
Off b size a = (a ≢ b) × (a ≢ remainder b size)

pub AllOf-any : (xs : List ℕ) → AllOf (λ a. Unit {0}) xs
AllOf-any [] = tt
AllOf-any (x ∷ xs) = (tt, AllOf-any xs)

-- No block up to `b` is the one behind `b`.
pub apart_next :
    (m : Blocks) (b a : ℕ) (after : List ℕ)
    → a ≢ 0
    → IsChain m b (b ∷ after)
    → NotIn a after
    → a ≢ (m b).next
apart_next m b a [] nz h out = rw h.3 nz
apart_next m b a (c ∷ after) nz h out = rw h.3.0 out.0

pub AllOf-apart :
    (m : Blocks) (b size p : ℕ) (before after : List ℕ)
    → IsChain m b (b ∷ after)
    → IsChain m p (before ++ b ∷ after)
    → Distinct (before ++ b ∷ after)
    → AllOf (Off b size) before
    → AllOf (λ a. Off b size a × a ≢ (m b).next) before
AllOf-apart m b size p [] after at h d off = tt
AllOf-apart m b size p (a ∷ before) after at h d off = (
  (off.0, apart_next m b a after h.1 at (NotIn-right a before (b ∷ after) d.0).1),
  AllOf-apart m b size (m a).next before after at h.3 d.1 off.1,
)

pub AllOf-Off :
    (b size c : ℕ) (cs : List ℕ)
    → NotIn c cs
    → AllOf (Off b size) cs
    → AllOf (λ a. Off b size a × a ≢ c) cs
AllOf-Off b size c [] out off = tt
AllOf-Off b size c (a ∷ cs) out off =
    ((off.0, (λ e. out.0 (sym e))), AllOf-Off b size c cs out.1 off.1)
