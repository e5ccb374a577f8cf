-- ===== src/Ext2Vol/Window.antt =====
-- The bytes of a window `lo`, …, `hi - 1`, out of a run of bytes.
use cnos.Prelude.{
  ℕ, zero, suc, ◌+◌, ◌-◌, ◌≤◌, ◌<◌, ◌≡◌, refl, sym, ap, ◌∙◌, ◌⊎◌, inl, inr, true, false, ◌&&◌, List,
  [], ◌∷◌, ◌++◌, arith, ltb, leb, if◌then◌else◌, Bool-cases, length, get_or,
}
use mathlib.Core.List.{append-nil}
use cnos.UserFd.Bytes.{slice}
use cnos.Path.{take, drop}
use cnos.Ext2Vol.Bytes.{Bytes, bytes_of}

unfoldable pub window : ℕ → Bytes → ℕ → ℕ → ℕ → List ℕ
window zero g pos lo hi = []
window (suc n) g pos lo hi =
    let rest = window n g (pos + 1) lo hi in if leb lo pos && ltb pos hi then g pos ∷ rest else rest

pub window-nil :
    (n : ℕ) (g : Bytes) (pos lo hi : ℕ)
    → (hi ≤ pos) ⊎ ((hi ≤ lo) ⊎ (pos + n ≤ lo))
    → window n g pos lo hi ≡ []
unfolding window
window-nil zero g pos lo hi h = refl
window-nil (suc n) g pos lo hi h =
    let apart : (hi ≤ pos + 1) ⊎ ((hi ≤ lo) ⊎ (pos + 1 + n ≤ lo)) = ground arith in
    let out : (leb lo pos && ltb pos hi) ≡ false = ground arith in
    rw out (window-nil n g (pos + 1) lo hi apart)

pub window-append :
    (a b : ℕ) (g : Bytes) (pos lo hi : ℕ)
    → window a g pos lo hi ++ window b g (pos + a) lo hi ≡ window (a + b) g pos lo hi
unfolding window
window-append zero b g pos lo hi =
    let here : pos + 0 ≡ pos = omega arith in
    let all : 0 + b ≡ b = omega arith in rw (here, all) refl
window-append (suc a) b g pos lo hi =
    let here : pos + suc a ≡ pos + 1 + a = omega arith in
    let all : suc a + b ≡ suc (a + b) = omega arith in
    let ih = window-append a b g (pos + 1) lo hi in
    rw (here, all)
      (elim (Bool-cases (leb lo pos && ltb pos hi)) [
        | inl hit ↦ rw hit (ap (◌∷◌ (g pos)) ih)
        | inr miss ↦ rw miss ih
      ])

-- How many bytes of the window lie before `pos`.
abbrev pub before : ℕ → ℕ → ℕ → ℕ
before pos lo most = if ltb most (pos - lo) then most else pos - lo

pub length-window :
    (n : ℕ) (g : Bytes) (pos lo most : ℕ)
    → before pos lo most + length (window n g pos lo (lo + most)) ≡ before (pos + n) lo most
unfolding window
length-window zero g pos lo most = ground arith
length-window (suc n) g pos lo most =
    let ih = length-window n g (pos + 1) lo most in
    let all : pos + suc n ≡ pos + 1 + n = omega arith in
    rw all (elim (Bool-cases (leb lo pos && ltb pos (lo + most))) [
      | inl hit ↦
          let step : before (pos + 1) lo most ≡ before pos lo most + 1 = ground arith in
          rw hit (omega (arith, ih, step))
      | inr miss ↦
          let same : before (pos + 1) lo most ≡ before pos lo most = ground arith in
          rw miss (omega (arith, ih, same))
    ])

slice-cons :
    (f : List ℕ) (pos n : ℕ)
    → pos < length f
    → slice f pos (suc n) ≡ get_or f pos 0 ∷ slice f (pos + 1) n
unfolding take drop
slice-cons [] pos n h = absurd (omega arith)
slice-cons (c ∷ f) zero n h = refl
slice-cons (c ∷ f) (suc pos) n h =
    let next : suc pos + 1 ≡ suc (pos + 1) = omega arith in
    rw next (slice-cons f pos n (omega arith))

window_inside :
    (n : ℕ) (f : List ℕ) (pos lo hi : ℕ)
    → lo ≤ pos
    → pos + n ≤ hi
    → pos + n ≤ length f
    → window n (bytes_of f) pos lo hi ≡ slice f pos n
unfolding window take
window_inside zero f pos lo hi a b c = refl
window_inside (suc n) f pos lo hi a b c =
    let hit : (leb lo pos && ltb pos hi) ≡ true = ground arith in
    let ih = window_inside n f (pos + 1) lo hi (omega arith) (omega arith) (omega arith) in
    rw (hit, ih) (sym (slice-cons f pos n (omega arith)))

-- The window of a whole file.
pub window-slice :
    (f : List ℕ) (lo most : ℕ)
    → lo + most ≤ length f
    → window (length f) (bytes_of f) 0 lo (lo + most) ≡ slice f lo most
window-slice f lo most fits =
    let rest = length f - (lo + most) in
    let g = bytes_of f in
    let all : length f ≡ lo + (most + rest) = omega arith in
    let start : 0 + lo ≡ lo = omega arith in
    let head = window-nil lo g 0 lo (lo + most) (inr (inr (omega arith))) in
    let tail = window-nil rest g (lo + most) lo (lo + most) (inl (omega arith)) in
    let mid = window_inside most f lo lo (lo + most) (omega arith) (omega arith) fits in
    ap (λ n. window n g 0 lo (lo + most)) all
    ∙ sym (window-append lo (most + rest) g 0 lo (lo + most))
    ∙ rw (head, start)
        (sym (window-append most rest g lo lo (lo + most)) ∙ rw (tail, mid) (append-nil _))
