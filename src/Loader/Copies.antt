-- ===== src/Loader/Copies.antt =====
-- What the copies of kernel/elf_load.c and kernel/fs/cnaf/cnab_load.c leave in memory.
use cnos.Prelude.{
  ℕ, zero, suc, ◌+◌, ◌%◌, ◌≤◌, ◌<◌, ◌≡◌, refl, ◌∙◌, ◌⊎◌, inl, true, false, arith, ◌==◌,
}
use cnos.Process.{update}
use cnos.Pmm.{u64}
use cnos.Ext2Vol.Bytes.{Bytes}
use cnos.Loader.Memory.{mem_copy, mem_zero}

pub mem_copy-outside :
    (n : ℕ) (mem : Bytes) (d s x : ℕ)
    → d + n ≤ u64
    → (x < d) ⊎ (d + n ≤ x)
    → mem_copy n mem d s x ≡ mem x
unfolding mem_copy
mem_copy-outside zero mem d s x fits h = refl
mem_copy-outside (suc zero) mem d s x fits h = ground arith
mem_copy-outside (suc (suc n)) mem d s x fits h =
    let step : (d + 1) % u64 ≡ d + 1 = omega arith in
    let other : (d == x) ≡ false = ground arith in
    let ih =
      mem_copy-outside (suc n) (update mem d (mem s)) (d + 1) ((s + 1) % u64) x (omega arith)
        (ground arith) in
    rw step (ih ∙ rw other refl)

-- The source lies apart from the destination.
pub mem_copy-inside :
    (n : ℕ) (mem : Bytes) (d s k : ℕ)
    → d + n ≤ u64
    → s + n ≤ u64
    → (s + n ≤ d) ⊎ (d + n ≤ s)
    → k < n
    → mem_copy n mem d s (d + k) ≡ mem (s + k)
unfolding mem_copy
mem_copy-inside zero mem d s k fd fs apart h = absurd (omega arith)
mem_copy-inside (suc zero) mem d s zero fd fs apart h =
    let a : d + 0 ≡ d = omega arith in
    let b : s + 0 ≡ s = omega arith in
    let here : (d == d) ≡ true = ground arith in rw (a, b, here) refl
mem_copy-inside (suc zero) mem d s (suc k) fd fs apart h = absurd (omega arith)
mem_copy-inside (suc (suc n)) mem d s zero fd fs apart h =
    let step : (d + 1) % u64 ≡ d + 1 = omega arith in
    let here : (d == d + 0) ≡ true = ground arith in
    let start : s + 0 ≡ s = omega arith in
    let rest =
      mem_copy-outside (suc n) (update mem d (mem s)) (d + 1) ((s + 1) % u64) (d + 0) (omega arith)
        (inl (omega arith)) in
    rw step (rest ∙ rw (here, start) refl)
mem_copy-inside (suc (suc n)) mem d s (suc k) fd fs apart h =
    let step : (d + 1) % u64 ≡ d + 1 = omega arith in
    let next : (s + 1) % u64 ≡ s + 1 = omega arith in
    let place : d + suc k ≡ d + 1 + k = omega arith in
    let source : s + 1 + k ≡ s + suc k = omega arith in
    let other : (d == s + suc k) ≡ false = ground arith in
    let ih =
      mem_copy-inside (suc n) (update mem d (mem s)) (d + 1) (s + 1) k (omega arith) (omega arith)
        (ground arith) (omega arith) in
    rw (step, next, place) (ih ∙ rw source (rw other refl))

pub mem_zero-outside :
    (n : ℕ) (mem : Bytes) (d x : ℕ)
    → d + n ≤ u64
    → (x < d) ⊎ (d + n ≤ x)
    → mem_zero n mem d x ≡ mem x
unfolding mem_zero
mem_zero-outside zero mem d x fits h = refl
mem_zero-outside (suc zero) mem d x fits h = ground arith
mem_zero-outside (suc (suc n)) mem d x fits h =
    let step : (d + 1) % u64 ≡ d + 1 = omega arith in
    let other : (d == x) ≡ false = ground arith in
    let ih = mem_zero-outside (suc n) (update mem d 0) (d + 1) x (omega arith) (ground arith) in
    rw step (ih ∙ rw other refl)

pub mem_zero-inside :
    (n : ℕ) (mem : Bytes) (d k : ℕ) → d + n ≤ u64 → k < n → mem_zero n mem d (d + k) ≡ 0
unfolding mem_zero
mem_zero-inside zero mem d k fits h = absurd (omega arith)
mem_zero-inside (suc zero) mem d k fits h =
    let here : (d == d + k) ≡ true = ground arith in rw here refl
mem_zero-inside (suc (suc n)) mem d zero fits h =
    let step : (d + 1) % u64 ≡ d + 1 = omega arith in
    let here : (d == d + 0) ≡ true = ground arith in
    let rest =
      mem_zero-outside (suc n) (update mem d 0) (d + 1) (d + 0) (omega arith) (inl (omega arith)) in
    rw step (rest ∙ rw here refl)
mem_zero-inside (suc (suc n)) mem d (suc k) fits h =
    let step : (d + 1) % u64 ≡ d + 1 = omega arith in
    let place : d + suc k ≡ d + 1 + k = omega arith in
    rw (step, place)
      (mem_zero-inside (suc n) (update mem d 0) (d + 1) k (omega arith) (omega arith))
