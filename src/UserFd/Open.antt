-- ===== src/UserFd/Open.antt =====
-- `user_fd_open_kpath` and `user_fd_sys_close` of kernel/user_fd.c as the life of a descriptor.
use cnos.Prelude.{
  ℕ, zero, suc, ◌+◌, ◌-◌, ◌^◌, ◌≤◌, ◌<◌, ◌≡◌, refl, ap, ◌⊎◌, inl, inr, true, false, not, Option,
  List, [], ◌∷◌, ◌++◌, arith, ltb, ◌==◌, if◌then◌else◌, Bool-cases, length,
}
use cnos.Path.{take}
use cnos.Process.Find.{First, first_from-First}
use cnos.Vfs.{Ext2, Stat, ok, is_mounted, vfs_stat}
use cnos.UserFd.{
  Sys, ret, fail, emfile, ebadf, User, fd_min, fd_num, bad_fd, open_slot, open_stat, open_kpath,
  sys_close,
}

-- The first `n` elements of a list, or all of one that is shorter.
pub record IsPrefix (n : ℕ) (whole kept : List ℕ) : Type 0 where
  pub rest : List ℕ
  pub split : whole ≡ kept ++ rest
  pub cut : (length kept ≡ n) ⊎ ((length kept < n) × (rest ≡ []))

take-IsPrefix : (n : ℕ) (p : List ℕ) → IsPrefix n p (take n p)
unfolding take
take-IsPrefix zero p = record { rest = p; split = refl; cut = inl refl }
take-IsPrefix (suc n) [] = record { rest = []; split = refl; cut = inr (omega arith, refl) }
take-IsPrefix (suc n) (c ∷ p) =
    let t = take-IsPrefix n p in
    record {
      rest = t.rest;
      split = ap (◌∷◌ c) t.split;
      cut = elim t.cut [
        | inl full ↦ inl (ap suc full)
        | inr (short, none_left) ↦ inr (omega arith, none_left)
      ];
    }

-- A 32-bit field that holds `n`, or its greatest value where `n` does not fit.
pub data Saturates (n : ℕ) : ℕ → Type 0 where
  fits : n < 2 ^ 32 → Saturates n n
  full : 2 ^ 32 ≤ n → Saturates n 4294967295

saturated : (n : ℕ) → Saturates n (if ltb 0xFFFFFFFF n then 0xFFFFFFFF else n)
saturated n = elim (Bool-cases (ltb 0xFFFFFFFF n)) [
  | inl large ↦ rw large (full (ground arith))
  | inr small ↦ rw small (fits (ground arith))
]

module _ {ℓ} {V : Type ℓ} where
  -- Slot `idx`, the lowest that was free, is now open on `path`.
  pub record Opens (s : User V) (path : List ℕ) (st : Stat) (idx : ℕ) (r : Sys ℕ × User V)
      : Type ℓ where
    pub result : r.0 ≡ ret (fd_min + idx)
    pub in_range : idx < fd_num
    pub was_free : (s.fds idx).valid ≡ false
    pub lowest : (j : ℕ) → j < idx → (s.fds j).valid ≡ true
    pub is_open : (r.1.fds idx).valid ≡ true
    pub at_start : (r.1.fds idx).offset ≡ 0
    pub name : IsPrefix 127 path (r.1.fds idx).path
    pub size : Saturates st.size (r.1.fds idx).size
    pub others : (j : ℕ) → (idx == j) ≡ false → r.1.fds j ≡ s.fds j

  open_slot-Opens :
      (s : User V) (path : List ℕ) (st : Stat) (o : Option ℕ)
      → First 0 fd_num (λ i. not (s.fds i).valid) o
      → (((j : ℕ) → j < fd_num → (s.fds j).valid ≡ true)
          × (open_slot s path st o ≡ (fail emfile, s)))
        ⊎ ((idx : ℕ) × Opens s path st idx (open_slot s path st o))
  unfolding open_slot
  open_slot-Opens s path st o (inl (e, all)) =
      inl ((λ j h. ground (arith, all j (omega arith) (omega arith))), rw e refl)
  open_slot-Opens s path st o (inr (idx, e, lo, hi, free, below)) =
      let self : (idx == idx) ≡ true = ground arith in
      rw e (
        inr (
          idx,
          record {
            result = refl;
            in_range = omega arith;
            was_free = ground arith;
            lowest = λ j h. ground (arith, below j (omega arith) h);
            is_open = rw self refl;
            at_start = rw self refl;
            name = rw self (take-IsPrefix 127 path);
            size = rw self (saturated st.size);
            others = λ j ne. rw ne refl;
          },
        ))

-- `user_fd_open_kpath` on a mounted root and a path that `vfs_stat` finds: either all eight
-- descriptors are open, the result is -EMFILE and nothing changes; or it opens the lowest free
-- slot at offset 0, under the first 127 characters of the path and with the size of the file,
-- or 2 ^ 32 - 1 where it does not fit 32 bits, and touches no other slot.
pub open_kpath_lem {ℓ} :
    {V : Type ℓ} (fs : Ext2 V) (path : List ℕ) (st : Stat) (s : User V)
    → is_mounted s.vfs ≡ true
    → vfs_stat fs s.vfs path ≡ ok st
    → (((j : ℕ) → j < fd_num → (s.fds j).valid ≡ true) × (open_kpath fs path s ≡ (fail emfile, s)))
      ⊎ ((idx : ℕ) × Opens s path st idx (open_kpath fs path s))
unfolding open_kpath open_stat
open_kpath_lem fs path st s m e =
    rw (m, e) (open_slot-Opens s path st _ (first_from-First fd_num 0 (λ i. not (s.fds i).valid)))

-- `user_fd_sys_close` on an open descriptor succeeds, closes that slot alone, and a second close
-- of the same descriptor is -EBADF.
pub sys_close-sys_close {ℓ} :
    {V : Type ℓ} (fd : ℕ) (s : User V)
    → bad_fd fd ≡ false
    → (s.fds (fd - fd_min)).valid ≡ true
    → let (r, t) = sys_close fd s in
      (r ≡ ret 0)
      × ((t.fds (fd - fd_min)).valid ≡ false)
      × ((j : ℕ) → ((fd - fd_min) == j) ≡ false → t.fds j ≡ s.fds j)
      × (sys_close fd t ≡ (fail ebadf, t))
unfolding sys_close
sys_close-sys_close fd s good valid =
    let idx = fd - fd_min in
    let self : (idx == idx) ≡ true = ground arith in
    rw (good, valid, self) (refl, refl, (λ j ne. rw ne refl), refl)
