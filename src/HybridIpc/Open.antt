-- ===== src/HybridIpc/Open.antt =====
-- kernel/hybrid_ipc.c: to open a path over IPC is to open its first 47 characters.
use cnos.Prelude.{
  ℕ, zero, suc, ◌≤◌, ◌<◌, ◌≡◌, refl, ap, Bool, true, false, not, ◌&&◌, List, [], ◌∷◌, arith, ◌==◌,
  length,
}
use cnos.Pmm.{u64}
use cnos.Path.{take}
use cnos.Vfs.{Ext2}
use cnos.UserFd.{Errno, Sys, ret, fail, User, open_kpath}
use cnos.HybridIpc.{
  max_payload, pad, open_request, read_string, pack, unpack, errno_code, to_long, open_reply, serve,
  read_reply,
}

-- A C string holds no NUL.
unfoldable pub is_string : List ℕ → Bool
is_string [] = true
is_string (c ∷ p) = not (c == 0) && is_string p

take-is_string : (n : ℕ) (p : List ℕ) → is_string p ≡ true → is_string (take n p) ≡ true
unfolding take is_string
take-is_string zero p h = refl
take-is_string (suc n) [] h = refl
take-is_string (suc n) (c ∷ p) h = ground (arith, take-is_string n p)

length-take_le : (n : ℕ) (p : List ℕ) → length (take n p) ≤ n
unfolding take
length-take_le zero p = omega arith
length-take_le (suc n) [] = omega arith
length-take_le (suc n) (c ∷ p) = omega (arith, length-take_le n p)

read_string-zeros : (n m : ℕ) → read_string n (pad m []) ≡ []
unfolding read_string pad
read_string-zeros zero m = refl
read_string-zeros (suc n) zero = refl
read_string-zeros (suc n) (suc m) = refl

read_string-pad :
    (n m : ℕ) (p : List ℕ) → is_string p ≡ true → length p ≤ n → n ≤ m → read_string n (pad m p) ≡ p
unfolding read_string pad is_string
read_string-pad n m [] s h k = read_string-zeros n m
read_string-pad zero m (c ∷ p) s h k = absurd (omega arith)
read_string-pad (suc n) zero (c ∷ p) s h k = absurd (omega arith)
read_string-pad (suc n) (suc m) (c ∷ p) s h k =
    let visible : (c == 0) ≡ false = ground arith in
    rw visible (ap (◌∷◌ c) (read_string-pad n m p (ground arith) (omega arith) (omega arith)))

-- Eight bytes and what follows them.
unpack-pack : (u : ℕ) → u < u64 → unpack 8 0 (pad max_payload (pack 8 0 u)) 0 ≡ u
unfolding unpack pack pad
unpack-pack u h = omega arith

to_long-lt : (r : Sys ℕ) → to_long r < u64
unfolding to_long errno_code
to_long-lt (ret n) = omega arith
to_long-lt (fail Errno.eperm) = omega arith
to_long-lt (fail Errno.enoent) = omega arith
to_long-lt (fail Errno.eio) = omega arith
to_long-lt (fail Errno.ebadf) = omega arith
to_long-lt (fail Errno.emfile) = omega arith
to_long-lt (fail Errno.einval) = omega arith
to_long-lt (fail Errno.efault) = omega arith
to_long-lt (fail Errno.enosys) = omega arith
to_long-lt (fail Errno.eagain) = omega arith

-- The client's request for a path, the service's reply to it, and the client's reading of the
-- reply give the result, the error codes included, and the state of `user_fd_open_kpath` on the
-- first 47 characters of the path.
pub read_reply-serve {ℓ} :
    {V : Type ℓ} (fs : Ext2 V) (path : List ℕ) (u : User V)
    → is_string path ≡ true
    → let (rep, u') = serve fs (open_request path) u in
      let r = open_kpath fs (take 47 path) u in (read_reply rep ≡ to_long r.0) × (u' ≡ r.1)
unfolding serve open_request open_reply read_reply
read_reply-serve fs path u s =
    let same =
      read_string-pad 47 max_payload (take 47 path) (take-is_string 47 path s)
        (length-take_le 47 path) (omega arith) in
    rw same (
      unpack-pack (to_long (open_kpath fs (take 47 path) u).0)
          (to_long-lt (open_kpath fs (take 47 path) u).0),
      refl,
    )
