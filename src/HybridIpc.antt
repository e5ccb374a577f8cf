-- ===== src/HybridIpc.antt =====
-- kernel/hybrid_ipc.c: the file service at PID 3, which opens a path that a message carries, and
-- the client's side of it. A `long` is its 64-bit pattern. The transport is Ipc.antt.
pub mod Open
mod Tests
use cnos.Prelude.{
  ℕ, zero, suc, ◌+◌, ◌-◌, ◌*◌, ◌/◌, ◌%◌, ◌^◌, ◌≤◌, ◌<◌, ◌≡◌, refl, sym, ap, ◌∙◌, subst, fun_ext,
  ◌≢◌, ◌↔◌, ◌⊎◌, inl, inr, Bool, true, false, not, ◌&&◌, ◌||◌, Option, none, some, List, [], ◌∷◌,
  ◌++◌, arith, ltb, leb, ◌==◌, if◌then◌else◌, ltb→lt, lt→ltb, ==_iff, Bool-cases, Option-cases,
  length, get_or, set, length-set, get_or-set_self, get_or-set_ne, set-get_or, set-set, set_bit,
  clear_bit, test_bit, test_bit-set_bit, test_bit-clear_bit, set_bit-lt, clear_bit-lt,
  clear_bit-set_bit,
}
use cnos.Pmm.{u64}
use cnos.Path.{take}
use cnos.Process.{Message}
use cnos.Vfs.{Ext2}
use cnos.UserFd.{
  Errno, eperm, enoent, eio, ebadf, emfile, einval, efault, enosys, eagain, Sys, ret, fail, User,
  open_kpath,
}

abbrev pub service_pid : ℕ
service_pid = 3

abbrev pub max_payload : ℕ
max_payload = 48

-- `n` bytes: those of the string, and zeros.
unfoldable pub pad : ℕ → List ℕ → List ℕ
pad zero p = []
pad (suc n) [] = 0 ∷ pad n []
pad (suc n) (c ∷ p) = c ∷ pad n p

-- The request of `hybrid_user_fd_open_via_ipc`: at most 47 characters of the path and a NUL.
unfoldable pub open_request : List ℕ → Message
open_request path = record { sender = 0; type = 10; payload = pad max_payload (take 47 path) }

-- The service's loop over the payload, up to a NUL.
unfoldable pub read_string : ℕ → List ℕ → List ℕ
read_string zero p = []
read_string (suc n) [] = []
read_string (suc n) (c ∷ p) = let rest = read_string n p in if c == 0 then [] else c ∷ rest

-- `p[k] = (u >> 8 * k) & 0xFF` for the next `n` values of `k`.
unfoldable pub pack : ℕ → ℕ → ℕ → List ℕ
pack zero k u = []
pack (suc n) k u = ((u / 2 ^ (8 * k)) % 256) ∷ pack n (k + 1) u

-- `v |= p[k] << 8 * k`: the bytes do not overlap, so they add up.
unfoldable pub unpack : ℕ → ℕ → List ℕ → ℕ → ℕ
unpack zero k p v = v
unpack (suc n) k [] v = v
unpack (suc n) k (b ∷ p) v = unpack n (k + 1) p (v + b * 2 ^ (8 * k))

unfoldable pub errno_code : Errno → ℕ
errno_code eperm = 1
errno_code enoent = 2
errno_code eio = 5
errno_code ebadf = 9
errno_code emfile = 24
errno_code einval = 22
errno_code efault = 14
errno_code enosys = 38
errno_code eagain = 11

-- The result of a system call as a `long`.
unfoldable pub to_long : Sys ℕ → ℕ
to_long (ret n) = n % u64
to_long (fail e) = u64 - errno_code e

module _ {ℓ} {V : Type ℓ} where
  unfoldable pub open_reply : Sys ℕ × User V → Message × User V
  open_reply (fd, u) = (
    record { sender = service_pid; type = 11; payload = pad max_payload (pack 8 0 (to_long fd)) },
    u,
  )

  -- A round of the service's loop: the reply to a message it has received.
  unfoldable pub serve : Ext2 V → Message → User V → Message × User V
  serve fs m u = if m.type == 10 then open_reply (open_kpath fs (read_string 47 m.payload) u) else (
    record { sender = service_pid; type = if m.type == 1 then 2 else 0; payload = m.payload },
    u,
  )

-- The client's reading of the reply.
unfoldable pub read_reply : Message → ℕ
read_reply rep = if not (rep.type == 11) then u64 - 5 else unpack 8 0 rep.payload 0
