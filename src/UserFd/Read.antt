-- ===== src/UserFd/Read.antt =====
-- `user_fd_sys_read` of kernel/user_fd.c copies a file's bytes into user memory.
use cnos.Prelude.{
  ℕ, zero, suc, ◌+◌, ◌-◌, ◌%◌, ◌^◌, ◌≤◌, ◌<◌, ◌≡◌, refl, sym, ap, ◌∙◌, ◌⊎◌, inl, inr, Bool, true,
  false, List, arith, ltb, leb, ◌==◌, if◌then◌else◌, ltb→lt, Bool-cases, length, get_or,
}
use cnos.Pmm.{u64}
use cnos.Vfs.{Result, ok, Ext2, read_file_range}
use cnos.UserFd.{
  fail, Sys, ret, chunk_of, store, read_loop, write_bytes, sys_read, User, finish_read, fd_min,
  bad_fd, max_io_bytes,
}
use cnos.UserFd.Bytes.{slice, length-slice, get_or-slice, write_bytes-inside, write_bytes-outside}

-- `read` serves the file `f`: a read of one byte or more inside it returns its bytes.
unfoldable pub Serves : (ℕ → ℕ → Result (List ℕ)) → List ℕ → Type 0
Serves read f = (o n : ℕ) → 0 < n → o + n ≤ length f → read o n ≡ ok (slice f o n)

-- The bytes of `f` from `off` on, as many as `len` less those below `total`, now stand at `ua`.
pub record Loaded (f : List ℕ) (ua off total len : ℕ) (mem : ℕ → ℕ) (r : Sys ℕ × (ℕ → ℕ))
    : Type 0 where
  pub count : r.0 ≡ ret len
  pub copied : (k : ℕ) → total ≤ k → k < len → r.1 (ua + k) ≡ get_or f (off + k) 0
  pub kept : (x : ℕ) → (x < ua + total) ⊎ (ua + len ≤ x) → r.1 x ≡ mem x

module _ (read : ℕ → ℕ → Result (List ℕ)) (f : List ℕ) (serves : Serves read f) (ua off len : ℕ)
    (inside : off + len ≤ length f) (small : length f < 2 ^ 32) (fits : ua + len ≤ u64) where
  nothing_left :
      (total : ℕ) (mem : ℕ → ℕ) → total ≡ len → Loaded f ua off total len mem (ret total, mem)
  nothing_left total mem e = record {
    count = ap ret e;
    copied = λ k lo hi. absurd (omega arith);
    kept = λ x h. refl;
  }

  stored :
      (total n k : ℕ) (mem : ℕ → ℕ)
      → total + n ≤ len
      → total ≤ k
      → k < total + n
      → write_bytes mem (ua + total) (slice f (off + total) n) (ua + k) ≡ get_or f (off + k) 0
  stored total n k mem h lo now =
      let size = length-slice f (off + total) n (omega arith) in
      let bytes = slice f (off + total) n in
      let m = write_bytes mem (ua + total) bytes in
      let place : ua + k ≡ ua + total + (k - total) = omega arith in
      let source : off + total + (k - total) ≡ off + k = omega arith in
      let there =
        write_bytes-inside bytes mem (ua + total) (k - total) (omega arith) (omega arith) in
      let found = get_or-slice f (off + total) n (k - total) (omega arith) in
      ap m place ∙ there ∙ found ∙ ap (λ i. get_or f i 0) source

  -- The bytes of one round and what the rounds after it load.
  joined :
      (total n : ℕ) (mem : ℕ → ℕ) (r : Sys ℕ × (ℕ → ℕ))
      → total + n ≤ len
      → Loaded f ua off (total + n) len (write_bytes mem (ua + total) (slice f (off + total) n)) r
      → Loaded f ua off total len mem r
  joined total n mem r h rest =
      let size = length-slice f (off + total) n (omega arith) in
      let bytes = slice f (off + total) n in
      record {
        count = rest.count;
        copied = λ k lo hi. elim (Bool-cases (ltb k (total + n))) [
          | inl now ↦ rest.kept (ua + k) (ground arith) ∙ stored total n k mem h lo (ltb→lt _ _ now)
          | inr later ↦ rest.copied k (ground arith) hi
        ];
        kept = λ x apart.
            rest.kept x (ground arith)
            ∙ write_bytes-outside bytes mem (ua + total) x (omega arith) (ground arith);
      }

  pub read_loop_lem :
      (fuel total : ℕ) (mem : ℕ → ℕ)
      → total ≤ len
      → len ≤ total + fuel
      → Loaded f ua off total len mem (read_loop fuel read ua off len total mem)
  unfolding read_loop store Serves
  read_loop_lem zero total mem h enough = nothing_left total mem (omega arith)
  read_loop_lem (suc fuel) total mem h enough = elim (Bool-cases (ltb total len)) [
    | inr full ↦ rw full (nothing_left total mem (ground arith))
    | inl more ↦
        let n = chunk_of (len - total) in
        let some_bytes : 1 ≤ n = ground arith in
        let bounded : total + n ≤ len = ground arith in
        let place : (off + total) % 2 ^ 32 ≡ off + total = omega arith in
        let dest : (ua + total) % u64 ≡ ua + total = omega arith in
        let served = serves (off + total) n (omega arith) (omega arith) in
        let size = length-slice f (off + total) n (omega arith) in
        let whole : ltb n n ≡ false = ground arith in
        let nonzero : (n == 0) ≡ false = ground arith in
        let bytes = slice f (off + total) n in
        rw (more, place, served, size, whole, nonzero, dest)
          (joined total n mem _ bounded (
            read_loop_lem fuel (total + n) (write_bytes mem (ua + total) bytes) bounded
              (omega arith)))
  ]

module _ {ℓ} {V : Type ℓ} where
  -- A read of `n` bytes from descriptor slot `idx` into user memory at `ua`.
  pub record Reads (s : User V) (idx : ℕ) (f : List ℕ) (ua n : ℕ) (r : Sys ℕ × User V)
      : Type ℓ where
    pub count : r.0 ≡ ret n
    pub copied : (k : ℕ) → k < n → r.1.mem (ua + k) ≡ get_or f ((s.fds idx).offset + k) 0
    pub kept : (x : ℕ) → (x < ua) ⊎ (ua + n ≤ x) → r.1.mem x ≡ s.mem x
    pub advanced : (r.1.fds idx).offset ≡ (s.fds idx).offset + n

  finish_read-Reads :
      (s : User V) (idx ua n : ℕ) (f : List ℕ) (r : Sys ℕ × (ℕ → ℕ))
      → (s.fds idx).offset + n < 2 ^ 32
      → Loaded f ua (s.fds idx).offset 0 n s.mem r
      → Reads s idx f ua n (finish_read s idx r)
  unfolding finish_read
  finish_read-Reads s idx ua n f (fail e, mem) small l = absurd (ground (arith, l.count))
  finish_read-Reads s idx ua n f (ret total, mem) small l =
      let all : total ≡ n = ground (arith, l.count) in
      let self : (idx == idx) ≡ true = ground arith in
      record {
        count = ap ret all;
        copied = λ k hi. l.copied k (omega arith) hi;
        kept = λ x apart. l.kept x (ground arith);
        advanced = rw self (omega arith);
      }

-- `user_fd_sys_read` on an open descriptor of a file `f` below 4 GiB that its volume serves, with a
-- length of 1 byte to 1 MiB, a buffer that the range check accepts, and an offset that is not past
-- the end: it returns the smaller of the length asked for and the bytes left,
-- the buffer then holds just those bytes of the file, no other user memory has changed, and the
-- offset has moved on by as many.
pub sys_read_lem {ℓ} :
    {V : Type ℓ} (fs : Ext2 V) (writable : ℕ → ℕ → Bool) (fd ua len n : ℕ) (s : User V) (f : List ℕ)
    → let slot = s.fds (fd - fd_min) in
      bad_fd fd ≡ false
      → slot.valid ≡ true
      → 0 < len
      → len ≤ max_io_bytes
      → writable ua len ≡ true
      → ua + len ≤ u64
      → Serves (read_file_range fs s.vfs slot.path) f
      → slot.size ≡ length f
      → length f < 2 ^ 32
      → slot.offset ≤ slot.size
      → n ≡ (if ltb (slot.size - slot.offset) len then slot.size - slot.offset else len)
      → Reads s (fd - fd_min) f ua n (sys_read fs writable fd ua len s)
unfolding sys_read
sys_read_lem fs writable fd ua len n s f good valid some_bytes most w fits serves size small h e =
    let idx = fd - fd_min in
    let slot = s.fds idx in
    let asked : ltb max_io_bytes len ≡ false = ground arith in
    let nonzero : (len == 0) ≡ false = ground arith in
    let bound : slot.offset + n ≤ length f = ground arith in
    let short : n ≤ len = ground arith in
    elim (Bool-cases (leb slot.size slot.offset)) [
      | inl ended ↦
          let none_left : n ≡ 0 = ground arith in
          rw (good, valid, asked, nonzero, w, ended)
            (record {
              count = ap ret (sym none_left);
              copied = λ k hi. absurd (omega arith);
              kept = λ x apart. refl;
              advanced = omega arith;
            })
      | inr more ↦
          rw (good, valid, asked, nonzero, w, more, sym e)
            (finish_read-Reads s idx ua n f _ (omega arith) (
              read_loop_lem (read_file_range fs s.vfs slot.path) f serves ua slot.offset n bound
                small (omega arith) n 0 s.mem (omega arith) (omega arith)))
    ]
