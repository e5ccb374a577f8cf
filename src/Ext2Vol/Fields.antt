-- ===== src/Ext2Vol/Fields.antt =====
-- What the fields, copies and strings of memory hold after a write.
use cnos.Prelude.{
  ℕ, zero, suc, ◌+◌, ◌-◌, ◌^◌, ◌≤◌, ◌<◌, ◌≡◌, refl, ap, ◌⊎◌, true, false, arith, ltb, leb, ◌==◌,
}
use cnos.Ext2Vol.Bytes.{Bytes, c_string, le16, put_le32, le32, memcpy, put_le16}

-- The two memories agree on the `n` bytes from `p` on.
unfoldable pub Agree : Bytes → Bytes → ℕ → ℕ → Type 0
Agree b c p n = (k : ℕ) → p ≤ k → k < p + n → b k ≡ c k

pub memcpy-inside : (d s : Bytes) (off n k : ℕ) → k < n → memcpy d off s n (off + k) ≡ s k
unfolding memcpy
memcpy-inside d s off n k h =
    let low : leb off (off + k) ≡ true = ground arith in
    let high : ltb (off + k) (off + n) ≡ true = ground arith in
    let index : off + k - off ≡ k = omega arith in rw (low, high) (ap s index)

pub memcpy-outside :
    (d s : Bytes) (off n i : ℕ) → (i < off) ⊎ (off + n ≤ i) → memcpy d off s n i ≡ d i
unfolding memcpy
memcpy-outside d s off n i h = ground arith

pub put_le16-outside : (b : Bytes) (p v i : ℕ) → (i < p) ⊎ (p + 2 ≤ i) → put_le16 b p v i ≡ b i
unfolding put_le16
put_le16-outside b p v i h =
    let x : (p == i) ≡ false = ground arith in
    let y : (p + 1 == i) ≡ false = ground arith in rw (x, y) refl

pub put_le32-outside : (b : Bytes) (p v i : ℕ) → (i < p) ⊎ (p + 4 ≤ i) → put_le32 b p v i ≡ b i
unfolding put_le32
put_le32-outside b p v i h =
    let x : (p == i) ≡ false = ground arith in
    let y : (p + 1 == i) ≡ false = ground arith in
    let z : (p + 2 == i) ≡ false = ground arith in
    let w : (p + 3 == i) ≡ false = ground arith in rw (x, y, z, w) refl

pub le16-Agree : (b c : Bytes) (p : ℕ) → Agree b c p 2 → le16 b p ≡ le16 c p
unfolding le16 Agree
le16-Agree b c p h =
    rw (h p (omega arith) (omega arith), h (p + 1) (omega arith) (omega arith)) refl

pub le32-Agree : (b c : Bytes) (p : ℕ) → Agree b c p 4 → le32 b p ≡ le32 c p
unfolding le32 Agree
le32-Agree b c p h =
    rw
      (
        h p (omega arith) (omega arith),
        h (p + 1) (omega arith) (omega arith),
        h (p + 2) (omega arith) (omega arith),
        h (p + 3) (omega arith) (omega arith),
      )
      refl

pub c_string-Agree : (n : ℕ) (b c : Bytes) (p : ℕ) → Agree b c p n → c_string n b p ≡ c_string n c p
unfolding c_string Agree
c_string-Agree zero b c p h = refl
c_string-Agree (suc n) b c p h =
    let rest = c_string-Agree n b c (p + 1) (λ k lo hi. h k (omega arith) (omega arith)) in
    rw (h p (omega arith) (omega arith), rest) refl

pub le16-put_le16 : (b : Bytes) (p v : ℕ) → v < 2 ^ 16 → le16 (put_le16 b p v) p ≡ v
unfolding le16 put_le16
le16-put_le16 b p v h =
    let a0 : (p == p) ≡ true = ground arith in
    let a1 : (p + 1 == p) ≡ false = ground arith in
    let a2 : (p + 1 == p + 1) ≡ true = ground arith in rw (a0, a1, a2) (omega arith)

pub le32-put_le32 : (b : Bytes) (p v : ℕ) → v < 2 ^ 32 → le32 (put_le32 b p v) p ≡ v
unfolding le32 put_le32
le32-put_le32 b p v h =
    let s0 : (p == p) ≡ true = ground arith in
    let s1 : (p + 1 == p + 1) ≡ true = ground arith in
    let s2 : (p + 2 == p + 2) ≡ true = ground arith in
    let s3 : (p + 3 == p + 3) ≡ true = ground arith in
    let d1 : (p + 1 == p) ≡ false = ground arith in
    let d2 : (p + 2 == p) ≡ false = ground arith in
    let d3 : (p + 3 == p) ≡ false = ground arith in
    let e2 : (p + 2 == p + 1) ≡ false = ground arith in
    let e3 : (p + 3 == p + 1) ≡ false = ground arith in
    let f3 : (p + 3 == p + 2) ≡ false = ground arith in
    rw (s0, s1, s2, s3, d1, d2, d3, e2, e3, f3) (omega arith)
