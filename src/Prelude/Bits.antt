-- ===== src/Prelude/Bits.antt =====
-- The bits of one byte, as the kernel's bitmaps use them: `b |= 1 << k`, `b &= ~(1 << k)`,
-- `(b >> k) & 1`. The laws are checked over every byte and every bit.
use Prim.Native.Nat.{ℕ, zero, suc, ◌-◌, ◌/◌, ◌%◌, ◌^◌, ◌<◌, bit_and, bit_or}
use mathlib.Core.Path.{◌≡◌, refl}
use mathlib.Core.Bool.{Bool, true, false, ◌&&◌}
use native.Mathlib.Omega.{arith}
use cnos.Prelude.Tests.{ltb, ◌==◌, if◌then◌else◌}

unfoldable pub set_bit : ℕ → ℕ → ℕ
set_bit b k = bit_or b (2 ^ k)

-- `~(1 << k)` has its low eight bits left after the store into a byte.
unfoldable pub clear_bit : ℕ → ℕ → ℕ
clear_bit b k = bit_and b (255 - 2 ^ k)

unfoldable pub test_bit : ℕ → ℕ → Bool
test_bit b k = (b / 2 ^ k) % 2 == 1

-- Does `check` pass at `0`, …, `count - 1`, asked from the top down?
every : (ℕ → Bool) → ℕ → Bool
every check zero = true
every check (suc top) = if check top then every check top else false

every-at : (check : ℕ → Bool) (count i : ℕ) → i < count → every check count ≡ true → check i ≡ true
unfolding every
every-at check zero i below passed = absurd (omega arith)
every-at check (suc top) i below passed = ground (arith, every-at check top i)

abbrev same : Bool → Bool → Bool
same true b = b
same false true = false
same false false = true

same→eq : (a b : Bool) → same a b ≡ true → a ≡ b
same→eq a b h = ground arith

-- One entry of the table: the bit written, the other bits, the range, and the way back.
unfoldable law : ℕ → ℕ → ℕ → Bool
unfolding set_bit clear_bit test_bit
law b k m =
    same (test_bit (set_bit b k) m) (if k == m then true else test_bit b m)
    && (same (test_bit (clear_bit b k) m) (if k == m then false else test_bit b m)
        && (ltb (set_bit b k) 256
            && (ltb (clear_bit b k) 256
                && (if test_bit b k then true else clear_bit (set_bit b k) k == b))))

table : every (λ b. every (λ k. every (law b k) 8) 8) 256 ≡ true
unfolding every law
table = refl

law_at : (b k m : ℕ) → b < 256 → k < 8 → m < 8 → law b k m ≡ true
law_at b k m hb hk hm = every-at (law b k) 8 m hm (
    every-at (λ k. every (law b k) 8) 8 k hk
      (every-at (λ b. every (λ k. every (law b k) 8) 8) 256 b hb table))

and_left : (a b : Bool) → (a && b) ≡ true → a ≡ true
and_left a b h = ground arith

and_right : (a b : Bool) → (a && b) ≡ true → b ≡ true
and_right a b h = ground arith

module _ (b k : ℕ) (hb : b < 256) (hk : k < 8) where
  pub test_bit-set_bit :
      (m : ℕ) → m < 8 → test_bit (set_bit b k) m ≡ (if k == m then true else test_bit b m)
  unfolding law
  test_bit-set_bit m hm = same→eq _ _ (and_left _ _ (law_at b k m hb hk hm))

  pub test_bit-clear_bit :
      (m : ℕ) → m < 8 → test_bit (clear_bit b k) m ≡ (if k == m then false else test_bit b m)
  unfolding law
  test_bit-clear_bit m hm = same→eq _ _ (and_left _ _ (and_right _ _ (law_at b k m hb hk hm)))

  abbrev rest_laws : Bool
  rest_laws =
      ltb (set_bit b k) 256
      && (ltb (clear_bit b k) 256
          && (if test_bit b k then true else clear_bit (set_bit b k) k == b))

  rest_laws_hold : rest_laws ≡ true
  unfolding law
  rest_laws_hold = and_right _ _ (and_right _ _ (law_at b k 0 hb hk (omega arith)))

  pub set_bit-lt : set_bit b k < 256
  set_bit-lt = ground (arith, rest_laws_hold)

  pub clear_bit-lt : clear_bit b k < 256
  clear_bit-lt = ground (arith, rest_laws_hold)

  pub clear_bit-set_bit : test_bit b k ≡ false → clear_bit (set_bit b k) k ≡ b
  clear_bit-set_bit h = ground (arith, rest_laws_hold)
