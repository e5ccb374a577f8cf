-- ===== src/UserFd/Bytes.antt =====
-- What the copying of kernel/user_fd.c leaves in user memory.
use cnos.Prelude.{
  ℕ, zero, suc, ◌+◌, ◌-◌, ◌%◌, ◌≤◌, ◌<◌, ◌≡◌, refl, ap, ◌∙◌, ◌⊎◌, inl, true, false, List, [], ◌∷◌,
  arith, ◌==◌, length, get_or,
}
use cnos.Pmm.{u64}
use cnos.Path.{take, drop}
use cnos.Process.{update}
use cnos.UserFd.{write_bytes}

pub write_bytes-outside :
    (bytes : List ℕ) (mem : ℕ → ℕ) (a x : ℕ)
    → a + length bytes ≤ u64
    → (x < a) ⊎ (a + length bytes ≤ x)
    → write_bytes mem a bytes x ≡ mem x
unfolding write_bytes
write_bytes-outside [] mem a x fits h = refl
write_bytes-outside (b ∷ []) mem a x fits h = ground arith
write_bytes-outside (b ∷ c ∷ bytes) mem a x fits h =
    let step : (a + 1) % u64 ≡ a + 1 = omega arith in
    let other : (a == x) ≡ false = ground arith in
    let apart : (x < a + 1) ⊎ (a + 1 + length (c ∷ bytes) ≤ x) = ground arith in
    let rest = write_bytes-outside (c ∷ bytes) (update mem a b) (a + 1) x (omega arith) apart in
    rw step (rest ∙ rw other refl)

pub write_bytes-inside :
    (bytes : List ℕ) (mem : ℕ → ℕ) (a k : ℕ)
    → a + length bytes ≤ u64
    → k < length bytes
    → write_bytes mem a bytes (a + k) ≡ get_or bytes k 0
unfolding write_bytes
write_bytes-inside [] mem a k fits h = absurd (omega arith)
write_bytes-inside (b ∷ []) mem a zero fits h = ground arith
write_bytes-inside (b ∷ []) mem a (suc k) fits h = absurd (omega arith)
write_bytes-inside (b ∷ c ∷ bytes) mem a zero fits h =
    let step : (a + 1) % u64 ≡ a + 1 = omega arith in
    let before : (a + 0 < a + 1) ⊎ (a + 1 + length (c ∷ bytes) ≤ a + 0) = inl (omega arith) in
    let rest =
      write_bytes-outside (c ∷ bytes) (update mem a b) (a + 1) (a + 0) (omega arith) before in
    let here : (a == a + 0) ≡ true = ground arith in rw step (rest ∙ rw here refl)
write_bytes-inside (b ∷ c ∷ bytes) mem a (suc k) fits h =
    let step : (a + 1) % u64 ≡ a + 1 = omega arith in
    let rest =
      write_bytes-inside (c ∷ bytes) (update mem a b) (a + 1) k (omega arith) (omega arith) in
    let m = write_bytes (update mem a b) (a + 1) (c ∷ bytes) in rw step (ap m (omega arith) ∙ rest)

get_or-drop : (f : List ℕ) (o k : ℕ) → get_or (drop o f) k 0 ≡ get_or f (o + k) 0
unfolding drop
get_or-drop f zero k = ap (λ i. get_or f i 0) (omega arith)
get_or-drop [] (suc o) k = refl
get_or-drop (c ∷ f) (suc o) k =
    let index : suc (o + k) ≡ suc o + k = omega arith in
    get_or-drop f o k ∙ ap (λ i. get_or (c ∷ f) i 0) index

get_or-take : (f : List ℕ) (n k : ℕ) → k < n → get_or (take n f) k 0 ≡ get_or f k 0
unfolding take
get_or-take f zero k h = absurd (omega arith)
get_or-take [] (suc n) k h = refl
get_or-take (c ∷ f) (suc n) zero h = refl
get_or-take (c ∷ f) (suc n) (suc k) h = get_or-take f n k (omega arith)

length-drop : (f : List ℕ) (o : ℕ) → length (drop o f) ≡ length f - o
unfolding drop
length-drop f zero = omega arith
length-drop [] (suc o) = omega arith
length-drop (c ∷ f) (suc o) = omega (arith, length-drop f o)

length-take : (f : List ℕ) (n : ℕ) → n ≤ length f → length (take n f) ≡ n
unfolding take
length-take f zero h = refl
length-take [] (suc n) h = absurd (omega arith)
length-take (c ∷ f) (suc n) h = omega (arith, length-take f n (omega arith))

-- The `n` bytes of a file from `o` on.
abbrev pub slice : List ℕ → ℕ → ℕ → List ℕ
slice f o n = take n (drop o f)

pub length-slice : (f : List ℕ) (o n : ℕ) → o + n ≤ length f → length (slice f o n) ≡ n
length-slice f o n h = length-take (drop o f) n (omega (arith, length-drop f o))

pub get_or-slice : (f : List ℕ) (o n k : ℕ) → k < n → get_or (slice f o n) k 0 ≡ get_or f (o + k) 0
get_or-slice f o n k h = get_or-take (drop o f) n k h ∙ get_or-drop f o k
