-- ===== src/Ipc/Queue.antt =====
-- A receiver's queue as the list of the slots in it, the newest sender first.
use cnos.Prelude.{
  ℕ, zero, suc, ◌<◌, ◌≡◌, refl, sym, ◌∙◌, subst, inl, inr, Bool, false, Option, none, some, List,
  [], ◌∷◌, arith, ◌==◌, if◌then◌else◌, Bool-cases, length,
}
use cnos.Process.{System}
use cnos.Ipc.{next_of, read_link, matches, unlink, dequeue_from, sender_enqueue}
use cnos.Ipc.Links.{
  next, queue, next-sender_enqueue, queue-sender_enqueue, next-unlink-next, queue-unlink_next,
}

abbrev pub NotIn : ℕ → List ℕ → Type 0
NotIn c [] = Unit {0}
NotIn c (x ∷ xs) = ((c == x) ≡ false) × NotIn c xs

abbrev pub Distinct : List ℕ → Type 0
Distinct [] = Unit {0}
Distinct (x ∷ xs) = NotIn x xs × Distinct xs

-- The pointers lead from `h` through exactly these slots.
abbrev pub IsChain : (ℕ → Option ℕ) → Option ℕ → List ℕ → Type 0
IsChain nx h [] = h ≡ none
IsChain nx h (x ∷ xs) = (h ≡ some x) × IsChain nx (nx x) xs

-- Pointers that change outside the chain leave it alone.
IsChain-off :
    (f g : ℕ → Option ℕ) (c p : ℕ) (h : Option ℕ) (xs : List ℕ)
    → NotIn c xs
    → NotIn p xs
    → ((i : ℕ) → (c == i) ≡ false → (p == i) ≡ false → g i ≡ f i)
    → IsChain f h xs
    → IsChain g h xs
IsChain-off f g c p h [] hc hp same e = e
IsChain-off f g c p h (x ∷ xs) hc hp same (e, rest) = (
  e,
  subst (λ k. IsChain g k xs) (sym (same x hc.0 hp.0))
      (IsChain-off f g c p (f x) xs hc.1 hp.1 same rest),
)

-- The first slot that passes, and the others in their order.
abbrev pub pick : (ℕ → Bool) → List ℕ → Option ℕ × List ℕ
pick test [] = (none, [])
pick test (x ∷ xs) = let r = pick test xs in if test x then (some x, xs) else (r.0, x ∷ r.1)

-- What the walk does from the slot `p` on, whose pointer leads through `xs`: it finds `o`, and the
-- pointer leads through `ys` now.
record Walks (p : ℕ) (s : System) (xs : List ℕ) (o : Option ℕ) (ys : List ℕ) (r : Option ℕ × System)
    : Type 0 where
  found : r.0 ≡ o
  chain : IsChain (next r.1) (next r.1 p) ys
  others : (i : ℕ) → NotIn i (p ∷ xs) → next r.1 i ≡ next s i
  queues : (i : ℕ) → queue r.1 i ≡ queue s i

flip : (i j : ℕ) → (i == j) ≡ false → (j == i) ≡ false
flip i j h = ground arith

walk_hit :
    (recv p x : ℕ) (s : System) (xs : List ℕ)
    → IsChain (next s) (next s x) xs
    → Distinct (p ∷ x ∷ xs)
    → Walks p s (x ∷ xs) (some x) xs (some x, unlink (next_of p) recv x s)
walk_hit recv p x s xs c d =
    let nx = λ (i : ℕ). next-unlink-next recv x s i p in
    let t = unlink (next_of p) recv x s in
    let here : next t p ≡ next s x = ground (arith, nx p, flip p x d.0.0) in
    record {
      found = refl;
      chain =
          subst (λ h. IsChain (next t) h xs) (sym here)
            (IsChain-off (next s) (next t) x p (next s x) xs d.1.0 d.0.1
              (λ i a b. ground (arith, nx i)) c);
      others = λ i h. ground (arith, nx i, flip i x h.1.0, flip i p h.0);
      queues = λ i. queue-unlink_next recv x s i p;
    }

walk_miss :
    (p x : ℕ) (s : System) (xs ys : List ℕ) (o : Option ℕ) (r : Option ℕ × System)
    → next s p ≡ some x
    → Distinct (p ∷ x ∷ xs)
    → Walks x s xs o ys r
    → Walks p s (x ∷ xs) o (x ∷ ys) r
walk_miss p x s xs ys o r e d w = record {
  found = w.found;
  chain = (w.others p d.0 ∙ e, w.chain);
  others = λ i h. w.others i h.1;
  queues = w.queues;
}

walk :
    (fuel recv src p : ℕ) (s : System) (xs : List ℕ)
    → IsChain (next s) (next s p) xs
    → Distinct (p ∷ xs)
    → length xs < fuel
    → let r = pick (matches src s) xs in
      Walks p s xs r.0 r.1 (dequeue_from fuel (next_of p) recv src s)
unfolding dequeue_from read_link
walk zero recv src p s xs c d h = absurd (omega arith)
walk (suc fuel) recv src p s [] c d h =
    rw (c, dequeue_from)
      (record { found = refl; chain = c; others = λ i _. refl; queues = λ i. refl })
walk (suc fuel) recv src p s (x ∷ xs) (e, c) d h = elim (Bool-cases (matches src s x)) [
  | inl hit ↦ rw (e, dequeue_from, hit) (walk_hit recv p x s xs c d)
  | inr miss ↦
      rw (e, dequeue_from, miss)
        (walk_miss p x s xs _ _ _ e d (walk fuel recv src x s xs c d.1 (omega arith)))
]

-- What `sender_dequeue` does to a queue that holds `xs`.
pub record Dequeues (recv : ℕ) (s : System) (xs : List ℕ) (o : Option ℕ) (ys : List ℕ)
    (r : Option ℕ × System) : Type 0 where
  pub found : r.0 ≡ o
  pub chain : IsChain (next r.1) (queue r.1 recv) ys
  pub others : (i : ℕ) → NotIn i xs → next r.1 i ≡ next s i
  pub queues : (i : ℕ) → (recv == i) ≡ false → queue r.1 i ≡ queue s i

-- `sender_enqueue` puts a slot that is in no queue in front, and touches no other queue.
pub sender_enqueue_lem :
    (d c : ℕ) (s : System) (xs : List ℕ)
    → IsChain (next s) (queue s d) xs
    → NotIn c xs
    → IsChain (next (sender_enqueue d c s)) (queue (sender_enqueue d c s) d) (c ∷ xs)
      × ((i : ℕ) → queue (sender_enqueue d c s) i ≡ (if d == i then some c else queue s i))
sender_enqueue_lem d c s xs chain out =
    let t = sender_enqueue d c s in
    let nx = next-sender_enqueue d c s in
    let here : next t c ≡ queue s d = ground (arith, nx c) in
    (
      (
        ground (arith, queue-sender_enqueue d c s d),
        subst (λ h. IsChain (next t) h xs) (sym here)
            (IsChain-off (next s) (next t) c c (queue s d) xs out out
              (λ i a b. ground (arith, nx i)) chain),
      ),
      queue-sender_enqueue d c s,
    )
