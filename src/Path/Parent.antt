-- ===== src/Path/Parent.antt =====
-- `path_split_parent` on canonical paths.
use cnos.Prelude.{
  ℕ, suc, ◌+◌, ◌≤◌, ◌<◌, ◌≡◌, refl, ap, ◌∙◌, ◌≢◌, false, ◌||◌, Option, none, some, List, [], ◌∷◌,
  ◌++◌, arith, ltb, leb, ◌==◌, length,
}
use cnos.Path.Canonical.{join_stack, length-append, path_of}
use native.Mathlib.Numerals.{add-one}
use cnos.Path.{slash, take, drop, last_slash, path_split_parent, split_at}
use cnos.Path.Segments.{has_slash, IsSegment, AllSegments}

last_slash-clean : (s : List ℕ) (i : ℕ) (l : Option ℕ) → has_slash s ≡ false → last_slash s i l ≡ l
unfolding last_slash has_slash
last_slash-clean [] i l h = refl
last_slash-clean (c ∷ s) i l h =
    let test : (c == slash) ≡ false = ground arith in
    rw test (last_slash-clean s (i + 1) l (ground arith))

last_slash_lem :
    (p s : List ℕ) (i : ℕ) (l : Option ℕ)
    → has_slash s ≡ false
    → last_slash (p ++ (slash ∷ s)) i l ≡ some (i + length p)
unfolding last_slash
last_slash_lem [] s i l h = last_slash-clean s (i + 1) (some i) h ∙ ap some (omega arith)
last_slash_lem (c ∷ p) s i l h = last_slash_lem p s (i + 1) _ h ∙ ap some (omega arith)

take-append : (p q : List ℕ) → take (length p) (p ++ q) ≡ p
unfolding take
take-append [] q = refl
take-append (c ∷ p) q = ap (◌∷◌ c) (take-append p q)

drop-append : (p s : List ℕ) (c : ℕ) → drop (length p + 1) (p ++ (c ∷ s)) ≡ s
unfolding drop
drop-append [] s c = refl
drop-append (d ∷ p) s c = rw add-one (drop_one p s c)
  where
    drop_one : (p s : List ℕ) (c : ℕ) → drop (suc (length p)) (p ++ (c ∷ s)) ≡ s
    drop_one [] s c = refl
    drop_one (d ∷ p) s c = drop_one p s c

starts : (st : List (List ℕ)) (s : List ℕ) → (r : List ℕ) × (join_stack (s ∷ st) ≡ slash ∷ r)
unfolding join_stack
starts [] s = (s, refl)
starts (t ∷ st) s = let (r, e) = starts st t in (r ++ (slash ∷ s), ap (λ q. q ++ (slash ∷ s)) e)

split_at_lem :
    (norm parent base : List ℕ) (psz bsz i : ℕ)
    → take i norm ≡ parent
    → drop (i + 1) norm ≡ base
    → i < psz
    → 0 < length base
    → length base < bsz
    → split_at norm psz bsz (some i) ≡ some (parent, base)
unfolding split_at
split_at_lem norm parent base psz bsz i t d hi some_base hb =
    let room : leb psz i ≡ false = ground arith in
    let good : (length base == 0 || leb bsz (length base)) ≡ false = ground arith in
    rw (d, room, good, t) refl

nonempty-length : (s : List ℕ) → s ≢ [] → 0 < length s
nonempty-length [] ne = absurd (ne refl)
nonempty-length (c ∷ s) ne = omega arith

split_nested :
    (r b : List ℕ) (psz bsz : ℕ)
    → IsSegment b
    → length (slash ∷ r) < psz
    → length b < bsz
    → path_split_parent (slash ∷ (r ++ (slash ∷ b))) psz bsz ≡ some (slash ∷ r, b)
unfolding path_split_parent drop
split_nested r b psz bsz v hp hb =
    let found = last_slash_lem r b 1 none v.no_slash in
    let size = length-append r (slash ∷ b) in
    let test : leb (length (slash ∷ (r ++ (slash ∷ b)))) 1 ≡ false = ground arith in
    let before = take-append (slash ∷ r) (slash ∷ b) in
    let after = drop-append (slash ∷ r) b slash in
    let index : some (1 + length r) ≡ some (length (slash ∷ r)) = ap some (omega arith) in
    rw (test, found, index)
      (split_at_lem _ (slash ∷ r) b psz bsz _ before after hp (nonempty-length b v.nonempty) hb)

split_root :
    (b : List ℕ) (psz bsz : ℕ)
    → IsSegment b
    → 2 ≤ psz
    → length b + 1 < bsz
    → path_split_parent (slash ∷ b) psz bsz ≡ some (slash ∷ [], b)
unfolding path_split_parent split_at drop
split_root b psz bsz v hp hb =
    let some_base = nonempty-length b v.nonempty in
    let test : leb (length (slash ∷ b)) 1 ≡ false = ground arith in
    let room : (ltb psz 2 || leb bsz (length (slash ∷ b))) ≡ false = ground arith in
    rw (test, last_slash-clean b 1 none v.no_slash, room) refl

-- `path_split_parent` undoes the last step of a path: of a canonical path whose last component is
-- `b` it returns the canonical path of the others and `b`, if the whole path fits the buffer of the
-- parent with its NUL, and `b` with a slash in front the buffer of the base with its NUL.
pub path_split_parent-path_of :
    (b : List ℕ) (segs : List (List ℕ)) (psz bsz : ℕ)
    → AllSegments (b ∷ segs)
    → length (path_of (b ∷ segs)) < psz
    → length b + 1 < bsz
    → path_split_parent (path_of (b ∷ segs)) psz bsz ≡ some (path_of segs, b)
unfolding path_of AllSegments join_stack
path_split_parent-path_of b [] psz bsz v hp hb =
    split_root b psz bsz v.0 (omega (arith, nonempty-length b v.0.nonempty)) hb
path_split_parent-path_of b (s ∷ segs) psz bsz v hp hb =
    let (r, e) = starts segs s in
    let size = length-append (join_stack (s ∷ segs)) (slash ∷ b) in
    rw e (split_nested r b psz bsz v.0 (omega (arith, ap length e)) (omega arith))
