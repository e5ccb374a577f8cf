-- ===== src/Path/Canonical.antt =====
-- What `chaseros_path_normalize` makes: canonical paths, and of a canonical path itself.
use cnos.Prelude.{
  ℕ, zero, suc, ◌+◌, ◌≤◌, ◌<◌, ◌≡◌, refl, sym, ◌∙◌, ◌⊎◌, inl, inr, true, false, Option, none, some,
  List, [], ◌∷◌, ◌++◌, arith, ltb, leb, ◌==◌, Bool-cases, length,
}
use cnos.Path.{slash, take_seg, emit, emit_one, scan, push_seg, skip_slash, seg_max}
use cnos.Path.Segments.{has_slash, AllSegments, IsSegment, differs}
use mathlib.Core.List.{append_assoc}

-- The components one after the other, each behind a slash.
unfoldable pub join : List (List ℕ) → List ℕ
join [] = []
join (s ∷ segs) = slash ∷ s ++ join segs

-- The same of a stack of components, the last on top.
unfoldable pub join_stack : List (List ℕ) → List ℕ
join_stack [] = []
join_stack (s ∷ segs) = join_stack segs ++ (slash ∷ s)

unfoldable pub rev_onto : List (List ℕ) → List (List ℕ) → List (List ℕ)
rev_onto [] acc = acc
rev_onto (s ∷ segs) acc = rev_onto segs (s ∷ acc)

unfoldable pub path_of : List (List ℕ) → List ℕ
path_of [] = slash ∷ []
path_of (s ∷ segs) = join_stack (s ∷ segs)

pub length-append : (a b : List ℕ) → length (a ++ b) ≡ length a + length b
length-append [] b = omega arith
length-append (x ∷ a) b = omega (arith, length-append a b)

emit_one_lem :
    (outsz : ℕ) (s : List ℕ) (o : Option (List ℕ)) (out : List ℕ)
    → emit_one outsz s o ≡ some out
    → (front : List ℕ) × (o ≡ some front)
      × (out ≡ front ++ (slash ∷ s))
      × (length front + 1 + length s < outsz)
unfolding emit_one
emit_one_lem outsz s none out e = absurd (ground arith)
emit_one_lem outsz s (some front) out e =
    elim (Bool-cases (leb outsz (length front + 1 + length s))) [
      | inl full ↦ absurd (ground arith)
      | inr fits ↦ (front, refl, ground arith, ground arith)
    ]

pub emit_lem :
    (outsz : ℕ) (segs : List (List ℕ)) (out : List ℕ)
    → emit outsz segs ≡ some out
    → (out ≡ join_stack segs) × ((length out < outsz) ⊎ (segs ≡ []))
unfolding emit join_stack
emit_lem outsz [] out e = (ground arith, inr refl)
emit_lem outsz (s ∷ segs) out e =
    let (front, q, o, fits) = emit_one_lem outsz s (emit outsz segs) out e in
    let front_lem = (emit_lem outsz segs front q).0 in
    let whole : out ≡ join_stack segs ++ (slash ∷ s) = cc in
    (whole, inl (rw o (omega (arith, length-append front (slash ∷ s)))))

pub emit_fits :
    (outsz : ℕ) (segs : List (List ℕ))
    → length (join_stack segs) < outsz
    → emit outsz segs ≡ some (join_stack segs)
unfolding emit emit_one join_stack
emit_fits outsz [] h = refl
emit_fits outsz (s ∷ segs) h =
    let l = length-append (join_stack segs) (slash ∷ s) in
    let q = emit_fits outsz segs (omega (arith, l)) in
    let test : leb outsz (length (join_stack segs) + 1 + length s) ≡ false = ground (arith, l) in
    rw (q, test) refl

pub join-rev_onto :
    (segs acc : List (List ℕ)) → join (rev_onto segs acc) ≡ join_stack segs ++ join acc
unfolding join join_stack rev_onto
join-rev_onto [] acc = refl
join-rev_onto (s ∷ segs) acc =
    join-rev_onto segs (s ∷ acc) ∙ sym (append_assoc (join_stack segs) (slash ∷ s) (join acc))

pub rev_onto-rev_onto :
    (segs acc r : List (List ℕ)) → rev_onto (rev_onto segs acc) r ≡ rev_onto acc (segs ++ r)
unfolding rev_onto
rev_onto-rev_onto [] acc r = refl
rev_onto-rev_onto (s ∷ segs) acc r = rev_onto-rev_onto segs (s ∷ acc) r

take_seg_lem :
    (n : ℕ) (s q : List ℕ)
    → has_slash s ≡ false
    → length s ≤ n
    → (q ≡ []) ⊎ ((r : List ℕ) × (q ≡ slash ∷ r))
    → take_seg n (s ++ q) ≡ (s, q)
unfolding take_seg has_slash
take_seg_lem zero [] q clean h e = refl
take_seg_lem zero (c ∷ s) q clean h e = absurd (omega arith)
take_seg_lem (suc n) [] q clean h (inl e) = rw e refl
take_seg_lem (suc n) [] q clean h (inr (r, e)) = rw e refl
take_seg_lem (suc n) (c ∷ s) q clean h e =
    let rest = take_seg_lem n s q (ground arith) (omega arith) e in
    let test : (c == slash) ≡ false = ground arith in rw (test, rest) refl

-- A path without its first slash.
unfoldable pub body : List (List ℕ) → List ℕ
body [] = []
body (s ∷ segs) = s ++ join segs

skip_slash-join : (segs : List (List ℕ)) → skip_slash (join segs) ≡ body segs
unfolding skip_slash join body
skip_slash-join [] = refl
skip_slash-join (s ∷ segs) = refl

join_end : (segs : List (List ℕ)) → (join segs ≡ []) ⊎ ((r : List ℕ) × (join segs ≡ slash ∷ r))
unfolding join
join_end [] = inl refl
join_end (s ∷ segs) = inr (s ++ join segs, refl)

push_seg-IsSegment : (s : List ℕ) (segs : List (List ℕ)) → IsSegment s → push_seg s segs ≡ s ∷ segs
unfolding push_seg
push_seg-IsSegment s segs v =
    rw (differs s _ v.nonempty, differs s _ v.not_dot, differs s _ v.not_dots) refl

pub scan-body :
    (fuel : ℕ) (segs st : List (List ℕ))
    → AllSegments segs
    → length st + length segs ≤ seg_max
    → length segs ≤ fuel
    → scan fuel (body segs) st ≡ rev_onto segs st
unfolding scan AllSegments body rev_onto
scan-body zero [] st v few enough = refl
scan-body zero (s ∷ segs) st v few enough = absurd (omega arith)
scan-body (suc fuel) [] st v few enough = refl
scan-body (suc fuel) ([] ∷ segs) st v few enough = absurd (v.0.nonempty refl)
scan-body (suc fuel) ((c ∷ s) ∷ segs) st v few enough =
    let taken = take_seg_lem 127 (c ∷ s) (join segs) v.0.no_slash v.0.short (join_end segs) in
    let room : ltb (length st) seg_max ≡ true = ground arith in
    let rest = scan-body fuel segs ((c ∷ s) ∷ st) v.1 (omega arith) (omega arith) in
    rw (taken, room, skip_slash-join segs, push_seg-IsSegment (c ∷ s) st v.0) rest

pub rev_onto-AllSegments :
    (segs acc : List (List ℕ))
    → AllSegments segs
    → AllSegments acc
    → AllSegments (rev_onto segs acc)
unfolding AllSegments rev_onto
rev_onto-AllSegments [] acc v w = w
rev_onto-AllSegments (s ∷ segs) acc v w = rev_onto-AllSegments segs (s ∷ acc) v.1 (v.0, w)

pub length-rev_onto :
    (segs acc : List (List ℕ)) → length (rev_onto segs acc) ≡ length segs + length acc
unfolding rev_onto
length-rev_onto [] acc = omega arith
length-rev_onto (s ∷ segs) acc = omega (arith, length-rev_onto segs (s ∷ acc))

length-join : (segs : List (List ℕ)) → length segs ≤ length (join segs)
unfolding join
length-join [] = omega arith
length-join (s ∷ segs) = omega (arith, length-join segs, length-append s (join segs))

pub length-body : (segs : List (List ℕ)) → AllSegments segs → length segs ≤ length (body segs)
unfolding AllSegments body
length-body [] v = omega arith
length-body ([] ∷ segs) v = absurd (v.0.nonempty refl)
length-body ((c ∷ s) ∷ segs) v = omega (arith, length-join segs, length-append s (join segs))

pub join-body : (s : List ℕ) (segs : List (List ℕ)) → join (s ∷ segs) ≡ slash ∷ body (s ∷ segs)
unfolding join body
join-body s segs = refl
