-- ===== src/Path/Normal.antt =====
-- `chaseros_path_normalize`: its results are canonical and it leaves a canonical path as it is.
use cnos.Prelude.{
  ℕ, ◌≤◌, ◌<◌, ◌≡◌, refl, sym, ap, ◌∙◌, subst, ◌≢◌, inl, inr, false, not, ◌||◌, some, List, [], ◌∷◌,
  arith, ltb, ◌==◌, Bool-cases, length,
}
use cnos.Path.{slash, seg_max, scan, write_path, path_normalize}
use cnos.Path.Segments.{AllSegments, scan-Stack}
use cnos.Path.Canonical.{
  path_of, rev_onto, body, join, join_stack, emit_lem, emit_fits, scan-body, rev_onto-rev_onto,
  join-rev_onto, rev_onto-AllSegments, length-rev_onto, length-body, join-body,
}
use mathlib.Core.List.{append-nil}

-- An absolute path of proper components, at most 32, that fits a buffer of `outsz` bytes.
pub record IsCanonical (outsz : ℕ) (q : List ℕ) : Type 0 where
  pub segs : List (List ℕ)
  pub proper : AllSegments segs
  pub few : length segs ≤ seg_max
  pub is_path : q ≡ path_of segs
  pub fits : length q < outsz

write_path-IsCanonical :
    (outsz : ℕ) (segs : List (List ℕ)) (q : List ℕ)
    → 2 ≤ outsz
    → AllSegments segs
    → length segs ≤ seg_max
    → write_path outsz segs ≡ some q
    → IsCanonical outsz q
unfolding write_path path_of
write_path-IsCanonical outsz [] q room v few e = record {
  segs = [];
  proper = v;
  few = few;
  is_path = ground arith;
  fits = let one : q ≡ slash ∷ [] = ground arith in rw one (omega arith);
}
write_path-IsCanonical outsz (s ∷ segs) q room v few e = record {
  segs = s ∷ segs;
  proper = v;
  few = few;
  is_path = (emit_lem outsz (s ∷ segs) q e).0;
  fits = elim (emit_lem outsz (s ∷ segs) q e).1 [ inl h ↦ h | inr h ↦ absurd (ground arith) ];
}

write_path-path_of :
    (outsz : ℕ) (segs : List (List ℕ))
    → length (path_of segs) < outsz
    → write_path outsz segs ≡ some (path_of segs)
unfolding write_path path_of
write_path-path_of outsz [] h = refl
write_path-path_of outsz (s ∷ segs) h = emit_fits outsz (s ∷ segs) h

-- Whatever `chaseros_path_normalize` returns is canonical: absolute, with no empty component, no
-- `.` and no `..`, every component at most 127 characters, and shorter than the buffer.
pub path_normalize-IsCanonical :
    (p q : List ℕ) (outsz : ℕ) → path_normalize p outsz ≡ some q → IsCanonical outsz q
unfolding path_normalize AllSegments
path_normalize-IsCanonical [] q outsz e = absurd (ground arith)
path_normalize-IsCanonical (c ∷ p) q outsz e = elim (Bool-cases (not (c == slash) || ltb outsz 2)) [
  | inl h ↦ absurd (ground arith)
  | inr h ↦
      let (all, few) = scan-Stack (length p) p [] (tt, omega arith) in
      write_path-IsCanonical outsz (scan (length p) p []) q (ground arith) all few (ground arith)
]

scan_path :
    (s : List ℕ) (segs : List (List ℕ)) (outsz : ℕ)
    → AllSegments (s ∷ segs)
    → length (s ∷ segs) ≤ seg_max
    → 2 ≤ outsz
    → path_normalize (join (s ∷ segs)) outsz ≡ write_path outsz (rev_onto (s ∷ segs) [])
unfolding path_normalize
scan_path s segs outsz v few room =
    let p = body (s ∷ segs) in
    let enough = length-body (s ∷ segs) v in
    let test : ltb outsz 2 ≡ false = ground arith in
    rw (join-body s segs, test, scan-body (length p) (s ∷ segs) [] v (omega arith) enough) refl

path_of_joined : (t segs : List (List ℕ)) → rev_onto segs [] ≡ t → segs ≢ [] → path_of segs ≡ join t
unfolding path_of join
path_of_joined t [] e ne = absurd (ne refl)
path_of_joined t (s ∷ segs) e ne =
    let whole = join-rev_onto (s ∷ segs) [] in let plain = append-nil (join_stack (s ∷ segs)) in cc

rev_onto_empty : (segs : List (List ℕ)) → rev_onto segs [] ≡ [] → segs ≡ []
rev_onto_empty [] e = refl
rev_onto_empty (s ∷ segs) e = absurd (omega (arith, ap length e, length-rev_onto (s ∷ segs) []))

normalize_joined :
    (t segs : List (List ℕ)) (outsz : ℕ)
    → rev_onto segs [] ≡ t
    → segs ≢ []
    → AllSegments t
    → length t ≤ seg_max
    → 2 ≤ outsz
    → path_normalize (join t) outsz ≡ write_path outsz segs
unfolding rev_onto
normalize_joined [] segs outsz e ne v few room = absurd (ne (rev_onto_empty segs e))
normalize_joined (s ∷ t) segs outsz e ne v few room =
    let back = rev_onto-rev_onto segs [] [] in
    let plain = append-nil segs in
    let again : rev_onto (s ∷ t) [] ≡ segs = sym (ap (λ u. rev_onto u []) e) ∙ back ∙ plain in
    scan_path s t outsz v few room ∙ ap (write_path outsz) again

pub path_normalize-path_of :
    (segs : List (List ℕ)) (outsz : ℕ)
    → AllSegments segs
    → length segs ≤ seg_max
    → 2 ≤ outsz
    → length (path_of segs) < outsz
    → path_normalize (path_of segs) outsz ≡ some (path_of segs)
unfolding path_of path_normalize write_path scan AllSegments
path_normalize-path_of [] outsz v few room h = ground arith
path_normalize-path_of (s ∷ segs) outsz v few room h =
    let ne : (s ∷ segs) ≢ [] = λ e. ground arith in
    let t = rev_onto (s ∷ segs) [] in
    let joined = path_of_joined t (s ∷ segs) refl ne in
    let proper = rev_onto-AllSegments (s ∷ segs) [] v tt in
    let short = length-rev_onto (s ∷ segs) [] in
    ap (λ q. path_normalize q outsz) joined
    ∙ normalize_joined t (s ∷ segs) outsz refl ne proper (omega arith) room
    ∙ write_path-path_of outsz (s ∷ segs) h

path_normalize-IsCanonical_fixed :
    (q : List ℕ) (outsz : ℕ) → 2 ≤ outsz → IsCanonical outsz q → path_normalize q outsz ≡ some q
path_normalize-IsCanonical_fixed q outsz room v =
    subst (λ u. path_normalize u outsz ≡ some u) (sym v.is_path)
      (path_normalize-path_of v.segs outsz v.proper v.few room
        (omega (arith, v.fits, ap length v.is_path)))

normalized_room : (p q : List ℕ) (outsz : ℕ) → path_normalize p outsz ≡ some q → 2 ≤ outsz
unfolding path_normalize
normalized_room [] q outsz e = absurd (ground arith)
normalized_room (c ∷ p) q outsz e = ground arith

-- What `chaseros_path_normalize` returns it returns again when it is given it, whatever the path
-- and the size of the buffer.
path_normalize-path_normalize :
    (p q : List ℕ) (outsz : ℕ) → path_normalize p outsz ≡ some q → path_normalize q outsz ≡ some q
path_normalize-path_normalize p q outsz e =
    path_normalize-IsCanonical_fixed q outsz (normalized_room p q outsz e)
      (path_normalize-IsCanonical p q outsz e)
