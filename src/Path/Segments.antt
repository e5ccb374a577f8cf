-- ===== src/Path/Segments.antt =====
-- Proper path components, and that the scan of `chaseros_path_normalize` keeps no others.
use cnos.Prelude.{
  ℕ, zero, suc, ◌≤◌, ◌<◌, ◌≡◌, refl, subst, ◌≢◌, inl, inr, Bool, true, false, ◌||◌, List, [], ◌∷◌,
  arith, ltb, ◌==◌, ltb→lt, Bool-cases, length,
}
use cnos.Path.{eq_string, slash, dot, seg_max, take_seg, skip_slash, pop, push_seg, scan}

unfoldable pub has_slash : List ℕ → Bool
has_slash [] = false
has_slash (c ∷ p) = c == slash || has_slash p

pub record IsSegment (s : List ℕ) : Type 0 where
  pub nonempty : s ≢ []
  pub not_dot : s ≢ (dot ∷ [])
  pub not_dots : s ≢ (dot ∷ dot ∷ [])
  pub no_slash : has_slash s ≡ false
  pub short : length s ≤ 127

unfoldable pub AllSegments : List (List ℕ) → Type 0
AllSegments [] = Unit
AllSegments (s ∷ segs) = IsSegment s × AllSegments segs

pub eq_string_self : (s : List ℕ) → eq_string s s ≡ true
unfolding eq_string
eq_string_self [] = refl
eq_string_self (c ∷ s) = ground (arith, eq_string_self s)

pub eq_string→eq : (s t : List ℕ) → eq_string s t ≡ true → s ≡ t
unfolding eq_string
eq_string→eq [] [] h = refl
eq_string→eq [] (d ∷ t) h = ground arith
eq_string→eq (c ∷ s) [] h = ground arith
eq_string→eq (c ∷ s) (d ∷ t) h =
    let head : c ≡ d = ground arith in let tail : s ≡ t = eq_string→eq s t (ground arith) in cc

pub differs : (s t : List ℕ) → s ≢ t → eq_string s t ≡ false
differs s t ne = elim (Bool-cases (eq_string s t)) [
  | inl h ↦ absurd (ne (eq_string→eq s t h))
  | inr h ↦ h
]

pub eq_string→ne : (s t : List ℕ) → eq_string s t ≡ false → s ≢ t
eq_string→ne s t h e =
    let same : eq_string s t ≡ true = subst (λ u. eq_string s u ≡ true) e (eq_string_self s) in
    ground arith

take_seg-no_slash : (n : ℕ) (p : List ℕ) → has_slash (take_seg n p).0 ≡ false
unfolding take_seg has_slash
take_seg-no_slash zero p = refl
take_seg-no_slash (suc n) [] = refl
take_seg-no_slash (suc n) (c ∷ p) = ground (arith, take_seg-no_slash n p)

take_seg-short : (n : ℕ) (p : List ℕ) → length (take_seg n p).0 ≤ n
unfolding take_seg
take_seg-short zero p = omega arith
take_seg-short (suc n) [] = omega arith
take_seg-short (suc n) (c ∷ p) = ground (arith, take_seg-short n p)

pop-AllSegments : (segs : List (List ℕ)) → AllSegments segs → AllSegments (pop segs)
unfolding pop AllSegments
pop-AllSegments [] a = a
pop-AllSegments (s ∷ segs) a = a.1

length-pop : (segs : List (List ℕ)) → length (pop segs) ≤ length segs
unfolding pop
length-pop [] = omega arith
length-pop (s ∷ segs) = omega arith

abbrev Stack : List (List ℕ) → Type 0
Stack segs = AllSegments segs × (length segs ≤ seg_max)

push_seg-Stack :
    (s : List ℕ) (segs : List (List ℕ))
    → has_slash s ≡ false
    → length s ≤ 127
    → AllSegments segs
    → length segs < seg_max
    → Stack (push_seg s segs)
unfolding push_seg AllSegments
push_seg-Stack s segs clean short a h = elim (Bool-cases (eq_string s [])) [
  | inl e ↦ rw e (a, omega arith)
  | inr not_empty ↦ elim (Bool-cases (eq_string s (dot ∷ []))) [
    | inl e ↦ rw (not_empty, e) (a, omega arith)
    | inr not_dot ↦ elim (Bool-cases (eq_string s (dot ∷ dot ∷ []))) [
      | inl e ↦ rw (not_empty, not_dot, e) (pop-AllSegments segs a, omega (arith, length-pop segs))
      | inr not_dots ↦
          rw (not_empty, not_dot, not_dots)
            (
              (
                record {
                  nonempty = eq_string→ne s [] not_empty;
                  not_dot = eq_string→ne s (dot ∷ []) not_dot;
                  not_dots = eq_string→ne s (dot ∷ dot ∷ []) not_dots;
                  no_slash = clean;
                  short = short;
                },
                a,
              ),
              omega arith,
            )
    ]
  ]
]

pub scan-Stack :
    (fuel : ℕ) (p : List ℕ) (segs : List (List ℕ)) → Stack segs → Stack (scan fuel p segs)
unfolding scan
scan-Stack zero p segs v = v
scan-Stack (suc fuel) [] segs v = v
scan-Stack (suc fuel) (c ∷ p) segs v = elim (Bool-cases (ltb (length segs) seg_max)) [
  | inl h ↦
      let (s, rest) = take_seg 127 (c ∷ p) in
      rw h (
        scan-Stack fuel (skip_slash rest) (push_seg s segs) (
          push_seg-Stack s segs (take_seg-no_slash 127 (c ∷ p)) (take_seg-short 127 (c ∷ p)) v.0
            (ltb→lt _ _ h)))
  | inr h ↦ rw h v
]
