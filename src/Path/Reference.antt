-- ===== src/Path/Reference.antt =====
-- `chaseros_path_normalize` against a path split at its slashes.
use cnos.Prelude.{
  ℕ, zero, suc, ◌+◌, ◌≤◌, ◌≡◌, refl, sym, ap, subst, ◌≢◌, inl, inr, true, false, none, some, List,
  [], ◌∷◌, arith, ltb, ◌==◌, if◌then◌else◌, ltb→lt, Bool-cases, Option-cases, length,
}
use cnos.Path.{
  eq_string, slash, seg_max, take_seg, skip_slash, pop, push_seg, scan, emit, write_path,
  path_normalize,
}
use cnos.Path.Segments.{eq_string→eq, eq_string→ne}
use cnos.Path.Canonical.{path_of, join_stack, emit_lem, emit_fits}

abbrev pub cons_head : ℕ → List (List ℕ) → List (List ℕ)
cons_head c [] = (c ∷ []) ∷ []
cons_head c (s ∷ segs) = (c ∷ s) ∷ segs

-- The pieces between slashes, empty ones included, but for one behind a last slash.
unfoldable pub components : List ℕ → List (List ℕ)
components [] = []
components (c ∷ p) = let rest = components p in if c == slash then [] ∷ rest else cons_head c rest

-- Where a component leads: the names of a place, the last first.
pub data Enters : List ℕ → List (List ℕ) → List (List ℕ) → Type 0 where
  empty_stays : (st : List (List ℕ)) → Enters [] st st
  dot_stays : (st : List (List ℕ)) → Enters (46 ∷ []) st st
  root_stays : Enters (46 ∷ 46 ∷ []) [] []
  goes_up : (s : List ℕ) (st : List (List ℕ)) → Enters (46 ∷ 46 ∷ []) (s ∷ st) st
  goes_down :
      (s : List ℕ) (st : List (List ℕ))
      → s ≢ []
      → s ≢ (46 ∷ [])
      → s ≢ (46 ∷ 46 ∷ [])
      → Enters s st (s ∷ st)

-- The components in turn.
pub data Leads : List (List ℕ) → List (List ℕ) → List (List ℕ) → Type 0 where
  stays : (st : List (List ℕ)) → Leads [] st st
  enter :
      (s : List ℕ) (segs st mid end : List (List ℕ))
      → Enters s st mid
      → Leads segs mid end
      → Leads (s ∷ segs) st end

unfoldable resolve : List (List ℕ) → List (List ℕ) → List (List ℕ)
resolve [] st = st
resolve (s ∷ segs) st = resolve segs (push_seg s st)

dots-Enters : (st : List (List ℕ)) → Enters (46 ∷ 46 ∷ []) st (pop st)
unfolding pop
dots-Enters [] = root_stays
dots-Enters (s ∷ st) = goes_up s st

push_seg-Enters : (s : List ℕ) (st : List (List ℕ)) → Enters s st (push_seg s st)
unfolding push_seg
push_seg-Enters s st = elim (Bool-cases (eq_string s [])) [
  | inl e ↦ rw e (subst (λ t. Enters t st st) (sym (eq_string→eq s _ e)) (empty_stays st))
  | inr not_empty ↦ elim (Bool-cases (eq_string s (46 ∷ []))) [
    | inl e ↦
        rw (not_empty, e) (subst (λ t. Enters t st st) (sym (eq_string→eq s _ e)) (dot_stays st))
    | inr not_dot ↦ elim (Bool-cases (eq_string s (46 ∷ 46 ∷ []))) [
      | inl e ↦
          rw (not_empty, not_dot, e)
            (subst (λ t. Enters t st (pop st)) (sym (eq_string→eq s _ e)) (dots-Enters st))
      | inr not_dots ↦
          rw (not_empty, not_dot, not_dots)
            (goes_down s st (eq_string→ne s _ not_empty) (eq_string→ne s _ not_dot)
              (eq_string→ne s _ not_dots))
    ]
  ]
]

resolve-Leads : (segs st : List (List ℕ)) → Leads segs st (resolve segs st)
unfolding resolve
resolve-Leads [] st = stays st
resolve-Leads (s ∷ segs) st =
    enter s segs st _ _ (push_seg-Enters s st) (resolve-Leads segs (push_seg s st))

unfoldable pub AllShort : List (List ℕ) → Type 0
AllShort [] = Unit {0}
AllShort (s ∷ segs) = (length s ≤ 127) × AllShort segs

abbrev head_length : List (List ℕ) → ℕ
head_length [] = 0
head_length (s ∷ segs) = length s

head_length-cons_head :
    (c : ℕ) (segs : List (List ℕ)) → head_length (cons_head c segs) ≡ suc (head_length segs)
head_length-cons_head c [] = omega arith
head_length-cons_head c (s ∷ segs) = refl

abbrev Splits : ℕ → ℕ → List ℕ → Type 0
Splits n c p =
    let (s, rest) = take_seg n (c ∷ p) in
    (components (c ∷ p) ≡ s ∷ components (skip_slash rest)) × (length (skip_slash rest) ≤ length p)

at_slash : (n c : ℕ) (p : List ℕ) → (c == slash) ≡ true → Splits n c p
unfolding take_seg components skip_slash
at_slash zero c p e = rw e (refl, omega arith)
at_slash (suc n) c p e = rw (e, e) (refl, omega arith)

take_seg-nil : (n : ℕ) → take_seg n [] ≡ ([], [])
unfolding take_seg
take_seg-nil zero = refl
take_seg-nil (suc n) = refl

cons-Splits :
    (n c d : ℕ) (p : List ℕ) → (c == slash) ≡ false → Splits n d p → Splits (suc n) c (d ∷ p)
unfolding take_seg components skip_slash
cons-Splits n c d p e (q, l) = rw (e, q) (refl, omega arith)

one_char : (n c : ℕ) → (c == slash) ≡ false → Splits (suc n) c []
unfolding take_seg components skip_slash
one_char n c e = rw (e, take_seg-nil n) (refl, omega arith)

inside :
    (n c : ℕ) (p : List ℕ)
    → (c == slash) ≡ false
    → head_length (components (c ∷ p)) ≤ n
    → Splits n c p
unfolding components
inside zero c p e h = absurd (ground (arith, head_length-cons_head c (components p)))
inside (suc n) c [] e h = one_char n c e
inside (suc n) c (d ∷ p) e h =
    let l : head_length (components (d ∷ p)) ≤ n =
      ground (arith, head_length-cons_head c (components (d ∷ p))) in
    elim (Bool-cases (d == slash)) [
      | inl f ↦ cons-Splits n c d p e (at_slash n d p f)
      | inr f ↦ cons-Splits n c d p e (inside n d p f l)
    ]

take_seg-Splits : (n c : ℕ) (p : List ℕ) → head_length (components (c ∷ p)) ≤ n → Splits n c p
take_seg-Splits n c p h = elim (Bool-cases (c == slash)) [
  | inl e ↦ at_slash n c p e
  | inr e ↦ inside n c p e h
]

length-push_seg : (s : List ℕ) (st : List (List ℕ)) → length (push_seg s st) ≤ suc (length st)
unfolding push_seg pop
length-push_seg s [] = ground arith
length-push_seg s (t ∷ st) = ground arith

components-nil : components [] ≡ []
unfolding components
components-nil = refl

AllShort-parts :
    (s : List ℕ) (segs all : List (List ℕ))
    → all ≡ s ∷ segs
    → AllShort all
    → (length s ≤ 127) × AllShort segs
unfolding AllShort
AllShort-parts s segs all e v = subst AllShort e v

short_head : (segs : List (List ℕ)) → AllShort segs → head_length segs ≤ 127
unfolding AllShort
short_head [] v = omega arith
short_head (s ∷ segs) v = v.0

scan_lem :
    (fuel : ℕ) (p : List ℕ) (st : List (List ℕ))
    → AllShort (components p)
    → length st + length (components p) ≤ seg_max
    → length p ≤ fuel
    → scan fuel p st ≡ resolve (components p) st
unfolding scan resolve
scan_lem zero [] st v few enough = rw components-nil refl
scan_lem zero (c ∷ p) st v few enough = absurd (omega arith)
scan_lem (suc fuel) [] st v few enough = rw components-nil refl
scan_lem (suc fuel) (c ∷ p) st v few enough =
    let (s, rest) = take_seg 127 (c ∷ p) in
    let (q, l) = take_seg-Splits 127 c p (short_head (components (c ∷ p)) v) in
    let parts = AllShort-parts s (components (skip_slash rest)) (components (c ∷ p)) q v in
    let sizes = ap length q in
    let room : ltb (length st) seg_max ≡ true = ground arith in
    rw (q, room)
      (scan_lem fuel (skip_slash rest) (push_seg s st) parts.1 (omega (arith, length-push_seg s st))
        (omega arith))

-- The path of a stack of components, where it fits the buffer.
write_path_lem :
    (outsz : ℕ) (st : List (List ℕ))
    → 2 ≤ outsz
    → write_path outsz st ≡ (if ltb (length (path_of st)) outsz then some (path_of st) else none)
unfolding write_path path_of
write_path_lem outsz [] room = let fits : ltb 1 outsz ≡ true = ground arith in rw fits refl
write_path_lem outsz (s ∷ st) room = elim (Bool-cases (ltb (length (join_stack (s ∷ st))) outsz)) [
  | inl fits ↦ rw fits (emit_fits outsz (s ∷ st) (ltb→lt _ _ fits))
  | inr large ↦ rw large (elim (Option-cases (emit outsz (s ∷ st))) [
    | inl e ↦ e
    | inr (out, e) ↦
        let (same, size) = emit_lem outsz (s ∷ st) out e in
        elim size [
          | inl fits ↦ absurd (ground (arith, ap length same))
          | inr empty ↦ absurd (omega (arith, ap length empty))
        ]
  ])
]

-- On an absolute path with at most 32 components, none over 127 characters, and a buffer of two
-- bytes or more: the components between the slashes lead from the root to a place, where an empty
-- one and `.` stay, `..` goes up, but not from the root, and any other goes down; and
-- `chaseros_path_normalize` returns the path of that place if it fits the buffer with its NUL, and
-- fails if it does not.
pub path_normalize-resolve :
    (p : List ℕ) (outsz : ℕ)
    → AllShort (components p)
    → length (components p) ≤ seg_max
    → 2 ≤ outsz
    → (place : List (List ℕ)) × Leads (components p) [] place
      × (path_normalize (slash ∷ p) outsz
          ≡ (if ltb (length (path_of place)) outsz then some (path_of place) else none))
unfolding path_normalize
path_normalize-resolve p outsz v few room =
    let test : ltb outsz 2 ≡ false = ground arith in
    let place = resolve (components p) [] in
    (
      place,
      resolve-Leads (components p) [],
      rw (test, scan_lem (length p) p [] v (omega arith) (omega arith))
          (write_path_lem outsz place room),
    )
