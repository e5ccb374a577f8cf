-- ===== src/Path/Tests.antt =====
-- Runs of the path functions of kernel/fs on short paths, and the theorems at them.
use cnos.Prelude.{ℕ, ◌≡◌, refl, ap, none, some, List, [], ◌∷◌, arith, ltb, if◌then◌else◌, length}
use cnos.Path.{
  eq_string, take_seg, skip_slash, pop, push_seg, scan, emit_one, emit, write_path, path_normalize,
  path_split_parent,
}
use cnos.Path.Segments.{IsSegment, AllSegments, has_slash}
use cnos.Path.Canonical.{path_of, join_stack}
use cnos.Path.Normal.{IsCanonical, path_normalize-IsCanonical}
use cnos.Path.Reference.{components, Leads, AllShort, path_normalize-resolve}
use cnos.Path.Parent.{path_split_parent-path_of}

-- `/a/./b/../c`, `/a/c`, and the first without its slash.
abbrev messy : List ℕ
messy = 47 ∷ 97 ∷ 47 ∷ 46 ∷ 47 ∷ 98 ∷ 47 ∷ 46 ∷ 46 ∷ 47 ∷ 99 ∷ []

abbrev tidy : List ℕ
tidy = 47 ∷ 97 ∷ 47 ∷ 99 ∷ []

abbrev relative : List ℕ
relative = 97 ∷ 47 ∷ 46 ∷ 47 ∷ 98 ∷ 47 ∷ 46 ∷ 46 ∷ 47 ∷ 99 ∷ []

messy_run : path_normalize messy 256 ≡ some tidy
unfolding path_normalize scan take_seg skip_slash push_seg pop eq_string write_path emit emit_one
messy_run = refl

path_normalize-IsCanonical_example : IsCanonical 256 tidy
path_normalize-IsCanonical_example = path_normalize-IsCanonical messy tidy 256 messy_run

relative_pieces :
    components relative ≡ (97 ∷ []) ∷ (46 ∷ []) ∷ (98 ∷ []) ∷ (46 ∷ 46 ∷ []) ∷ (99 ∷ []) ∷ []
unfolding components
relative_pieces = refl

relative-AllShort : AllShort (components relative)
unfolding AllShort components
relative-AllShort = (omega arith, (omega arith, (omega arith, (omega arith, (omega arith, tt)))))

path_normalize-resolve_example :
    (place : List (List ℕ)) × Leads (components relative) [] place
    × (path_normalize messy 256
        ≡ (if ltb (length (path_of place)) 256 then some (path_of place) else none))
path_normalize-resolve_example =
    path_normalize-resolve relative 256 relative-AllShort (omega (arith, ap length relative_pieces))
      (omega arith)

letter : (c : ℕ) → c ≡ 97 → IsSegment (c ∷ [])
unfolding has_slash
letter c e = record {
  nonempty = λ q. ground arith;
  not_dot = λ q. ground arith;
  not_dots = λ q. ground arith;
  no_slash = ground arith;
  short = omega arith;
}

path_split_parent_example :
    path_split_parent (path_of ((97 ∷ []) ∷ (97 ∷ []) ∷ [])) 256 128
    ≡ some (path_of ((97 ∷ []) ∷ []), 97 ∷ [])
unfolding AllSegments path_of join_stack
path_split_parent_example =
    path_split_parent-path_of (97 ∷ []) ((97 ∷ []) ∷ []) 256 128
      (letter 97 refl, (letter 97 refl, tt)) (omega arith) (omega arith)
