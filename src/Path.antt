-- ===== src/Path.antt =====
-- Paths: `chaseros_path_normalize` and `path_split_parent` of
-- kernel/fs/chaseros/chaseros_ext2_vol.c and `vfs_resolve_path` of kernel/fs/vfs.c. A C string is
-- the list of its characters before the NUL; a result that fits no buffer is `none`.
pub mod Segments
pub mod Canonical
pub mod Normal
pub mod Reference
pub mod Parent
mod Tests
use cnos.Prelude.{
  ℕ, zero, suc, ◌+◌, Bool, true, false, not, ◌&&◌, ◌||◌, Option, none, some, List, [], ◌∷◌, ◌++◌,
  ltb, leb, ◌==◌, if◌then◌else◌, length, get_or,
}

-- `chaseros_strcmp(a, b) == 0`, and `str_eq` of kernel/fs/vfs_devfs.c.
unfoldable pub eq_string : List ℕ → List ℕ → Bool
eq_string [] [] = true
eq_string [] (d ∷ b) = false
eq_string (c ∷ a) [] = false
eq_string (c ∷ a) (d ∷ b) = c == d && eq_string a b

abbrev pub slash : ℕ
slash = 47

abbrev pub dot : ℕ
dot = 46

abbrev pub seg_max : ℕ
seg_max = 32

-- The characters copied to `segs[nseg]`, at most `n`, and where `p` stands afterwards.
unfoldable pub take_seg : ℕ → List ℕ → List ℕ × List ℕ
take_seg zero p = ([], p)
take_seg (suc n) [] = ([], [])
take_seg (suc n) (c ∷ p) =
    let (seg, rest) = take_seg n p in if c == slash then ([], c ∷ p) else (c ∷ seg, rest)

unfoldable pub skip_slash : List ℕ → List ℕ
skip_slash [] = []
skip_slash (c ∷ p) = if c == slash then p else c ∷ p

unfoldable pub pop : List (List ℕ) → List (List ℕ)
pop [] = []
pop (s ∷ segs) = segs

-- `segs[0 .. nseg - 1]`, the last first, after the component `s`.
unfoldable pub push_seg : List ℕ → List (List ℕ) → List (List ℕ)
push_seg s segs =
    if eq_string s []
    then segs
    else (if eq_string s (dot ∷ [])
        then segs
        else (if eq_string s (dot ∷ dot ∷ []) then pop segs else s ∷ segs))

-- The loop `while (*p && nseg < CHASEROS_SEG_MAX)`; a round takes one character at least.
unfoldable pub scan : ℕ → List ℕ → List (List ℕ) → List (List ℕ)
scan zero p segs = segs
scan (suc fuel) [] segs = segs
scan (suc fuel) (c ∷ p) segs =
    let (s, rest) = take_seg 127 (c ∷ p) in
    let next = scan fuel (skip_slash rest) (push_seg s segs) in
    if ltb (length segs) seg_max then next else segs

unfoldable pub emit_one : ℕ → List ℕ → Option (List ℕ) → Option (List ℕ)
emit_one outsz s none = none
emit_one outsz s (some out) =
    if leb outsz (length out + 1 + length s) then none else some (out ++ (slash ∷ s))

-- The loop that writes `out`; `pos` is the number of characters written.
unfoldable pub emit : ℕ → List (List ℕ) → Option (List ℕ)
emit outsz [] = some []
emit outsz (s ∷ segs) = emit_one outsz s (emit outsz segs)

unfoldable pub write_path : ℕ → List (List ℕ) → Option (List ℕ)
write_path outsz [] = some (slash ∷ [])
write_path outsz (s ∷ segs) = emit outsz (s ∷ segs)

unfoldable pub path_normalize : List ℕ → ℕ → Option (List ℕ)
path_normalize [] outsz = none
path_normalize (c ∷ p) outsz =
    if not (c == slash) || ltb outsz 2 then none else write_path outsz (scan (length p) p [])

-- `cwd` and `rel` are no NULL; `tmp` has 512 bytes.
unfoldable pub join_cwd : List ℕ → List ℕ → List ℕ
join_cwd cwd rel =
    if length cwd == 1 && get_or cwd 0 0 == slash then slash ∷ rel else cwd ++ (slash ∷ rel)

unfoldable pub resolve_path : List ℕ → List ℕ → ℕ → Option (List ℕ)
resolve_path cwd rel outsz =
    if ltb outsz 2
    then none
    else (if get_or rel 0 0 == slash
        then path_normalize rel outsz
        else (if ltb 512 (length cwd + 1 + length rel + 2)
            then none
            else path_normalize (join_cwd cwd rel) outsz))

unfoldable pub take : ℕ → List ℕ → List ℕ
take zero p = []
take (suc n) [] = []
take (suc n) (c ∷ p) = c ∷ take n p

unfoldable pub drop : ℕ → List ℕ → List ℕ
drop zero p = p
drop (suc n) [] = []
drop (suc n) (c ∷ p) = drop n p

-- The loop over `q`, which stands at index `i`; `last` is `last_slash` so far.
unfoldable pub last_slash : List ℕ → ℕ → Option ℕ → Option ℕ
last_slash [] i last = last
last_slash (c ∷ q) i last = last_slash q (i + 1) (if c == slash then some i else last)

unfoldable pub split_at : List ℕ → ℕ → ℕ → Option ℕ → Option (List ℕ × List ℕ)
split_at norm psz bsz none =
    if ltb psz 2 || leb bsz (length norm) then none else some (slash ∷ [], drop 1 norm)
split_at norm psz bsz (some i) =
    let base = drop (i + 1) norm in
    if leb psz i
    then none
    else (if length base == 0 || leb bsz (length base) then none else some (take i norm, base))

-- The parent and the last component.
unfoldable pub path_split_parent : List ℕ → ℕ → ℕ → Option (List ℕ × List ℕ)
path_split_parent norm psz bsz =
    if not (get_or norm 0 0 == slash) || leb (length norm) 1
    then none
    else split_at norm psz bsz (last_slash (drop 1 norm) 1 none)
