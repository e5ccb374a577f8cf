-- ===== src/Loader/Manifest.antt =====
-- `cnpkg_manifest_get_value` of kernel/fs/cnaf/cnaf_validate.c. The manifest is the list of its
-- bytes, the key a C string.
use cnos.Prelude.{
  ℕ, zero, suc, ◌+◌, Bool, true, false, ◌&&◌, ◌||◌, Option, none, some, List, [], ◌∷◌, ltb, ◌==◌,
  if◌then◌else◌, length,
}

unfoldable pub is_ws : ℕ → Bool
is_ws c = c == 32 || (c == 9 || c == 13)

unfoldable pub key_match : List ℕ → List ℕ → Bool
key_match [] [] = true
key_match (c ∷ a) [] = false
key_match [] (d ∷ b) = false
key_match (c ∷ a) (d ∷ b) = c == d && key_match a b

abbrev pub newline : ℕ
newline = 10

abbrev pub equals_sign : ℕ
equals_sign = 61

abbrev pub hash : ℕ
hash = 35

-- The bytes before the first `stop`, and those behind it; `none` where there is none.
unfoldable pub split_on : ℕ → List ℕ → List ℕ × Option (List ℕ)
split_on stop [] = ([], none)
split_on stop (c ∷ p) =
    let (front, rest) = split_on stop p in if c == stop then ([], some p) else (c ∷ front, rest)

unfoldable pub skip_ws : List ℕ → List ℕ
skip_ws [] = []
skip_ws (c ∷ p) = let rest = skip_ws p in if is_ws c then rest else c ∷ p

-- Without the white space at the end.
unfoldable pub keep_unless_empty : ℕ → List ℕ → List ℕ
keep_unless_empty c [] = if is_ws c then [] else c ∷ []
keep_unless_empty c (d ∷ p) = c ∷ d ∷ p

unfoldable pub trim_end : List ℕ → List ℕ
trim_end [] = []
trim_end (c ∷ p) = keep_unless_empty c (trim_end p)

-- The key and the value of a line, `none` where it is empty, a comment or has no `=`.
unfoldable pub pair_of : List ℕ × Option (List ℕ) → Option (List ℕ × List ℕ)
pair_of (key, none) = none
pair_of (key, some value) = some (trim_end key, trim_end (skip_ws value))

unfoldable pub parse_line : List ℕ → Option (List ℕ × List ℕ)
parse_line [] = none
parse_line (c ∷ line) = if c == hash then none else pair_of (split_on equals_sign (c ∷ line))

abbrev pub rest_of : Option (List ℕ) → List ℕ
rest_of none = []
rest_of (some p) = p

-- What a line does to the search: the value, a failure, or on to the next line.
unfoldable pub try_line : Option (List ℕ × List ℕ) → List ℕ → ℕ → Option (List ℕ) → Option (List ℕ)
try_line none key out_cap next = next
try_line (some (k, value)) key out_cap next =
    if key_match k key then (if ltb out_cap (length value + 1) then none else some value) else next

-- The loop `while (i < manifest_len)`; a round takes one byte at least.
unfoldable pub get_from : ℕ → List ℕ → List ℕ → ℕ → Option (List ℕ)
get_from zero manifest key out_cap = none
get_from (suc fuel) [] key out_cap = none
get_from (suc fuel) (c ∷ p) key out_cap =
    let (line, rest) = split_on newline (c ∷ p) in
    try_line (parse_line (skip_ws line)) key out_cap (get_from fuel (rest_of rest) key out_cap)

-- The value, without the NUL that ends it in `out`.
unfoldable pub manifest_get_value : List ℕ → List ℕ → ℕ → Option (List ℕ)
manifest_get_value manifest key out_cap =
    if out_cap == 0 then none else get_from (length manifest) manifest key out_cap
