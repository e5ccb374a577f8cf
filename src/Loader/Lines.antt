-- ===== src/Loader/Lines.antt =====
-- `cnpkg_manifest_get_value` of kernel/fs/cnaf/cnaf_validate.c reads back a manifest of lines
-- `key = value`.
use cnos.Prelude.{
  ℕ, zero, suc, ◌+◌, ◌≤◌, ◌<◌, ◌≡◌, refl, sym, ap, ◌∙◌, Bool, true, false, not, ◌&&◌, ◌||◌, Option,
  none, some, List, [], ◌∷◌, ◌++◌, arith, ltb, ◌==◌, if◌then◌else◌, length,
}
use cnos.Path.Canonical.{length-append}
use mathlib.Core.List.{append_assoc}
use cnos.Loader.Manifest.{
  key_match, is_ws, equals_sign, trim_end, split_on, newline, parse_line, hash, keep_unless_empty,
  skip_ws, pair_of, manifest_get_value, get_from, try_line,
}
use cnos.Path.{eq_string}

unfoldable pub lacks : ℕ → List ℕ → Bool
lacks stop [] = true
lacks stop (c ∷ p) = not (c == stop) && lacks stop p

-- A key: it starts with no white space and no `#`, ends with no white space, and has no `=`.
pub record IsKey (first : ℕ) (k : List ℕ) : Type 0 where
  pub start : (is_ws first || first == hash) ≡ false
  pub one_line : lacks newline (first ∷ k) ≡ true
  pub no_equals : lacks equals_sign (first ∷ k) ≡ true
  pub trimmed : trim_end (first ∷ k) ≡ first ∷ k

-- A value, without white space at either end.
pub record IsValue (v : List ℕ) : Type 0 where
  pub one_line : lacks newline v ≡ true
  pub start : skip_ws v ≡ v
  pub trimmed : trim_end v ≡ v

-- ` = ` and the value.
abbrev tail_of : List ℕ → List ℕ
tail_of v = 32 ∷ equals_sign ∷ 32 ∷ v

-- Entries of a manifest: the key's first character, the others, and the value.
abbrev pub Entries : Type 0
Entries = List (ℕ × List ℕ × List ℕ)

unfoldable pub print : Entries → List ℕ
print [] = []
print ((c, k, v) ∷ es) = (c ∷ (k ++ tail_of v)) ++ (newline ∷ print es)

unfoldable pub AllEntries : Entries → Type 0
AllEntries [] = Unit
AllEntries ((c, k, v) ∷ es) = IsKey c k × (IsValue v × AllEntries es)

-- The value of the first entry of the key, if it fits the buffer.
unfoldable pub value_of : List ℕ → ℕ → Entries → Option (List ℕ)
value_of key out_cap [] = none
value_of key out_cap ((c, k, v) ∷ es) =
    if eq_string (c ∷ k) key
    then (if ltb out_cap (length v + 1) then none else some v)
    else value_of key out_cap es

split_on-found :
    (stop : ℕ) (p q : List ℕ) → lacks stop p ≡ true → split_on stop (p ++ (stop ∷ q)) ≡ (p, some q)
unfolding split_on lacks
split_on-found stop [] q h = let here : (stop == stop) ≡ true = ground arith in rw here refl
split_on-found stop (c ∷ p) q h =
    let other : (c == stop) ≡ false = ground arith in
    let ih = split_on-found stop p q (ground arith) in rw (ih, other) refl

lacks-append :
    (stop : ℕ) (p q : List ℕ)
    → lacks stop p ≡ true
    → lacks stop q ≡ true
    → lacks stop (p ++ q) ≡ true
unfolding lacks
lacks-append stop [] q h l = l
lacks-append stop (c ∷ p) q h l = ground (arith, lacks-append stop p q)

trim_end_space : (k : List ℕ) → trim_end (k ++ (32 ∷ [])) ≡ trim_end k
unfolding trim_end keep_unless_empty is_ws
trim_end_space [] = refl
trim_end_space (c ∷ k) = ap (keep_unless_empty c) (trim_end_space k)

key_match-eq_string : (k key : List ℕ) → key_match k key ≡ eq_string k key
unfolding key_match eq_string
key_match-eq_string [] [] = refl
key_match-eq_string [] (d ∷ key) = refl
key_match-eq_string (c ∷ k) [] = refl
key_match-eq_string (c ∷ k) (d ∷ key) = rw (key_match-eq_string k key) refl

skip_ws_space : (v : List ℕ) → skip_ws (32 ∷ v) ≡ skip_ws v
unfolding skip_ws is_ws
skip_ws_space v = refl

space_no_equals : lacks equals_sign (32 ∷ []) ≡ true
unfolding lacks
space_no_equals = refl

parse_line_lem :
    (c : ℕ) (k v : List ℕ)
    → IsKey c k
    → IsValue v
    → parse_line (skip_ws (c ∷ (k ++ tail_of v))) ≡ some (c ∷ k, v)
unfolding parse_line skip_ws pair_of
parse_line_lem c k v key value =
    let no_ws : is_ws c ≡ false = ground (arith, key.start) in
    let no_hash : (c == hash) ≡ false = ground (arith, key.start) in
    let front = lacks-append equals_sign (c ∷ k) (32 ∷ []) key.no_equals space_no_equals in
    let cut : split_on equals_sign (c ∷ (k ++ tail_of v)) ≡ ((c ∷ k) ++ (32 ∷ []), some (32 ∷ v)) =
      ap (split_on equals_sign) (sym (append_assoc (c ∷ k) (32 ∷ []) (equals_sign ∷ 32 ∷ v)))
      ∙ split_on-found equals_sign ((c ∷ k) ++ (32 ∷ [])) (32 ∷ v) front in
    let name : trim_end ((c ∷ k) ++ (32 ∷ [])) ≡ c ∷ k = trim_end_space (c ∷ k) ∙ key.trimmed in
    let text : trim_end (skip_ws (32 ∷ v)) ≡ v =
      ap trim_end (skip_ws_space v ∙ value.start) ∙ value.trimmed in
    rw (no_ws, no_hash)
      (ap pair_of cut
        ∙ ap (λ x. some (x, trim_end (skip_ws (32 ∷ v)))) name
        ∙ ap (λ x. some (c ∷ k, x)) text)

line_stays_whole :
    (c : ℕ) (k v : List ℕ) → IsKey c k → IsValue v → lacks newline (c ∷ (k ++ tail_of v)) ≡ true
unfolding lacks
line_stays_whole c k v key value =
    lacks-append newline (c ∷ k) (tail_of v) key.one_line (ground (arith, value.one_line))

get_from-print :
    (fuel : ℕ) (es : Entries) (key : List ℕ) (out_cap : ℕ)
    → AllEntries es
    → length (print es) ≤ fuel
    → get_from fuel (print es) key out_cap ≡ value_of key out_cap es
unfolding get_from print AllEntries value_of try_line
get_from-print zero [] key out_cap h enough = refl
get_from-print (suc fuel) [] key out_cap h enough = refl
get_from-print zero ((c, k, v) ∷ es) key out_cap h enough = absurd (omega arith)
get_from-print (suc fuel) ((c, k, v) ∷ es) key out_cap (is_key, (is_value, rest)) enough =
    let longer = length-append (k ++ tail_of v) (newline ∷ print es) in
    let ih = get_from-print fuel es key out_cap rest (omega arith) in
    let cut =
      split_on-found newline (c ∷ (k ++ tail_of v)) (print es)
        (line_stays_whole c k v is_key is_value) in
    rw (cut, parse_line_lem c k v is_key is_value, key_match-eq_string (c ∷ k) key, ih) refl

-- The manifest that is the entries' lines `key = value`: the search for a key returns the value of
-- its first entry, where that fits the buffer with its NUL, and fails where it does not or where
-- the key has no entry.
pub manifest_get_value-print :
    (es : Entries) (key : List ℕ) (out_cap : ℕ)
    → AllEntries es
    → 0 < out_cap
    → manifest_get_value (print es) key out_cap ≡ value_of key out_cap es
unfolding manifest_get_value
manifest_get_value-print es key out_cap h some_room =
    let nonzero : (out_cap == 0) ≡ false = ground arith in
    rw nonzero (get_from-print (length (print es)) es key out_cap h (omega arith))
