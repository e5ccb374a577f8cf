-- ===== src/Ext2Vol/Append.antt =====
-- `dirent_put` behind the last entry of a directory's block appends an entry.
use cnos.Prelude.{
  ℕ, ◌+◌, ◌%◌, ◌^◌, ◌≤◌, ◌<◌, ◌≡◌, refl, sym, ◌∙◌, subst, ◌≢◌, ◌⊎◌, inl, inr, false, none, some,
  List, [], ◌∷◌, ◌++◌, arith, ltb, if◌then◌else◌, ltb→lt, Bool-cases, length,
}
use cnos.Ext2Vol.PutEntry.{size_kept, put_entry-before, put_entry-EntryAt, put_entry-behind}
use cnos.Path.{eq_string}
use cnos.Path.Segments.{eq_string_self, differs}
use cnos.Ext2Vol.Fields.{Agree, le16-Agree, le32-Agree, c_string-Agree}
use cnos.Ext2Vol.Dirent.{add_entry, entry_size, dirent_put, name_len, max_entries, find_in_root}
use cnos.Ext2Vol.Entries.{
  end_of, Holds, NoNul, entry_size_bounds, EntryAt, end_from-end_of, lookup, find_from-lookup,
}
use cnos.Ext2Vol.Bytes.{c_string, Bytes, block_size, le16}

pub EntryAt-Agree :
    (b c : Bytes) (pos ino : ℕ) (name : List ℕ)
    → Agree c b pos (entry_size (length name))
    → EntryAt b pos ino name
    → EntryAt c pos ino name
unfolding Agree
EntryAt-Agree b c pos ino name same e =
    let wide = (entry_size_bounds (length name)).0 in
    let len : le16 c (pos + 6) ≡ le16 b (pos + 6) =
      le16-Agree c b (pos + 6) (λ k lo hi. same k (omega arith) (omega arith)) in
    let chars : name_len c pos ≡ length name = rw len e.chars in
    record {
      inode = le32-Agree c b pos (λ k lo hi. same k lo (omega arith)) ∙ e.inode;
      size = le16-Agree c b (pos + 4) (λ k lo hi. same k (omega arith) (omega arith)) ∙ e.size;
      chars = chars;
      text = rw chars (
          c_string-Agree (length name) c b (pos + 8) (λ k lo hi. same k (omega arith) (omega arith))
          ∙ subst (λ n. c_string n b (pos + 8) ≡ name) e.chars e.text);
      inside = e.inside;
    }

end_of_grows : (es : List (ℕ × List ℕ)) (pos : ℕ) → pos ≤ end_of pos es
unfolding end_of
end_of_grows [] pos = omega arith
end_of_grows ((ino, n) ∷ es) pos = omega (arith, end_of_grows es (pos + entry_size (length n)))

-- Where the entries before `end_of pos es` are as they were and `more` stands there, both do.
Holds-append :
    (b c : Bytes) (es more : List (ℕ × List ℕ)) (pos : ℕ)
    → Holds b pos es
    → ((k : ℕ) → k < end_of pos es → c k ≡ b k)
    → Holds c (end_of pos es) more
    → Holds c pos (es ++ more)
unfolding Holds end_of Agree
Holds-append b c [] more pos h same there = there
Holds-append b c ((ino, n) ∷ es) more pos (e, h) same there =
    let next = pos + entry_size (length n) in
    let grows = end_of_grows es next in
    (
      EntryAt-Agree b c pos ino n (λ k lo hi. same k (omega arith)) e,
      Holds-append b c es more next h same there,
    )

Holds-zeros :
    (b : Bytes) (es : List (ℕ × List ℕ)) (pos k : ℕ)
    → Holds b pos es
    → end_of pos es ≤ k
    → k < block_size
    → b k ≡ 0
unfolding Holds end_of
Holds-zeros b [] pos k h lo hi = h k lo hi
Holds-zeros b ((ino, n) ∷ es) pos k (e, h) lo hi =
    Holds-zeros b es (pos + entry_size (length n)) k h lo hi

end_of-append :
    (es : List (ℕ × List ℕ)) (pos ino : ℕ) (name : List ℕ)
    → end_of pos (es ++ ((ino, name) ∷ [])) ≡ end_of pos es + entry_size (length name)
unfolding end_of
end_of-append [] pos ino name = refl
end_of-append ((i, n) ∷ es) pos ino name = end_of-append es (pos + entry_size (length n)) ino name

-- `dirent_put` behind the entries `es`.
pub dirent_put-Holds :
    (b : Bytes) (es : List (ℕ × List ℕ)) (ino : ℕ) (name : List ℕ)
    → Holds b 0 es
    → length name < 128
    → NoNul name
    → ino < 2 ^ 32
    → end_of 0 es + entry_size (length name) ≤ block_size
    → let r = dirent_put b (end_of 0 es) ino name in
      let after = es ++ ((ino, name) ∷ []) in Holds r.0 0 after × (r.1 ≡ end_of 0 after)
unfolding dirent_put Holds
dirent_put-Holds b es ino name h short chars small inside =
    let off = end_of 0 es in
    let size = size_kept b off ino name short small chars inside in
    (
      Holds-append b _ es ((ino, name) ∷ []) 0 h
          (λ k lt. put_entry-before b off ino name short small chars inside k lt)
          (
            put_entry-EntryAt b off ino name short small chars inside,
            λ k lo hi.
                put_entry-behind b off ino name short small chars inside k
                  (omega (arith, (entry_size_bounds (length name)).0))
                ∙ Holds-zeros b es 0 k h (omega arith) hi,
          ),
      rw (size, end_of-append es 0 ino name) (omega arith),
    )

-- On a directory's block that holds `es`, the step of `write_file` and `mkdir` that adds an entry
-- leaves `es` and the new entry, where the entry fits; where it does not fit, the step fails.
pub add_entry-Holds :
    (b : Bytes) (es : List (ℕ × List ℕ)) (ino : ℕ) (name : List ℕ)
    → Holds b 0 es
    → length name < 128
    → NoNul name
    → ino < 2 ^ 32
    → ((end_of 0 es + entry_size (length name) ≤ block_size)
        × (c : Bytes) × (add_entry b ino name ≡ some c)
        × Holds c 0 (es ++ ((ino, name) ∷ [])))
      ⊎ ((block_size < end_of 0 es + entry_size (length name)) × (add_entry b ino name ≡ none))
unfolding add_entry
add_entry-Holds b es ino name h short chars small =
    let end = end_from-end_of b es 0 max_entries h (omega arith) in
    let whole : length name % 2 ^ 16 ≡ length name = omega arith in
    let wide = (entry_size_bounds (length name)).1 in
    let size : entry_size (length name) % 2 ^ 16 ≡ entry_size (length name) = omega arith in
    elim (Bool-cases (ltb block_size (end_of 0 es + entry_size (length name)))) [
      | inl full ↦ inr (ltb→lt _ _ full, rw (end, whole, size, full) refl)
      | inr room ↦
          let inside : end_of 0 es + entry_size (length name) ≤ block_size = ground arith in
          inl (
            inside,
            _,
            rw (end, whole, size, room) refl,
            (dirent_put-Holds b es ino name h short chars small inside).0,
          )
    ]

lookup-append_ne :
    (es : List (ℕ × List ℕ)) (ino : ℕ) (name other : List ℕ)
    → eq_string name other ≡ false
    → lookup other (es ++ ((ino, name) ∷ [])) ≡ lookup other es
unfolding lookup
lookup-append_ne [] ino name other ne = rw ne refl
lookup-append_ne ((i, n) ∷ es) ino name other ne = rw (lookup-append_ne es ino name other ne) refl

pub lookup-append_self :
    (es : List (ℕ × List ℕ)) (ino : ℕ) (name : List ℕ)
    → lookup name es ≡ none
    → lookup name (es ++ ((ino, name) ∷ [])) ≡ some ino
unfolding lookup
lookup-append_self [] ino name absent = rw (eq_string_self name) refl
lookup-append_self ((i, n) ∷ es) ino name absent = elim (Bool-cases (eq_string n name)) [
  | inl hit ↦
      let both : some i ≡ none =
        subst (λ t. (if t then some i else lookup name es) ≡ none) hit absent in
      absurd (ground arith)
  | inr miss ↦
      let next : lookup name es ≡ none =
        subst (λ t. (if t then some i else lookup name es) ≡ none) miss absent in
      rw (miss, lookup-append_self es ino name next) refl
]

-- An entry that the step has added to a directory's block is found there, where the name was not
-- found before, and every other name is found as before.
add_entry-find_in_root :
    (b c : Bytes) (es : List (ℕ × List ℕ)) (ino : ℕ) (name other : List ℕ)
    → Holds b 0 es
    → length name < 128
    → NoNul name
    → ino < 2 ^ 32
    → find_in_root b name ≡ none
    → other ≢ name
    → add_entry b ino name ≡ some c
    → (find_in_root c name ≡ some ino) × (find_in_root c other ≡ find_in_root b other)
unfolding find_in_root
add_entry-find_in_root b c es ino name other h short chars small absent ne added =
    let found = λ (d : Bytes) (l : List (ℕ × List ℕ)) (k : Holds d 0 l) (n : List ℕ).
      find_from-lookup d l n 0 max_entries k (omega arith) in
    elim (add_entry-Holds b es ino name h short chars small) [
      | inr (full, failed) ↦ absurd (ground (arith, failed, added))
      | inl (room, d, made, holds) ↦
          let same : d ≡ c = ground (arith, made, added) in
          let holds_c = subst (λ x. Holds x 0 (es ++ ((ino, name) ∷ []))) same holds in
          let apart = differs name other (λ q. ne (sym q)) in
          (
            found c _ holds_c name
                ∙ lookup-append_self es ino name (sym (found b es h name) ∙ absent),
            found c _ holds_c other
                ∙ lookup-append_ne es ino name other apart
                ∙ sym (found b es h other),
          )
    ]
