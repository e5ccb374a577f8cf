-- ===== src/Vmm/Leaf.antt =====
-- What a user may write through the page tables of the processor, said with the bits of their
-- entries, against `vmm_page_has_flags` of kernel/vmm.c.
use cnos.Prelude.{
  ℕ, ◌+◌, ◌*◌, ◌/◌, ◌%◌, ◌^◌, ◌≡◌, ◌↔◌, ◌⊎◌, inl, inr, Bool, true, false, not, arith, if◌then◌else◌,
  Bool-cases,
}
use cnos.Vmm.{page_has_flags, has_flags, is_large, is_present}

abbrev bit : ℕ → ℕ → ℕ
bit e k = (e / 2 ^ k) % 2

-- The entry for `virt` in the table at `table`, where `shift` is the lowest bit of the index.
abbrev entry_in : (ℕ → ℕ) → ℕ → ℕ → ℕ → ℕ
entry_in mem table shift virt = mem ((table + 8 * ((virt / 2 ^ shift) % 512)) % 2 ^ 64)

-- Where an entry points to.
abbrev frame_of : ℕ → ℕ
frame_of e = (e / 4096) * 4096

-- Present, writable and open to the user.
abbrev UserWrites : ℕ → Type 0
UserWrites e = (bit e 0 ≡ 1) × (bit e 1 ≡ 1) × (bit e 2 ≡ 1)

-- The levels above are present, and a page of 2 MiB or, where there is none, one of 4 KiB can be
-- written.
abbrev Walks : ℕ → ℕ → ℕ → ℕ → Type 0
Walks e4 e3 e2 e1 =
    (bit e4 0 ≡ 1)
    × (bit e3 0 ≡ 1)
    × (bit e2 0 ≡ 1)
    × (((bit e2 7 ≡ 1) × UserWrites e2) ⊎ ((bit e2 7 ≡ 0) × UserWrites e1))

unfoldable pub Writable : (ℕ → ℕ) → ℕ → ℕ → Type 0
Writable mem cr3 virt =
    let e4 = entry_in mem cr3 39 virt in
    let e3 = entry_in mem (frame_of e4) 30 virt in
    let e2 = entry_in mem (frame_of e3) 21 virt in
    let e1 = entry_in mem (frame_of e2) 12 virt in Walks e4 e3 e2 e1

has_flags-UserWrites : (e : ℕ) → (has_flags true e ≡ true) ↔ UserWrites e
has_flags-UserWrites e =
    ((λ h. (ground arith, ground arith, ground arith)), λ (p, w, u). ground arith)

leaf-UserWrites :
    (e2 e1 : ℕ)
    → ((if is_large e2 then has_flags true e2 else has_flags true e1) ≡ true)
      ↔ (((bit e2 7 ≡ 1) × UserWrites e2) ⊎ ((bit e2 7 ≡ 0) × UserWrites e1))
leaf-UserWrites e2 e1 = elim (Bool-cases (is_large e2)) [
  | inl large ↦
      let r = has_flags-UserWrites e2 in
      rw large (
        (λ h. inl (ground arith, r.0 h)),
        λ w. elim w [ inl (_, ok) ↦ r.1 ok | inr (small, _) ↦ absurd (ground arith) ],
      )
  | inr small ↦
      let r = has_flags-UserWrites e1 in
      rw small (
        (λ h. inr (ground arith, r.0 h)),
        λ w. elim w [ inl (large, _) ↦ absurd (ground arith) | inr (_, ok) ↦ r.1 ok ],
      )
]

levels :
    (p4 p3 p2 leaf : Bool)
    → ((if not p4 then false else (if not p3 then false else (if not p2 then false else leaf)))
        ≡ true)
      ↔ ((p4 ≡ true) × (p3 ≡ true) × (p2 ≡ true) × (leaf ≡ true))
levels p4 p3 p2 leaf =
    ((λ h. (ground arith, ground arith, ground arith, ground arith)), λ (a, b, c, d). ground arith)

present-bit : (e : ℕ) → (is_present e ≡ true) ↔ (bit e 0 ≡ 1)
present-bit e = ((λ h. ground arith), λ h. ground arith)

pub page_has_flags-Writable :
    (mem : ℕ → ℕ) (cr3 virt : ℕ) → (page_has_flags mem cr3 virt true ≡ true) ↔ Writable mem cr3 virt
unfolding page_has_flags Writable
page_has_flags-Writable mem cr3 virt =
    let e4 = entry_in mem cr3 39 virt in
    let e3 = entry_in mem (frame_of e4) 30 virt in
    let e2 = entry_in mem (frame_of e3) 21 virt in
    let e1 = entry_in mem (frame_of e2) 12 virt in
    let last = leaf-UserWrites e2 e1 in
    let all =
      levels (is_present e4) (is_present e3) (is_present e2)
        (if is_large e2 then has_flags true e2 else has_flags true e1) in
    (
      (λ h.
          let (a, b, c, d) = all.0 h in
          ((present-bit e4).0 a, (present-bit e3).0 b, (present-bit e2).0 c, last.0 d)),
      λ (a, b, c, d).
          all.1 ((present-bit e4).1 a, (present-bit e3).1 b, (present-bit e2).1 c, last.1 d),
    )
