-- ===== src/Vmm/Range.antt =====
-- What the range checks of kernel/vmm.c promise to the system calls that use them.
use cnos.Prelude.{
  ℕ, zero, suc, ◌+◌, ◌-◌, ◌*◌, ◌/◌, ◌%◌, ◌^◌, ◌≤◌, ◌<◌, ◌≡◌, refl, sym, ap, ◌∙◌, subst, inl, inr,
  Bool, true, false, Option, some, arith, ltb, leb, ◌==◌, ==_iff, Bool-cases,
}
use cnos.Pmm.{page_size, u64}
use cnos.Vmm.Leaf.{Writable, page_has_flags-Writable}
use cnos.Vmm.{
  page_of, pml4_index, pdpt_index, pd_index, pt_index, page_has_flags, check_pages, user_range,
  user_range_readable, user_range_writable,
}

-- A check that ends, and says whether every number from `lo` up to below `hi` passes.
pub record Checks (r : Option Bool) (lo hi : ℕ) (passes : ℕ → Bool) : Type 0 where
  pub answer : Bool
  pub ends : r ≡ some answer
  pub accepts : answer ≡ true → (a : ℕ) → lo ≤ a → a < hi → passes a ≡ true
  pub refuses : answer ≡ false → (a : ℕ) × (lo ≤ a) × (a < hi) × (passes a ≡ false)

-- The same for a predicate.
pub record Judges (r : Option Bool) (lo hi : ℕ) (P : ℕ → Type 0) : Type 0 where
  pub answer : Bool
  pub ends : r ≡ some answer
  pub accepts : answer ≡ true → (a : ℕ) → lo ≤ a → a < hi → P a
  pub refuses : answer ≡ false → (a : ℕ) × (lo ≤ a) × (a < hi) × (¬ (P a))

check_pages_lem :
    (fuel : ℕ) (test : ℕ → Bool) (k m : ℕ)
    → m + 1 < 2 ^ 52
    → k ≤ m + 1
    → m + 1 < k + fuel
    → Checks
        (check_pages fuel test (k * page_size) (m * page_size))
        k
        (m + 1)
        (λ j. test (j * page_size))
unfolding check_pages
check_pages_lem zero test k m small h enough = absurd (omega arith)
check_pages_lem (suc fuel) test k m small h enough =
    elim (Bool-cases (leb (k * page_size) (m * page_size))) [
      | inr past ↦ rw past (record {
        answer = true;
        ends = refl;
        accepts = λ e a lo hi. absurd (ground arith);
        refuses = λ e. absurd (ground arith);
      })
      | inl more ↦ elim (Bool-cases (test (k * page_size))) [
        | inr bad ↦
            rw (more, bad)
              (record {
                answer = false;
                ends = refl;
                accepts = λ e. absurd (ground arith);
                refuses = λ e. (k, omega arith, ground arith, bad);
              })
        | inl good ↦
            let up : (k * page_size + page_size) % u64 ≡ (k + 1) * page_size = ground arith in
            let rest = check_pages_lem fuel test (k + 1) m small (ground arith) (omega arith) in
            rw (more, good, up)
              (record {
                answer = rest.answer;
                ends = rest.ends;
                accepts = λ e a lo hi. elim (Bool-cases (a == k)) [
                  | inl same ↦
                      subst (λ j. test (j * page_size) ≡ true) (sym ((==_iff a k).0 same)) good
                  | inr other ↦ rest.accepts e a (ground arith) hi
                ];
                refuses = λ e. let (a, lo, hi, b) = rest.refuses e in (a, omega arith, hi, b);
              })
      ]
    ]

-- The page tables are looked up by the page, not by the byte.
page_has_flags-page_of :
    (mem : ℕ → ℕ) (cr3 a : ℕ) (need : Bool)
    → page_has_flags mem cr3 (page_of a) need ≡ page_has_flags mem cr3 a need
unfolding page_has_flags
page_has_flags-page_of mem cr3 a need =
    let i4 : pml4_index (page_of a) ≡ pml4_index a = omega arith in
    let i3 : pdpt_index (page_of a) ≡ pdpt_index a = omega arith in
    let i2 : pd_index (page_of a) ≡ pd_index a = omega arith in
    let i1 : pt_index (page_of a) ≡ pt_index a = omega arith in rw (i4, i3, i2, i1) refl

first_bad :
    (test : ℕ → Bool) (addr len j : ℕ)
    → 0 < len
    → addr / page_size ≤ j
    → j < (addr + len - 1) / page_size + 1
    → ((a : ℕ) → test (page_of a) ≡ test a)
    → test (j * page_size) ≡ false
    → (a : ℕ) × (addr ≤ a) × (a < addr + len) × (test a ≡ false)
first_bad test addr len j some_bytes lo hi paged b = elim (Bool-cases (ltb (j * page_size) addr)) [
  | inl before ↦
      let page : page_of addr ≡ j * page_size = ground arith in
      (addr, omega arith, omega arith, sym (paged addr) ∙ ap test page ∙ b)
  | inr inside ↦ (j * page_size, ground arith, omega arith, b)
]

user_range_lem :
    (fuel : ℕ) (test : ℕ → Bool) (addr len : ℕ)
    → addr + len + page_size ≤ u64
    → len / page_size + 3 ≤ fuel
    → ((a : ℕ) → test (page_of a) ≡ test a)
    → Checks (user_range fuel test addr len) addr (addr + len) test
unfolding user_range
user_range_lem fuel test addr len fits enough paged = elim (Bool-cases (len == 0)) [
  | inl empty ↦ rw empty (record {
    answer = true;
    ends = refl;
    accepts = λ e a lo hi. absurd (ground arith);
    refuses = λ e. absurd (ground arith);
  })
  | inr some_bytes ↦
      let k = addr / page_size in
      let m = (addr + len - 1) / page_size in
      let no_wrap : ltb ((addr + len) % u64) addr ≡ false = ground arith in
      let last : (addr + len + u64 - 1) % u64 ≡ addr + len - 1 = ground arith in
      let c = check_pages_lem fuel test k m (ground arith) (ground arith) (ground arith) in
      rw (some_bytes, no_wrap, last)
        (record {
          answer = c.answer;
          ends = c.ends;
          accepts = λ e a lo hi.
              sym (paged a) ∙ c.accepts e (a / page_size) (ground arith) (ground arith);
          refuses = λ e.
              let (j, lo, hi, b) = c.refuses e in
              first_bad test addr len j (ground arith) lo hi paged b;
        })
]

-- `vmm_user_range_readable` on a region that ends a page before the end of the address space: it
-- returns, it returns 1 only if each byte lies in a page that is present and open to the user at
-- the leaf, and it returns 0 only if some byte does not. As many rounds as the region has pages,
-- and two more, are enough.
user_range_readable_lem :
    (fuel : ℕ) (mem : ℕ → ℕ) (cr3 addr len : ℕ)
    → addr + len + page_size ≤ u64
    → len / page_size + 3 ≤ fuel
    → Checks
        (user_range_readable fuel mem cr3 addr len)
        addr
        (addr + len)
        (λ a. page_has_flags mem cr3 a false)
unfolding user_range_readable
user_range_readable_lem fuel mem cr3 addr len fits enough =
    user_range_lem fuel (λ a. page_has_flags mem cr3 a false) addr len fits enough
      (λ a. page_has_flags-page_of mem cr3 a false)

-- `vmm_user_range_writable` on a region that ends a page before the end of the address space: it
-- returns, it returns 1 only if each byte lies in a page whose entries are present on each level of
-- the tables and whose leaf is open to the user and writable, and it returns 0 only if some byte
-- does not. As many rounds as the region has pages, and two more, are enough.
pub user_range_writable_lem :
    (fuel : ℕ) (mem : ℕ → ℕ) (cr3 addr len : ℕ)
    → addr + len + page_size ≤ u64
    → len / page_size + 3 ≤ fuel
    → Judges (user_range_writable fuel mem cr3 addr len) addr (addr + len) (Writable mem cr3)
unfolding user_range_writable
user_range_writable_lem fuel mem cr3 addr len fits enough =
    let c =
      user_range_lem fuel (λ a. page_has_flags mem cr3 a true) addr len fits enough
        (λ a. page_has_flags-page_of mem cr3 a true) in
    record {
      answer = c.answer;
      ends = c.ends;
      accepts = λ e a lo hi. (page_has_flags-Writable mem cr3 a).0 (c.accepts e a lo hi);
      refuses = λ e.
          let (a, lo, hi, b) = c.refuses e in
          (a, lo, hi, λ w. let yes = (page_has_flags-Writable mem cr3 a).1 w in ground (arith, b));
    }

-- The check does not see bits 48 to 63 of an address: one that is not canonical, on which the
-- processor faults, passes wherever its low 48 bits do.
pub page_has_flags-alias :
    (mem : ℕ → ℕ) (cr3 virt high : ℕ) (need : Bool)
    → page_has_flags mem cr3 (virt + 2 ^ 48 * high) need ≡ page_has_flags mem cr3 virt need
unfolding page_has_flags
page_has_flags-alias mem cr3 virt high need =
    let i4 : pml4_index (virt + 2 ^ 48 * high) ≡ pml4_index virt = omega arith in
    let i3 : pdpt_index (virt + 2 ^ 48 * high) ≡ pdpt_index virt = omega arith in
    let i2 : pd_index (virt + 2 ^ 48 * high) ≡ pd_index virt = omega arith in
    let i1 : pt_index (virt + 2 ^ 48 * high) ≡ pt_index virt = omega arith in
    rw (i4, i3, i2, i1) refl
