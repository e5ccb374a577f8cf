-- ===== src/Vmm.antt =====
-- kernel/vmm.c: the four-level page tables. A table is 512 words from its address on, and memory
-- is a function from addresses to 64-bit words; CR3 is an argument. Flushing the TLB is not
-- modelled.
pub mod Leaf
pub mod Range
pub mod Map
pub mod Unmap
pub mod Space
mod Tests
use cnos.Prelude.{
  ℕ, zero, suc, ◌+◌, ◌-◌, ◌*◌, ◌/◌, ◌%◌, ◌^◌, Bool, true, false, not, ◌&&◌, ◌||◌, Option, none,
  some, ltb, leb, ◌==◌, if◌then◌else◌,
}
use cnos.Pmm.{page_size, u64}

abbrev pub is_present : ℕ → Bool
is_present e = e % 2 == 1

abbrev pub is_write : ℕ → Bool
is_write e = (e / 2) % 2 == 1

abbrev pub is_user : ℕ → Bool
is_user e = (e / 4) % 2 == 1

-- `PD_PS`: a page of 2 MiB.
abbrev pub is_large : ℕ → Bool
is_large e = (e / 128) % 2 == 1

-- `x & ~0xFFF`.
abbrev pub page_of : ℕ → ℕ
page_of x = (x / page_size) * page_size

abbrev pub pml4_index : ℕ → ℕ
pml4_index addr = (addr / 2 ^ 39) % 512

abbrev pub pdpt_index : ℕ → ℕ
pdpt_index addr = (addr / 2 ^ 30) % 512

abbrev pub pd_index : ℕ → ℕ
pd_index addr = (addr / 2 ^ 21) % 512

abbrev pub pt_index : ℕ → ℕ
pt_index addr = (addr / 2 ^ 12) % 512

-- The address of `table[i]`.
abbrev pub slot : ℕ → ℕ → ℕ
slot table i = (table + 8 * i) % u64

-- `(e & m) == m` for `m = PAGE_PRESENT | PAGE_USER | need`, where `need` is 0 or PAGE_WRITE.
abbrev pub has_flags : Bool → ℕ → Bool
has_flags need e = is_present e && (is_user e && (not need || is_write e))

unfoldable pub page_has_flags : (ℕ → ℕ) → ℕ → ℕ → Bool → Bool
page_has_flags mem cr3 virt need =
    let pml4e = mem (slot cr3 (pml4_index virt)) in
    let pdpte = mem (slot (page_of pml4e) (pdpt_index virt)) in
    let pde = mem (slot (page_of pdpte) (pd_index virt)) in
    let pte = mem (slot (page_of pde) (pt_index virt)) in
    if not (is_present pml4e)
    then false
    else (if not (is_present pdpte)
        then false
        else (if not (is_present pde)
            then false
            else (if is_large pde then has_flags need pde else has_flags need pte)))

-- The loop of a range check with the rounds left; `none` is a loop that goes on. The counter
-- `pg` wraps at 2 ^ 64.
unfoldable pub check_pages : ℕ → (ℕ → Bool) → ℕ → ℕ → Option Bool
check_pages zero test pg last_page = none
check_pages (suc fuel) test pg last_page =
    let rest = check_pages fuel test ((pg + page_size) % u64) last_page in
    if not (leb pg last_page) then some true else (if not (test pg) then some false else rest)

unfoldable pub user_range : ℕ → (ℕ → Bool) → ℕ → ℕ → Option Bool
user_range fuel test addr len =
    let last = (addr + len + u64 - 1) % u64 in
    if len == 0
    then some true
    else (if ltb ((addr + len) % u64) addr
        then some false
        else check_pages fuel test (page_of addr) (page_of last))

pub user_range_readable : ℕ → (ℕ → ℕ) → ℕ → ℕ → ℕ → Option Bool
user_range_readable fuel mem cr3 addr len =
    user_range fuel (λ pg. page_has_flags mem cr3 pg false) addr len

pub user_range_writable : ℕ → (ℕ → ℕ) → ℕ → ℕ → ℕ → Option Bool
user_range_writable fuel mem cr3 addr len =
    user_range fuel (λ pg. page_has_flags mem cr3 pg true) addr len
