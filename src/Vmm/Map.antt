-- ===== src/Vmm/Map.antt =====
-- The operations of kernel/vmm.c that change page tables.
use cnos.Prelude.{
  ℕ, zero, suc, ◌+◌, ◌-◌, ◌^◌, Bool, not, ◌&&◌, Option, none, some, ltb, leb, ◌==◌, if◌then◌else◌,
}
use Prim.Native.Nat.{bit_or, bit_and}
use cnos.Pmm.{Pmm, page_size, alloc_page}
use cnos.Process.{update}
use cnos.Vmm.{is_present, page_of, pml4_index, pdpt_index, pd_index, pt_index, slot}

-- Memory, as words, and the page allocator.
pub record Vm : Type 0 where
  pub mem : ℕ → ℕ
  pub pmm : Pmm

unfoldable pub zero_page : (ℕ → ℕ) → ℕ → ℕ → ℕ
zero_page mem page a = if leb page a && ltb a (page + page_size) then 0 else mem a

-- A new table behind entry `at`, if there is memory.
unfoldable pub add_level : ℕ → ℕ → ℕ × Pmm → Vm → Option ℕ × Vm
unfolding zero_page
add_level entry flags (page, pmm') s =
    let v = bit_or (bit_or page flags) 1 in
    if page == 0
    then (none, record s { pmm = pmm' })
    else (some (page_of v), record { mem = update (zero_page s.mem page) entry v; pmm = pmm' })

unfoldable pub get_next_level : ℕ → ℕ → ℕ → Vm → Option ℕ × Vm
get_next_level table index flags s =
    let entry = slot table index in
    if not (is_present (s.mem entry))
    then add_level entry flags (alloc_page s.pmm) s
    else (some (page_of (s.mem entry)), s)

-- Go on with the table that a level has given, or stop.
unfoldable pub on_level : (ℕ → Vm → Vm) → Option ℕ × Vm → Vm
on_level next (none, s) = s
on_level next (some table, s) = next table s

unfoldable pub vmm_map : ℕ → ℕ → ℕ → ℕ → Vm → Vm
vmm_map pml4 virt phys flags s =
    let leaf : ℕ → Vm → Vm = λ pt t. record t {
      mem = update t.mem (slot pt (pt_index virt)) (bit_or (bit_or (page_of phys) flags) 1);
    } in
    let from_pd : ℕ → Vm → Vm = λ pd t. on_level leaf (get_next_level pd (pd_index virt) flags t) in
    let from_pdpt : ℕ → Vm → Vm =
      λ pdpt t. on_level from_pd (get_next_level pdpt (pdpt_index virt) flags t) in
    on_level from_pdpt (get_next_level pml4 (pml4_index virt) flags s)

unfoldable pub vmm_unmap : ℕ → ℕ → (ℕ → ℕ) → ℕ → ℕ
vmm_unmap pml4 virt mem =
    let pml4e = mem (slot pml4 (pml4_index virt)) in
    let pdpte = mem (slot (page_of pml4e) (pdpt_index virt)) in
    let pde = mem (slot (page_of pdpte) (pd_index virt)) in
    if not (is_present pml4e)
    then mem
    else (if not (is_present pdpte)
        then mem
        else (if not (is_present pde)
            then mem
            else update mem (slot (page_of pde) (pt_index virt)) 0))

-- The entry of a page of 2 MiB opened to the user: NX off, USER on, WRITE as asked.
unfoldable pub grant_entry : Bool → ℕ → ℕ
grant_entry user_writable e =
    let opened = bit_or (bit_and e (2 ^ 63 - 1)) 4 in
    if user_writable then bit_or opened 2 else bit_and opened (2 ^ 64 - 1 - 2)

unfoldable pub grant_user_2mb_region : ℕ → ℕ → Bool → (ℕ → ℕ) → ℕ → ℕ
grant_user_2mb_region cr3 virt user_writable mem =
    let at4 = slot cr3 (pml4_index virt) in
    let pml4e = mem at4 in
    let mem1 = update mem at4 (bit_or pml4e 4) in
    let at3 = slot (page_of pml4e) (pdpt_index virt) in
    let pdpte = mem1 at3 in
    let mem2 = update mem1 at3 (bit_or pdpte 4) in
    let at2 = slot (page_of pdpte) (pd_index virt) in
    let ent = mem2 at2 in
    if not (is_present pml4e)
    then mem
    else (if not (is_present pdpte)
        then mem1
        else (if is_present ent then update mem2 at2 (grant_entry user_writable ent) else mem2))

-- `for (i = 0; i < n; i++) new[i] = cur[i]`, from `i` on.
unfoldable pub copy_entries : ℕ → ℕ → ℕ → ℕ → (ℕ → ℕ) → ℕ → ℕ
copy_entries zero i new cur mem = mem
copy_entries (suc n) i new cur mem =
    copy_entries n (i + 1) new cur (update mem (slot new i) (mem (slot cur i)))

unfoldable pub create_address_space : ℕ → Vm → ℕ × Vm
create_address_space cr3 s =
    let (page, pmm') = alloc_page s.pmm in
    if page == 0
    then (0, record s { pmm = pmm' })
    else (page, record { mem = copy_entries 512 0 page cr3 s.mem; pmm = pmm' })
