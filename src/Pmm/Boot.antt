-- ===== src/Pmm/Boot.antt =====
-- `pmm_init` of kernel/pmm.c: the allocator that the memory map of the boot loader makes. The map
-- is read once, as a list of entries; the bitmap is taken to lie apart from it. The addresses of
-- the linker script and what `multiboot_fill_vbe` finds are arguments.
pub mod Runs
pub mod Ready
mod Tests
use cnos.Prelude.{
  ℕ, zero, suc, ◌+◌, ◌-◌, ◌*◌, ◌/◌, ◌%◌, ◌^◌, ◌≤◌, ◌<◌, ◌≡◌, refl, sym, ap, ◌∙◌, subst, fun_ext,
  ◌≢◌, ◌↔◌, ◌⊎◌, inl, inr, Bool, true, false, not, ◌&&◌, ◌||◌, Option, none, some, List, [], ◌∷◌,
  ◌++◌, arith, ltb, leb, ◌==◌, if◌then◌else◌, ltb→lt, lt→ltb, ==_iff, Bool-cases, Option-cases,
  length, get_or, set, length-set, get_or-set_self, get_or-set_ne, set-get_or, set-set, set_bit,
  clear_bit, test_bit, test_bit-set_bit, test_bit-clear_bit, set_bit-lt, clear_bit-lt,
  clear_bit-set_bit,
}
use cnos.Pmm.{Pmm, page_size, u64, bitmap_test, take_page, drop_page}

-- `multiboot_mmap_entry`.
pub record Entry : Type 0 where
  pub base : ℕ
  pub length : ℕ
  pub type : ℕ

-- `framebuffer`, and `pitch * height` in 64 bits; there is one if neither the address nor the
-- height is 0.
pub record Framebuffer : Type 0 where
  pub address : ℕ
  pub pitch : ℕ
  pub height : ℕ

-- A tag as `rd32` reads memory: where the next one stands.
abbrev pub next_tag : (ℕ → ℕ) → ℕ → ℕ
next_tag rd32 tag = (tag + ((rd32 (tag + 4) + 7) % 2 ^ 32) / 8 * 8) % u64

pub data TagScan : Type 0 where
  mmap_at : ℕ → TagScan
  no_mmap : TagScan
  unfinished : TagScan

-- The loop over the tags, with the rounds left.
unfoldable pub find_mmap : ℕ → (ℕ → ℕ) → ℕ → TagScan
find_mmap zero rd32 tag = unfinished
find_mmap (suc fuel) rd32 tag =
    let rest = find_mmap fuel rd32 (next_tag rd32 tag) in
    if rd32 tag == 0 then no_mmap else (if rd32 tag == 6 then mmap_at tag else rest)

-- `while (p + entry_size <= end)`: an entry has 24 bytes at least.
unfoldable pub entries_from : ℕ → (ℕ → ℕ) → (ℕ → ℕ) → ℕ → ℕ → ℕ → List Entry
entries_from zero rd32 rd64 p finish step = []
entries_from (suc fuel) rd32 rd64 p finish step =
    let rest = entries_from fuel rd32 rd64 (p + step) finish step in
    if leb (p + step) finish
    then record { base = rd64 p; length = rd64 (p + 8); type = rd32 (p + 16) } ∷ rest
    else []

-- The entries of the tag at `tag`, none if it is malformed.
unfoldable pub entries_of : (ℕ → ℕ) → (ℕ → ℕ) → ℕ → List Entry
entries_of rd32 rd64 tag =
    let size = rd32 (tag + 4) in
    let step = rd32 (tag + 8) in
    if ltb size 16 || ltb step 24
    then []
    else entries_from (size / 24 + 1) rd32 rd64 (tag + 16) (tag + size) step

abbrev pub is_available : Entry → Bool
is_available e = e.type == 1

abbrev pub end_addr : Entry → ℕ
end_addr e = (e.base + e.length) % u64

unfoldable pub max_addr : List Entry → ℕ → ℕ
max_addr [] max = max
max_addr (e ∷ es) max =
    max_addr es (if is_available e && ltb max (end_addr e) then end_addr e else max)

unfoldable pub fill : ℕ → List ℕ
fill zero = []
fill (suc n) = 0xFF ∷ fill n

abbrev pub start_page : Entry → ℕ
start_page e = e.base / page_size

abbrev pub page_count : Entry → ℕ
page_count e = end_addr e / page_size - e.base / page_size

unfoldable pub clear_run : ℕ → ℕ → Pmm → Pmm
clear_run zero j s = s
clear_run (suc n) j s = clear_run n (j + 1) (drop_page s j)

unfoldable pub clear_entries : List Entry → Pmm → Pmm
clear_entries [] s = s
clear_entries (e ∷ es) s =
    clear_entries es (if is_available e then clear_run (page_count e) (start_page e) s else s)

unfoldable pub mark_page : ℕ → Pmm → Pmm
mark_page i s = if not (bitmap_test s.bitmap i) then take_page s i else s

unfoldable pub mark_run : ℕ → ℕ → Pmm → Pmm
mark_run zero i s = s
mark_run (suc n) i s = mark_run n (i + 1) (mark_page i s)

-- The loop over the frame buffer's pages.
unfoldable pub mark_inside : ℕ → ℕ → Pmm → Pmm
mark_inside zero i s = s
mark_inside (suc n) i s = mark_inside n (i + 1) (if ltb i s.total_pages then mark_page i s else s)

-- From the page of `fb_base` to the last one that begins below `fb_end`.
abbrev pub fb_first : Framebuffer → ℕ
fb_first fb = fb.address / page_size

abbrev pub fb_count : Framebuffer → ℕ
fb_count fb = ((fb.address + fb.pitch * fb.height) % u64 + 4095) / page_size - fb_first fb

unfoldable pub mark_framebuffer : Option Framebuffer → Pmm → Pmm
mark_framebuffer none s = s
mark_framebuffer (some fb) s =
    if fb.address == 0 || (fb.height == 0 || fb.pitch == 0)
    then s
    else mark_inside (fb_count fb) (fb_first fb) s

abbrev pub pages_of : List Entry → ℕ
pages_of es = let n = max_addr es 0 / page_size in if n == 0 then 1 else n

-- Everything in use.
abbrev pub all_used : ℕ → Pmm
all_used total =
    let size = total / 8 + (if total % 8 == 0 then 0 else 1) in
    record { bitmap = fill size; total_pages = total; used_pages = total; bitmap_size = size }

-- The pages of the kernel and of the bitmap, which stands at `kernel_end`.
abbrev pub kernel_count : ℕ → ℕ → ℕ → ℕ
kernel_count kernel_start kernel_end size =
    (kernel_end + size) / page_size + 1 - kernel_start / page_size

unfoldable pub pmm_init : List Entry → ℕ → ℕ → Option Framebuffer → Pmm
pmm_init es kernel_start kernel_end fb =
    let boot = all_used (pages_of es) in
    let s1 = clear_entries es boot in
    let n = kernel_count kernel_start kernel_end boot.bitmap_size in
    let s2 = mark_run n (kernel_start / page_size) s1 in mark_framebuffer fb (mark_run 256 0 s2)
