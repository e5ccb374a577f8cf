-- ===== src/Pmm/Boot/Ready.antt =====
-- `pmm_init` of kernel/pmm.c makes a valid allocator, with the right pages free.
use cnos.Prelude.{
  ℕ, zero, suc, ◌+◌, ◌-◌, ◌*◌, ◌/◌, ◌%◌, ◌^◌, ◌≤◌, ◌<◌, ◌≡◌, refl, sym, ◌∙◌, inl, inr, Bool, true,
  false, not, ◌&&◌, ◌||◌, Option, none, some, List, [], ◌∷◌, arith, ltb, leb, ◌==◌, if◌then◌else◌,
  Bool-cases, length, get_or, set, test_bit,
}
use cnos.Pmm.Count.{count_all}
use cnos.Pmm.{Pmm, page_size, u64, bitmap_test}
use cnos.Pmm.Valid.{IsValid, pages}
use cnos.Pmm.Contiguous.{in_run}
use cnos.Pmm.Boot.{
  Entry, clear_run, clear_entries, is_available, start_page, page_count, end_addr, max_addr, fill,
  all_used, Framebuffer, mark_framebuffer, pmm_init, kernel_count, fb_first, pages_of, fb_count,
  mark_run,
}
use cnos.Pmm.Boot.Runs.{Turns, clear_run-Turns, mark_inside-Turns, mark_run-Turns}

-- Page `j` is 4096 bytes from `j * 4096` on. It is offered by an entry of available memory, of the
-- bytes from `base` up to `base + length`, that holds its last byte.
abbrev pub offers : Entry → ℕ → Bool
offers e j =
    e.type == 1
    && (ltb e.base ((j + 1) * 4096) && leb ((j + 1) * 4096) ((e.base + e.length) % 2 ^ 64))

offers-in_run :
    (e : Entry) (j : ℕ) → offers e j ≡ (is_available e && in_run (start_page e) (page_count e) j)
offers-in_run e j = ground arith

unfoldable pub offered : List Entry → ℕ → Bool
offered [] j = false
offered (e ∷ es) j = offers e j || offered es j

-- No page is offered by two entries.
unfoldable pub Apart : List Entry → Type 0
Apart [] = Unit {0}
Apart (e ∷ es) = ((j : ℕ) → offers e j ≡ true → offered es j ≡ false) × Apart es

max_addr-from : (es : List Entry) (m : ℕ) → m ≤ max_addr es m
unfolding max_addr
max_addr-from [] m = omega arith
max_addr-from (e ∷ es) m = ground (arith, max_addr-from es (end_addr e), max_addr-from es m)

end_addr-le-max_addr :
    (e : Entry) (es : List Entry) (m : ℕ) → is_available e ≡ true → end_addr e ≤ max_addr (e ∷ es) m
unfolding max_addr
end_addr-le-max_addr e es m a = ground (arith, max_addr-from es (end_addr e), max_addr-from es m)

max_addr-rest :
    (e : Entry) (es : List Entry) (m j : ℕ)
    → j < max_addr es (if is_available e && ltb m (end_addr e) then end_addr e else m) / page_size
    → j < max_addr (e ∷ es) m / page_size
unfolding max_addr
max_addr-rest e es m j h = h

max_addr-offered : (es : List Entry) (m j : ℕ) → offered es j ≡ true → j < max_addr es m / page_size
unfolding offered
max_addr-offered [] m j h = absurd (ground arith)
max_addr-offered (e ∷ es) m j h = elim (Bool-cases (offers e j)) [
  | inl mine ↦
      let last = end_addr-le-max_addr e es m (ground arith) in
      let run : in_run (start_page e) (page_count e) j ≡ true = ground (arith, offers-in_run e j) in
      ground arith
  | inr other ↦ max_addr-rest e es m j (max_addr-offered es _ j (ground arith))
]

clear_entries-Turns :
    (es : List Entry) (s : Pmm)
    → IsValid s
    → Apart es
    → ((j : ℕ) → offered es j ≡ true → (j < s.total_pages) × (pages s j ≡ true))
    → Turns s (clear_entries es s) (λ j. if offered es j then false else pages s j)
unfolding clear_entries offered Apart
clear_entries-Turns [] s v a h = record { valid = v; total = refl; holds = λ j. refl }
clear_entries-Turns (e ∷ es) s v a h = elim (Bool-cases (is_available e)) [
  | inr other ↦
      let rest = clear_entries-Turns es s v a.1 (λ j o. h j (ground arith)) in
      rw other (record {
        valid = rest.valid;
        total = rest.total;
        holds = λ j. ground (arith, rest.holds j);
      })
  | inl mine ↦
      let i = start_page e in
      let n = page_count e in
      let one = clear_run-Turns n i s v (λ j r. h j (ground (arith, offers-in_run e j))) in
      let rest = clear_entries-Turns es (clear_run n i s) one.valid a.1 (λ j o.
        let (below, set) = h j (ground arith) in
        (omega (arith, one.total), ground (arith, one.holds j, a.0 j, offers-in_run e j))) in
      rw mine (record {
        valid = rest.valid;
        total = rest.total ∙ one.total;
        holds = λ j. ground (arith, rest.holds j, one.holds j, a.0 j, offers-in_run e j);
      })
]

fill_bytes : (n k : ℕ) → get_or (fill n) k 0 ≡ (if ltb k n then 255 else 0)
unfolding fill
fill_bytes zero k = ground arith
fill_bytes (suc n) zero = ground arith
fill_bytes (suc n) (suc k) = ground (arith, fill_bytes n k)

length-fill : (n : ℕ) → length (fill n) ≡ n
unfolding fill
length-fill zero = omega arith
length-fill (suc n) = omega (arith, length-fill n)

full_byte : (k : ℕ) → k < 8 → test_bit 255 k ≡ true
unfolding test_bit
full_byte zero h = refl
full_byte (suc zero) h = refl
full_byte (suc (suc zero)) h = refl
full_byte (suc (suc (suc zero))) h = refl
full_byte (suc (suc (suc (suc zero)))) h = refl
full_byte (suc (suc (suc (suc (suc zero))))) h = refl
full_byte (suc (suc (suc (suc (suc (suc zero)))))) h = refl
full_byte (suc (suc (suc (suc (suc (suc (suc zero))))))) h = refl
full_byte (suc (suc (suc (suc (suc (suc (suc (suc k)))))))) h = absurd (omega arith)

max_addr-lt : (es : List Entry) (m : ℕ) → m < u64 → max_addr es m < u64
unfolding max_addr
max_addr-lt [] m h = h
max_addr-lt (e ∷ es) m h = max_addr-lt es _ (ground arith)

pages-all_used : (total j : ℕ) → j < total → pages (all_used total) j ≡ true
unfolding bitmap_test
pages-all_used total j h =
    let size = total / 8 + (if total % 8 == 0 then 0 else 1) in
    let inside : ltb (j / 8) size ≡ true = ground arith in
    rw (fill_bytes size (j / 8), inside) (full_byte (j % 8) (omega arith))

all_used-IsValid : (total : ℕ) → total < 2 ^ 52 → IsValid (all_used total)
all_used-IsValid total h =
    let size = total / 8 + (if total % 8 == 0 then 0 else 1) in
    record {
      bytes = λ k. ground (arith, fill_bytes size k);
      covers = ground (arith, length-fill size);
      counted = sym (count_all (pages (all_used total)) total (pages-all_used total));
      small = h;
    }

-- The pages that hold a byte from `lo` up to below `hi`.
abbrev pub holds_of : ℕ → ℕ → ℕ → Bool
holds_of lo hi j = ltb (j * 4096) hi && ltb lo ((j + 1) * 4096)

-- The pages of the frame buffer.
unfoldable pub shows : Option Framebuffer → ℕ → Bool
shows none j = false
shows (some fb) j =
    not (fb.address == 0 || (fb.height == 0 || fb.pitch == 0))
    && holds_of fb.address ((fb.address + fb.pitch * fb.height) % 2 ^ 64) j

fb-in_run :
    (fb : Framebuffer) (j : ℕ)
    → in_run (fb_first fb) (fb_count fb) j
      ≡ holds_of fb.address ((fb.address + fb.pitch * fb.height) % 2 ^ 64) j
fb-in_run fb j = fb_pages fb.address ((fb.address + fb.pitch * fb.height) % u64) j
  where
    fb_pages :
        (lo hi j : ℕ)
        → in_run (lo / page_size) ((hi + 4095) / page_size - lo / page_size) j ≡ holds_of lo hi j
    fb_pages lo hi j = ground arith

mark_framebuffer-Turns :
    (fb : Option Framebuffer) (s : Pmm)
    → IsValid s
    → Turns s
        (mark_framebuffer fb s)
        (λ j. if shows fb j && ltb j s.total_pages then true else pages s j)
unfolding mark_framebuffer shows
mark_framebuffer-Turns none s v = record { valid = v; total = refl; holds = λ j. refl }
mark_framebuffer-Turns (some fb) s v =
    elim (Bool-cases (fb.address == 0 || (fb.height == 0 || fb.pitch == 0))) [
      | inl absent ↦ rw absent (record { valid = v; total = refl; holds = λ j. refl })
      | inr present ↦
          let t = mark_inside-Turns (fb_count fb) (fb_first fb) s v in
          rw present (record {
            valid = t.valid;
            total = t.total;
            holds = λ j. ground (arith, t.holds j, fb-in_run fb j);
          })
    ]

-- The pages that `pmm_init` keeps from the memory that is offered: those of the kernel and, behind
-- it, of a bitmap for `total` pages, the byte after it included; the first MiB; and the frame
-- buffer.
abbrev pub reserved : ℕ → ℕ → ℕ → Option Framebuffer → ℕ → Bool
reserved total kernel_start kernel_end fb j =
    holds_of kernel_start (kernel_end + (total + 7) / 8 + 1) j || (ltb j 256 || shows fb j)

kernel-in_run :
    (first last j : ℕ)
    → first ≤ last
    → in_run (first / page_size) (last / page_size + 1 - first / page_size) j
      ≡ holds_of first (last + 1) j
kernel-in_run first last j h = ground arith

bitmap_size_lem : (total : ℕ) → total / 8 + (if total % 8 == 0 then 0 else 1) ≡ (total + 7) / 8
bitmap_size_lem total = ground arith

layers :
    (a b c d o p0 p1 p2 p3 p4 : Bool)
    → p0 ≡ true
    → p1 ≡ (if o then false else p0)
    → p2 ≡ (if a then true else p1)
    → p3 ≡ (if b then true else p2)
    → p4 ≡ (if c && d then true else p3)
    → d ≡ true
    → p4 ≡ (if a || (b || c) then true else not o)
layers a b c d o p0 p1 p2 p3 p4 e0 e1 e2 e3 e4 ed = ground arith

-- `pmm_init` on a memory map that offers no page twice and reaches past the kernel, the bitmap and
-- the first MiB: the allocator is valid, so its count of used pages is right, each page offered is
-- below its end of memory, and a page below the end is free just if it is offered and not reserved.
pub pmm_init_lem :
    (es : List Entry) (kernel_start kernel_end : ℕ) (fb : Option Framebuffer)
    → Apart es
    → 256 ≤ pages_of es
    → kernel_start ≤ kernel_end
    → (kernel_end + (pages_of es + 7) / 8) / 4096 < pages_of es
    → let t = pmm_init es kernel_start kernel_end fb in
      IsValid t
      × ((j : ℕ) → offered es j ≡ true → j < t.total_pages)
      × ((j : ℕ)
          → j < t.total_pages
          → pages t j ≡ (
              if reserved t.total_pages kernel_start kernel_end fb j
              then true
              else not (offered es j)))
unfolding pmm_init
pmm_init_lem es kernel_start kernel_end fb apart low order high =
    let total = pages_of es in
    let boot = all_used total in
    let small : total < 2 ^ 52 = ground (arith, max_addr-lt es 0 (omega arith)) in
    let v = all_used-IsValid total small in
    let size = bitmap_size_lem total in
    let below : (j : ℕ) → offered es j ≡ true → j < total =
      λ j o. ground (arith, max_addr-offered es 0 j o) in
    let cleared =
      clear_entries-Turns es boot v apart
        (λ j o. (below j o, pages-all_used total j (below j o))) in
    let s1 = clear_entries es boot in
    let first = kernel_start / page_size in
    let n = kernel_count kernel_start kernel_end boot.bitmap_size in
    let kernel = mark_run-Turns n first s1 cleared.valid (omega (arith, cleared.total)) in
    let s2 = mark_run n first s1 in
    let mib = mark_run-Turns 256 0 s2 kernel.valid (omega (arith, kernel.total, cleared.total)) in
    let last = mark_framebuffer-Turns fb (mark_run 256 0 s2) mib.valid in
    let sizes : (mark_run 256 0 s2).total_pages ≡ total =
      mib.total ∙ kernel.total ∙ cleared.total in
    let whole = last.total ∙ sizes in
    (
      last.valid,
      λ j o. omega (arith, below j o, whole),
      λ j h.
          let mib_run : in_run 0 256 j ≡ ltb j 256 = ground arith in
          let inside : ltb j (mark_run 256 0 s2).total_pages ≡ true =
            ground (arith, whole, sizes) in
          let kernel_run =
            kernel-in_run kernel_start (kernel_end + boot.bitmap_size) j (omega arith) in
          rw (whole, sym size, sym kernel_run)
            (layers (in_run first n j) (ltb j 256) (shows fb j) _ (offered es j) (pages boot j)
              (pages s1 j) (pages s2 j) (pages (mark_run 256 0 s2) j) _
              (pages-all_used total j (omega (arith, whole))) (cleared.holds j) (kernel.holds j)
              (rw mib_run at (mib.holds j)) (last.holds j) inside),
    )
