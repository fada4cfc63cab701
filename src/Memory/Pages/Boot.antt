-- ===== src/Memory/Pages/Boot.antt =====
-- The start of the page allocator (`init` of kernel/src/arch/aarch64/phys.rs). The linker's end of
-- the kernel and the device tree's address and size are arguments.
use capsule_os.Base.{
  ℕ, zero, suc, ◌+◌, ◌-◌, ◌*◌, ◌/◌, ◌%◌, ◌^◌, ◌≤◌, ◌<◌, ◌≡◌, refl, sym, Bool, true, false, not,
  ◌&&◌, Bool-cases, inl, inr, Option, none, some, replicate, length, length-replicate, ◌≢◌, ◌⊎◌,
  ==_of_ne, bit_and, ltb, leb, ◌==◌, if◌then◌else◌, arith,
}
use capsule_os.Memory.Tracker.{max_live_pt, live_slots, is_live_pt_page}
use capsule_os.Memory.Cache.{empty}
use capsule_os.Memory.Pages.{Phys, max_pages, ram_base, ram_size}
use capsule_os.Memory.Pages.Cursor.{IsValid, IsReady}
use capsule_os.Base.Bits.{bit_and_round_up}

-- `x & !4095`.
abbrev pub page_start : ℕ → ℕ
page_start x = bit_and x 0xffff_ffff_ffff_f000

unfoldable pub is_page_reserved : ℕ → ℕ → ℕ → ℕ → Bool
is_page_reserved page_addr kernel_end_page dtb_start_page dtb_end_page =
    if ltb page_addr kernel_end_page
    then true
    else if not (dtb_start_page == 0)
        && (leb dtb_start_page page_addr && ltb page_addr dtb_end_page)
    then true
    else false

-- The counts of the loop, and the first page for the cursor.
pub record Scan : Type 0 where
  pub current_page : ℕ
  pub free_count : ℕ
  pub total_count : ℕ
  pub first : Option ℕ

-- One page of the loop.
unfoldable pub count_page : ℕ → ℕ → ℕ → Scan → Scan
unfolding is_page_reserved
count_page kernel_end dtb_start dtb_end s =
    let page = s.current_page in
    let counted : Scan =
      if is_page_reserved page kernel_end dtb_start dtb_end then s else record s {
        free_count = s.free_count + 1;
        first = elim s.first [ none ↦ some page | some p ↦ some p ];
      } in
    record counted { current_page = page + 4096; total_count = s.total_count + 1 }

-- The loop over the pages up to the end of memory.
unfoldable pub scan_pages : ℕ → ℕ → ℕ → ℕ → ℕ → Scan → Scan
unfolding count_page
scan_pages zero ram_end kernel_end dtb_start dtb_end s = s
scan_pages (suc fuel) ram_end kernel_end dtb_start dtb_end s =
    let rest =
      scan_pages fuel ram_end kernel_end dtb_start dtb_end
        (count_page kernel_end dtb_start dtb_end s) in
    if leb (s.current_page + 4096) ram_end then rest else s

-- `init`, with the memory and the tags as the boot loader leaves them.
unfoldable pub init : ℕ → ℕ → ℕ → ℕ → ℕ → (ℕ → ℕ) → Phys
unfolding scan_pages
init base size kernel_end_addr dtb_addr dtb_size memory =
    let kernel_end = page_start ((kernel_end_addr + 4095) % 2 ^ 64) in
    let (dtb_start, dtb_end) : ℕ × ℕ =
      if dtb_addr == 0
      then (0, 0)
      else (page_start dtb_addr, page_start ((dtb_addr + dtb_size + 4095) % 2 ^ 64)) in
    let s =
      scan_pages ((base + size - kernel_end) / 4096 + 1) (base + size) kernel_end dtb_start dtb_end
        (record { current_page = kernel_end; free_count = 0; total_count = 0; first = none }) in
    record {
      next = elim s.first [ none ↦ 0 | some p ↦ p ];
      end = s.current_page;
      free_count = s.free_count;
      total_count = s.total_count;
      tags = replicate max_pages 0;
      live = replicate max_live_pt 0;
      cache = empty;
      memory = memory;
    }

-- The first free page, if any, lies between two addresses.
abbrev Within : ℕ → ℕ → Option ℕ → Type 0
Within low high first = (p : ℕ) → first ≡ some p → (low ≤ p) × (p ≤ high)

-- What one page changes.
count_page_lem :
    (kernel_end dtb_start dtb_end low high : ℕ) (s : Scan)
    → low ≤ s.current_page
    → s.current_page ≤ high
    → Within low high s.first
    → let r = count_page kernel_end dtb_start dtb_end s in
      (r.current_page ≡ s.current_page + 4096)
      × (r.total_count ≡ s.total_count + 1)
      × (s.free_count ≤ r.free_count)
      × (r.free_count ≤ s.free_count + 1)
      × Within low high r.first
unfolding count_page
count_page_lem kernel_end dtb_start dtb_end low high s up under from =
    elim (Bool-cases (is_page_reserved s.current_page kernel_end dtb_start dtb_end)) [
      | inl reserved ↦ rw reserved (refl, refl, omega arith, omega arith, from)
      | inr usable ↦ rw usable (refl, refl, omega arith, omega arith, of_first s.first from)
    ]
  where
    of_first :
        (f : Option ℕ)
        → Within low high f
        → Within low high (elim f [ none ↦ some s.current_page | some p ↦ some p ])
    of_first none h p e =
        let same : s.current_page ≡ p = cc in (omega (arith, up, same), omega (arith, under, same))
    of_first (some q) h p e = h p e

-- The scan with a round for each page and one more ends by its own condition.
scan_pages_lem :
    (fuel ram_end kernel_end dtb_start dtb_end low : ℕ) (s : Scan)
    → low ≤ s.current_page
    → s.current_page ≤ ram_end
    → Within low ram_end s.first
    → ram_end < s.current_page + 4096 * fuel
    → let r = scan_pages fuel ram_end kernel_end dtb_start dtb_end s in
      (r.current_page ≤ ram_end)
      × (ram_end < r.current_page + 4096)
      × (r.current_page + 4096 * s.total_count ≡ s.current_page + 4096 * r.total_count)
      × (s.free_count ≤ r.free_count)
      × (r.free_count + s.total_count ≤ s.free_count + r.total_count)
      × Within low ram_end r.first
unfolding scan_pages
scan_pages_lem zero ram_end kernel_end dtb_start dtb_end low s up h from enough =
    absurd (omega arith)
scan_pages_lem (suc fuel) ram_end kernel_end dtb_start dtb_end low s up h from enough =
    let mid = count_page kernel_end dtb_start dtb_end s in
    let (at, total, more, fewer, from') =
      count_page_lem kernel_end dtb_start dtb_end low ram_end s up h from in
    elim (Bool-cases (leb (s.current_page + 4096) ram_end)) [
      | inr done ↦ rw done (h, ground (arith, done), refl, omega arith, omega arith, from)
      | inl fits ↦
          let inside : s.current_page + 4096 ≤ ram_end = ground (arith, fits) in
          let (a, b, c, d, e, f) =
            scan_pages_lem fuel ram_end kernel_end dtb_start dtb_end low mid (omega (arith, up, at))
              (omega (arith, at, inside)) from' (omega (arith, at, enough)) in
          rw fits (
            a,
            b,
            omega (arith, c, total, at),
            omega (arith, more, d),
            omega (arith, e, total, fewer),
            f,
          )
    ]

live_slots-replicate : (n pa : ℕ) → pa ≢ 0 → live_slots pa (replicate n 0) ≡ false
unfolding live_slots
live_slots-replicate zero pa h = refl
live_slots-replicate (suc n) pa h =
    let other : (0 == pa) ≡ false = ==_of_ne 0 pa (λ e. h (sym e)) in
    rw other (live_slots-replicate n pa h)

none_live : (n pa : ℕ) → is_live_pt_page pa (replicate n 0) ≡ false
none_live n pa = elim (Bool-cases (pa == 0)) [
  | inl null ↦ rw null refl
  | inr other ↦
      let nonzero : pa ≢ 0 = ground (arith, other) in rw other (live_slots-replicate n pa nonzero)
]

-- Where the device tree is said to be.
abbrev dtb_pages : ℕ → ℕ → ℕ × ℕ
dtb_pages dtb_addr dtb_size =
    if dtb_addr == 0
    then (0, 0)
    else (page_start dtb_addr, page_start ((dtb_addr + dtb_size + 4095) % 2 ^ 64))

abbrev first_scan : ℕ → Scan
first_scan kernel_end = record {
  current_page = kernel_end;
  free_count = 0;
  total_count = 0;
  first = none;
}

cursor_lem :
    (low high : ℕ) (f : Option ℕ)
    → ram_base ≤ low
    → high ≤ ram_base + ram_size
    → Within low high f
    → let n : ℕ = elim f [ none ↦ 0 | some p ↦ p ] in (n < 2 ^ 64) × ((n ≡ 0) ⊎ (ram_base ≤ n))
cursor_lem low high none hl hh w = (omega arith, inl refl)
cursor_lem low high (some p) hl hh w =
    (omega (arith, hh, (w p refl).1), inr (omega (arith, hl, (w p refl).0)))

-- When the kernel ends in the memory, `init` leaves a valid allocator whose pages lie in the memory up
-- to its last whole page, with at most all of them counted free; and it is ready for allocation unless
-- it found no page for the cursor.
pub init-IsReady :
    (kernel_end_addr dtb_addr dtb_size : ℕ) (memory : ℕ → ℕ)
    → ram_base ≤ kernel_end_addr
    → kernel_end_addr + 4095 ≤ ram_base + ram_size
    → let s = init ram_base ram_size kernel_end_addr dtb_addr dtb_size memory in
      IsValid s
      × (s.end ≤ ram_base + ram_size)
      × (ram_base + ram_size < s.end + 4096)
      × (s.free_count ≤ s.total_count)
      × (kernel_end_addr + 4096 * s.total_count ≤ s.end)
      × ((s.next ≡ 0) ⊎ IsReady s)
unfolding init
init-IsReady kernel_end_addr dtb_addr dtb_size memory low high =
    let kernel_end = page_start ((kernel_end_addr + 4095) % 2 ^ 64) in
    let (up, down) : (kernel_end_addr ≤ kernel_end) × (kernel_end ≤ kernel_end_addr + 4095) =
      let same : kernel_end_addr + 4096 - 1 ≡ kernel_end_addr + 4095 = omega arith in
      rw same at (bit_and_round_up 4096 kernel_end_addr (omega arith) (omega (arith, high))) in
    let (dtb_start, dtb_end) = dtb_pages dtb_addr dtb_size in
    let end = ram_base + ram_size in
    let r =
      scan_pages ((end - kernel_end) / 4096 + 1) end kernel_end dtb_start dtb_end
        (first_scan kernel_end) in
    let (a, b, c, d, e, from) =
      scan_pages_lem ((end - kernel_end) / 4096 + 1) end kernel_end dtb_start dtb_end kernel_end
        (first_scan kernel_end) (omega arith) (omega (arith, down, high)) (λ p never. absurd cc)
        (omega arith) in
    let (small, ready) =
      cursor_lem kernel_end end r.first (omega (arith, up, low)) (omega arith) from in
    let size : length (replicate {A = ℕ} max_pages 0) ≡ max_pages =
      length-replicate {A = ℕ} max_pages 0 in
    (
      record { size = size; small = small },
      a,
      b,
      omega (arith, e),
      omega (arith, c, up),
      elim ready [
        | inl null ↦ inl null
        | inr start ↦
            inr (record { start = start; finish = a; dead = λ pa _. none_live max_live_pt pa })
      ],
    )
