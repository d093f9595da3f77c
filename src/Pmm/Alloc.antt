-- ===== src/Pmm/Alloc.antt =====
-- `pmm_alloc_page` and `pmm_free_page`: which page, and what they leave alone.
use micro_os.Base.{
  ℕ, zero, suc, ◌+◌, ◌*◌, ◌/◌, ◌%◌, ◌^◌, ◌<◌, ◌≤◌, ◌≡◌, ◌≢◌, ◌⊎◌, inl, inr, refl, true, false,
  Option, none, some, List, ◌==◌, leb, if◌then◌else◌, get_or, length, Bool-cases, arith,
}
use micro_os.Base.Bits.{zero-bit, ctz, ctz_lem}
use micro_os.Pmm.Defs.{
  Pmm, page_size, bitmap_set, bitmap_test, alloc_scan, alloc_limit, take_page, pmm_alloc_page,
  pmm_free_page,
}
use micro_os.Pmm.Bitmap.{
  Words, total_ones, total_ones-le, bitmap_test-bit, bitmap_test-set, bitmap_test-clear, Words-set,
  Words-clear, total_ones-bitmap_set, total_ones-bitmap_clear, length-bitmap_set,
  length-bitmap_clear,
}

-- What the scan of words `i` to `i + left` finds: the lowest free page, or that none is free.
abbrev pub Scanned : List ℕ → ℕ → ℕ → ℕ → Option ℕ → Type 0
Scanned bm limit left i none =
    (q : ℕ) → i * 64 ≤ q → q < limit → q < (i + left) * 64 → bitmap_test bm q ≡ false
Scanned bm limit left i (some page) =
    (page < limit)
    × (bitmap_test bm page ≡ true)
    × ((q : ℕ) → i * 64 ≤ q → q < page → bitmap_test bm q ≡ false)

module _ (bm : List ℕ) (limit : ℕ) (words : Words bm) where
  zero_word : (i q : ℕ) → get_or bm i 0 ≡ 0 → q / 64 ≡ i → bitmap_test bm q ≡ false
  zero_word i q e at = ground (arith, bitmap_test-bit bm q, zero-bit (q % 64))

  below_ctz :
      (i q : ℕ)
      → get_or bm i 0 ≢ 0
      → i * 64 ≤ q
      → q < i * 64 + ctz 64 (get_or bm i 0)
      → bitmap_test bm q ≡ false
  below_ctz i q ne lo hi =
      let found = ctz_lem 64 (get_or bm i 0) (words i) ne in
      let at : q / 64 ≡ i = omega (arith, found.0) in
      ground (arith, bitmap_test-bit bm q, found.2 (q % 64) (omega arith))

  at_ctz : (i : ℕ) → get_or bm i 0 ≢ 0 → bitmap_test bm (i * 64 + ctz 64 (get_or bm i 0)) ≡ true
  at_ctz i ne =
      let found = ctz_lem 64 (get_or bm i 0) (words i) ne in
      let c = ctz 64 (get_or bm i 0) in
      let at : (i * 64 + c) / 64 ≡ i = omega (arith, found.0) in
      let off : (i * 64 + c) % 64 ≡ c = omega (arith, found.0) in
      ground (arith, bitmap_test-bit bm (i * 64 + c), found.1)

  skip_word :
      (left i : ℕ) (r : Option ℕ)
      → get_or bm i 0 ≡ 0
      → Scanned bm limit left (i + 1) r
      → Scanned bm limit (suc left) i r
  skip_word left i none e rest = λ q lo hi in_words. elim (Bool-cases (q / 64 == i)) [
    | inl here ↦ zero_word i q e (ground arith)
    | inr later ↦ rest q (ground arith) hi (omega arith)
  ]
  skip_word left i (some page) e rest = (
    rest.0,
    rest.1,
    λ q lo hi. elim (Bool-cases (q / 64 == i)) [
      | inl here ↦ zero_word i q e (ground arith)
      | inr later ↦ rest.2 q (ground arith) hi
    ],
  )

  alloc_scan-Scanned : (left i : ℕ) → Scanned bm limit left i (alloc_scan bm limit left i)
  unfolding alloc_scan
  alloc_scan-Scanned zero i = λ q lo hi in_words. absurd (omega arith)
  alloc_scan-Scanned (suc left) i = elim (Bool-cases (get_or bm i 0 == 0)) [
    | inl e ↦ rw e (skip_word left i _ (ground arith) (alloc_scan-Scanned left (i + 1)))
    | inr ne ↦ elim (Bool-cases (leb limit (i * 64 + ctz 64 (get_or bm i 0)))) [
      | inl out ↦ rw (ne, out) λ q lo hi in_words. below_ctz i q (ground arith) lo (ground arith)
      | inr within ↦
          rw (ne, within)
            (ground arith, at_ctz i (ground arith), λ q lo hi. below_ctz i q (ground arith) lo hi)
    ]
  ]

-- What the words of the bitmap, its size and the counter have to do with one another.
pub record IsValid (p : Pmm) : Type 0 where
  pub words : Words p.bitmap
  pub size : p.total_pages ≤ length p.bitmap * 64
  pub fits : length p.bitmap * 64 < 2 ^ 64
  pub counted : p.free_count ≡ total_ones p.bitmap

-- A page that may be handed out: one of the memory that lies below 4 GiB.
abbrev pub InReach : ℕ → ℕ → Type 0
InReach total q = (q < total) × (q * page_size < 0x100000000)

-- `page` was the lowest free page and in reach, and is now in use; no other page changed.
pub record Took (p : Pmm) (page : ℕ) (p' : Pmm) : Type 0 where
  pub in_range : InReach p.total_pages page
  pub was_free : bitmap_test p.bitmap page ≡ true
  pub lowest : (q : ℕ) → q < page → bitmap_test p.bitmap q ≡ false
  pub taken :
      (q : ℕ) → bitmap_test p'.bitmap q ≡ (if page == q then false else bitmap_test p.bitmap q)
  pub count : p'.free_count + 1 ≡ p.free_count
  pub total : p'.total_pages ≡ p.total_pages

-- The result of `pmm_alloc_page`: NULL only if no page in reach is free, and nothing changes; or the
-- address of the page taken.
abbrev pub Allocated : Pmm → ℕ × Pmm → Type 0
Allocated p (addr, p') =
    ((addr ≡ 0) × (p' ≡ p) × ((q : ℕ) → InReach p.total_pages q → bitmap_test p.bitmap q ≡ false))
    ⊎ ((page : ℕ) × (addr ≡ page * page_size) × Took p page p' × IsValid p')

take_page-Took :
    (p : Pmm) (page : ℕ)
    → IsValid p
    → Scanned p.bitmap
        (alloc_limit p.total_pages)
        ((alloc_limit p.total_pages + 63) / 64)
        0
        (some page)
    → Took p page (take_page p (some page)).1 × IsValid (take_page p (some page)).1
unfolding take_page
take_page-Took p page v (below, free, least) =
    let bm = p.bitmap in
    let inside : page < length bm * 64 = ground (arith, v.size) in
    let fell = total_ones-bitmap_clear bm page inside v.words in
    (
      record {
        in_range = ground (arith, below);
        was_free = free;
        lowest = λ q h. least q (omega arith) h;
        taken = bitmap_test-clear bm page inside v.words;
        count = ground (arith, fell, v.counted, v.fits, total_ones-le bm);
        total = refl;
      },
      record {
        words = Words-clear bm page inside v.words;
        size = omega (arith, v.size, length-bitmap_clear bm page);
        fits = omega (arith, v.fits, length-bitmap_clear bm page);
        counted = ground (arith, fell, v.counted, v.fits, total_ones-le bm);
      },
    )

take_page-Allocated :
    (p : Pmm) (o : Option ℕ)
    → IsValid p
    → Scanned p.bitmap (alloc_limit p.total_pages) ((alloc_limit p.total_pages + 63) / 64) 0 o
    → Allocated p (take_page p o)
unfolding take_page
take_page-Allocated p none v none_free = inl (
  refl,
  refl,
  λ q (inside, low).
      let within : q < alloc_limit p.total_pages = ground (arith, inside, low) in
      none_free q (omega arith) within (omega arith),
)
take_page-Allocated p (some page) v found =
    let (took, valid) = take_page-Took p page v found in inr (page, refl, took, valid)

-- With a valid state `pmm_alloc_page` takes the lowest free page, which lies below 4 GiB and the end
-- of memory, clears its bit alone, counts it, and keeps the state valid; it returns NULL, and
-- changes nothing, only if no page below 4 GiB and the end of memory is free.
pub pmm_alloc_page-Allocated : (p : Pmm) → IsValid p → Allocated p (pmm_alloc_page p)
unfolding pmm_alloc_page
pmm_alloc_page-Allocated p v = take_page-Allocated p _ v (
    alloc_scan-Scanned p.bitmap (alloc_limit p.total_pages) v.words
      ((alloc_limit p.total_pages + 63) / 64) 0)

-- The effect of `pmm_free_page` on a page below the end of memory.
pub record Freed (p : Pmm) (page : ℕ) (p' : Pmm) : Type 0 where
  pub freed :
      (q : ℕ) → bitmap_test p'.bitmap q ≡ (if page == q then true else bitmap_test p.bitmap q)
  pub count : p'.free_count ≡ p.free_count + (if bitmap_test p.bitmap page then 0 else 1)
  pub total : p'.total_pages ≡ p.total_pages
  pub valid : IsValid p'

-- `pmm_free_page` of an address inside memory marks its page free, and no other; the counter
-- grows by one unless the page was free already (a double free changes nothing), and the state
-- stays valid.
pub pmm_free_page-Freed :
    (p : Pmm) (addr : ℕ)
    → IsValid p
    → addr / page_size < p.total_pages
    → Freed p (addr / page_size) (pmm_free_page p addr)
unfolding pmm_free_page
pmm_free_page-Freed p addr v h =
    let page = addr / page_size in
    let bm = p.bitmap in
    let inside : page < length bm * 64 = omega (arith, v.size) in
    let within : leb p.total_pages page ≡ false = ground arith in
    let grew = total_ones-bitmap_set bm page inside v.words in
    let same = length-bitmap_set bm page in
    let room = total_ones-le (bitmap_set bm page) in
    elim (Bool-cases (bitmap_test bm page)) [
      | inl free ↦
          rw (within, free)
            (record { freed = λ q. ground arith; count = ground arith; total = refl; valid = v })
      | inr used ↦
          rw (within, used)
            (record {
              freed = bitmap_test-set bm page inside v.words;
              count = ground (arith, v.counted, v.fits, grew, same, room);
              total = refl;
              valid = record {
                words = Words-set bm page inside v.words;
                size = omega (arith, v.size, same);
                fits = omega (arith, v.fits, same);
                counted = ground (arith, v.counted, v.fits, grew, same, room);
              };
            })
    ]

-- An address past the end of memory is ignored.
pub pmm_free_page-out :
    (p : Pmm) (addr : ℕ) → p.total_pages ≤ addr / page_size → pmm_free_page p addr ≡ p
unfolding pmm_free_page
pmm_free_page-out p addr h = ground arith

restored :
    (p : Pmm) (addr : ℕ) (p' : Pmm)
    → IsValid p
    → Allocated p (addr, p')
    → addr ≢ 0
    → ((pmm_free_page p' addr).free_count ≡ p.free_count)
      × ((q : ℕ) → bitmap_test (pmm_free_page p' addr).bitmap q ≡ bitmap_test p.bitmap q)
restored p addr p' v (inl (null, _, _)) got = absurd (got null)
restored p addr p' v (inr (page, at, took, valid)) got =
    let here : addr / page_size ≡ page = omega arith in
    let used = took.taken page in
    let back = pmm_free_page-Freed p' addr valid (omega (arith, took.in_range, took.total)) in
    (
      ground (arith, back.count, took.count, took.taken (addr / page_size)),
      λ q. ground (arith, back.freed q, took.taken q, took.was_free),
    )

-- Freeing the page just allocated restores every bit of the bitmap and the counter.
pub pmm_free_page-pmm_alloc_page :
    (p : Pmm)
    → IsValid p
    → (pmm_alloc_page p).0 ≢ 0
    → let (addr, p') = pmm_alloc_page p in
      let p'' = pmm_free_page p' addr in
      (p''.free_count ≡ p.free_count)
      × ((q : ℕ) → bitmap_test p''.bitmap q ≡ bitmap_test p.bitmap q)
pmm_free_page-pmm_alloc_page p v got = restored p _ _ v (pmm_alloc_page-Allocated p v) got
