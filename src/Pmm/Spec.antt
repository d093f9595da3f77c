-- ===== src/Pmm/Spec.antt =====
-- What a client relies on: a set of free pages, from which the lowest is taken.
use micro_os.Base.{
  ℕ, zero, suc, ◌+◌, ◌*◌, ◌/◌, ◌<◌, ◌≤◌, ◌≡◌, refl, ◌∙◌, inl, inr, Bool, true, false, Option, none,
  some, List, [], ◌∷◌, ◌==◌, ◌&&◌, leb, ltb, if◌then◌else◌, arith, Bool-cases,
}
use mathlib.Core.Path.{ap₂}
use micro_os.Pmm.Defs.{Pmm, page_size, bitmap_test, pmm_alloc_page, pmm_free_page}
use micro_os.Pmm.Alloc.{
  IsValid, Allocated, pmm_alloc_page-Allocated, pmm_free_page-Freed, pmm_free_page-out,
}

-- A client's call.
pub data Op : Type 0 where
  alloc : Op
  free : ℕ → Op

abbrev pub Pages : Type 0
Pages = ℕ → Bool

abbrev pub update : Pages → ℕ → Bool → Pages
update pages page b q = if page == q then b else pages q

-- The lowest free page from `i` on, looking at `left` pages.
unfoldable pub first_free : Pages → ℕ → ℕ → Option ℕ
first_free pages zero i = none
first_free pages (suc left) i =
    let rest = first_free pages left (i + 1) in if pages i then some i else rest

-- The pages that may be handed out: those below 4 GiB.
abbrev pub below_4g : Pages → Pages
below_4g pages q = pages q && ltb (q * page_size) 0x100000000

-- The addresses that a sequence of calls returns; pages below `total` may be freed, and those of
-- them that lie below 4 GiB handed out.
unfoldable pub spec_run : ℕ → Pages → List Op → List ℕ
spec_run total pages [] = []
spec_run total pages (alloc ∷ ops) = elim (first_free (below_4g pages) total 0) [
  | none ↦ 0 ∷ spec_run total pages ops
  | some page ↦ (page * page_size) ∷ spec_run total (update pages page false) ops
]
spec_run total pages (free addr ∷ ops) =
    let page = addr / page_size in
    spec_run total (if leb total page then pages else update pages page true) ops

unfoldable pub run : Pmm → List Op → List ℕ
run p [] = []
run p (alloc ∷ ops) = let (addr, p') = pmm_alloc_page p in addr ∷ run p' ops
run p (free addr ∷ ops) = run (pmm_free_page p addr) ops

first_free-none :
    (pages : Pages) (left i : ℕ)
    → ((q : ℕ) → q < i + left → pages q ≡ false)
    → first_free pages left i ≡ none
unfolding first_free
first_free-none pages zero i h = refl
first_free-none pages (suc left) i h =
    rw (h i (omega arith)) (first_free-none pages left (i + 1) (λ q k. h q (omega arith)))

first_free-some :
    (pages : Pages) (left i page : ℕ)
    → i ≤ page
    → page < i + left
    → pages page ≡ true
    → ((q : ℕ) → q < page → pages q ≡ false)
    → first_free pages left i ≡ some page
unfolding first_free
first_free-some pages zero i page lo hi is_free lowest = absurd (omega arith)
first_free-some pages (suc left) i page lo hi is_free lowest = elim (Bool-cases (i == page)) [
  | inl e ↦ ground arith
  | inr ne ↦
      rw (lowest i (ground arith))
        (first_free-some pages left (i + 1) page (ground arith) (omega arith) is_free lowest)
]

-- The state marks free exactly the pages of the set, and memory ends at `total`.
pub record Shows (p : Pmm) (total : ℕ) (pages : Pages) : Type 0 where
  pub valid : IsValid p
  pub end : p.total_pages ≡ total
  pub same : (q : ℕ) → bitmap_test p.bitmap q ≡ pages q

-- The calls that follow behave alike in any state that shows its set.
abbrev Follows : List Op → ℕ → Pmm → Type 0
Follows ops total p' =
    (pages' : Pages) → Shows p' total pages' → run p' ops ≡ spec_run total pages' ops

step_alloc :
    (p : Pmm) (total : ℕ) (pages : Pages) (ops : List Op) (addr : ℕ) (p' : Pmm)
    → Shows p total pages
    → Allocated p (addr, p')
    → Follows ops total p'
    → (addr ∷ run p' ops) ≡ spec_run total pages (alloc ∷ ops)
unfolding spec_run
step_alloc p total pages ops addr p' shows (inl (null, eq, nothing)) rest =
    let stuck =
      first_free-none (below_4g pages) total 0
        (λ q h. ground (arith, shows.same q, shows.end, nothing q)) in
    let shows' : Shows p' total pages = rw eq shows in
    rw (stuck, spec_run) (ap₂ ◌∷◌ null (rest pages shows'))
step_alloc p total pages ops addr p' shows (inr (page, at, took, v')) rest =
    let found =
      first_free-some (below_4g pages) total 0 page (omega arith)
        (omega (arith, shows.end, took.in_range))
        (ground (arith, shows.same page, took.was_free, took.in_range))
        (λ q h. ground (arith, shows.same q, took.lowest q)) in
    rw (found, spec_run)
      (ap₂ ◌∷◌ at (
        rest (update pages page false) (record {
          valid = v';
          end = took.total ∙ shows.end;
          same = λ q. ground (arith, took.taken q, shows.same q);
        })))

step_free :
    (p : Pmm) (total : ℕ) (pages : Pages) (addr : ℕ)
    → Shows p total pages
    → let page = addr / page_size in
      Shows (pmm_free_page p addr) total (if leb total page then pages else update pages page true)
step_free p total pages addr shows = elim (Bool-cases (leb total (addr / page_size))) [
  | inl out ↦ rw (out, pmm_free_page-out p addr (ground (arith, shows.end))) shows
  | inr within ↦
      let freed = pmm_free_page-Freed p addr shows.valid (ground (arith, shows.end)) in
      rw within (record {
        valid = freed.valid;
        end = freed.total ∙ shows.end;
        same = λ q. ground (arith, freed.freed q, shows.same q);
      })
]

-- Over any sequence of calls, a valid state returns exactly what the set of its free pages
-- returns: the lowest free page below 4 GiB and the end of memory for an allocation, NULL where
-- there is none, and never a page that is in use.
pub run-spec_run :
    (ops : List Op) (p : Pmm) (total : ℕ) (pages : Pages)
    → Shows p total pages
    → run p ops ≡ spec_run total pages ops
unfolding run spec_run
run-spec_run [] p total pages shows = refl
run-spec_run (alloc ∷ ops) p total pages shows =
    step_alloc p total pages ops _ _ shows (pmm_alloc_page-Allocated p shows.valid)
      (run-spec_run ops _ total)
run-spec_run (free addr ∷ ops) p total pages shows =
    run-spec_run ops _ total _ (step_free p total pages addr shows)
