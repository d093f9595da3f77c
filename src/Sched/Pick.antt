-- ===== src/Sched/Pick.antt =====
-- `pick_next`: the task that it chooses.
use native.Mathlib.Nat.{mod-eq_of_lt, mod-eq-sub-mod, mod-lt}
use micro_os.Base.{
  ℕ, zero, suc, ◌+◌, ◌-◌, ◌%◌, ◌<◌, ◌≤◌, ◌≡◌, ◌⊎◌, inl, inr, refl, ◌∙◌, Bool, true, false, ◌&&◌,
  Option, none, some, ◌==◌, leb, Bool-cases, Option-cases, arith,
}
use micro_os.Sched.Defs.{num_priorities, Sched, task_at, is_ready, find_ready, pick_from}

-- The slot that the inner loop looks at in round `k`.
abbrev pub slot : Sched → ℕ → ℕ
slot s k = (s.current + k) % s.task_count

abbrev pub candidate : Sched → ℕ → ℕ → Bool
candidate s prio idx = is_ready (task_at s idx).state && ((task_at s idx).priority == prio)

-- What the inner loop finds from round `i` on: the first candidate, or that there is none.
abbrev pub Found : Sched → ℕ → ℕ → ℕ → Option ℕ → Type 0
Found s prio left i none = (k : ℕ) → i ≤ k → k < i + left → candidate s prio (slot s k) ≡ false
Found s prio left i (some idx) =
    (k : ℕ) × (i ≤ k)
    × (k < i + left)
    × (idx ≡ slot s k)
    × (candidate s prio idx ≡ true)
    × ((k' : ℕ) → i ≤ k' → k' < k → candidate s prio (slot s k') ≡ false)

module _ (s : Sched) (prio : ℕ) where
  later :
      (left i : ℕ) (o : Option ℕ)
      → candidate s prio (slot s i) ≡ false
      → Found s prio left (i + 1) o
      → Found s prio (suc left) i o
  later left i none miss rest = λ k lo hi. elim (Bool-cases (k == i)) [
    | inl here ↦ ground arith
    | inr past ↦ rest k (ground arith) (omega arith)
  ]
  later left i (some idx) miss (k, lo, hi, at, good, before) = (
    k,
    omega arith,
    omega arith,
    at,
    good,
    λ k' lo' hi'. elim (Bool-cases (k' == i)) [
      | inl here ↦ ground arith
      | inr past ↦ before k' (ground arith) hi'
    ],
  )

  find_ready-Found : (left i : ℕ) → Found s prio left i (find_ready s prio left i)
  unfolding find_ready
  find_ready-Found zero i = λ k lo hi. absurd (omega arith)
  find_ready-Found (suc left) i = elim (Bool-cases (candidate s prio (slot s i))) [
    | inl hit ↦ rw hit (i, omega arith, omega arith, refl, hit, λ k' lo hi. absurd (omega arith))
    | inr miss ↦ rw miss (later left i _ miss (find_ready-Found left (i + 1)))
  ]

-- Every slot is looked at in some round.
round_of :
    (current count j : ℕ)
    → current < count
    → j < count
    → (k : ℕ) × (1 ≤ k) × (k < 1 + count) × ((current + k) % count ≡ j)
round_of current count j hc hj = elim (Bool-cases (leb j current)) [
  | inl before ↦ (j + count - current, ground arith, ground arith, wrapped)
  | inr after ↦ (j - current, ground arith, ground arith, straight (ground arith))
]
  where
    wrapped : (current + (j + count - current)) % count ≡ j
    wrapped =
        let e : current + (j + count - current) ≡ j + count = omega arith in
        rw e (
          mod-eq-sub-mod {n = j + count} {m = count} (omega arith)
          ∙ (let e' : j + count - count ≡ j = omega arith in rw e' (mod-eq_of_lt hj)))

    straight : current < j → (current + (j - current)) % count ≡ j
    straight h = let e : current + (j - current) ≡ j = omega arith in rw e (mod-eq_of_lt hj)

-- The task that the loops over the table `s` choose. `better` and `first` say that no ready task
-- has a higher priority, and that none of the same priority comes earlier in the round.
pub record Best (s : Sched) (r : ℕ) : Type 0 where
  pub in_table : r < s.task_count
  pub is_ready_now : is_ready (task_at s r).state ≡ true
  pub level : (task_at s r).priority < num_priorities
  pub better :
      (j : ℕ)
      → j < s.task_count
      → is_ready (task_at s j).state ≡ true
      → (task_at s r).priority ≤ (task_at s j).priority
  pub round : ℕ
  pub at : r ≡ slot s round
  pub positive : 1 ≤ round
  pub first : (k : ℕ) → 1 ≤ k → k < round → candidate s (task_at s r).priority (slot s k) ≡ false

-- The choice: a best task, or the idle task where none is ready.
abbrev pub Picked : Sched → ℕ → Type 0
Picked s r =
    Best s r
    ⊎ ((r ≡ 0)
        × ((j : ℕ)
            → j < s.task_count
            → is_ready (task_at s j).state ≡ true
            → num_priorities ≤ (task_at s j).priority))

module _ (s : Sched) (inside : s.current < s.task_count) where
  -- No ready task has a priority below `prio`.
  NoneBelow : ℕ → Type 0
  NoneBelow prio =
      (j : ℕ)
      → j < s.task_count
      → is_ready (task_at s j).state ≡ true
      → prio ≤ (task_at s j).priority

  next_level : (prio : ℕ) → NoneBelow prio → Found s prio s.task_count 1 none → NoneBelow (prio + 1)
  unfolding NoneBelow
  next_level prio none_below nothing j hj is =
      let (k, lo, hi, e) = round_of s.current s.task_count j inside hj in
      ground (arith, none_below j hj is, nothing k lo hi, e)

  Found-Best :
      (prio r : ℕ)
      → prio < num_priorities
      → NoneBelow prio
      → Found s prio s.task_count 1 (some r)
      → Best s r
  unfolding NoneBelow
  Found-Best prio r low none_below (k, lo, hi, at, good, before) =
      let level : (task_at s r).priority ≡ prio = ground (arith, good) in
      record {
        in_table = rw at (mod-lt _ (omega arith));
        is_ready_now = ground (arith, good);
        level = omega (arith, level);
        better = λ j hj is. omega (arith, level, none_below j hj is);
        round = k;
        at = at;
        positive = lo;
        first = λ k' lo' hi'. rw level (before k' lo' hi');
      }

  pick_from-Picked :
      (left prio : ℕ)
      → prio + left ≡ num_priorities
      → NoneBelow prio
      → Picked s (pick_from s left prio)
  unfolding pick_from NoneBelow
  pick_from-Picked zero prio e none_below = inr (refl, λ j hj is. omega (arith, none_below j hj is))
  pick_from-Picked (suc left) prio e none_below =
      elim (Option-cases (find_ready s prio s.task_count 1)) [
        | inr (r, found) ↦
            rw (found, pick_from)
              (inl (
                Found-Best prio r (omega arith) none_below
                  (rw found at (find_ready-Found s prio s.task_count 1))))
        | inl nothing ↦
            rw (nothing, pick_from)
              (pick_from-Picked left (prio + 1) (omega arith) (
                next_level prio none_below
                  (rw nothing at (find_ready-Found s prio s.task_count 1))))
      ]

  pub pick_from-Picked_all : Picked s (pick_from s num_priorities 0)
  pick_from-Picked_all = pick_from-Picked num_priorities 0 refl start
    where
      start : NoneBelow 0
      start = unfold NoneBelow in λ j hj is. omega arith
