-- ===== src/Sync/Exclusion.antt =====
-- Mutual exclusion: the steps of any number of tasks on one mutex.
use micro_os.Base.{
  ℕ, ◌≡◌, inl, inr, refl, sym, ap, ◌∙◌, ◌⊎◌, Bool, true, false, none, some, List, [], ◌∷◌, ◌==◌,
  if◌then◌else◌, Bool-cases, arith,
}
use micro_os.Sync.Defs.{Mutex, mutex_init, mutex_lock_round, mutex_unlock, mutex_try_lock}

-- The list less the first `task` in it.
unfoldable pub without : ℕ → List ℕ → List ℕ
without task [] = []
without task (t ∷ ts) = if t == task then ts else t ∷ without task ts

-- A step on the mutex and on the list of the tasks inside: those whose last call to lock it
-- returned true and that have not unlocked it since. `mutex_unlock` does not look who calls it: what
-- it relies on is that the caller is the owner, which is a premise of that step.
pub data Step : Mutex → List ℕ → Mutex → List ℕ → Type 0 where
  locks :
      (m m' : Mutex) (inside : List ℕ) (task : ℕ)
      → mutex_lock_round m task ≡ (true, m')
      → Step m inside m' (task ∷ inside)
  sleeps :
      (m m' : Mutex) (inside : List ℕ) (task : ℕ)
      → mutex_lock_round m task ≡ (false, m')
      → Step m inside m' inside
  tries :
      (m m' : Mutex) (inside : List ℕ) (task : ℕ)
      → mutex_try_lock m task ≡ (true, m')
      → Step m inside m' (task ∷ inside)
  fails :
      (m m' : Mutex) (inside : List ℕ) (task : ℕ)
      → mutex_try_lock m task ≡ (false, m')
      → Step m inside m' inside
  unlocks :
      (m m' : Mutex) (inside : List ℕ) (task : ℕ)
      → m.owner ≡ some task
      → mutex_unlock m ≡ m'
      → Step m inside m' (without task inside)

pub data Reaches : Mutex → List ℕ → Type 0 where
  starts : Reaches mutex_init []
  goes :
      (m m' : Mutex) (inside inside' : List ℕ)
      → Reaches m inside
      → Step m inside m' inside'
      → Reaches m' inside'

-- The mutex is free and no task is inside, or its owner alone is.
abbrev pub Exclusive : Mutex → List ℕ → Type 0
Exclusive m [] = (m.locked ≡ false) × (m.owner ≡ none)
Exclusive m (task ∷ rest) = (m.locked ≡ true) × (m.owner ≡ some task) × (rest ≡ [])

taken :
    (m m' : Mutex) (inside : List ℕ) (task : ℕ)
    → Exclusive m inside
    → m.locked ≡ false
    → record m { locked = true; owner = some task } ≡ m'
    → Exclusive m' (task ∷ inside)
taken m m' [] task e free made = rw (sym made) (refl, refl, refl)
taken m m' (other ∷ rest) task (locked, owner, alone) free made =
    absurd (ground (arith, locked, free))

waits :
    (m m' : Mutex) (inside : List ℕ)
    → Exclusive m inside
    → m'.locked ≡ m.locked
    → m'.owner ≡ m.owner
    → Exclusive m' inside
waits m m' [] (locked, owner) same_lock same_owner = (same_lock ∙ locked, same_owner ∙ owner)
waits m m' (task ∷ rest) (locked, owner, alone) same_lock same_owner =
    (same_lock ∙ locked, same_owner ∙ owner, alone)

lock_round :
    (m m' : Mutex) (task : ℕ) (got : Bool)
    → mutex_lock_round m task ≡ (got, m')
    → ((got ≡ true) × (m.locked ≡ false) × (record m { locked = true; owner = some task } ≡ m'))
      ⊎ ((got ≡ false) × (m'.locked ≡ m.locked) × (m'.owner ≡ m.owner))
unfolding mutex_lock_round
lock_round m m' task got e = elim (Bool-cases m.locked) [
  | inl held ↦
      let e' = rw held at e in
      inr (
        sym (ap (λ p. p.0) e'),
        ap (λ p. p.1.locked) (sym e') ∙ sym held,
        ap (λ p. p.1.owner) (sym e'),
      )
  | inr free ↦ let e' = rw free at e in inl (sym (ap (λ p. p.0) e'), free, ap (λ p. p.1) e')
]

try_lock :
    (m m' : Mutex) (task : ℕ) (got : Bool)
    → mutex_try_lock m task ≡ (got, m')
    → ((got ≡ true) × (m.locked ≡ false) × (record m { locked = true; owner = some task } ≡ m'))
      ⊎ ((got ≡ false) × (m'.locked ≡ m.locked) × (m'.owner ≡ m.owner))
unfolding mutex_try_lock
try_lock m m' task got e = elim (Bool-cases m.locked) [
  | inl held ↦
      let e' = rw held at e in
      inr (
        sym (ap (λ p. p.0) e'),
        ap (λ p. p.1.locked) (sym e') ∙ sym held,
        ap (λ p. p.1.owner) (sym e'),
      )
  | inr free ↦ let e' = rw free at e in inl (sym (ap (λ p. p.0) e'), free, ap (λ p. p.1) e')
]

unlocked :
    (m m' : Mutex) (inside : List ℕ) (task : ℕ)
    → m.owner ≡ some task
    → mutex_unlock m ≡ m'
    → Exclusive m inside
    → Exclusive m' (without task inside)
unfolding mutex_unlock without
unlocked m m' [] task mine made (free, no_owner) = absurd (cc (mine, no_owner))
unlocked m m' (t ∷ rest) task mine made (locked, owner, alone) =
    let same : t ≡ task = ground (arith, mine, owner) in
    let hit : t == task ≡ true = ground (arith, same) in rw (hit, alone, sym made) (refl, refl)

Step-Exclusive :
    (m m' : Mutex) (inside inside' : List ℕ)
    → Step m inside m' inside'
    → Exclusive m inside
    → Exclusive m' inside'
unfolding mutex_unlock
Step-Exclusive m m' inside inside' (Step.locks _ _ _ task e) ex =
    elim (lock_round m m' task true e) [
      | inl (_, free, made) ↦ taken m m' inside task ex free made
      | inr (no_luck, _, _) ↦ absurd (ground (arith, no_luck))
    ]
Step-Exclusive m m' inside inside' (Step.sleeps _ _ _ task e) ex =
    elim (lock_round m m' task false e) [
      | inl (luck, _, _) ↦ absurd (ground (arith, luck))
      | inr (_, same_lock, same_owner) ↦ waits m m' inside ex same_lock same_owner
    ]
Step-Exclusive m m' inside inside' (Step.tries _ _ _ task e) ex = elim (try_lock m m' task true e) [
  | inl (_, free, made) ↦ taken m m' inside task ex free made
  | inr (no_luck, _, _) ↦ absurd (ground (arith, no_luck))
]
Step-Exclusive m m' inside inside' (Step.fails _ _ _ task e) ex =
    elim (try_lock m m' task false e) [
      | inl (luck, _, _) ↦ absurd (ground (arith, luck))
      | inr (_, same_lock, same_owner) ↦ waits m m' inside ex same_lock same_owner
    ]
Step-Exclusive m m' inside inside' (Step.unlocks _ _ _ task mine made) ex =
    unlocked m m' inside task mine made ex

-- In any order of the tasks' calls, where only the owner calls `mutex_unlock`: at most one task is
-- inside, the mutex is locked exactly then, and that task is its owner.
pub Reaches-Exclusive : (m : Mutex) (inside : List ℕ) → Reaches m inside → Exclusive m inside
unfolding mutex_init
Reaches-Exclusive m inside Reaches.starts = (refl, refl)
Reaches-Exclusive m inside (Reaches.goes m0 _ inside0 _ before step) =
    Step-Exclusive m0 m inside0 inside step (Reaches-Exclusive m0 inside0 before)
