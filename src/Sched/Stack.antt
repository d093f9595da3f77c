-- ===== src/Sched/Stack.antt =====
-- The stack that `do_task_create` prepares, read back by `task_switch`.
use micro_os.Base.{
  ℕ, ◌+◌, ◌-◌, ◌*◌, ◌%◌, ◌≤◌, ◌<◌, ◌≡◌, ◌≢◌, ◌∙◌, List, [], ◌∷◌, All, Option, none, some, ◌==◌,
  if◌then◌else◌, arith,
}
use micro_os.Sched.Defs.{stack_size}
use micro_os.Sched.Ops.{stack_top, initial_rsp, initial_stack}

-- The word at an address among the words stored.
unfoldable pub load : List (ℕ × ℕ) → ℕ → Option ℕ
load [] a = none
load ((b, v) ∷ ws) a = if a == b then some v else load ws a

-- The stack's end, rounded down to a multiple of 16.
stack_top_lem :
    (base : ℕ)
    → (stack_top base ≤ base + stack_size)
      × (base + stack_size < stack_top base + 16)
      × (stack_top base % 16 ≡ 0)
unfolding stack_top
stack_top_lem base = (omega arith, omega arith, omega arith)

load_hit : (ws : List (ℕ × ℕ)) (a v b : ℕ) → a ≡ b → load ((b, v) ∷ ws) a ≡ some v
unfolding load
load_hit ws a v b e = ground arith

load_miss : (ws : List (ℕ × ℕ)) (a v b : ℕ) → a ≢ b → load ((b, v) ∷ ws) a ≡ load ws a
unfolding load
load_miss ws a v b e = ground arith

-- The words that `do_task_create` stores lie in the stack, and above the stack pointer it sets;
-- the word seven above the stack pointer is the entry point, to which `task_switch` returns after
-- it has popped six registers and the flags, and then the stack pointer is 8 past a multiple of
-- 16, and the trampoline is the return address of the entry function.
pub initial_stack_lem :
    (base entry trampoline : ℕ)
    → All
        (λ (a, v). (base ≤ a) × (a + 8 ≤ base + stack_size) × (initial_rsp base ≤ a))
        (initial_stack base entry trampoline)
      × (load (initial_stack base entry trampoline) (initial_rsp base + 7 * 8) ≡ some entry)
      × (load (initial_stack base entry trampoline) (initial_rsp base + 8 * 8) ≡ some trampoline)
      × ((initial_rsp base + 8 * 8) % 16 ≡ 8)
unfolding initial_stack initial_rsp
initial_stack_lem base entry trampoline =
    let (hi, lo, even) = stack_top_lem base in
    let inside : (a : ℕ)
        → stack_top base - 72 ≤ a
        → a + 8 ≤ stack_top base
        → (base ≤ a) × (a + 8 ≤ base + stack_size) × (stack_top base - 8 - 8 - 7 * 8 ≤ a) =
      λ a h k. (omega arith, omega arith, omega arith) in
    (
      (
        inside _ (omega arith) (omega arith),
        (
          inside _ (omega arith) (omega arith),
          (
            inside _ (omega arith) (omega arith),
            (
              inside _ (omega arith) (omega arith),
              (
                inside _ (omega arith) (omega arith),
                (
                  inside _ (omega arith) (omega arith),
                  (
                    inside _ (omega arith) (omega arith),
                    (
                      inside _ (omega arith) (omega arith),
                      (inside _ (omega arith) (omega arith), tt),
                    ),
                  ),
                ),
              ),
            ),
          ),
        ),
      ),
      load_miss _ _ _ _ (λ e. omega arith) ∙ load_hit _ _ _ _ (omega arith),
      load_hit _ _ _ _ (omega arith),
      omega arith,
    )
