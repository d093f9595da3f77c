-- ===== src/Str/Move.antt =====
-- Memory after `memset` and `memmove`.
use micro_os.Base.{
  ℕ, zero, suc, ◌+◌, ◌-◌, ◌%◌, ◌<◌, ◌≤◌, ◌≡◌, ◌≢◌, ◌∙◌, inl, inr, refl, sym, true, false, ◌&&◌,
  ◌==◌, ltb, leb, if◌then◌else◌, Bool-cases, arith,
}
use micro_os.Str.Defs.{Memory, store, memset, copy_up, copy_down, memmove}

-- Memory in which the `n` bytes at `d` are those that `m` has at `s`.
abbrev pub moved : Memory → ℕ → ℕ → ℕ → Memory
moved m d s n a = if leb d a && ltb a (d + n) then m (s + (a - d)) else m a

-- A byte at an address that is not the one written.
pub store_ne : (m : Memory) (p v a : ℕ) → a ≢ p → store m p v a ≡ m a
unfolding store
store_ne m p v a h = ground arith

store_eq : (m : Memory) (p v a : ℕ) → a ≡ p → store m p v a ≡ v
unfolding store
store_eq m p v a h = ground arith

-- A byte that is moved, and one that is not.
moved_in :
    (m : Memory) (d s n a k : ℕ) → d ≤ a → a < d + n → s + (a - d) ≡ k → moved m d s n a ≡ m k
moved_in m d s n a k lo hi e =
    let inside : leb d a && ltb a (d + n) ≡ true = ground arith in rw (inside, e) refl

moved_out : (m : Memory) (d s n a : ℕ) → (leb d a && ltb a (d + n)) ≡ false → moved m d s n a ≡ m a
moved_out m d s n a outside = rw outside refl

up_step :
    (m : Memory) (d s n a : ℕ)
    → d ≤ s
    → moved (store m d (m s)) (d + 1) (s + 1) n a ≡ moved m d s (suc n) a
up_step m d s n a h = elim (Bool-cases (a == d)) [
  | inl here ↦
      moved_out (store m d (m s)) (d + 1) (s + 1) n a (ground arith)
      ∙ store_eq m d (m s) a (ground arith)
      ∙ sym (moved_in m d s (suc n) a s (ground arith) (ground arith) (ground arith))
  | inr past ↦ elim (Bool-cases (leb d a && ltb a (d + suc n))) [
    | inl inside ↦
        moved_in (store m d (m s)) (d + 1) (s + 1) n a (s + (a - d)) (ground arith) (ground arith)
          (ground arith)
        ∙ store_ne m d (m s) (s + (a - d)) (ground arith)
        ∙ sym (moved_in m d s (suc n) a (s + (a - d)) (ground arith) (ground arith) refl)
    | inr outside ↦
        moved_out (store m d (m s)) (d + 1) (s + 1) n a (ground arith)
        ∙ store_ne m d (m s) a (ground arith)
        ∙ sym (moved_out m d s (suc n) a outside)
  ]
]

pub copy_up-moved : (n : ℕ) (m : Memory) (d s a : ℕ) → d ≤ s → copy_up m d s n a ≡ moved m d s n a
unfolding copy_up
copy_up-moved zero m d s a h = ground arith
copy_up-moved (suc n) m d s a h =
    copy_up-moved n (store m d (m s)) (d + 1) (s + 1) a (omega arith) ∙ up_step m d s n a h

down_step :
    (m : Memory) (d s n a : ℕ)
    → s ≤ d
    → moved (store m (d + n) (m (s + n))) d s n a ≡ moved m d s (suc n) a
down_step m d s n a h = elim (Bool-cases (a == d + n)) [
  | inl last ↦
      moved_out (store m (d + n) (m (s + n))) d s n a (ground arith)
      ∙ store_eq m (d + n) (m (s + n)) a (ground arith)
      ∙ sym (moved_in m d s (suc n) a (s + n) (ground arith) (ground arith) (ground arith))
  | inr before ↦ elim (Bool-cases (leb d a && ltb a (d + suc n))) [
    | inl inside ↦
        moved_in (store m (d + n) (m (s + n))) d s n a (s + (a - d)) (ground arith) (ground arith)
          refl
        ∙ store_ne m (d + n) (m (s + n)) (s + (a - d)) (ground arith)
        ∙ sym (moved_in m d s (suc n) a (s + (a - d)) (ground arith) (ground arith) refl)
    | inr outside ↦
        moved_out (store m (d + n) (m (s + n))) d s n a (ground arith)
        ∙ store_ne m (d + n) (m (s + n)) a (ground arith)
        ∙ sym (moved_out m d s (suc n) a outside)
  ]
]

copy_down-moved : (n : ℕ) (m : Memory) (d s a : ℕ) → s ≤ d → copy_down m d s n a ≡ moved m d s n a
unfolding copy_down
copy_down-moved zero m d s a h = ground arith
copy_down-moved (suc n) m d s a h =
    copy_down-moved n (store m (d + n) (m (s + n))) d s a h ∙ down_step m d s n a h

-- After `memmove` the `n` bytes at `d` are those that were at `s`, and every other byte is as it
-- was, however the two ranges overlap.
pub memmove_lem : (m : Memory) (d s n a : ℕ) → memmove m d s n a ≡ moved m d s n a
unfolding memmove
memmove_lem m d s n a = elim (Bool-cases (ltb d s)) [
  | inl up ↦ rw up (copy_up-moved n m d s a (ground arith))
  | inr down ↦ rw down (copy_down-moved n m d s a (ground arith))
]

-- `memset` writes the low byte of `c` to the `n` bytes at `p`, and no other.
pub memset_lem :
    (n : ℕ) (m : Memory) (p c a : ℕ)
    → memset m p c n a ≡ (if leb p a && ltb a (p + n) then c % 256 else m a)
unfolding memset
memset_lem zero m p c a = ground arith
memset_lem (suc n) m p c a =
    let rest = memset_lem n (store m p (c % 256)) (p + 1) c a in
    elim (Bool-cases (a == p)) [
      | inl here ↦ let at = store_eq m p (c % 256) a (ground arith) in ground (arith, rest, at)
      | inr other ↦ let at = store_ne m p (c % 256) a (ground arith) in ground (arith, rest, at)
    ]
