-- ===== src/Str/Text.antt =====
-- Comparison and copies of strings.
use micro_os.Base.{
  ℕ, zero, suc, ◌+◌, ◌<◌, ◌≡◌, ◌↔◌, inl, inr, refl, ap, true, [], ◌∷◌, ◌++◌, length,
  length-replicate, ◌==◌, ltb, if◌then◌else◌, Bool-cases, arith,
}
use micro_os.Str.Defs.{Text, strlen, strcmp, strncpy, strcpy, strcat}

-- No character is NUL.
unfoldable pub NoNul : Text → Type 0
NoNul [] = Unit
NoNul (c ∷ s) = (0 < c) × NoNul s

strcmp_same : (a : Text) → (strcmp a a).0 ≡ (strcmp a a).1
unfolding strcmp
strcmp_same [] = refl
strcmp_same (x ∷ a) = let e : x == x ≡ true = ground arith in rw e (strcmp_same a)

strcmp_equal : (a b : Text) → NoNul a → NoNul b → (strcmp a b).0 ≡ (strcmp a b).1 → a ≡ b
unfolding strcmp NoNul
strcmp_equal [] [] na nb e = refl
strcmp_equal [] (y ∷ b) na nb e = absurd (omega (arith, nb.0))
strcmp_equal (x ∷ a) [] na nb e = absurd (omega (arith, na.0))
strcmp_equal (x ∷ a) (y ∷ b) na nb e = elim (Bool-cases (x == y)) [
  | inl same ↦
      let head : x ≡ y = ground arith in
      let tail = strcmp_equal a b na.1 nb.1 (rw same at e) in rw (head, tail) refl
  | inr differ ↦ absurd (ground (arith, (rw differ at e)))
]

-- `strcmp` returns 0 exactly for equal strings.
pub strcmp_lem : (a b : Text) → NoNul a → NoNul b → ((strcmp a b).0 ≡ (strcmp a b).1) ↔ (a ≡ b)
strcmp_lem a b na nb = (strcmp_equal a b na nb, λ e. rw e (strcmp_same b))

-- `strncpy` writes `n` bytes, and one byte more if the string is shorter than `n`.
pub length-strncpy :
    (s : Text) (n : ℕ) → length (strncpy s n) ≡ (if ltb (strlen s) n then n + 1 else n)
unfolding strncpy strlen
length-strncpy s zero = ground arith
length-strncpy [] (suc n) = ground (arith, length-replicate {A = ℕ} n 0)
length-strncpy (c ∷ s) (suc n) = ground (arith, length-strncpy s n)

-- `strcat` writes the two strings and one NUL.
pub strcat_lem : (dst src : Text) → strcat dst src ≡ (dst ++ src) ++ (0 ∷ [])
unfolding strcat strcpy
strcat_lem [] [] = refl
strcat_lem [] (c ∷ src) = ap (λ t. c ∷ t) (strcat_lem [] src)
strcat_lem (c ∷ dst) src = ap (λ t. c ∷ t) (strcat_lem dst src)
