-- ===== src/Net/Checksum.antt =====
-- The checksum of kernel/net/net.c: its loops end, and a checksum filled in verifies.
use micro_os.Base.{
  All, All-append, ℕ, ◌+◌, ◌-◌, ◌*◌, ◌%◌, ◌^◌, ◌<◌, ◌≤◌, ◌≡◌, refl, ap, ◌∙◌, true, false, [], ◌∷◌,
  ◌++◌, ◌==◌, ltb, if◌then◌else◌, length, length-append, Bool-cases, inl, inr, arith,
}
use micro_os.Base.Loop.{while, while-ends}
use micro_os.Net.State.{Bytes}
use micro_os.Net.Sums.{sum_words, has_carry, add_carry, fold, ip_checksum, word}

-- The ones' complement sum of a sum.
abbrev pub ones_sum : ℕ → ℕ
ones_sum s = if s == 0 then 0 else (s - 1) % 65535 + 1

-- Rounds of the second loop that are left.
abbrev rounds : ℕ → ℕ
rounds s = if ltb s 65536 then 0 else if ltb s 131071 then 1 else 2

record Folding (s t : ℕ) : Type 0 where
  bounded : t < 2 ^ 32
  positive : 0 < t
  same : (t - 1) % 65535 ≡ (s - 1) % 65535

add_carry-Folding :
    (s t : ℕ)
    → has_carry t ≡ true
    → Folding s t
    → Folding s (add_carry t) × (rounds (add_carry t) < rounds t)
add_carry-Folding s t going f =
    let b = f.bounded in
    let big : 65536 ≤ t = ground arith in
    (
      record { bounded = omega arith; positive = omega arith; same = omega (arith, f.same) },
      ground arith,
    )

-- Three rounds are enough: the sum of any 32-bit number of carries is below 2 ^ 16.
pub fold-ones_sum : (s : ℕ) → s < 2 ^ 32 → (has_carry (fold s) ≡ false) × (fold s ≡ ones_sum s)
unfolding fold
fold-ones_sum s h = elim (Bool-cases (s == 0)) [
  | inl zero_sum ↦ let e : s ≡ 0 = ground arith in rw e (refl, refl)
  | inr positive ↦
      let (ended, f) =
        while-ends has_carry add_carry (Folding s) rounds (add_carry-Folding s) s
          (record { bounded = h; positive = ground (arith, positive); same = refl }) 3
          (ground arith) in
      let low : while has_carry add_carry s 3 < 65536 = ground (arith, ended) in
      (ended, rw positive (omega (arith, low, f.positive, f.same)))
]

-- Every byte is below 256.
abbrev pub IsBytes : Bytes → Type 0
IsBytes b = All (λ (x : ℕ). x < 256) b

-- The sum of the words without wrap-around.
unfoldable pub total : Bytes → ℕ
total [] = 0
total (a ∷ []) = a
total (a ∷ b ∷ rest) = a + 256 * b + total rest

total_bound : (b : Bytes) → IsBytes b → 2 * total b ≤ 65535 * (length b + 1)
unfolding total
total_bound [] h = omega arith
total_bound (a ∷ []) (ha, h) = omega arith
total_bound (a ∷ b ∷ rest) (ha, (hb, h)) = omega (arith, total_bound rest h)

total-append : (a b : Bytes) → length a % 2 ≡ 0 → total (a ++ b) ≡ total a + total b
unfolding total
total-append [] b even = omega arith
total-append (x ∷ []) b even = absurd (omega (arith, even))
total-append (x ∷ y ∷ a) b even = omega (arith, total-append a b (omega (arith, even)))

sum_words-total : (b : Bytes) → sum_words b % 2 ^ 32 ≡ total b % 2 ^ 32
unfolding sum_words total
sum_words-total [] = refl
sum_words-total (a ∷ []) = refl
sum_words-total (a ∷ b ∷ rest) = omega (arith, sum_words-total rest)

sum_words_bound : (b : Bytes) → IsBytes b → sum_words b < 2 ^ 32
unfolding sum_words
sum_words_bound [] h = omega arith
sum_words_bound (a ∷ []) (ha, h) = omega arith
sum_words_bound (a ∷ b ∷ rest) (ha, (hb, h)) = omega arith

-- The checksum of up to 65535 bytes is the complement of the ones' complement sum of their words.
pub ip_checksum-total :
    (b : Bytes) → IsBytes b → length b < 65536 → ip_checksum b ≡ 65535 - ones_sum (total b)
unfolding ip_checksum
ip_checksum-total b h short =
    let small : total b < 2 ^ 32 = omega (arith, total_bound b h) in
    let same : sum_words b ≡ total b = omega (arith, sum_words-total b, sum_words_bound b h) in
    let (_, folded) = fold-ones_sum (total b) small in rw same (ground (arith, folded))

pub ip_checksum_bound : (b : Bytes) → ip_checksum b < 65536
unfolding ip_checksum
ip_checksum_bound b = omega arith

-- A sum and its complement.
complement : (s c : ℕ) → c ≡ 65535 - ones_sum s → 65535 - ones_sum (s + c) ≡ 0
complement s c e = ground (arith, e)

-- A message of up to 65535 bytes whose checksum field was computed with the field at 0 has checksum
-- 0, wherever the field stands at an even offset.
pub ip_checksum-word :
    (before after : Bytes)
    → IsBytes before
    → IsBytes after
    → length before % 2 ≡ 0
    → length before + length after < 65534
    → ip_checksum (before ++ (word (ip_checksum (before ++ (0 ∷ 0 ∷ after))) ++ after)) ≡ 0
unfolding total
ip_checksum-word before after hb ha even short =
    let c = ip_checksum (before ++ (0 ∷ 0 ∷ after)) in
    let small : c < 65536 = ip_checksum_bound (before ++ (0 ∷ 0 ∷ after)) in
    let blank = before ++ (0 ∷ 0 ∷ after) in
    let full = before ++ (word c ++ after) in
    let blank_bytes : IsBytes blank =
      All-append (λ (x : ℕ). x < 256) before (0 ∷ 0 ∷ after) hb (omega arith, (omega arith, ha)) in
    let full_bytes : IsBytes full =
      All-append (λ (x : ℕ). x < 256) before (word c ++ after) hb
        (omega arith, (omega arith, ha)) in
    let was =
      ip_checksum-total blank blank_bytes (omega (arith, length-append before (0 ∷ 0 ∷ after))) in
    let now =
      ip_checksum-total full full_bytes (omega (arith, length-append before (word c ++ after))) in
    let blank_sum = total-append before (0 ∷ 0 ∷ after) even in
    let full_sum = total-append before (word c ++ after) even in
    let sum = total before + total after in
    let blank_total : total blank ≡ sum = omega (arith, blank_sum) in
    let full_total : total full ≡ sum + c = omega (arith, full_sum, small) in
    now
    ∙ ap (λ t. 65535 - ones_sum t) full_total
    ∙ complement sum c (was ∙ ap (λ t. 65535 - ones_sum t) blank_total)
