-- ===== src/Str/Defs.antt =====
-- The functions of kernel/string.c.
-- Memory is a function from addresses to bytes. A string argument that is only read is the list of
-- its characters before the final NUL; a pointer into it is the number of characters skipped.
use micro_os.Base.{
  ℕ, zero, suc, ◌+◌, ◌%◌, true, false, not, Option, none, some, List, [], ◌∷◌, replicate, ◌==◌, ltb,
  if◌then◌else◌,
}

abbrev pub Memory : Type 0
Memory = ℕ → ℕ

-- `*p = v`
unfoldable pub store : Memory → ℕ → ℕ → Memory
store m p v a = if a == p then v else m a

unfoldable pub memset : Memory → ℕ → ℕ → ℕ → Memory
memset m p c zero = m
memset m p c (suc n) = memset (store m p (c % 256)) (p + 1) c n

-- `while (n--) *d++ = *s++;`
unfoldable pub copy_up : Memory → ℕ → ℕ → ℕ → Memory
copy_up m d s zero = m
copy_up m d s (suc n) = copy_up (store m d (m s)) (d + 1) (s + 1) n

-- `while (n--) *--d = *--s;` from the ends `d + n` and `s + n`.
unfoldable pub copy_down : Memory → ℕ → ℕ → ℕ → Memory
copy_down m d s zero = m
copy_down m d s (suc n) = copy_down (store m (d + n) (m (s + n))) d s n

unfoldable pub memcpy : Memory → ℕ → ℕ → ℕ → Memory
memcpy m d s n = copy_up m d s n

unfoldable pub memmove : Memory → ℕ → ℕ → ℕ → Memory
memmove m d s n = if ltb d s then copy_up m d s n else copy_down m d s n

-- The two bytes whose difference a comparison returns; `none` where it returns 0 at the end.
unfoldable pub memcmp : Memory → ℕ → ℕ → ℕ → Option (ℕ × ℕ)
memcmp m a b zero = none
memcmp m a b (suc n) =
    let rest = memcmp m (a + 1) (b + 1) n in if not (m a == m b) then some (m a, m b) else rest

-- A string's characters, none of them NUL.
abbrev pub Text : Type 0
Text = List ℕ

unfoldable pub strlen : Text → ℕ
strlen [] = 0
strlen (c ∷ s) = strlen s + 1

abbrev pub head_or_nul : Text → ℕ
head_or_nul [] = 0
head_or_nul (c ∷ s) = c

-- The two characters whose difference `strcmp` returns.
unfoldable pub strcmp : Text → Text → ℕ × ℕ
strcmp [] b = (0, head_or_nul b)
strcmp (x ∷ a) [] = (x, 0)
strcmp (x ∷ a) (y ∷ b) = let rest = strcmp a b in if x == y then rest else (x, y)

unfoldable pub strncmp : Text → Text → ℕ → ℕ × ℕ
strncmp a b zero = (0, 0)
strncmp [] b (suc n) = (0, head_or_nul b)
strncmp (x ∷ a) [] (suc n) = (x, 0)
strncmp (x ∷ a) (y ∷ b) (suc n) = let rest = strncmp a b n in if x == y then rest else (x, y)

-- The bytes that `strcpy` writes.
unfoldable pub strcpy : Text → List ℕ
strcpy [] = 0 ∷ []
strcpy (c ∷ s) = c ∷ strcpy s

-- The bytes that `strncpy` writes. A string shorter than `n` is followed by a NUL, which does not
-- count, and then by one NUL for each count left.
unfoldable pub strncpy : Text → ℕ → List ℕ
strncpy s zero = []
strncpy [] (suc n) = 0 ∷ replicate (suc n) 0
strncpy (c ∷ s) (suc n) = c ∷ strncpy s n

-- The bytes at `dst` after `strcat`.
unfoldable pub strcat : Text → Text → List ℕ
strcat [] src = strcpy src
strcat (c ∷ dst) src = c ∷ strcat dst src

unfoldable pub strchr : Text → ℕ → Option ℕ
strchr [] c = if c == 0 then some 0 else none
strchr (x ∷ s) c = elim (x == c % 256) [
  | true ↦ some 0
  | false ↦ elim (strchr s c) [ none ↦ none | some i ↦ some (i + 1) ]
]

-- The last match from position `i` on, `last` before it.
unfoldable pub last_from : Text → ℕ → ℕ → Option ℕ → Option ℕ
last_from [] c i last = last
last_from (x ∷ s) c i last = last_from s c (i + 1) (if x == c % 256 then some i else last)

unfoldable pub strrchr : Text → ℕ → Option ℕ
strrchr s c = if c == 0 then some (strlen s) else last_from s c 0 none
