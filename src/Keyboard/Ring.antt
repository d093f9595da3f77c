-- ===== src/Keyboard/Ring.antt =====
-- The keys in the ring buffer, oldest first.
use micro_os.Base.{
  ℕ, zero, suc, ◌+◌, ◌-◌, ◌%◌, ◌<◌, ◌≡◌, ◌≢◌, inl, inr, refl, ap, ◌∙◌, true, false, Option, none,
  some, List, [], ◌∷◌, ◌++◌, ◌==◌, if◌then◌else◌, length, length-set, get_or, get_or-set_self,
  get_or-set_ne, set, Bool-cases, arith,
}
use micro_os.Keyboard.Defs.{kbd_buffer_size, Keyboard, kbd_push, keyboard_getchar, keyboard_flush}

pub record IsValid (k : Keyboard) : Type 0 where
  pub size : length k.kbd_buffer ≡ kbd_buffer_size
  pub read : k.kbd_read < kbd_buffer_size
  pub write : k.kbd_write < kbd_buffer_size

-- `n` keys of the ring `b` from index `i` on.
unfoldable pub ring : List ℕ → ℕ → ℕ → List ℕ
ring b i zero = []
ring b i (suc n) = get_or b i 0 ∷ ring b ((i + 1) % kbd_buffer_size) n

abbrev pub count : Keyboard → ℕ
count k = (k.kbd_write + kbd_buffer_size - k.kbd_read) % kbd_buffer_size

unfoldable pub queued : Keyboard → List ℕ
queued k = ring k.kbd_buffer k.kbd_read (count k)

pub length-ring : (b : List ℕ) (i n : ℕ) → length (ring b i n) ≡ n
unfolding ring
length-ring b i zero = refl
length-ring b i (suc n) = omega (arith, length-ring b ((i + 1) % kbd_buffer_size) n)

ring-append :
    (b : List ℕ) (i n : ℕ)
    → i < kbd_buffer_size
    → ring b i (suc n) ≡ ring b i n ++ (get_or b ((i + n) % kbd_buffer_size) 0 ∷ [])
unfolding ring
ring-append b i zero h = let e : (i + 0) % kbd_buffer_size ≡ i = omega arith in rw e refl
ring-append b i (suc n) h =
    let rest = ring-append b ((i + 1) % kbd_buffer_size) n (omega arith) in
    let e : ((i + 1) % kbd_buffer_size + n) % kbd_buffer_size ≡ (i + suc n) % kbd_buffer_size =
      omega arith in
    rw (rest, e) refl

ring-set :
    (b : List ℕ) (i n w c : ℕ)
    → i < kbd_buffer_size
    → ((j : ℕ) → j < n → (i + j) % kbd_buffer_size ≢ w)
    → ring (set b w c) i n ≡ ring b i n
unfolding ring
ring-set b i zero w c h apart = refl
ring-set b i (suc n) w c h apart =
    let rest =
      ring-set b ((i + 1) % kbd_buffer_size) n w c (omega arith)
        (λ j hj e. apart (suc j) (omega (arith, hj)) (omega (arith, e))) in
    let ne : w ≢ i = λ e. apart 0 (omega arith) (omega (arith, e)) in
    rw (rest, get_or-set_ne b w i c 0 ne) refl

-- What pushing does to the queue: the key goes to its end, unless 255 keys are waiting.
abbrev pub offer : List ℕ → ℕ → List ℕ
offer q c = if length q == 255 then q else q ++ (c ∷ [])

pub record Pushed (k : Keyboard) (q : List ℕ) (k' : Keyboard) : Type 0 where
  pub valid : IsValid k'
  pub queue : queued k' ≡ q

pub kbd_push-Pushed :
    (k : Keyboard) (c : ℕ) → IsValid k → Pushed k (offer (queued k) c) (kbd_push k c)
unfolding kbd_push queued
kbd_push-Pushed k c v =
    let n = length-ring k.kbd_buffer k.kbd_read (count k) in
    let r = v.read in
    let w = v.write in
    elim (Bool-cases ((k.kbd_write + 1) % kbd_buffer_size == k.kbd_read)) [
      | inl full ↦
          let all : (length (ring k.kbd_buffer k.kbd_read (count k)) == 255) ≡ true =
            ground (arith, n) in
          rw (full, all) (record { valid = v; queue = refl })
      | inr room ↦
          let some_left : (length (ring k.kbd_buffer k.kbd_read (count k)) == 255) ≡ false =
            ground (arith, n) in
          let more : ((k.kbd_write + 1) % kbd_buffer_size + kbd_buffer_size - k.kbd_read)
                % kbd_buffer_size
              ≡ suc (count k) =
            ground arith in
          let at : (k.kbd_read + count k) % kbd_buffer_size ≡ k.kbd_write = omega arith in
          rw (room, some_left)
            (record {
              valid = record {
                size = length-set k.kbd_buffer k.kbd_write c ∙ v.size;
                read = r;
                write = omega arith;
              };
              queue =
                  ap (λ m. ring (set k.kbd_buffer k.kbd_write c) k.kbd_read m) more
                  ∙ ring-append (set k.kbd_buffer k.kbd_write c) k.kbd_read (count k) r
                  ∙ rw
                      (
                        ring-set k.kbd_buffer k.kbd_read (count k) k.kbd_write c r
                            (λ j hj e. omega (arith, hj, e, r, w)),
                        at,
                      )
                      (rw (get_or-set_self k.kbd_buffer k.kbd_write c 0 (omega (arith, v.size)))
                        refl);
            })
    ]

-- What taking a key does: the oldest key is returned and leaves the queue.
abbrev pub Taken : Keyboard → List ℕ → Option ℕ × Keyboard → Type 0
Taken k [] (key, k') = (key ≡ none) × (k' ≡ k)
Taken k (c ∷ q) (key, k') = (key ≡ some c) × Pushed k q k'

oldest_first :
    (k : Keyboard) (n : ℕ)
    → IsValid k
    → count k ≡ n
    → Taken k (ring k.kbd_buffer k.kbd_read n) (keyboard_getchar k)
unfolding keyboard_getchar queued ring
oldest_first k zero v e =
    let r = v.read in
    let w = v.write in
    let empty : k.kbd_read == k.kbd_write ≡ true = ground arith in rw empty (refl, refl)
oldest_first k (suc n) v e =
    let r = v.read in
    let w = v.write in
    let waiting : k.kbd_read == k.kbd_write ≡ false = ground arith in
    let less : (k.kbd_write + kbd_buffer_size - (k.kbd_read + 1) % kbd_buffer_size)
          % kbd_buffer_size
        ≡ n =
      omega arith in
    rw waiting (
      refl,
      record {
        valid = record { size = v.size; read = omega arith; write = w };
        queue = ap (λ m. ring k.kbd_buffer ((k.kbd_read + 1) % kbd_buffer_size) m) less;
      },
    )

pub keyboard_getchar-Taken : (k : Keyboard) → IsValid k → Taken k (queued k) (keyboard_getchar k)
unfolding queued
keyboard_getchar-Taken k v = oldest_first k (count k) v refl

pub keyboard_flush-Pushed : (k : Keyboard) → IsValid k → Pushed k [] (keyboard_flush k)
unfolding keyboard_flush queued ring
keyboard_flush-Pushed k v =
    let none_left : (k.kbd_write + kbd_buffer_size - k.kbd_write) % kbd_buffer_size ≡ 0 =
      omega arith in
    record {
      valid = record { size = v.size; read = v.write; write = v.write };
      queue = ap (λ m. ring k.kbd_buffer k.kbd_write m) none_left;
    }
