-- ===== src/Keyboard/Queue.antt =====
-- The ring buffer as a queue: what any sequence of calls returns.
use micro_os.Base.{
  ℕ, ◌≡◌, refl, sym, ap, ◌∙◌, subst, Bool, true, false, not, Option, none, some, List, [], ◌∷◌,
  ◌==◌, length, arith,
}
use micro_os.Keyboard.Defs.{Keyboard, kbd_push, keyboard_has_key, keyboard_getchar, keyboard_flush}
use micro_os.Keyboard.Ring.{
  IsValid, queued, count, length-ring, offer, kbd_push-Pushed, Taken, keyboard_getchar-Taken,
  keyboard_flush-Pushed,
}

-- A call that uses the buffer.
pub data Call : Type 0 where
  push : ℕ → Call
  take : Call
  ask : Call
  flush : Call

-- What it returns: a key or nothing, or whether there is one.
pub data Answer : Type 0 where
  done : Answer
  key : Option ℕ → Answer
  waiting : Bool → Answer

unfoldable pub exec : Keyboard → Call → Answer × Keyboard
exec k (push c) = (done, kbd_push k c)
exec k take = let (c, k') = keyboard_getchar k in (key c, k')
exec k ask = (waiting (keyboard_has_key k), k)
exec k flush = (done, keyboard_flush k)

unfoldable pub run : Keyboard → List Call → List Answer
run k [] = []
run k (c ∷ cs) = let (a, k') = exec k c in a ∷ run k' cs

-- The same calls on a list of at most 255 keys.
unfoldable pub on_queue : List ℕ → Call → Answer × List ℕ
on_queue q (push c) = (done, offer q c)
on_queue [] take = (key none, [])
on_queue (c ∷ q) take = (key (some c), q)
on_queue [] ask = (waiting false, [])
on_queue (c ∷ q) ask = (waiting true, c ∷ q)
on_queue q flush = (done, [])

unfoldable pub queue_run : List ℕ → List Call → List Answer
queue_run q [] = []
queue_run q (c ∷ cs) = let (a, q') = on_queue q c in a ∷ queue_run q' cs

-- The answers agree, and the buffer then holds the list.
Agrees : Answer × Keyboard → Answer × List ℕ → Type 0
Agrees (a, k') (b, q') = (a ≡ b) × (IsValid k' × (queued k' ≡ q'))

took :
    (k : Keyboard) (q : List ℕ) (r : Option ℕ × Keyboard)
    → IsValid k
    → queued k ≡ q
    → Taken k q r
    → Agrees (key r.0, r.1) (on_queue q take)
unfolding Agrees on_queue
took k [] (c, k') v same (nothing, stays) =
    (ap key nothing, subst (λ j. IsValid j × (queued j ≡ [])) (sym stays) (v, same))
took k (a ∷ q) (c, k') v same (oldest, p) = (ap key oldest, (p.valid, p.queue))

has_key_lem : (k : Keyboard) → IsValid k → keyboard_has_key k ≡ not (length (queued k) == 0)
unfolding keyboard_has_key queued
has_key_lem k v =
    let r = v.read in
    let w = v.write in ground (arith, length-ring k.kbd_buffer k.kbd_read (count k))

asked :
    (k : Keyboard) (q : List ℕ)
    → IsValid k
    → queued k ≡ q
    → Agrees (waiting (keyboard_has_key k), k) (on_queue q ask)
unfolding Agrees on_queue
asked k [] v same =
    (ap waiting (has_key_lem k v ∙ ap (λ (l : List ℕ). not (length l == 0)) same), (v, same))
asked k (a ∷ q) v same =
    let some_key : not (length (a ∷ q) == 0) ≡ true = ground arith in
    (
      ap waiting (has_key_lem k v ∙ ap (λ (l : List ℕ). not (length l == 0)) same ∙ some_key),
      (v, same),
    )

exec-on_queue :
    (k : Keyboard) (q : List ℕ) (c : Call)
    → IsValid k
    → queued k ≡ q
    → Agrees (exec k c) (on_queue q c)
unfolding Agrees exec on_queue
exec-on_queue k q (push c) v same =
    let p = kbd_push-Pushed k c v in (refl, (p.valid, p.queue ∙ ap (λ l. offer l c) same))
exec-on_queue k q take v same =
    took k q (keyboard_getchar k) v same
      (subst (λ l. Taken k l (keyboard_getchar k)) same (keyboard_getchar-Taken k v))
exec-on_queue k q ask v same = asked k q v same
exec-on_queue k q flush v same = let p = keyboard_flush-Pushed k v in (refl, (p.valid, p.queue))

run_from :
    (cs : List Call) (k : Keyboard) (q : List ℕ)
    → IsValid k
    → queued k ≡ q
    → run k cs ≡ queue_run q cs
unfolding run queue_run Agrees
run_from [] k q v same = refl
run_from (c ∷ cs) k q v same =
    let (a, (v', same')) = exec-on_queue k q c v same in rw (a, run_from cs _ _ v' same') refl

-- From a ring that holds `q`, any sequence of calls returns what it returns on the list `q`: keys
-- come out in the order in which they went in, a key is dropped only while 255 are waiting,
-- and a flush empties the queue.
pub run-queue_run : (k : Keyboard) (cs : List Call) → IsValid k → run k cs ≡ queue_run (queued k) cs
run-queue_run k cs v = run_from cs k (queued k) v refl
