-- ===== src/RunController/Completion.antt =====
-- core/test-run-controller/src/test-run-controller.ts: what the workers leave when all have stopped.
use testring.Common.{
  ◌≢◌, any-append, any, List-cases, All, ℕ, zero, suc, ◌<◌, ◌≡◌, refl, ap, ◌∙◌, sym, ◌⊎◌, inl, inr,
  Bool, true, false, String, List, [], ◌∷◌, ◌++◌, length, arith,
}
use testring.Queue
use testring.Queue.{Queue}
use testring.RunController.{Config, QueuedTest, Answer, ok, threw, hangs}
use testring.RunController.Loops.{
  Phase, ready, busy, stopped, crashed, stuck, World, Step, takes, stops, concludes, Reach, here,
  next, start, phase_after,
}
use testring.RunController.Workers.{total, held, of_test, accounted, Reach-accounted}

is_going : Phase → Bool
is_going stopped = false
is_going ready = true
is_going (busy item) = true
is_going (crashed e) = true
is_going stuck = true

going-phase_after : (answer : Answer (Unit {0})) → is_going (phase_after answer) ≡ true
unfolding is_going
going-phase_after (ok _) = refl
going-phase_after (threw e) = refl
going-phase_after hangs = refl

any-middle :
    (before behind : List Phase) (p : Phase)
    → is_going p ≡ true
    → any is_going (before ++ p ∷ behind) ≡ true
any-middle before behind p h = rw (any-append is_going before (p ∷ behind), h) (ground arith)

-- While there are tests in the queue, a worker is there to take them.
abbrev IsWatched : World → Type 0
IsWatched w = (Queue.size w.queue ≡ 0) ⊎ (any is_going w.workers ≡ true)

step-IsWatched : (config : Config) (w w' : World) → Step config w w' → IsWatched w'
unfolding is_going
step-IsWatched config w _ (takes before behind item rest e s) =
    inr (any-middle before behind (busy item) refl)
step-IsWatched config w _ (stops before behind e z) = inl z
step-IsWatched config w _ (concludes before behind item a events answer e h) =
    inr (any-middle before behind (phase_after answer) (going-phase_after answer))

start-IsWatched : (limit : ℕ) (queue : Queue QueuedTest) → 0 < limit → IsWatched (start limit queue)
unfolding start is_going
start-IsWatched zero queue h = omega arith
start-IsWatched (suc limit) queue h = inr refl

Reach-IsWatched :
    (config : Config) (limit : ℕ) (queue : Queue QueuedTest) (w : World)
    → 0 < limit
    → Reach config (start limit queue) w
    → IsWatched w
Reach-IsWatched config limit queue _ h here = start-IsWatched limit queue h
Reach-IsWatched config limit queue v h (next {u} r s) = step-IsWatched config u v s

stopped-still :
    (workers : List Phase)
    → All (λ p. p ≡ stopped) workers
    → (any is_going workers ≡ false) × (held workers ≡ [])
unfolding is_going
stopped-still [] h = (refl, refl)
stopped-still (p ∷ workers) (e, h) = rw e (stopped-still workers h)

size-cons : {n : ℕ} → suc n ≢ 0
size-cons e = omega (arith, e)

size-zero : (q : Queue QueuedTest) → Queue.size q ≡ 0 → q.array ≡ []
unfolding Queue.size
size-zero q e = elim (List-cases q.array) [
  | inl n ↦ n
  | inr (x, xs, c) ↦ absurd (size-cons (sym (ap length c) ∙ e))
]

conserved_drained :
    (f : String → ℕ) (queue : Queue QueuedTest) (w : World)
    → accounted (of_test f) w ≡ total (of_test f) queue.array
    → w.queue.array ≡ []
    → held w.workers ≡ []
    → total (of_test f) w.closed ≡ total (of_test f) queue.array
conserved_drained f queue w h d n =
    omega (arith, h, ap (total (of_test f)) d, ap (total (of_test f)) n)

-- If `runChildWorkers` has at least one worker and all of them end their loops without an error, then
-- the queue is empty and each test of the run has been closed as often as it was queued at the start.
pub Reach-complete :
    (config : Config) (limit : ℕ) (queue : Queue QueuedTest) (w : World)
    → 0 < limit
    → Reach config (start limit queue) w
    → All (λ p. p ≡ stopped) w.workers
    → (w.queue.array ≡ [])
      × ((f : String → ℕ) → total (of_test f) w.closed ≡ total (of_test f) queue.array)
Reach-complete config limit queue w h r all =
    let (still, none_held) = stopped-still w.workers all in
    let drained : w.queue.array ≡ [] = elim (Reach-IsWatched config limit queue w h r) [
      | inl z ↦ size-zero w.queue z
      | inr going ↦ ground (arith, going, still)
    ] in
    (
      drained,
      λ f. conserved_drained f queue w (Reach-accounted f config limit queue w r) drained none_held,
    )
