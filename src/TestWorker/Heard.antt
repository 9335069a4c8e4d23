-- ===== src/TestWorker/Heard.antt =====
-- core/test-worker/src/test-worker-instance.ts: an execution that is alone is not lost.
use testring.Common.{
  ◌∙◌, ◌⊎◌, subst, nat_eq_iff, inl, inr, Bool-cases, ℕ, suc, ◌+◌, ◌<◌, Bool, true, List, ◌∷◌, ◌++◌,
  ◌≡◌, any, any-append, nat_eq, refl, arith,
}
use testring.TestWorker.{
  Instance, Task, init_worker, execute, kill, created, creation_failed, send_test, test_sent,
  complete, worker_exit, worker_error, killed, done, failing, preparing, sending, delayed_kill,
  killing,
}
use testring.TestWorker.World.{
  World, Step, start, give_up, executes, kills, creates, fails, prepares, sends, completes, exits,
  errs, goes_on_killing, dies,
}
use testring.TestWorker.Accounted.{
  settles, concerns, has_test, is_accounted, accounts, any-wake, any-give_up, kill-KeepsListed,
  worker_exit-settles, worker_error-settles, killed-settles, complete-settles, init_worker-accounts,
  send_test-accounts, test_sent-KeepsListed, after-accounted, without_task, or_left, or_right,
}
use testring.TestWorker.Sequence.{IsLast, OneByOne, starts, goes, OneByOne-IsLast}

-- Each end of a test settles execution `n`.
abbrev pub Hears : ℕ → Instance → Type 0
Hears n i =
    (any (settles n) (worker_exit i).events ≡ true)
    × (any (settles n) (worker_error i).events ≡ true)
    × (any (settles n) (killed i).events ≡ true)
    × (any (settles n) (complete done i).events ≡ true)
    × (any (settles n) (complete failing i).events ≡ true)

has_test-Hears : (n : ℕ) (i : Instance) → has_test n i ≡ true → Hears n i
has_test-Hears n i h = (
  worker_exit-settles n i h,
  worker_error-settles n i h,
  killed-settles n i h,
  complete-settles n done i (λ e. ground (arith, e)) h,
  complete-settles n failing i (λ e. ground (arith, e)) h,
)

own_task :
    (m : ℕ) (before behind : List Task) → any (concerns m) (before ++ preparing m ∷ behind) ≡ true
own_task m before behind = ground (arith, any-append (concerns m) before (preparing m ∷ behind))

is_accounted-cases :
    (n : ℕ) (w : World)
    → is_accounted n w ≡ true
    → (any (settles n) w.events ≡ true) ⊎ ((any (concerns n) w.tasks ≡ true) ⊎ Hears n w.inst)
is_accounted-cases n w h = elim (Bool-cases (any (settles n) w.events)) [
  | inl settled ↦ inl settled
  | inr unsettled ↦ elim (Bool-cases (any (concerns n) w.tasks)) [
    | inl waits ↦ inr (inl waits)
    | inr sent ↦ inr (inr (has_test-Hears n w.inst (ground (arith, unsettled, sent, h))))
  ]
]

-- Execution `n`, the last that was started, stays accounted for.
Step-accounted :
    (n : ℕ) {w v : World}
    → Step w v
    → IsLast w
    → suc n ≡ w.started
    → v.started ≡ w.started
    → is_accounted n w ≡ true
    → is_accounted n v ≡ true
unfolding kill created creation_failed
Step-accounted n {w} executes q last same h = absurd (ground (arith, same))
Step-accounted n {w} kills q last same h =
    after-accounted n (kill w.inst) w.tasks w (kill-KeepsListed n w.inst.queued w.inst)
      (λ c. or_left _ _ c) h
Step-accounted n {w} (creates process e) q last same h = rw any-wake h
Step-accounted n {w} (fails e) q last same h =
    ground (arith, any-append (settles n) w.events (give_up w.tasks), any-give_up n w.tasks)
Step-accounted n {w} (prepares m well before behind e) q last same h =
    let there : any (concerns m) w.tasks ≡ true = rw e (own_task m before behind) in
    let its : m ≡ n = ground (arith, (q m).0 there, last) in
    let sent =
      subst (λ k. accounts k (send_test m well w.inst) ≡ true) its
        (send_test-accounts m well w.inst) in
    after-accounted n (send_test m well w.inst) (before ++ behind) w (λ c. sent)
      (λ c. or_right (any (concerns n) (before ++ behind)) _ sent) h
Step-accounted n {w} (sends m well before behind e) q last same h =
    after-accounted n (test_sent m well w.inst) (before ++ behind) w
      (test_sent-KeepsListed n m well w.inst)
      (λ c. without_task n (sending m) before behind (test_sent m well w.inst) refl (rw e at c)) h
Step-accounted n {w} (completes status answers) q last same h =
    after-accounted n (complete status w.inst) w.tasks w
      (λ c. or_left _ _ (complete-settles n status w.inst answers c)) (λ c. or_left _ _ c) h
Step-accounted n {w} (exits process watched) q last same h =
    after-accounted n (worker_exit w.inst) w.tasks w
      (λ c. or_left _ _ (worker_exit-settles n w.inst c)) (λ c. or_left _ _ c) h
Step-accounted n {w} (errs process watched) q last same h =
    after-accounted n (worker_error w.inst) w.tasks w
      (λ c. or_left _ _ (worker_error-settles n w.inst c)) (λ c. or_left _ _ c) h
Step-accounted n {w} (goes_on_killing before behind e) q last same h =
    after-accounted n (kill w.inst) (before ++ behind) w (kill-KeepsListed n w.inst.queued w.inst)
      (λ c. without_task n delayed_kill before behind (kill w.inst) refl (rw e at c)) h
Step-accounted n {w} (dies process before behind e) q last same h =
    after-accounted n (killed w.inst) (before ++ behind) w
      (λ c. or_left _ _ (killed-settles n w.inst c))
      (λ c. without_task n (killing process) before behind (killed w.inst) refl (rw e at c)) h

-- A step starts an execution, which is accounted for, or none.
Step-starts :
    {w v : World}
    → Step w v
    → (v.started ≡ w.started) ⊎ ((v.started ≡ w.started + 1) × (is_accounted w.started v ≡ true))
unfolding execute
Step-starts {w} executes =
    let o = init_worker w.started w.inst.queued w.inst in
    inr (
      refl,
      ground (
        arith,
        (init_worker-accounts w.started w.inst.queued w.inst).0,
        any-append (settles w.started) w.events o.events,
        any-append (concerns w.started) w.tasks o.tasks,
      ),
    )
Step-starts kills = inl refl
Step-starts (creates process e) = inl refl
Step-starts (fails e) = inl refl
Step-starts (prepares n well before behind e) = inl refl
Step-starts (sends n well before behind e) = inl refl
Step-starts (completes status answers) = inl refl
Step-starts (exits process watched) = inl refl
Step-starts (errs process watched) = inl refl
Step-starts (goes_on_killing before behind e) = inl refl
Step-starts (dies process before behind e) = inl refl

last_accounted :
    (local_worker : Bool) {w : World}
    → OneByOne (start local_worker) w
    → (n : ℕ) → suc n ≡ w.started
    → is_accounted n w ≡ true
last_accounted local_worker starts n h = absurd (ground (arith, h))
last_accounted local_worker (goes {u} {v} r s a) n h = elim (Step-starts s) [
  | inl same ↦
      Step-accounted n s (OneByOne-IsLast local_worker r) (h ∙ same) same
        (last_accounted local_worker r n (h ∙ same))
  | inr (more, now) ↦
      let its : u.started ≡ n = ground (arith, h, more) in
      subst (λ k. is_accounted k v ≡ true) its now
]

-- No execution is lost when the next is asked for once those before it are settled and none is on
-- its way: with calls of `kill` and processes that start, fail to start, answer, err and exit at any
-- time, every execution that was started is settled, or waits for the worker or its payload, or
-- its test was sent, and each of these settles it when it comes: the exit or an error of the process,
-- the end of a kill, a message that a test is done, and one that it has failed.
pub OneByOne-Hears :
    (local_worker : Bool) {w : World}
    → OneByOne (start local_worker) w
    → (n : ℕ) → n < w.started
    → (any (settles n) w.events ≡ true) ⊎ ((any (concerns n) w.tasks ≡ true) ⊎ Hears n w.inst)
OneByOne-Hears local_worker {w} r n h = elim (Bool-cases (nat_eq (suc n) w.started)) [
  | inl last ↦
      is_accounted-cases n w
        (last_accounted local_worker r n ((nat_eq_iff (suc n) w.started).0 last))
  | inr other ↦ inl ((OneByOne-IsLast local_worker r n).1 (ground (arith, other, h)))
]
