-- ===== src/TestApi/Flushing.antt =====
-- core/api/src/test-api-controller.ts: what a flush calls, and how a run ends.
use testring.Common.{
  Option-cases, ◌⊎◌, ℕ, Bool, true, false, Option, none, some, String, List, [], ◌∷◌, ◌≡◌, refl,
  if◌then◌else◌, ap, inl, inr,
}
use testring.Common.Dict.{is_some}
use testring.TestApi.{
  Flush, Flushed, completed, stack_broken, callback_threw, call_each, flushed, flush_callbacks,
}

-- The callbacks up to the first that throws, and with it.
abbrev pub until_error : (ℕ → Option String) → List ℕ → List ℕ
until_error error_of [] = []
until_error error_of (callback ∷ callbacks) =
    callback ∷ (if is_some (error_of callback) then [] else until_error error_of callbacks)

-- What each way to end a flush of the callbacks means.
abbrev EndsAs : (ℕ → Option String) → List ℕ → Flush → Flushed → Type 0
EndsAs error_of callbacks f completed = (f.called ≡ callbacks) × (f.callbacks ≡ [])
EndsAs error_of callbacks f stack_broken =
    ((f.called ≡ []) × (f.callbacks ≡ callbacks)) ⊎ ((f.called ≡ callbacks) × (f.callbacks ≡ []))
EndsAs error_of callbacks f (callback_threw e) =
    (f.called ≡ until_error error_of callbacks) × (f.callbacks ≡ callbacks)

abbrev pub Flushes : (ℕ → Option String) → List ℕ → Flush → Type 0
Flushes error_of callbacks f = EndsAs error_of callbacks f f.result

-- What the loop calls, all of the callbacks where none throws.
abbrev CallsAll : List ℕ → List ℕ × Option String → Type 0
CallsAll callbacks (called, none) = called ≡ callbacks
CallsAll callbacks (called, some e) = Unit

call_each-until_error :
    (error_of : ℕ → Option String) (callbacks : List ℕ)
    → (call_each error_of callbacks).0 ≡ until_error error_of callbacks
unfolding call_each
call_each-until_error error_of [] = refl
call_each-until_error error_of (callback ∷ callbacks) = elim (Option-cases (error_of callback)) [
  | inl e ↦ rw e (ap (λ cs. callback ∷ cs) (call_each-until_error error_of callbacks))
  | inr (m, e) ↦ rw e refl
]

longer-CallsAll :
    (callback : ℕ) (callbacks : List ℕ) (p : List ℕ × Option String)
    → CallsAll callbacks p
    → CallsAll (callback ∷ callbacks) (callback ∷ p.0, p.1)
longer-CallsAll callback callbacks (called, none) h = ap (λ cs. callback ∷ cs) h
longer-CallsAll callback callbacks (called, some e) h = tt

call_each-CallsAll :
    (error_of : ℕ → Option String) (callbacks : List ℕ)
    → CallsAll callbacks (call_each error_of callbacks)
unfolding call_each
call_each-CallsAll error_of [] = refl
call_each-CallsAll error_of (callback ∷ callbacks) = elim (Option-cases (error_of callback)) [
  | inl e ↦ rw e (
      longer-CallsAll callback callbacks (call_each error_of callbacks)
        (call_each-CallsAll error_of callbacks))
  | inr (m, e) ↦ rw e tt
]

flushed-Flushes :
    (error_of : ℕ → Option String) (callbacks : List ℕ) (broken_after : Bool)
    (p : List ℕ × Option String)
    → p.0 ≡ until_error error_of callbacks
    → CallsAll callbacks p
    → Flushes error_of callbacks (flushed error_of callbacks broken_after p)
flushed-Flushes error_of callbacks true (called, none) until all = inr (all, refl)
flushed-Flushes error_of callbacks false (called, none) until all = (all, refl)
flushed-Flushes error_of callbacks broken_after (called, some e) until all = (until, refl)

-- A flush that completes has called the callbacks that were registered, each once and in their order,
-- and leaves none. One in which a callback throws has called those up to it, and leaves all of them,
-- so that the next flush calls them again. One that is broken off has called all or none.
pub flush_callbacks_lem :
    (error_of : ℕ → Option String) (broken_before broken_after : Bool) (callbacks : List ℕ)
    → Flushes error_of callbacks (flush_callbacks error_of broken_before broken_after callbacks)
unfolding flush_callbacks
flush_callbacks_lem error_of true broken_after callbacks = inl (refl, refl)
flush_callbacks_lem error_of false broken_after callbacks =
    flushed-Flushes error_of callbacks broken_after (call_each error_of callbacks)
      (call_each-until_error error_of callbacks) (call_each-CallsAll error_of callbacks)
