-- ===== src/Throttle/Spacing.antt =====
-- core/utils/src/throttle.ts: when the function runs.
use testring.Common.{
  true, subst, ℕ, ◌+◌, ◌-◌, ◌≤◌, ◌≡◌, refl, Option, none, some, List, [], ◌∷◌, arith, leb,
}
use testring.Throttle.{Throttle, create, call, call_after, fire, fire_timer, run_after}

-- The runs of the function, each with its time and its arguments, the last one first: one that is now,
-- if any, and those before.
abbrev pub ran {ℓ} : {A : Type ℓ} → ℕ → Option A → List (ℕ × A) → List (ℕ × A)
ran now none runs = runs
ran now (some args) runs = (now, args) ∷ runs

-- A history of a throttled function up to a time, with the arguments of its last call.
pub data Reach {ℓ} (A : Type ℓ) (limit : ℕ)
    : ℕ → List (ℕ × A) → Option A → Throttle A → Type ℓ where
  here : Reach A limit 0 [] none create
  calls :
      {before : ℕ} {runs : List (ℕ × A)} {last : Option A} {t : Throttle A} (now : ℕ) (args : A)
      → before ≤ now
      → Reach A limit before runs last t
      → Reach A limit now
          (ran now (call limit now args t).0 runs)
          (some args)
          (call limit now args t).1
  fires :
      {before : ℕ} {runs : List (ℕ × A)} {last : Option A} {t : Throttle A} (now due : ℕ) (args : A)
      → before ≤ now
      → t.last_func ≡ some (due, args)
      → due ≤ now
      → Reach A limit before runs last t
      → Reach A limit now (ran now (fire limit now t).0 runs) last (fire limit now t).1

-- Runs are apart from each other by the limit.
abbrev pub IsSpaced {ℓ} : {A : Type ℓ} → ℕ → List (ℕ × A) → Type 0
IsSpaced limit [] = Unit
IsSpaced limit (t ∷ []) = Unit
IsSpaced limit (t ∷ u ∷ runs) = (u.0 + limit ≤ t.0) × IsSpaced limit (u ∷ runs)

abbrev pub last_run {ℓ} : {A : Type ℓ} → List (ℕ × A) → Option ℕ
last_run [] = none
last_run (t ∷ runs) = some t.0

abbrev pub last_args {ℓ} : {A : Type ℓ} → List (ℕ × A) → Option A
last_args [] = none
last_args (t ∷ runs) = some t.1

-- The last call is that of the timer, if one is set, and else the last run.
abbrev pub IsHeld {ℓ} : {A : Type ℓ} → Option A → List (ℕ × A) → Option (ℕ × A) → Type ℓ
IsHeld last runs none = last ≡ last_args runs
IsHeld last runs (some (due, args)) = last ≡ some args

-- A timer waits only behind a run, and for the limit after it.
abbrev IsDue {ℓ} : {A : Type ℓ} → ℕ → Option ℕ → Option (ℕ × A) → Type 0
IsDue limit last none = Unit
IsDue limit none (some timer) = ⊥
IsDue limit (some last) (some (due, args)) = last + limit ≤ due

abbrev Before : ℕ → Option ℕ → Type 0
Before now none = Unit
Before now (some last) = last ≤ now

is_over : (limit now u due : ℕ) → u + limit ≤ due → due ≤ now → leb limit (now - u) ≡ true
is_over limit now u due h e = ground arith

module _ {ℓ} {A : Type ℓ} where
  abbrev Keeps : ℕ → ℕ → List (ℕ × A) → Option A → Throttle A → Type ℓ
  Keeps limit now runs last t =
      IsSpaced limit runs
      × (t.last_ran ≡ last_run runs)
      × IsDue limit (last_run runs) t.last_func
      × Before now (last_run runs)
      × IsHeld last runs t.last_func

  IsDue-first : (limit now : ℕ) (o : Option (ℕ × A)) → IsDue limit none o → IsDue limit (some now) o
  IsDue-first limit now none h = tt
  IsDue-first limit now (some timer) h = absurd h

  IsHeld-first :
      (limit now : ℕ) (args : A) (o : Option (ℕ × A))
      → IsDue limit none o
      → IsHeld (some args) ((now, args) ∷ []) o
  IsHeld-first limit now args none h = refl
  IsHeld-first limit now args (some timer) h = absurd h

  call-Keeps :
      (limit before now : ℕ) (args : A) (runs : List (ℕ × A)) (last : Option A) (t : Throttle A)
      → before ≤ now
      → Keeps limit before runs last t
      → Keeps limit now
          (ran now (call limit now args t).0 runs)
          (some args)
          (call limit now args t).1
  unfolding call call_after
  call-Keeps limit before now args [] last t le (s, l, d, b, h) = rw l (
    tt,
    refl,
    IsDue-first limit now t.last_func d,
    omega arith,
    IsHeld-first limit now args t.last_func d,
  )
  call-Keeps limit before now args (u ∷ runs) last t le (s, l, d, b, h) =
      rw l (s, refl, omega (arith, b, le), omega (arith, b, le), refl)

  fire-Keeps :
      (limit before now due : ℕ) (args : A) (runs : List (ℕ × A)) (last : Option A) (t : Throttle A)
      → before ≤ now
      → t.last_func ≡ some (due, args)
      → due ≤ now
      → Keeps limit before runs last t
      → Keeps limit now (ran now (fire limit now t).0 runs) last (fire limit now t).1
        × ((fire limit now t).0 ≡ some args)
  unfolding fire fire_timer run_after
  fire-Keeps limit before now due args [] last t le f e (s, l, d, b, h) =
      absurd (subst (IsDue limit none) f d)
  fire-Keeps limit before now due args (u ∷ runs) last t le f e (s, l, d, b, h) =
      let at : u.0 + limit ≤ due = subst (IsDue limit (some u.0)) f d in
      rw (f, l, is_over limit now u.0 due at e)
        (
          ((omega (arith, at, e), s), refl, tt, omega arith, subst (IsHeld last (u ∷ runs)) f h),
          refl,
        )

  Reach-Keeps :
      (limit now : ℕ) (runs : List (ℕ × A)) (last : Option A) (t : Throttle A)
      → Reach A limit now runs last t
      → Keeps limit now runs last t
  Reach-Keeps limit _ _ _ _ here = (tt, refl, tt, tt, refl)
  Reach-Keeps limit _ _ _ _ (calls {before} {runs} {last} {t} now args le r) =
      call-Keeps limit before now args runs last t le (Reach-Keeps limit before runs last t r)
  Reach-Keeps limit _ _ _ _ (fires {before} {runs} {last} {t} now due args le f e r) =
      (fire-Keeps limit before now due args runs last t le f e
        (Reach-Keeps limit before runs last t r)).0

  -- A throttled function runs at most once in the limit, and its last call is not lost: in every
  -- history two runs are apart by the limit at least; the last call is the one that the timer waits
  -- with, if a timer is set, and else the one that ran last; and a timer that fires at its time or
  -- later runs the function with its arguments.
  pub Reach-IsSpaced :
      (limit now : ℕ) (runs : List (ℕ × A)) (last : Option A) (t : Throttle A)
      → Reach A limit now runs last t
      → IsSpaced limit runs
        × IsHeld last runs t.last_func
        × ((later due : ℕ) (args : A)
            → now ≤ later
            → t.last_func ≡ some (due, args)
            → due ≤ later
            → (fire limit later t).0 ≡ some args)
  Reach-IsSpaced limit now runs last t r =
      let keeps = Reach-Keeps limit now runs last t r in
      (
        keeps.0,
        keeps.4,
        λ later due args le f e. (fire-Keeps limit now later due args runs last t le f e keeps).1,
      )
