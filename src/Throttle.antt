-- ===== src/Throttle.antt =====
-- core/utils/src/throttle.ts, the function `throttle`. A time is what `Date.now` gives, which does not
-- run backwards, and a timer fires at its time or later.
pub mod Spacing
mod Tests
use testring.Common.{ℕ, ◌+◌, ◌-◌, Option, none, some, List, [], ◌∷◌, leb, if◌then◌else◌}

-- `lastFunc` is the timer that waits, with its time and the arguments; one that has fired is none.
pub record Throttle {ℓ} (A : Type ℓ) : Type ℓ where
  pub last_func : Option (ℕ × A)
  pub last_ran : Option ℕ

module _ {ℓ} {A : Type ℓ} where
  abbrev pub create : Throttle A
  create = record { last_func = none; last_ran = none }

  call_after : ℕ → ℕ → A → Option ℕ → Throttle A → Option A × Throttle A
  call_after limit now args none t = (some args, record t { last_ran = some now })
  call_after limit now args (some last) t =
      (none, record t { last_func = some (now + (limit - (now - last)), args) })

  -- A call of the function that `throttle` returns, and what it passes to `func` at once.
  unfoldable pub call : ℕ → ℕ → A → Throttle A → Option A × Throttle A
  unfolding call_after
  call limit now args t = call_after limit now args t.last_ran t

  run_after : ℕ → ℕ → A → Option ℕ → Throttle A → Option A × Throttle A
  run_after limit now args none t = (none, record t { last_func = none })
  run_after limit now args (some last) t =
      if leb limit (now - last)
      then (some args, record { last_func = none; last_ran = some now })
      else (none, record t { last_func = none })

  fire_timer : ℕ → ℕ → Option (ℕ × A) → Throttle A → Option A × Throttle A
  unfolding run_after
  fire_timer limit now none t = (none, t)
  fire_timer limit now (some (due, args)) t = run_after limit now args t.last_ran t

  -- The callback of the timer.
  pub fire : ℕ → ℕ → Throttle A → Option A × Throttle A
  unfolding fire_timer
  fire limit now t = fire_timer limit now t.last_func t
