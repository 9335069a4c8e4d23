-- ===== src/Sandbox/Again.antt =====
-- core/sandbox/src/sandbox.ts: what a second execution gives.
use testring.Common.{ℕ, suc, ◌≡◌, Bool, false, Option, none, some, String}
use testring.Common.Dict.{get}
use testring.Sandbox.{
  Sandbox, Modules, Outcome, Result, returned, Environment, execute, execute_sandbox, cached_or_new,
  exports_at,
}

abbrev compiled_in : Option Sandbox → Bool
compiled_in none = false
compiled_in (some b) = b.is_compiled

abbrev is_compiled_at : String → Modules → Bool
is_compiled_at path s = compiled_in (get path s.modules_cache)

abbrev Gives : String → Option Sandbox → Environment → ℕ → String → Modules → Type 0
Gives path o env n content s =
    execute_sandbox (execute n env) env path (cached_or_new content o) s
    ≡ some (returned (exports_at path s), s)

-- The result of an execution that has run, and of any later one.
abbrev IsDone : Environment → String → Outcome → Type 0
IsDone env path o =
    (r : Result) × (s' : Modules) × (o ≡ some (r, s'))
    × ((n : ℕ) (later : String)
        → execute (suc n) env path later s' ≡ some (returned (exports_at path s'), s'))
