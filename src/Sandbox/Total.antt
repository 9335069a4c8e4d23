-- ===== src/Sandbox/Total.antt =====
-- core/sandbox/src/sandbox.ts: the execution of modules that require each other, and how often each
-- runs.
use testring.Common.{
  ℕ, zero, suc, ◌≤◌, ◌<◌, ◌≡◌, refl, sym, ◌∙◌, true, false, not, Option, none, some, String, List,
  arith, ◌==◌, any, Bool-cases, inl, inr, length, count-le-length,
}
use testring.Common.Dict.{get}
use testring.Dependencies.{DictionaryNode}
use testring.Sandbox.{
  loops, Sandbox, Modules, Outcome, Environment, Execute, Script, Result, is_started, modify,
  export_as, compiled, begin, cached_or_new, execute, execute_sandbox, run_in_context, require,
  require_found, dependency, finish, go_on, ends, throws, exports, requires,
}
use testring.Sandbox.Room.{
  begin-started, started_in, started, room, Grows, RunsOnce, room-Grows, begin-Grows,
  begin-RunsOnce, room-begin, modify-Grows, modify-RunsOnce, export_as-IsSteady, compiled-IsSteady,
}

-- The modules that are required are among the files.
abbrev pub IsWithin : Environment → List String → Type 0
IsWithin env files =
    (filename request : String) (node : DictionaryNode)
    → dependency env filename request ≡ some node
    → any (λ f. f == node.path) files ≡ true

-- A source that ends, whatever its requires give.
abbrev pub Ends : Script → Type 0
Ends ends = Unit
Ends loops = ⊥
Ends (throws e) = Unit
Ends (exports value rest) = Ends rest
Ends (requires request k) = (r : Result) → Ends (k r)

abbrev pub AllEnd : Environment → Type 0
AllEnd env = (source : String) → Ends (env.script source)

abbrev pub Runs : Modules → Outcome → Type 0
Runs s none = ⊥
Runs s (some (r, s')) = Grows s s' × (RunsOnce s → RunsOnce s')

abbrev pub IsExecute : List String → ℕ → Execute → Type 0
IsExecute files n exec =
    (path content : String) (s : Modules)
    → any (λ f. f == path) files ≡ true
    → room files s < n
    → Runs s (exec path content s)

Runs-from :
    (s s' : Modules) (o : Outcome) → Grows s s' → (RunsOnce s → RunsOnce s') → Runs s' o → Runs s o
Runs-from s s' none g once h = h
Runs-from s s' (some (r, t)) g once (g', once') = (λ k h. g' k (g k h), λ h. once' (once h))

require_found-Runs :
    (exec : Execute) (env : Environment) (files : List String) (n : ℕ) (filename request : String)
    (o : Option DictionaryNode) (s : Modules)
    → IsExecute files n exec
    → IsWithin env files
    → dependency env filename request ≡ o
    → room files s < n
    → Runs s (require_found exec env filename request o s)
require_found-Runs exec env files n filename request none s x w e h = (λ k i. i, λ i. i)
require_found-Runs exec env files n filename request (some node) s x w e h =
    x node.path node.content s (w filename request node e) h

go_on-Runs :
    (files : List String) (n : ℕ) (s : Modules) (o : Outcome) (k : Result → Modules → Outcome)
    → room files s < n
    → Runs s o
    → ((r : Result) (s' : Modules) → room files s' < n → Runs s' (k r s'))
    → Runs s (go_on o k)
go_on-Runs files n s none k h x f = x
go_on-Runs files n s (some (r, s')) k h (g, once) f =
    Runs-from s s' (k r s') g once (f r s' (omega (arith, h, room-Grows files s s' g)))

run_in_context-Runs :
    (exec : Execute) (env : Environment) (files : List String) (n : ℕ) (path : String)
    (script : Script) (s : Modules)
    → IsExecute files n exec
    → IsWithin env files
    → Ends script
    → room files s < n
    → Runs s (run_in_context exec env path script s)
unfolding run_in_context require
run_in_context-Runs exec env files n path ends s x w f h = (λ k i. i, λ i. i)
run_in_context-Runs exec env files n path loops s x w f h = f
run_in_context-Runs exec env files n path (throws e) s x w f h = (λ k i. i, λ i. i)
run_in_context-Runs exec env files n path (exports value rest) s x w f h =
    let steady = export_as-IsSteady path value s in
    let g = modify-Grows path (export_as value) s steady in
    Runs-from s (modify path (export_as value) s) _ g
      (modify-RunsOnce path (export_as value) s steady)
      (run_in_context-Runs exec env files n path rest (modify path (export_as value) s) x w f
        (omega (arith, h, room-Grows files s (modify path (export_as value) s) g)))
run_in_context-Runs exec env files n path (requires request k) s x w f h =
    go_on-Runs files n s (require exec env path request s) _ h
      (require_found-Runs exec env files n path request (dependency env path request) s x w refl h)
      (λ r s' i. run_in_context-Runs exec env files n path (k r) s' x w (f r) i)

pub started-cached_or_new :
    (content : String) (o : Option Sandbox) → is_started (cached_or_new content o) ≡ started_in o
started-cached_or_new content none = refl
started-cached_or_new content (some b) = refl

finish-Runs :
    (path : String) (s : Modules) (o : Outcome)
    → started path s ≡ true
    → Runs s o
    → Runs s (finish path o)
finish-Runs path s none begun h = h
finish-Runs path s (some (r, s')) begun (g, once) =
    let steady = compiled-IsSteady path s' (g path begun) in
    (
      λ k h. modify-Grows path compiled s' steady k (g k h),
      λ h. modify-RunsOnce path compiled s' steady (once h),
    )

-- What the run of a module that has not started gives.
abbrev pub run_of : Execute → Environment → String → Sandbox → Modules → Outcome
run_of exec env path b s = run_in_context exec env path (env.script b.source) (begin path b s)

pub run_of-Runs :
    (exec : Execute) (env : Environment) (files : List String) (n : ℕ) (path : String) (b : Sandbox)
    (s : Modules)
    → IsExecute files n exec
    → IsWithin env files
    → AllEnd env
    → any (λ f. f == path) files ≡ true
    → started path s ≡ false
    → room files s < suc n
    → Runs (begin path b s) (run_of exec env path b s)
run_of-Runs exec env files n path b s x w f i fresh h =
    run_in_context-Runs exec env files n path (env.script b.source) (begin path b s) x w
      (f b.source) (omega (arith, h, room-begin files path b s i fresh))

execute_sandbox-Runs :
    (exec : Execute) (env : Environment) (files : List String) (n : ℕ) (path : String) (b : Sandbox)
    (s : Modules)
    → IsExecute files n exec
    → IsWithin env files
    → AllEnd env
    → any (λ f. f == path) files ≡ true
    → is_started b ≡ started path s
    → room files s < suc n
    → Runs s (execute_sandbox exec env path b s)
unfolding execute_sandbox
execute_sandbox-Runs exec env files n path b s x w f i same h = elim (Bool-cases (is_started b)) [
  | inl e ↦ rw e (λ k j. j, λ j. j)
  | inr e ↦
      let fresh = sym same ∙ e in
      let o = run_of exec env path b s in
      rw e (
        Runs-from s (begin path b s) (finish path o) (begin-Grows path b s)
          (begin-RunsOnce path b s fresh)
          (finish-Runs path (begin path b s) o (begin-started path b s)
            (run_of-Runs exec env files n path b s x w f i fresh h)))
]

pub execute-IsExecute :
    (env : Environment) (files : List String) (fuel : ℕ)
    → IsWithin env files
    → AllEnd env
    → IsExecute files fuel (execute fuel env)
unfolding execute
execute-IsExecute env files zero w f path content s i h = absurd (omega (arith, h))
execute-IsExecute env files (suc fuel) w f path content s i h =
    execute_sandbox-Runs (execute fuel env) env files fuel path
      (cached_or_new content (get path s.modules_cache)) s (execute-IsExecute env files fuel w f) w
      f i (started-cached_or_new content (get path s.modules_cache)) h

pub room_bound : (files : List String) (s : Modules) → room files s ≤ length files
room_bound files s = count-le-length (λ f. not (started f s)) files
