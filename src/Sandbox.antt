-- ===== src/Sandbox.antt =====
-- core/sandbox/src/sandbox.ts, the class `Sandbox`. What a source does when `vm` runs it is an
-- argument; the cache of the modules is that of the class, and a sandbox is known by its path. The
-- value that a module exports is known by a name, that of a new module is "{}"; that others see an
-- object change which they have got before is left out.
pub mod Room
pub mod Total
pub mod Built
pub mod Again
mod Tests
use testring.Common.{
  ℕ, zero, suc, Bool, true, false, ◌||◌, Option, none, some, String, List, [], ◌∷◌, ◌++◌,
  if◌then◌else◌,
}
use testring.Common.Dict.{Dict, get, set}
use testring.Dependencies.{DictionaryNode}

-- What a module throws: a string, which becomes an `EvalError`, or something else.
pub data Exception : Type 0 where
  text eval_error other : String → Exception

pub data Result : Type 0 where
  returned : String → Result
  threw : Exception → Result

-- What a source does: it goes on with whatever a require gives it, also where that throws. One that
-- `loops` does not end.
pub data Script : Type 0 where
  ends loops : Script
  throws : Exception → Script
  exports : String → Script → Script
  requires : String → (Result → Script) → Script

pub record Sandbox : Type 0 where
  pub source : String
  pub exported : String
  pub is_compiled : Bool
  pub is_compiling : Bool

-- The cache of the modules, and the paths of those that `execute` has run, the last one first.
pub record Modules : Type 0 where
  pub modules_cache : Dict Sandbox
  pub ran : List String

pub record Environment : Type 0 where
  pub script : String → Script
  pub require_package : (request filename : String) → Result
  pub dependencies : Dict (Dict DictionaryNode)

-- The result of a call with the modules that it leaves; `none` where the fuel runs out
-- or a source does not end.
abbrev pub Outcome : Type 0
Outcome = Option (Result × Modules)

abbrev pub Execute : Type 0
Execute = (path content : String) → Modules → Outcome

abbrev pub create : String → Sandbox
create source = record {
  source = source;
  exported = "{}";
  is_compiled = false;
  is_compiling = false;
}

-- The cached sandbox, or a new one.
abbrev pub cached_or_new : String → Option Sandbox → Sandbox
cached_or_new content none = create content
cached_or_new content (some b) = b

abbrev pub is_started : Sandbox → Bool
is_started b = b.is_compiled || b.is_compiling

abbrev pub put : String → Sandbox → Modules → Modules
put path b s = record s { modules_cache = set path b s.modules_cache }

abbrev pub modify_found : String → (Sandbox → Sandbox) → Option Sandbox → Modules → Modules
modify_found path f none s = s
modify_found path f (some b) s = put path (f b) s

abbrev pub modify : String → (Sandbox → Sandbox) → Modules → Modules
modify path f s = modify_found path f (get path s.modules_cache) s

abbrev exported_of : Option Sandbox → String
exported_of none = "{}"
exported_of (some b) = b.exported

abbrev pub exports_at : String → Modules → String
exports_at path s = exported_of (get path s.modules_cache)

abbrev pub lookup : String → Option (Dict DictionaryNode) → Option DictionaryNode
lookup request none = none
lookup request (some nodes) = get request nodes

abbrev pub dependency : Environment → (filename request : String) → Option DictionaryNode
dependency env filename request = lookup request (get filename env.dependencies)

abbrev pub require_found :
    Execute → Environment → (filename request : String) → Option DictionaryNode → Modules → Outcome
require_found execute env filename request none s = some (env.require_package request filename, s)
require_found execute env filename request (some node) s = execute node.path node.content s

-- `require` of the sandbox of a file.
pub require : Execute → Environment → (filename request : String) → Modules → Outcome
require execute env filename request s =
    require_found execute env filename request (dependency env filename request) s

-- `runInContext` throws strings as an `EvalError`.
abbrev pub evaluated : Exception → Exception
evaluated (text message) = eval_error message
evaluated (eval_error message) = eval_error message
evaluated (other message) = other message

abbrev pub export_as : String → Sandbox → Sandbox
export_as value b = record b { exported = value }

abbrev pub go_on : Outcome → (Result → Modules → Outcome) → Outcome
go_on none k = none
go_on (some (r, s)) k = k r s

-- `runInContext`, and `this.exports` where the source ends.
pub run_in_context : Execute → Environment → String → Script → Modules → Outcome
unfolding require
run_in_context execute env path ends s = some (returned (exports_at path s), s)
run_in_context execute env path loops s = none
run_in_context execute env path (throws e) s = some (threw (evaluated e), s)
run_in_context execute env path (exports value rest) s =
    run_in_context execute env path rest (modify path (export_as value) s)
run_in_context execute env path (requires request k) s =
    go_on (require execute env path request s) (λ r s'. run_in_context execute env path (k r) s')

abbrev pub compiling : Sandbox → Sandbox
compiling b = record b { is_compiling = true }

abbrev pub compiled : Sandbox → Sandbox
compiled b = record b { is_compiled = true; is_compiling = false }

abbrev pub begin : String → Sandbox → Modules → Modules
begin path b s = record {
  modules_cache = set path (compiling b) s.modules_cache;
  ran = path ∷ s.ran;
}

-- The `finally` of `execute`.
abbrev pub finish : String → Outcome → Outcome
finish path none = none
finish path (some (r, s)) = some (r, modify path compiled s)

pub execute_sandbox : Execute → Environment → String → Sandbox → Modules → Outcome
unfolding run_in_context
execute_sandbox execute env path b s =
    let done =
      finish path (run_in_context execute env path (env.script b.source) (begin path b s)) in
    if is_started b then some (returned b.exported, s) else done

-- `execute` of the sandbox of a path, which is made from the content if there is none.
pub execute : ℕ → Environment → Execute
unfolding execute_sandbox
execute zero env path content s = none
execute (suc fuel) env path content s =
    execute_sandbox (execute fuel env) env path (cached_or_new content (get path s.modules_cache)) s

-- A new sandbox, as a test gets it, and its execution.
pub execute_new : ℕ → Environment → Execute
unfolding execute
execute_new fuel env path content s = execute fuel env path content (put path (create content) s)

unfoldable pub clear_cache : Modules → Modules
clear_cache s = record s { modules_cache = [] }

abbrev re_compiling : Sandbox → Sandbox
re_compiling b = record b { is_compiled = false; is_compiling = true }

-- Nothing marks the sandbox as compiled where the script throws.
abbrev after_script : String → Outcome → Outcome
after_script path none = none
after_script path (some (returned value, s)) = some (returned value, modify path compiled s)
after_script path (some (threw e, s)) = some (threw e, s)

abbrev evaluate_in :
    Execute → Environment → (path code : String) → Option Sandbox → Modules → Outcome
evaluate_in execute env path code none s = some (threw (other "Sandbox is not created"), s)
evaluate_in execute env path code (some b) s =
    after_script path
      (run_in_context execute env path (env.script code) (put path (re_compiling b) s))

-- `evaluateScript`
unfoldable pub evaluate_script : ℕ → Environment → Execute
evaluate_script fuel env path code s =
    evaluate_in (execute fuel env) env path code (get path s.modules_cache) s
