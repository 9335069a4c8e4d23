-- ===== src/Sandbox/Tests.antt =====
-- core/sandbox/src/sandbox.ts on two modules that require each other, one of which throws.
use testring.Common.{◌≡◌, refl, true, false, some, String, [], ◌∷◌, if◌then◌else◌, ◌==◌}
use testring.Common.Dict.{Dict, get, set}
use testring.Dependencies.Tests.{entry}
use testring.Sandbox.{
  Script, ends, exports, requires, throws, text, returned, Environment, execute, execute_sandbox,
  run_in_context, require,
}
use testring.Sandbox.Built.{no_modules}

abbrev script : String → Script
script source =
    if source == "a"
    then requires "./b" (λ r. exports "A" ends)
    else requires "./a" (λ r. throws (text "no"))

abbrev circle : Environment
circle = record {
  script = script;
  require_package = λ request filename. returned request;
  dependencies = ("/a", ("./b", entry "/b" "/b") ∷ []) ∷ ("/b", ("./a", entry "/a" "a") ∷ []) ∷ [];
}

-- The first module goes on after the second has thrown.
circle_executed :
    execute 3 circle "/a" "a" no_modules
    ≡ some (
      returned "A",
      record {
        modules_cache =
            (
              "/a",
              record { source = "a"; exported = "A"; is_compiled = true; is_compiling = false },
            )
            ∷ (
              "/b",
              record { source = "/b"; exported = "{}"; is_compiled = true; is_compiling = false },
            )
            ∷ [];
        ran = "/b" ∷ "/a" ∷ [];
      },
    )
unfolding execute execute_sandbox run_in_context require get set
circle_executed = refl
