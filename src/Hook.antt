-- ===== src/Hook.antt =====
-- core/pluggable-module/src/hook.ts, the class `Hook`, and pluggable-module.ts, `PluggableModule`. A
-- hook function is what it answers to its arguments.
pub mod Chain
mod Tests
use testring.Common.{Bool, true, false, Option, none, some, String, List, [], ◌∷◌, ◌++◌}
use testring.Common.Dict.{Dict, get, set}

pub data Error : Type 0 where
  error : String → Error
  no_plugin : (name : String) → Error

pub data Answer {ℓ} (A : Type ℓ) : Type ℓ where
  ok : A → Answer A
  threw : Error → Answer A

pub record Hook {ℓ} (A : Type ℓ) : Type ℓ where
  pub write_hooks : Dict (List A → Answer A)
  pub read_hooks : Dict (List A → Answer (Unit {0}))

-- A call of a hook function, with its arguments.
pub data Event {ℓ} (A : Type ℓ) : Type ℓ where
  writes : (plugin_name : String) → List A → Event A
  reads : (plugin_name : String) → List A → Event A

-- The error that is made with the name of the plugin is dropped, and the given one returned.
abbrev pub generate_error : String → Error → Error
generate_error plugin_name e = e

module _ {ℓ} {A : Type ℓ} where
  abbrev pub new_hook : Hook A
  new_hook = record { write_hooks = []; read_hooks = [] }

  pub write_hook : String → (List A → Answer A) → Hook A → Hook A
  write_hook plugin_name modifier h = record h {
    write_hooks = set plugin_name modifier h.write_hooks;
  }

  pub read_hook : String → (List A → Answer (Unit {0})) → Hook A → Hook A
  read_hook plugin_name reader h = record h { read_hooks = set plugin_name reader h.read_hooks }

  -- `[value, ...dataArguments.slice(1)]`.
  abbrev pub replace_first : A → List A → List A
  replace_first value [] = value ∷ []
  replace_first value (x ∷ xs) = value ∷ xs

  pub write_each : Dict (List A → Answer A) → List A → List (Event A) × Answer (List A)
  write_each [] args = ([], ok args)
  write_each ((key, hook) ∷ hooks) args = elim (hook args) [
    | ok value ↦
        let (events, answer) = write_each hooks (replace_first value args) in
        (writes key args ∷ events, answer)
    | threw e ↦ (writes key args ∷ [], threw (generate_error key e))
  ]

  pub read_each : Dict (List A → Answer (Unit {0})) → List A → List (Event A) × Answer (Unit {0})
  read_each [] args = ([], ok tt)
  read_each ((key, hook) ∷ hooks) args = elim (hook args) [
    | ok _ ↦ let (events, answer) = read_each hooks args in (reads key args ∷ events, answer)
    | threw e ↦ (reads key args ∷ [], threw (generate_error key e))
  ]

  abbrev pub first : List A → Option A
  first [] = none
  first (x ∷ xs) = some x

  pub answer_with : List A → Answer (Unit {0}) → Answer (Option A)
  answer_with args (ok _) = ok (first args)
  answer_with args (threw e) = threw e

  pub call_readers : Hook A → List (Event A) × Answer (List A) → List (Event A) × Answer (Option A)
  unfolding answer_with
  call_readers h (events, threw e) = (events, threw e)
  call_readers h (events, ok args) =
      let (later, answer) = read_each h.read_hooks args in
      (events ++ later, answer_with args answer)

  pub call_hooks : List A → Hook A → List (Event A) × Answer (Option A)
  unfolding call_readers
  call_hooks args h = call_readers h (write_each h.write_hooks args)

  -- `PluggableModule`, by its map `pluginHooks`.
  pub create_hooks : List String → Dict (Hook A) → Dict (Hook A)
  create_hooks [] plugin_hooks = plugin_hooks
  create_hooks (name ∷ names) plugin_hooks = create_hooks names (set name new_hook plugin_hooks)

  abbrev pub get_hook : String → Dict (Hook A) → Option (Hook A)
  get_hook name plugin_hooks = get name plugin_hooks

  call_found : String → List A → Option (Hook A) → List (Event A) × Answer (Option A)
  call_found name args none = ([], threw (no_plugin name))
  call_found name args (some h) = call_hooks args h

  pub call_hook : String → List A → Dict (Hook A) → List (Event A) × Answer (Option A)
  unfolding call_found
  call_hook name args plugin_hooks = call_found name args (get name plugin_hooks)
