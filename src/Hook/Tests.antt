-- ===== src/Hook/Tests.antt =====
-- core/pluggable-module/src with two modifiers and a reader.
use testring.Common.{ℕ, ◌+◌, ◌≡◌, refl, some, List, [], ◌∷◌}
use testring.Common.Dict.{Dict, get, set}
use testring.Hook.{
  error, no_plugin, Answer, ok, threw, Hook, writes, reads, new_hook, write_hook, create_hooks,
  call_hook, call_hooks, write_each, read_each, call_readers, answer_with,
}
use testring.Hook.Chain.{register, call_hooks-answering}

abbrev add_one : List ℕ → ℕ
add_one [] = 1
add_one (n ∷ ns) = n + 1

abbrev fails : List ℕ → Answer ℕ
fails args = threw (error "boom")

abbrev no_hooks : Dict (Hook ℕ)
no_hooks = []

module_runs :
    ((call_hook "onFile" (5 ∷ []) (create_hooks ("onFile" ∷ []) no_hooks)).1 ≡ ok (some 5))
    × ((call_hook "onFile" (5 ∷ []) (create_hooks [] no_hooks)).1 ≡ threw (no_plugin "onFile"))
    × ((call_hooks
          (5 ∷ [])
          (write_hook "a" fails (write_hook "a" (λ args. ok (add_one args)) new_hook))).1
        ≡ threw (error "boom"))
unfolding call_hook create_hooks call_hooks write_each read_each call_readers answer_with write_hook
    get set
module_runs = (refl, refl, refl)

call_hooks-answering_example :
    call_hooks (5 ∷ 7 ∷ []) (register (("a", add_one) ∷ ("b", add_one) ∷ []) ("c" ∷ []) new_hook)
    ≡ (writes "a" (5 ∷ 7 ∷ []) ∷ writes "b" (6 ∷ 7 ∷ []) ∷ reads "c" (7 ∷ 7 ∷ []) ∷ [], ok (some 7))
call_hooks-answering_example =
    call_hooks-answering (("a", add_one) ∷ ("b", add_one) ∷ []) ("c" ∷ []) 5 (7 ∷ [])
      (refl, (refl, tt)) (refl, tt)
