-- ===== src/Sandbox/Built.antt =====
-- core/sandbox/src/sandbox.ts with core/dependencies-builder/src/index.ts: a sandbox on the
-- dictionary that the builder made.
use testring.Common.{
  subst, inl, inr, Bool-cases, inr, inl, Bool-cases, ◌≡◌, true, Option, none, some, String, [], ◌∷◌,
  ◌==◌, any, All, arith,
}
use testring.Common.Dict.{Dict, get, is_some, keys, values}
use testring.Dependencies
use testring.Dependencies.Closed
use testring.Dependencies.{DictionaryNode}
use testring.Dependencies.Total.{IsLinked}
use testring.Sandbox.{Modules, Environment, lookup}
use testring.Sandbox.Total.{IsWithin}

any-keys :
    {V : Type 0} (k : String) (d : Dict V)
    → is_some (get k d) ≡ true
    → any (λ f. f == k) (keys d) ≡ true
unfolding get
any-keys k [] h = h
any-keys k ((j, v) ∷ d) h = ground (arith, any-keys k d)

abbrev pub Holds : {V : Type 0} → (V → Type 0) → Option V → Type 0
Holds P none = Unit
Holds P (some v) = P v

pub Holds-get :
    {V : Type 0} (P : V → Type 0) (k : String) (d : Dict V) → All P (values d) → Holds P (get k d)
unfolding get
Holds-get P k [] h = tt
Holds-get P k ((j, w) ∷ d) (h, hs) = elim (Bool-cases (j == k)) [
  | inl x ↦ rw x h
  | inr x ↦ rw x (Holds-get P k d hs)
]

abbrev IsEntry : Dict (Dict DictionaryNode) → DictionaryNode → Type 0
IsEntry dictionary node = is_some (get node.path dictionary) ≡ true

linked_lookup :
    (dictionary : Dict (Dict DictionaryNode)) (request : String) (o : Option (Dict DictionaryNode))
    → Holds (IsLinked dictionary) o
    → Holds (IsEntry dictionary) (lookup request o)
linked_lookup dictionary request none h = tt
linked_lookup dictionary request (some nodes) h = Holds-get (IsEntry dictionary) request nodes h

-- A dictionary whose entries name keys only.
pub linked-IsWithin :
    (env : Environment)
    → ((filename : String) → Holds (IsLinked env.dependencies) (get filename env.dependencies))
    → IsWithin env (keys env.dependencies)
linked-IsWithin env linked filename request node e =
    let d = env.dependencies in
    let h = linked_lookup d request (get filename d) (linked filename) in
    any-keys node.path d (subst (Holds (IsEntry d)) e h)

abbrev pub no_modules : Modules
no_modules = record { modules_cache = []; ran = [] }
