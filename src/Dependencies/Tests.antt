-- ===== src/Dependencies/Tests.antt =====
-- core/dependencies-builder/src/index.ts on two files that require each other.
use testring.Common.{
  Bool-cases, ◌≡◌, refl, true, inl, inr, some, String, List, [], ◌∷◌, arith, if◌then◌else◌, ◌==◌,
}
use testring.Common.Dict.{Dict, get, set, is_some}
use testring.Dependencies.{
  Environment, DictionaryNode, ◌>>=◌, add_node, build_each, build_nodes, build_cache,
  build_dependency_dictionary, dictionary_of, get_node_dependencies, node_dependencies,
}
use testring.Dependencies.Closed.{IsWithin}
use testring.Dependencies.Total.{IsLinked, build_dependency_dictionary_total}

abbrev requires : String → List String
requires path = if path == "/a" then "./b" ∷ "fs" ∷ [] else "./a" ∷ []

abbrev resolve : String → String → String
resolve request parent = if request == "./a" then "/a" else if request == "./b" then "/b" else "fs"

abbrev pub env : Environment
env = record {
  get_dependencies = λ path content. requires path;
  resolve_absolute_path = resolve;
  is_builtin = λ path. path == "fs";
  read_file = λ path. path;
}

abbrev pub entry : String → String → DictionaryNode
entry path content = record { path = path; content = content }

circle_built :
    build_dependency_dictionary 3 env "/a" "a"
    ≡ some (("/a", ("./b", entry "/b" "/b") ∷ []) ∷ ("/b", ("./a", entry "/a" "a") ∷ []) ∷ [])
unfolding build_dependency_dictionary build_cache build_nodes build_each add_node ◌>>=◌
    dictionary_of get_node_dependencies node_dependencies get set
circle_built = refl

pub env-IsWithin : IsWithin env ("/a" ∷ "/b" ∷ [])
env-IsWithin request parent_path = elim (Bool-cases (request == "./a")) [
  | inl a ↦ rw a (inr (inr refl))
  | inr a ↦ elim (Bool-cases (request == "./b")) [
    | inl b ↦ rw (a, b) (inr (inr refl))
    | inr b ↦ rw (a, b) (inl refl)
  ]
]

build_dependency_dictionary_total_example :
    (dictionary : Dict (Dict DictionaryNode)) × (build_dependency_dictionary 3 env "/a" "a"
      ≡ some dictionary)
    × (is_some (get "/a" dictionary) ≡ true)
    × ((k : String) (nodes : Dict DictionaryNode)
        → get k dictionary ≡ some nodes
        → IsLinked dictionary nodes)
build_dependency_dictionary_total_example =
    build_dependency_dictionary_total env ("/a" ∷ "/b" ∷ []) 3 "/a" "a" env-IsWithin (omega arith)
