-- ===== src/Dependencies.antt =====
-- core/dependencies-builder/src/index.ts. The parser of the sources, the resolution of paths and the
-- reading of files are arguments, and a reader always answers. An object of the tree is known by its
-- path, since the cache holds each path once; a node links to the paths of its dependencies.
pub mod Room
pub mod Closed
pub mod Closure
pub mod Total
pub mod Tests
use text.Mathlib.Text.{find?}
use testring.Common.{
  ℕ, zero, suc, Bool, true, false, not, ◌||◌, Option, none, some, String, List, [], ◌∷◌,
  if◌then◌else◌, ◌==◌, truthy,
}
use testring.Common.Dict.{Dict, get, set, is_some}

-- Code that is not modelled: `getDependencies`, which runs a parser, `resolveAbsolutePath`, whether
-- `require.resolve.paths` is `null`, and `readFile`.
pub record Environment : Type 0 where
  pub get_dependencies : (path content : String) → List String
  pub resolve_absolute_path : (request parent_path : String) → String
  pub is_builtin : String → Bool
  pub read_file : String → String

-- `nodes` takes a request to the path of its node.
pub record TreeNode : Type 0 where
  pub content : String
  pub nodes : Option (Dict String)

abbrev pub Cache : Type 0
Cache = Dict TreeNode

abbrev pub includes : String → String → Bool
includes s t = is_some (find? s t)

abbrev pub is_excluded : String → Bool
is_excluded path = includes path "node_modules" || includes path "testring/dist"

-- What `buildNodes` gives: its nodes and the cache that it leaves; `none` where the fuel runs out.
abbrev pub Built : Type 0
Built = Option (Option (Dict String) × Cache)

abbrev pub Build : Type 0
Build = (path content : String) → Cache → Built

infixl 5 ◌>>=◌
unfoldable pub ◌>>=◌ {ℓ κ} : {A : Type ℓ} {B : Type κ} → Option A → (A → Option B) → Option B
none >>= k = none
some a >>= k = k a

-- A path that is not in the cache: its node is there before its dependencies are built, and gets them
-- afterwards.
pub add_node : Environment → Build → String → Cache → Option Cache
unfolding ◌>>=◌
add_node env build path cache = do
  (nodes, cache') ←
      build path (env.read_file path)
        (set path (record { content = env.read_file path; nodes = none }) cache)
  some (set path (record { content = env.read_file path; nodes = nodes }) cache')

-- The loop of `buildNodes`.
pub build_each :
    Environment → Build → String → List String → Dict String → Cache → Option (Dict String × Cache)
unfolding ◌>>=◌
build_each env build parent_path [] result cache = some (result, cache)
build_each env build parent_path (dependency ∷ dependencies) result cache =
    let path = env.resolve_absolute_path dependency parent_path in
    let skipped = build_each env build parent_path dependencies result cache in
    let linked = build_each env build parent_path dependencies (set dependency path result) cache in
    let added = add_node env build path cache >>= λ cache'.
    build_each env build parent_path dependencies (set dependency path result) cache' in
    if not (truthy dependency)
    then skipped
    else if env.is_builtin path
    then skipped
    else if is_some (get path cache)
    then linked
    else if is_excluded path
    then skipped
    else added

build_found : Environment → Build → String → List String → Cache → Built
unfolding ◌>>=◌
build_found env build path [] cache = some (none, cache)
build_found env build path (dependency ∷ dependencies) cache = do
  (result, cache') ← build_each env build path (dependency ∷ dependencies) [] cache
  some (some result, cache')

pub build_nodes : ℕ → Environment → Build
unfolding build_found
build_nodes zero env path content cache = none
build_nodes (suc fuel) env path content cache =
    build_found env (build_nodes fuel env) path (env.get_dependencies path content) cache

-- An entry of the dictionary: for each request the path and the content of its node.
pub record DictionaryNode : Type 0 where
  pub path : String
  pub content : String

content_at : Option TreeNode → String
content_at none = ""
content_at (some node) = node.content

pub node_dependencies : Cache → Dict String → Dict DictionaryNode
unfolding content_at
node_dependencies cache [] = []
node_dependencies cache ((request, path) ∷ nodes) =
    (request, record { path = path; content = content_at (get path cache) })
    ∷ node_dependencies cache nodes

pub get_node_dependencies : Cache → TreeNode → Dict DictionaryNode
unfolding node_dependencies
get_node_dependencies cache node = elim node.nodes [
  | none ↦ []
  | some nodes ↦ node_dependencies cache nodes
]

pub dictionary_of : Cache → Cache → Dict (Dict DictionaryNode)
unfolding get_node_dependencies
dictionary_of cache [] = []
dictionary_of cache ((path, node) ∷ nodes) =
    (path, get_node_dependencies cache node) ∷ dictionary_of cache nodes

-- The cache that `buildDependencyDictionary` ends with.
pub build_cache : ℕ → Environment → (path content : String) → Option Cache
unfolding ◌>>=◌
build_cache fuel env path content = do
  (nodes, cache) ←
      build_nodes fuel env path content (set path (record { content = content; nodes = none }) [])
  some (set path (record { content = content; nodes = nodes }) cache)

pub build_dependency_dictionary :
    ℕ → Environment → (path content : String) → Option (Dict (Dict DictionaryNode))
unfolding dictionary_of ◌>>=◌
build_dependency_dictionary fuel env path content = do
  cache ← build_cache fuel env path content
  some (dictionary_of cache cache)

-- `{...dict1, ...dict2}`.
unfoldable pub merge_dependency_dictionaries :
    Dict (Dict DictionaryNode) → Dict (Dict DictionaryNode) → Dict (Dict DictionaryNode)
merge_dependency_dictionaries dict1 [] = dict1
merge_dependency_dictionaries dict1 ((path, nodes) ∷ dict2) =
    merge_dependency_dictionaries (set path nodes dict1) dict2
