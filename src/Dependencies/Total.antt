-- ===== src/Dependencies/Total.antt =====
-- core/dependencies-builder/src/index.ts: the dictionary of a file.
use testring.Common.{
  ℕ, ◌<◌, ◌≡◌, refl, ◌∙◌, sym, subst, true, Option, none, some, String, List, [], ◌∷◌, ◌==◌, All,
  Bool-cases, inl, inr, length,
}
use testring.Common.Dict.{Dict, get, is_some, values}
use testring.Dependencies.{
  Environment, TreeNode, Cache, ◌>>=◌, DictionaryNode, node_dependencies, get_node_dependencies,
  dictionary_of, build_dependency_dictionary,
}
use testring.Dependencies.Closed.{LinksIn, IsClosed, IsWithin}
use testring.Dependencies.Closure.{build_cache_total}

abbrev entry_of : Cache → Option TreeNode → Option (Dict DictionaryNode)
entry_of cache none = none
entry_of cache (some node) = some (get_node_dependencies cache node)

get-dictionary_of :
    (k : String) (cache nodes : Cache)
    → get k (dictionary_of cache nodes) ≡ entry_of cache (get k nodes)
unfolding get dictionary_of
get-dictionary_of k cache [] = refl
get-dictionary_of k cache ((j, n) ∷ nodes) = elim (Bool-cases (j == k)) [
  | inl e ↦ rw e refl
  | inr e ↦ rw e (get-dictionary_of k cache nodes)
]

has_entry :
    (cache : Cache) (o : Option TreeNode) → is_some o ≡ true → is_some (entry_of cache o) ≡ true
has_entry cache none h = h
has_entry cache (some n) h = h

has-dictionary_of :
    (k : String) (cache : Cache)
    → is_some (get k cache) ≡ true
    → is_some (get k (dictionary_of cache cache)) ≡ true
has-dictionary_of k cache h = rw (get-dictionary_of k cache cache) (has_entry cache (get k cache) h)

node_dependencies-All :
    (P : String → Type 0) (cache : Cache) (nodes : Dict String)
    → All P (values nodes)
    → All (λ n. P n.path) (values (node_dependencies cache nodes))
unfolding node_dependencies
node_dependencies-All P cache [] h = tt
node_dependencies-All P cache ((request, path) ∷ nodes) (h, hs) =
    (h, node_dependencies-All P cache nodes hs)

-- The paths of an entry are keys.
abbrev pub IsLinked : Dict (Dict DictionaryNode) → Dict DictionaryNode → Type 0
IsLinked dictionary nodes = All (λ n. is_some (get n.path dictionary) ≡ true) (values nodes)

abbrev LinkedEntry : Dict (Dict DictionaryNode) → Option (Dict DictionaryNode) → Type 0
LinkedEntry dictionary none = Unit
LinkedEntry dictionary (some nodes) = IsLinked dictionary nodes

All-map :
    (cache : Cache) (ps : List String)
    → All (λ p. is_some (get p cache) ≡ true) ps
    → All (λ p. is_some (get p (dictionary_of cache cache)) ≡ true) ps
All-map cache [] h = tt
All-map cache (p ∷ ps) (h, hs) = (has-dictionary_of p cache h, All-map cache ps hs)

node-IsLinked :
    (cache : Cache) (content : String) (links : Option (Dict String))
    → LinksIn cache links
    → IsLinked
        (dictionary_of cache cache)
        (get_node_dependencies cache (record { content = content; nodes = links }))
unfolding get_node_dependencies
node-IsLinked cache content none l = tt
node-IsLinked cache content (some nodes) l =
    node_dependencies-All (λ p. is_some (get p (dictionary_of cache cache)) ≡ true) cache nodes
      (All-map cache (values nodes) l)

entry-LinkedEntry :
    (cache : Cache) (k : String) (o : Option TreeNode)
    → IsClosed cache
    → get k cache ≡ o
    → LinkedEntry (dictionary_of cache cache) (entry_of cache o)
entry-LinkedEntry cache k none c e = tt
entry-LinkedEntry cache k (some n) c e = node-IsLinked cache n.content n.nodes (c k n e)

dictionary-IsLinked :
    (cache : Cache) (k : String) (nodes : Dict DictionaryNode)
    → IsClosed cache
    → get k (dictionary_of cache cache) ≡ some nodes
    → IsLinked (dictionary_of cache cache) nodes
dictionary-IsLinked cache k nodes c e =
    subst (LinkedEntry (dictionary_of cache cache)) (sym (get-dictionary_of k cache cache) ∙ e)
      (entry-LinkedEntry cache k (get k cache) c refl)

-- The dictionary of a file is built, whatever circles the requires of its files form: fuel above the
-- number of the files that can be required is enough. It has an entry for the file itself, and one for
-- each file that one of its entries names.
pub build_dependency_dictionary_total :
    (env : Environment) (files : List String) (fuel : ℕ) (path content : String)
    → IsWithin env files
    → length files < fuel
    → (dictionary : Dict (Dict DictionaryNode)) × (build_dependency_dictionary fuel env path content
        ≡ some dictionary)
      × (is_some (get path dictionary) ≡ true)
      × ((k : String) (nodes : Dict DictionaryNode)
          → get k dictionary ≡ some nodes
          → IsLinked dictionary nodes)
unfolding build_dependency_dictionary ◌>>=◌
build_dependency_dictionary_total env files fuel path content w h =
    let (cache, e, p, c) = build_cache_total env files fuel path content w h in
    (
      dictionary_of cache cache,
      rw e refl,
      has-dictionary_of path cache p,
      λ k nodes g. dictionary-IsLinked cache k nodes c g,
    )
