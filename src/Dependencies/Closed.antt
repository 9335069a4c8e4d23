-- ===== src/Dependencies/Closed.antt =====
-- core/dependencies-builder/src/index.ts: caches whose links lead to nodes.
use testring.Common.{
  ◌≡◌, refl, ◌∙◌, sym, subst, ◌⊎◌, inl, inr, true, false, Option, none, some, String, List, [], ◌∷◌,
  ◌==◌, any, All, Bool-cases,
}
use testring.Common.Dict.{Dict, get, set, is_some, get-set, values}
use testring.Dependencies.{Environment, TreeNode, Cache, is_excluded}
use testring.Dependencies.Room.{Extends, set-Extends}

-- The links of a node lead to nodes.
abbrev pub LinksIn : Cache → Option (Dict String) → Type 0
LinksIn cache none = Unit
LinksIn cache (some nodes) = All (λ p. is_some (get p cache) ≡ true) (values nodes)

abbrev pub IsClosed : Cache → Type 0
IsClosed cache = (k : String) (n : TreeNode) → get k cache ≡ some n → LinksIn cache n.nodes

-- All that a file requires is a builtin, excluded, or one of these files.
abbrev pub IsWithin : Environment → List String → Type 0
IsWithin env files =
    (request parent_path : String)
    → (env.is_builtin (env.resolve_absolute_path request parent_path) ≡ true)
      ⊎ (is_excluded (env.resolve_absolute_path request parent_path) ≡ true)
      ⊎ (any (λ f. f == env.resolve_absolute_path request parent_path) files ≡ true)

pub All-mono :
    {A : Type 0} (P Q : A → Type 0) (xs : List A) → ((x : A) → P x → Q x) → All P xs → All Q xs
All-mono P Q [] f h = tt
All-mono P Q (x ∷ xs) f (h, hs) = (f x h, All-mono P Q xs f hs)

pub All-set :
    (P : String → Type 0) (k v : String) (d : Dict String)
    → P v
    → All P (values d)
    → All P (values (set k v d))
unfolding set
All-set P k v [] p h = (p, tt)
All-set P k v ((j, w) ∷ d) p (h, hs) = elim (Bool-cases (j == k)) [
  | inl e ↦ rw e (p, hs)
  | inr e ↦ rw e (h, All-set P k v d p hs)
]

pub LinksIn-Extends :
    (o : Option (Dict String)) (c d : Cache) → Extends c d → LinksIn c o → LinksIn d o
LinksIn-Extends none c d e h = tt
LinksIn-Extends (some nodes) c d e h = All-mono _ _ (values nodes) e h

abbrev pub nodes_of : Option TreeNode → Option (Dict String)
nodes_of none = none
nodes_of (some n) = n.nodes

pub get-set_same :
    (k j : String) (n : TreeNode) (cache : Cache) → (k == j) ≡ true → get j (set k n cache) ≡ some n
get-set_same k j n cache h = get-set k j n cache ∙ rw h refl

pub get-set_other :
    (k j : String) (n : TreeNode) (cache : Cache)
    → (k == j) ≡ false
    → get j (set k n cache) ≡ get j cache
get-set_other k j n cache h = get-set k j n cache ∙ rw h refl

pub set-IsClosed :
    (k : String) (n : TreeNode) (cache : Cache)
    → LinksIn (set k n cache) n.nodes
    → IsClosed cache
    → IsClosed (set k n cache)
set-IsClosed k n cache l h j m e = elim (Bool-cases (k == j)) [
  | inl same ↦
      subst (λ o. LinksIn (set k n cache) (nodes_of o)) (sym (get-set_same k j n cache same) ∙ e) l
  | inr differs ↦
      LinksIn-Extends m.nodes cache (set k n cache) (set-Extends k n cache)
        (h j m (sym (get-set_other k j n cache differs) ∙ e))
]
