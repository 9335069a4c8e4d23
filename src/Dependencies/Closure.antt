-- ===== src/Dependencies/Closure.antt =====
-- core/dependencies-builder/src/index.ts: the cache that the dictionary is made of.
use testring.Common.{
  ℕ, zero, suc, ◌<◌, ◌≡◌, refl, ◌∙◌, sym, subst, inl, inr, Bool, true, false, not, Option, none,
  some, String, List, [], ◌∷◌, arith, if◌then◌else◌, ◌==◌, any, truthy, length, count-le-length,
}
use testring.Common.Dict.{Dict, get, set, is_some}
use testring.Dependencies.{
  Environment, TreeNode, Cache, is_excluded, Built, Build, ◌>>=◌, add_node, build_each, build_found,
  build_nodes, build_cache,
}
use testring.Dependencies.Room.{room, Extends, set-Extends, set-has, room-Extends, room-set}
use testring.Dependencies.Closed.{
  LinksIn, IsClosed, IsWithin, All-set, LinksIn-Extends, nodes_of, set-IsClosed,
}

abbrev Builds : Cache → Built → Type 0
Builds cache none = ⊥
Builds cache (some (nodes, cache')) = Extends cache cache' × IsClosed cache' × LinksIn cache' nodes

abbrev Adds : Cache → String → Option Cache → Type 0
Adds cache path none = ⊥
Adds cache path (some cache') =
    Extends cache cache' × IsClosed cache' × (is_some (get path cache') ≡ true)

abbrev Links : Cache → Option (Dict String × Cache) → Type 0
Links cache none = ⊥
Links cache (some (result, cache')) =
    Extends cache cache' × IsClosed cache' × LinksIn cache' (some result)

abbrev IsBuilder : List String → ℕ → Build → Type 0
IsBuilder files n build =
    (path content : String) (cache : Cache)
    → IsClosed cache
    → room files cache < n
    → Builds cache (build path content cache)

finish-Adds :
    (path content : String) (cache : Cache) (o : Built)
    → Builds (set path (record { content = content; nodes = none }) cache) o
    → Adds cache path (o >>= λ r. some (set path (record { content = content; nodes = r.0 }) r.1))
unfolding ◌>>=◌
finish-Adds path content cache none h = h
finish-Adds path content cache (some (nodes, cache')) (e, c, l) =
    let node : TreeNode = record { content = content; nodes = nodes } in
    (
      λ k h. set-Extends path node cache' k (e k (set-Extends path _ cache k h)),
      set-IsClosed path node cache'
          (LinksIn-Extends nodes cache' _ (set-Extends path node cache') l) c,
      set-has path node cache',
    )

add_node-Adds :
    (env : Environment) (files : List String) (n : ℕ) (build : Build) (path : String)
    (cache : Cache)
    → IsBuilder files n build
    → IsClosed cache
    → room files cache < suc n
    → any (λ f. f == path) files ≡ true
    → is_some (get path cache) ≡ false
    → Adds cache path (add_node env build path cache)
unfolding add_node
add_node-Adds env files n build path cache b c r a h =
    let node : TreeNode = record { content = env.read_file path; nodes = none } in
    finish-Adds path (env.read_file path) cache
      (build path (env.read_file path) (set path node cache))
      (b path (env.read_file path) (set path node cache) (set-IsClosed path node cache tt c)
        (omega (arith, r, room-set files path node cache a h)))

if-Links :
    (cache : Cache) (b : Bool) (x y : Option (Dict String × Cache))
    → (b ≡ true → Links cache x)
    → (b ≡ false → Links cache y)
    → Links cache (if b then x else y)
if-Links cache true x y h k = h refl
if-Links cache false x y h k = k refl

Links-Extends :
    (c d : Cache) (o : Option (Dict String × Cache)) → Extends c d → Links d o → Links c o
Links-Extends c d none e h = h
Links-Extends c d (some (result, cache')) e (f, g, h) = (λ k i. f k (e k i), g, h)

bind-Links :
    (cache : Cache) (path : String) (o : Option Cache) (k : Cache → Option (Dict String × Cache))
    → Adds cache path o
    → ((c : Cache) → Adds cache path (some c) → Links c (k c))
    → Links cache (o >>= k)
unfolding ◌>>=◌
bind-Links cache path none k h f = h
bind-Links cache path (some c) k h f = Links-Extends cache c (k c) h.0 (f c h)

true≢false : true ≡ false → ⊥
true≢false e = cc

required :
    (env : Environment) (files : List String) (request parent_path : String)
    → IsWithin env files
    → env.is_builtin (env.resolve_absolute_path request parent_path) ≡ false
    → is_excluded (env.resolve_absolute_path request parent_path) ≡ false
    → any (λ f. f == env.resolve_absolute_path request parent_path) files ≡ true
required env files request parent_path w b x = elim (w request parent_path) [
  | inl e ↦ absurd (true≢false (sym e ∙ b))
  | inr (inl e) ↦ absurd (true≢false (sym e ∙ x))
  | inr (inr e) ↦ e
]

build_each-Links :
    (env : Environment) (files : List String) (n : ℕ) (build : Build) (parent_path : String)
    (dependencies : List String) (result : Dict String) (cache : Cache)
    → IsBuilder files n build
    → IsWithin env files
    → IsClosed cache
    → room files cache < suc n
    → LinksIn cache (some result)
    → Links cache (build_each env build parent_path dependencies result cache)
unfolding build_each
build_each-Links env files n build parent_path [] result cache b w c r l = (λ k h. h, c, l)
build_each-Links env files n build parent_path (dependency ∷ dependencies) result cache b w c r l =
    let path = env.resolve_absolute_path dependency parent_path in
    let skipped =
      build_each-Links env files n build parent_path dependencies result cache b w c r l in
    if-Links cache (not (truthy dependency)) _ _ (λ _. skipped)
      (λ _.
        if-Links cache (env.is_builtin path) _ _ (λ _. skipped)
          (λ user.
            if-Links cache (is_some (get path cache)) _ _
              (λ there.
                build_each-Links env files n build parent_path dependencies
                  (set dependency path result) cache b w c r
                  (All-set (λ p. is_some (get p cache) ≡ true) dependency path result there l))
              (λ new.
                if-Links cache (is_excluded path) _ _ (λ _. skipped)
                  (λ own.
                    bind-Links cache path (add_node env build path cache) _
                      (add_node-Adds env files n build path cache b c r
                        (required env files dependency parent_path w user own) new)
                      (λ d a.
                        build_each-Links env files n build parent_path dependencies
                          (set dependency path result) d b w a.1
                          (omega (arith, r, room-Extends files cache d a.0))
                          (All-set (λ p. is_some (get p d) ≡ true) dependency path result a.2
                            (LinksIn-Extends (some result) cache d a.0 l)))))))

found-Builds :
    (cache : Cache) (o : Option (Dict String × Cache))
    → Links cache o
    → Builds cache (o >>= λ r. some (some r.0, r.1))
unfolding ◌>>=◌
found-Builds cache none h = h
found-Builds cache (some (result, cache')) h = h

build_found-Builds :
    (env : Environment) (files : List String) (n : ℕ) (build : Build) (path : String)
    (dependencies : List String) (cache : Cache)
    → IsBuilder files n build
    → IsWithin env files
    → IsClosed cache
    → room files cache < suc n
    → Builds cache (build_found env build path dependencies cache)
unfolding build_found
build_found-Builds env files n build path [] cache b w c r = (λ k h. h, c, tt)
build_found-Builds env files n build path (d ∷ ds) cache b w c r =
    found-Builds cache (build_each env build path (d ∷ ds) [] cache)
      (build_each-Links env files n build path (d ∷ ds) [] cache b w c r tt)

build_nodes-IsBuilder :
    (env : Environment) (files : List String) (fuel : ℕ)
    → IsWithin env files
    → IsBuilder files fuel (build_nodes fuel env)
unfolding build_nodes
build_nodes-IsBuilder env files zero w path content cache c r = omega (arith, r)
build_nodes-IsBuilder env files (suc fuel) w path content cache c r =
    build_found-Builds env files fuel (build_nodes fuel env) path
      (env.get_dependencies path content) cache (build_nodes-IsBuilder env files fuel w) w c r

empty-IsClosed : IsClosed []
unfolding get
empty-IsClosed k n e = subst (λ o. LinksIn [] (nodes_of o)) e tt

finish_total :
    (path content : String) (start : Cache) (o : Built)
    → Builds start o
    → (cache : Cache) × ((o >>= λ r.
          some (set path (record { content = content; nodes = r.0 }) r.1))
        ≡ some cache)
      × (is_some (get path cache) ≡ true)
      × IsClosed cache
unfolding ◌>>=◌
finish_total path content start none h = absurd h
finish_total path content start (some (nodes, cache)) (e, c, l) =
    let node : TreeNode = record { content = content; nodes = nodes } in
    (
      set path node cache,
      refl,
      set-has path node cache,
      set-IsClosed path node cache (LinksIn-Extends nodes cache _ (set-Extends path node cache) l)
          c,
    )

-- The cache is built with fuel above the number of the
-- files that can be required is enough. The file itself is a key of it, and the path that a node of it
-- links to is a key as well.
pub build_cache_total :
    (env : Environment) (files : List String) (fuel : ℕ) (path content : String)
    → IsWithin env files
    → length files < fuel
    → (cache : Cache) × (build_cache fuel env path content ≡ some cache)
      × (is_some (get path cache) ≡ true)
      × IsClosed cache
unfolding build_cache ◌>>=◌
build_cache_total env files fuel path content w h =
    let start = set path (record { content = content; nodes = none }) [] in
    finish_total path content start (build_nodes fuel env path content start) (
      build_nodes-IsBuilder env files fuel w path content start
        (set-IsClosed path (record { content = content; nodes = none }) [] tt empty-IsClosed)
        (omega (arith, h, count-le-length (λ f. not (is_some (get f start))) files)))
