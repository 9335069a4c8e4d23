-- ===== src/TestWorker/Compile.antt =====
-- core/test-worker/src/test-worker-instance.ts: compileSource and its cache. The compiler is a
-- parameter, from a source and the name of its file to the result, or none where it throws.
use testring.Common.{
  subst, sym, ◌∙◌, eq_refl, true, Option, none, some, String, List, [], ◌∷◌, ◌≡◌, refl, truthy,
  if◌then◌else◌, inl, inr, Option-cases, Bool-cases, eq_iff, ◌==◌,
}
use testring.Common.Dict.{Dict, get, set, get-set}

module _ (compile : String → String → Option String) where
  abbrev store : String → Dict String → Option String → Option String × Dict String
  store source cache none = (none, cache)
  store source cache (some result) = (some result, set source result cache)

  -- An empty result is cached and never found.
  abbrev found_or : String → String → Dict String → Option String → Option String × Dict String
  found_or source filename cache none = store source cache (compile source filename)
  found_or source filename cache (some cached) =
      if truthy cached then (some cached, cache) else store source cache (compile source filename)

  pub compile_source : String → String → Dict String → Option String × Dict String
  compile_source source filename cache = found_or source filename cache (get source cache)

  -- The cache after the calls for these sources and names.
  pub compile_all : List (String × String) → Dict String → Dict String
  compile_all [] cache = cache
  compile_all ((source, filename) ∷ rest) cache =
      compile_all rest (compile_source source filename cache).1

  -- What is cached for a source was compiled from it, for the name of some file.
  abbrev IsCache : Dict String → Type 0
  IsCache cache =
      (source result : String)
      → get source cache ≡ some result
      → (filename : String) × (compile source filename ≡ some result)

  nil-IsCache : IsCache []
  unfolding get
  nil-IsCache source result h = cc

  set-IsCache :
      (source filename result : String) (cache : Dict String)
      → IsCache cache
      → compile source filename ≡ some result
      → IsCache (set source result cache)
  set-IsCache source filename result cache c made other value h =
      elim (Bool-cases (source == other)) [
        | inl same ↦
            let at : some result ≡ some value = rw (get-set, same) at h in
            (
              filename,
              subst (λ s. compile s filename ≡ some value) ((eq_iff source other).0 same)
                  (made ∙ at),
            )
        | inr differ ↦ c other value (rw (get-set, differ) at h)
      ]

  store-IsCache :
      (source filename : String) (cache : Dict String)
      → IsCache cache
      → IsCache (store source cache (compile source filename)).1
  store-IsCache source filename cache c = elim (Option-cases (compile source filename)) [
    | inl e ↦ rw e c
    | inr (result, e) ↦ rw e (set-IsCache source filename result cache c e)
  ]

  compile_source-IsCache :
      (source filename : String) (cache : Dict String)
      → IsCache cache
      → IsCache (compile_source source filename cache).1
  unfolding compile_source
  compile_source-IsCache source filename cache c = elim (Option-cases (get source cache)) [
    | inl e ↦ rw e (store-IsCache source filename cache c)
    | inr (cached, e) ↦ elim (Bool-cases (truthy cached)) [
      | inl t ↦ rw (e, t) c
      | inr t ↦ rw (e, t) (store-IsCache source filename cache c)
    ]
  ]

  compile_all-IsCache :
      (calls : List (String × String)) (cache : Dict String)
      → IsCache cache
      → IsCache (compile_all calls cache)
  unfolding compile_all
  compile_all-IsCache [] cache c = c
  compile_all-IsCache ((source, filename) ∷ rest) cache c =
      compile_all-IsCache rest _ (compile_source-IsCache source filename cache c)

  store-result :
      (source filename : String) (cache : Dict String)
      → (store source cache (compile source filename)).0 ≡ compile source filename
  store-result source filename cache = elim (Option-cases (compile source filename)) [
    | inl e ↦ rw e refl
    | inr (result, e) ↦ rw e refl
  ]

-- If what the compiler makes of a source does not depend on the name of its file, compiling with
-- the cache is the same as compiling, after any earlier calls: the same result, and the same error.
pub compile_source-compile :
    (compile : String → String → Option String)
    → ((source one other : String) → compile source one ≡ compile source other)
    → (calls : List (String × String)) (source filename : String)
    → (compile_source compile source filename (compile_all compile calls [])).0
      ≡ compile source filename
unfolding compile_source
compile_source-compile compile same calls source filename =
    let cache = compile_all compile calls [] in
    let c = compile_all-IsCache compile calls [] (nil-IsCache compile) in
    elim (Option-cases (get source cache)) [
      | inl e ↦ rw e (store-result compile source filename cache)
      | inr (cached, e) ↦ elim (Bool-cases (truthy cached)) [
        | inl t ↦
            let (other, made) = c source cached e in
            rw (e, t) (sym made ∙ same source other filename)
        | inr t ↦ rw (e, t) (store-result compile source filename cache)
      ]
    ]

-- But a second file with the same source gets what was compiled for the first, whatever the
-- compiler would make of it.
compile_source_other :
    (compile : String → String → Option String) (source first second : String) {result : String}
    → compile source first ≡ some result
    → truthy result ≡ true
    → (compile_source compile source second (compile_source compile source first []).1).0
      ≡ some result
unfolding compile_source get set
compile_source_other compile source first second made t = rw (made, eq_refl source, t) refl
