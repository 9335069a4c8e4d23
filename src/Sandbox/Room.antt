-- ===== src/Sandbox/Room.antt =====
-- core/sandbox/src/sandbox.ts: the modules that have started.
use testring.Common.{
  ℕ, ◌≤◌, ◌<◌, ◌≡◌, refl, ap, sym, ◌∙◌, Bool, true, false, not, Option, none, some, String, List,
  [], ◌∷◌, arith, ◌==◌, eq_iff, count, any, if◌then◌else◌,
}
use testring.Common.Dict.{get, get-set}
use testring.Sandbox.{
  Sandbox, Modules, is_started, put, modify, modify_found, export_as, compiled, begin, compiling,
}

abbrev pub started_in : Option Sandbox → Bool
started_in none = false
started_in (some b) = is_started b

abbrev pub started : String → Modules → Bool
started path s = started_in (get path s.modules_cache)

-- The files whose module has not started.
abbrev pub room : List String → Modules → ℕ
room files s = count (λ f. not (started f s)) files

-- No module is forgotten.
abbrev pub Grows : Modules → Modules → Type 0
Grows s s' = (k : String) → started k s ≡ true → started k s' ≡ true

-- How often a module has run.
abbrev pub runs : String → Modules → ℕ
runs k s = count (λ f. f == k) s.ran

abbrev pub once_if : Bool → ℕ
once_if true = 1
once_if false = 0

-- A module has run once, if it has started, and else never.
abbrev pub RunsOnce : Modules → Type 0
RunsOnce s = (k : String) → runs k s ≡ once_if (started k s)

pub room-Grows : (files : List String) (s s' : Modules) → Grows s s' → room files s' ≤ room files s
room-Grows [] s s' g = omega arith
room-Grows (f ∷ files) s s' g = ground (arith, g f, room-Grows files s s' g)

pub started-put :
    (k path : String) (b : Sandbox) (s : Modules)
    → started k (put path b s) ≡ (if path == k then is_started b else started k s)
started-put k path b s = rw (get-set path k b s.modules_cache) (ground arith)

pub begin-Grows : (path : String) (b : Sandbox) (s : Modules) → Grows s (begin path b s)
begin-Grows path b s k h = ground (arith, started-put k path (compiling b) s, h)

pub begin-started :
    (path : String) (b : Sandbox) (s : Modules) → started path (begin path b s) ≡ true
begin-started path b s = ground (arith, started-put path path (compiling b) s, eq_iff path path)

pub begin-RunsOnce :
    (path : String) (b : Sandbox) (s : Modules)
    → started path s ≡ false
    → RunsOnce s
    → RunsOnce (begin path b s)
begin-RunsOnce path b s fresh once k =
    ground (arith, started-put k path (compiling b) s, eq_iff path k, once k)

pub room-begin :
    (files : List String) (path : String) (b : Sandbox) (s : Modules)
    → any (λ f. f == path) files ≡ true
    → started path s ≡ false
    → room files (begin path b s) < room files s
room-begin [] path b s h g = ground arith
room-begin (f ∷ files) path b s h g = ground (
  arith,
  started-put f path (compiling b) s,
  eq_iff f path,
  eq_iff path f,
  room-begin files path b s,
  room-Grows files s (begin path b s) (begin-Grows path b s),
)

-- A change of the module of a path, if there is one, that leaves it as started as it was.
abbrev pub IsSteady : String → (Sandbox → Sandbox) → Modules → Type 0
IsSteady path f s =
    (b : Sandbox) → get path s.modules_cache ≡ some b → is_started (f b) ≡ is_started b

started_key :
    (path k : String) (b : Sandbox) (s : Modules)
    → (path == k) ≡ true
    → get path s.modules_cache ≡ some b
    → started k s ≡ is_started b
started_key path k b s same e =
    ap (λ j. started j s) (sym ((eq_iff path k).0 same)) ∙ ap started_in e

started-modify_found :
    (path : String) (f : Sandbox → Sandbox) (o : Option Sandbox) (s : Modules)
    → IsSteady path f s
    → get path s.modules_cache ≡ o
    → (k : String) → started k (modify_found path f o s) ≡ started k s
started-modify_found path f none s steady e k = refl
started-modify_found path f (some b) s steady e k =
    ground (arith, started-put k path (f b) s, started_key path k b s, steady b e, e)

pub started-modify :
    (path : String) (f : Sandbox → Sandbox) (s : Modules)
    → IsSteady path f s
    → (k : String) → started k (modify path f s) ≡ started k s
started-modify path f s steady =
    started-modify_found path f (get path s.modules_cache) s steady refl

pub modify-Grows :
    (path : String) (f : Sandbox → Sandbox) (s : Modules)
    → IsSteady path f s
    → Grows s (modify path f s)
modify-Grows path f s steady k h = started-modify path f s steady k ∙ h

modify_found-ran :
    (path : String) (f : Sandbox → Sandbox) (o : Option Sandbox) (s : Modules)
    → (modify_found path f o s).ran ≡ s.ran
modify_found-ran path f none s = refl
modify_found-ran path f (some b) s = refl

pub modify-RunsOnce :
    (path : String) (f : Sandbox → Sandbox) (s : Modules)
    → IsSteady path f s
    → RunsOnce s
    → RunsOnce (modify path f s)
modify-RunsOnce path f s steady once k =
    ap (count (λ j. j == k)) (modify_found-ran path f (get path s.modules_cache) s)
    ∙ once k
    ∙ ap once_if (sym (started-modify path f s steady k))

pub export_as-IsSteady : (path value : String) (s : Modules) → IsSteady path (export_as value) s
export_as-IsSteady path value s b e = refl

pub compiled-IsSteady :
    (path : String) (s : Modules) → started path s ≡ true → IsSteady path compiled s
compiled-IsSteady path s begun b e = sym begun ∙ ap started_in e
