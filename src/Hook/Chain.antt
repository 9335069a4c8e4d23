-- ===== src/Hook/Chain.antt =====
-- core/pluggable-module/src/hook.ts: what the plugins of a hook see, and what it returns.
use testring.Common.{
  some, ap, sym, ◌∙◌, subst, append_assoc, append-nil, any, any-append, ◌==◌, eq_iff, arith, false,
  ◌≡◌, refl, String, List, [], ◌∷◌, ◌++◌, map,
}
use testring.Common.Dict.{Dict, keys, set}
use testring.Hook.{
  Hook, new_hook, write_hook, read_hook, Error, Answer, ok, threw, Event, writes, reads,
  replace_first, write_each, read_each, answer_with, call_readers, call_hooks,
}

module _ {ℓ} {A : Type ℓ} where
  -- Some modifiers that all answer, with their functions, and the arguments behind them.
  abbrev pub answering : Dict (List A → A) → Dict (List A → Answer A)
  answering [] = []
  answering ((k, f) ∷ fs) = (k, λ args. ok (f args)) ∷ answering fs

  abbrev pub behind : Dict (List A → A) → List A → List A
  behind [] args = args
  behind ((k, f) ∷ fs) args = behind fs (replace_first (f args) args)

  abbrev pub written : Dict (List A → A) → List A → List (Event A)
  written [] args = []
  written ((k, f) ∷ fs) args = writes k args ∷ written fs (replace_first (f args) args)

  -- Some readers that all answer.
  abbrev pub listening : List String → Dict (List A → Answer (Unit {0}))
  listening [] = []
  listening (k ∷ ks) = (k, λ args. ok tt) ∷ listening ks

module _ {ℓ} {A : Type ℓ} where
  write_each-answering :
      (fs : Dict (List A → A)) (args : List A)
      → write_each (answering fs) args ≡ (written fs args, ok (behind fs args))
  unfolding write_each
  write_each-answering [] args = refl
  write_each-answering ((k, f) ∷ fs) args =
      rw (write_each-answering fs (replace_first (f args) args)) refl

  read_each-listening :
      (ks : List String) (args : List A)
      → read_each (listening ks) args ≡ (map (λ k. reads k args) ks, ok tt)
  unfolding read_each
  read_each-listening [] args = refl
  read_each-listening (k ∷ ks) args = rw (read_each-listening ks args) refl

  -- The first argument that the modifiers leave, from `value`, where the other arguments are `rest`.
  abbrev pub value_behind : Dict (List A → A) → A → List A → A
  value_behind [] value rest = value
  value_behind ((k, f) ∷ fs) value rest = value_behind fs (f (value ∷ rest)) rest

  abbrev pub writes_of : Dict (List A → A) → A → List A → List (Event A)
  writes_of [] value rest = []
  writes_of ((k, f) ∷ fs) value rest =
      writes k (value ∷ rest) ∷ writes_of fs (f (value ∷ rest)) rest

  -- Plugins that register with a hook, one after the other: first modifiers, then readers.
  pub register_readers : List String → Hook A → Hook A
  register_readers [] h = h
  register_readers (k ∷ ks) h = register_readers ks (read_hook k (λ args. ok tt) h)

  pub register : Dict (List A → A) → List String → Hook A → Hook A
  unfolding register_readers
  register [] ks h = register_readers ks h
  register ((k, f) ∷ fs) ks h = register fs ks (write_hook k (λ args. ok (f args)) h)

-- No name occurs twice.
abbrev pub Distinct : List String → Type 0
Distinct [] = Unit
Distinct (k ∷ ks) = (any (λ j. j == k) ks ≡ false) × Distinct ks

module _ {ℓ} {V : Type ℓ} where
  set_fresh :
      (k : String) (v : V) (d : Dict V)
      → any (λ j. j == k) (keys d) ≡ false
      → set k v d ≡ d ++ (k, v) ∷ []
  unfolding set
  set_fresh k v [] h = refl
  set_fresh k v ((j, w) ∷ d) h = ground (arith, set_fresh k v d)

  keys-append : (d e : Dict V) → keys (d ++ e) ≡ keys d ++ keys e
  keys-append [] e = refl
  keys-append ((k, v) ∷ d) e = ap (λ ks. k ∷ ks) (keys-append d e)

Distinct-middle :
    (ks : List String) (k : String) (js : List String)
    → Distinct (ks ++ k ∷ js)
    → any (λ j. j == k) ks ≡ false
Distinct-middle [] k js d = refl
Distinct-middle (i ∷ ks) k js (h, d) =
    let split = any-append (λ j. j == i) ks (k ∷ js) in
    let rest = Distinct-middle ks k js d in ground (arith, split, eq_iff i k, eq_iff k i, rest, h)

module _ {ℓ} {V : Type ℓ} where
  -- The keys of a map that gets one more.
  Distinct-added :
      (d : Dict V) (k : String) (v : V) (ks : List String)
      → Distinct (keys d ++ k ∷ ks)
      → Distinct (keys (d ++ (k, v) ∷ []) ++ ks)
  Distinct-added d k v ks h =
      subst Distinct
        (sym (append_assoc (keys d) (k ∷ []) ks)
          ∙ ap (λ js. js ++ ks) (sym (keys-append d ((k, v) ∷ []))))
        h

module _ {ℓ} {A : Type ℓ} where
  register_readers-listening :
      (ks : List String) (w : Dict (List A → Answer A)) (r : Dict (List A → Answer (Unit {0})))
      → Distinct (keys r ++ ks)
      → register_readers ks (record { write_hooks = w; read_hooks = r })
        ≡ record { write_hooks = w; read_hooks = r ++ listening ks }
  unfolding register_readers read_hook
  register_readers-listening [] w r d = rw (append-nil r) refl
  register_readers-listening (k ∷ ks) w r d =
      rw (set_fresh k (λ args. ok tt) r (Distinct-middle (keys r) k ks d)) (
        register_readers-listening ks w (r ++ (k, λ args. ok tt) ∷ [])
          (Distinct-added r k (λ args. ok tt) ks d)
        ∙ ap (λ x. record { write_hooks = w; read_hooks = x })
            (append_assoc r ((k, λ args. ok tt) ∷ []) (listening ks)))

  register-answering :
      (fs : Dict (List A → A)) (ks : List String) (w : Dict (List A → Answer A))
      → Distinct (keys w ++ keys fs)
      → Distinct ks
      → register fs ks (record { write_hooks = w; read_hooks = [] })
        ≡ record { write_hooks = w ++ answering fs; read_hooks = listening ks }
  unfolding register write_hook
  register-answering [] ks w d e = rw (append-nil w) (register_readers-listening ks w [] e)
  register-answering ((k, f) ∷ fs) ks w d e =
      rw (set_fresh k (λ args. ok (f args)) w (Distinct-middle (keys w) k (keys fs) d)) (
        register-answering fs ks (w ++ (k, λ args. ok (f args)) ∷ [])
          (Distinct-added w k (λ args. ok (f args)) (keys fs) d) e
        ∙ ap (λ x. record { write_hooks = x; read_hooks = listening ks })
            (append_assoc w ((k, λ args. ok (f args)) ∷ []) (answering fs)))

  behind-value :
      (fs : Dict (List A → A)) (value : A) (rest : List A)
      → behind fs (value ∷ rest) ≡ value_behind fs value rest ∷ rest
  behind-value [] value rest = refl
  behind-value ((k, f) ∷ fs) value rest = behind-value fs (f (value ∷ rest)) rest

  written-writes_of :
      (fs : Dict (List A → A)) (value : A) (rest : List A)
      → written fs (value ∷ rest) ≡ writes_of fs value rest
  written-writes_of [] value rest = refl
  written-writes_of ((k, f) ∷ fs) value rest =
      ap (λ es. writes k (value ∷ rest) ∷ es) (written-writes_of fs (f (value ∷ rest)) rest)

  -- Some plugins with different names register modifiers and readers that all answer. When the hook
  -- is called with some arguments, the modifiers are called in the order in which they registered,
  -- each with the first argument that the one before it answered and with the other arguments as they
  -- were given; then the readers are called, in their order, with the answer of the last modifier and
  -- the other arguments; and the hook returns that answer.
  pub call_hooks-answering :
      (fs : Dict (List A → A)) (ks : List String) (value : A) (rest : List A)
      → Distinct (keys fs)
      → Distinct ks
      → call_hooks (value ∷ rest) (register fs ks new_hook) ≡ (
        writes_of fs value rest ++ map (λ k. reads k (value_behind fs value rest ∷ rest)) ks,
        ok (some (value_behind fs value rest)),
      )
  unfolding call_hooks call_readers answer_with
  call_hooks-answering fs ks value rest d e =
      rw
        (
          register-answering fs ks [] d e,
          write_each-answering fs (value ∷ rest),
          written-writes_of fs value rest,
          behind-value fs value rest,
          read_each-listening ks (value_behind fs value rest ∷ rest),
        )
        refl

  write_each-threw :
      (fs : Dict (List A → A)) (k : String) (hook : List A → Answer A)
      (hooks : Dict (List A → Answer A)) (args : List A) (e : Error)
      → hook (behind fs args) ≡ threw e
      → write_each (answering fs ++ (k, hook) ∷ hooks) args
        ≡ (written fs args ++ writes k (behind fs args) ∷ [], threw e)
  unfolding write_each
  write_each-threw [] k hook hooks args e h = rw h refl
  write_each-threw ((j, f) ∷ fs) k hook hooks args e h =
      rw (write_each-threw fs k hook hooks (replace_first (f args) args) e h) refl

  -- A modifier that throws ends the call: no modifier behind it is called and no reader, and what the
  -- hook throws is the error of the modifier as it was thrown, without the name of the plugin.
  call_hooks-threw :
      (fs : Dict (List A → A)) (k : String) (hook : List A → Answer A)
      (hooks : Dict (List A → Answer A)) (readers : Dict (List A → Answer (Unit {0})))
      (args : List A) (e : Error)
      → hook (behind fs args) ≡ threw e
      → call_hooks args
          (record { write_hooks = answering fs ++ (k, hook) ∷ hooks; read_hooks = readers })
        ≡ (written fs args ++ writes k (behind fs args) ∷ [], threw e)
  unfolding call_hooks call_readers
  call_hooks-threw fs k hook hooks readers args e h =
      rw (write_each-threw fs k hook hooks args e h) refl
