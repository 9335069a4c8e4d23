-- ===== src/Transport/Emitter/Laws.antt =====
-- core/transport/src/transport.ts: whom a message reaches.
use testring.Common.{
  ℕ, suc, ◌+◌, ◌≤◌, ◌≡◌, refl, Bool, true, false, not, ◌&&◌, Option, none, String, List, [], ◌∷◌,
  ◌++◌, arith, ◌==◌, if◌then◌else◌, nat_eq, count, keep, map, All, All-keep,
}
use testring.Serialize.{Tree}
use testring.Transport.{Received}
use testring.Transport.Emitter.{
  Listener, Kind, always, once, once_from, Transport, Called, called, is_source, hear, emit_each,
  trigger_listeners,
}

abbrev accepts : Kind → Option String → Bool
accepts always source = true
accepts once source = true
accepts (once_from process_id) source = is_source process_id source

abbrev pub is_once : Kind → Bool
is_once always = false
is_once once = true
is_once (once_from process_id) = true

abbrev pub is_reached : String → Option String → Listener → Bool
is_reached type source listener = listener.type == type && accepts listener.kind source

abbrev source_for : Kind → Option String → Option String
source_for always source = source
source_for once source = source
source_for (once_from process_id) source = none

abbrev pub call_of : Tree → Option String → Listener → Called
call_of payload source listener = called listener.id payload (source_for listener.kind source)

hear_lem :
    (id : ℕ) (type : String) (kind : Kind) (payload : Tree) (source : Option String)
    → let listener : Listener = record { id = id; type = type; kind = kind } in
      hear listener payload source ≡ (
        (if accepts kind source then call_of payload source listener ∷ [] else []),
        not (accepts kind source && is_once kind),
      )
unfolding hear
hear_lem id type always payload source = refl
hear_lem id type once payload source = refl
hear_lem id type (once_from process_id) payload source = ground arith

emit_each_lem :
    (type : String) (payload : Tree) (source : Option String) (listeners : List Listener)
    → emit_each type payload source listeners ≡ (
      map (call_of payload source) (keep (is_reached type source) listeners),
      keep (λ l. not (is_reached type source l && is_once l.kind)) listeners,
    )
unfolding emit_each
emit_each_lem type payload source [] = refl
emit_each_lem type payload source (l ∷ listeners) =
    rw (emit_each_lem type payload source listeners, hear_lem l.id l.type l.kind payload source)
      (ground arith)

-- A message calls the listeners of its type in the order in which they were added, those of
-- `onceFrom` only if it comes from their process; all stay but the ones of `once` and `onceFrom` that
-- it called.
trigger_listeners_lem :
    (message : Received) (process_id : Option String) (t : Transport)
    → trigger_listeners message process_id t ≡ (
      map
          (call_of message.payload process_id)
          (keep (is_reached message.type process_id) t.emitter),
      record t {
        emitter =
            keep (λ l. not (is_reached message.type process_id l && is_once l.kind)) t.emitter;
      },
    )
unfolding trigger_listeners
trigger_listeners_lem message process_id t =
    rw (emit_each_lem message.type message.payload process_id t.emitter) refl

-- How often a listener is called.
abbrev pub calls_of : ℕ → List Called → ℕ
calls_of id [] = 0
calls_of id (called i payload source ∷ calls) =
    if nat_eq i id then suc (calls_of id calls) else calls_of id calls

calls_of-append :
    (id : ℕ) (xs ys : List Called) → calls_of id (xs ++ ys) ≡ calls_of id xs + calls_of id ys
calls_of-append id [] ys = omega arith
calls_of-append id (called i payload source ∷ xs) ys = ground (arith, calls_of-append id xs ys)

-- Some messages, one after the other.
pub hear_all : List (Received × Option String) → Transport → List Called × Transport
hear_all [] t = ([], t)
hear_all ((message, process_id) ∷ messages) t =
    let (calls, u) = trigger_listeners message process_id t in
    let (later, v) = hear_all messages u in (calls ++ later, v)

abbrev pub has_id : ℕ → Listener → Bool
has_id id l = nat_eq l.id id

-- The listener was not added by `on`.
abbrev pub IsOnce : ℕ → Listener → Type 0
IsOnce id l = (has_id id l && not (is_once l.kind)) ≡ false

calls_of-reached :
    (id : ℕ) (type : String) (payload : Tree) (source : Option String) (ls : List Listener)
    → All (IsOnce id) ls
    → calls_of id (map (call_of payload source) (keep (is_reached type source) ls))
        + count (has_id id) (keep (λ l. not (is_reached type source l && is_once l.kind)) ls)
      ≡ count (has_id id) ls
calls_of-reached id type payload source [] h = refl
calls_of-reached id type payload source (l ∷ ls) (h, hs) =
    let rest = calls_of-reached id type payload source ls hs in ground (arith, rest)

calls-le-count :
    (id : ℕ) (messages : List (Received × Option String)) (t : Transport)
    → All (IsOnce id) t.emitter
    → calls_of id (hear_all messages t).0 ≤ count (has_id id) t.emitter
unfolding hear_all
calls-le-count id [] t h = omega arith
calls-le-count id ((message, process_id) ∷ messages) t h =
    let stays = λ (l : Listener). not (is_reached message.type process_id l && is_once l.kind) in
    let reached = keep (is_reached message.type process_id) t.emitter in
    let u : Transport = record t { emitter = keep stays t.emitter } in
    rw (trigger_listeners_lem message process_id t) (
      omega (
        arith,
        calls_of-append id (map (call_of message.payload process_id) reached)
            (hear_all messages u).0,
        calls-le-count id messages u (All-keep (IsOnce id) stays t.emitter h),
        calls_of-reached id message.type message.payload process_id t.emitter h,
      ))

-- A listener that `once` or `onceFrom` added is called once at most, whatever messages come.
calls_of-hear_all :
    (id : ℕ) (messages : List (Received × Option String)) (t : Transport)
    → All (IsOnce id) t.emitter
    → count (has_id id) t.emitter ≤ 1
    → calls_of id (hear_all messages t).0 ≤ 1
calls_of-hear_all id messages t h one = omega (arith, one, calls-le-count id messages t h)
