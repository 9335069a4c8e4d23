-- ===== src/Transport/Settling.antt =====
-- core/transport/src/direct-transport.ts: what becomes of the promises.
use testring.Common.{
  ℕ, ◌≡◌, refl, ap, ◌∙◌, sym, Bool, true, false, not, none, String, [], ◌∷◌, ◌++◌, arith, ◌==◌,
  eq_iff, keep, map, append_assoc, Bool-cases, inl, inr,
}
use testring.Common.Dict.{Dict, get, delete, values, IsUnique, delete_fresh}
use testring.Transport.Direct.{
  DirectTransport, is_message_from_process, resolved, close_each, handle_child_close,
}

abbrev pub of_process : String → String × ℕ → Bool
of_process process_id (uid, call) = is_message_from_process process_id uid

get-append : (k : String) (xs ys : Dict ℕ) → get k xs ≡ none → get k (xs ++ ys) ≡ get k ys
unfolding get
get-append k [] ys h = refl
get-append k ((j, w) ∷ xs) ys h = ground (arith, get-append k xs ys)

delete-middle :
    (k : String) (n : ℕ) (xs ys : Dict ℕ)
    → get k xs ≡ none
    → get k ys ≡ none
    → delete k (xs ++ (k, n) ∷ ys) ≡ xs ++ ys
unfolding get delete
delete-middle k n [] ys h g = ground (arith, eq_iff k k, delete_fresh k ys g)
delete-middle k n ((j, w) ∷ xs) ys h g = ground (arith, delete-middle k n xs ys)

other_key :
    (process_id uid k : String)
    → is_message_from_process process_id uid ≡ false
    → is_message_from_process process_id k ≡ true
    → (uid == k) ≡ false
other_key process_id uid k e q = elim (Bool-cases (uid == k)) [
  | inl same ↦ ground (arith, ap (is_message_from_process process_id) ((eq_iff uid k).0 same))
  | inr differs ↦ differs
]

get-append_passed :
    (process_id uid k : String) (call : ℕ) (front : Dict ℕ)
    → is_message_from_process process_id uid ≡ false
    → is_message_from_process process_id k ≡ true
    → get k front ≡ none
    → get k (front ++ (uid, call) ∷ []) ≡ none
unfolding get
get-append_passed process_id uid k call front e q h =
    get-append k front ((uid, call) ∷ []) h ∙ rw (other_key process_id uid k e q) refl

close_each_front :
    (process_id : String) (copy front : Dict ℕ)
    → IsUnique copy
    → ((k : String) → is_message_from_process process_id k ≡ true → get k front ≡ none)
    → close_each process_id copy (front ++ copy) ≡ (
      map resolved (values (keep (of_process process_id) copy)),
      front ++ keep (λ e. not (of_process process_id e)) copy,
    )
unfolding close_each
close_each_front process_id [] front u h = refl
close_each_front process_id ((uid, call) ∷ copy) front (g, u) h =
    elim (Bool-cases (is_message_from_process process_id uid)) [
      | inl e ↦
          rw (e, delete-middle uid call front copy (h uid e) g)
            (ap (λ r. (resolved call ∷ r.0, r.1)) (close_each_front process_id copy front u h))
      | inr e ↦
          let x : String × ℕ = (uid, call) in
          rw
            (
              e,
              sym (append_assoc front (x ∷ []) copy),
              sym (append_assoc front (x ∷ []) (keep (λ e'. not (of_process process_id e')) copy)),
            )
            (close_each_front process_id copy (front ++ x ∷ []) u
              (λ k q. get-append_passed process_id uid k call front e q (h k q)))
    ]

-- When a child closes, the promises that wait for it are all resolved, in the order of their sends,
-- and exactly their handlers leave the table; which promises wait for it is read off the start of the
-- message ids, which are different ones.
pub handle_child_close_lem :
    (process_id : String) (d : DirectTransport)
    → IsUnique d.response_handlers
    → handle_child_close process_id d ≡ (
      map resolved (values (keep (of_process process_id) d.response_handlers)),
      record d {
        child_registry = delete process_id d.child_registry;
        response_handlers = keep (λ e. not (of_process process_id e)) d.response_handlers;
      },
    )
unfolding handle_child_close get
handle_child_close_lem process_id d u =
    rw (close_each_front process_id d.response_handlers [] u (λ k q. refl)) refl
