-- ===== src/Transport/Closing.antt =====
-- core/transport/src/direct-transport.ts: what the exit of a child resolves.
use Prim.Native.String.{◌++◌ as concat}
use text.Mathlib.TextPositions.{starts_with-append}
use text.Mathlib.TextLemmas.{append_assoc as concat_assoc}
use testring.Common.{
  inr, inl, Bool-cases, ℕ, ◌<◌, ◌≡◌, ap, ◌∙◌, true, some, String, [], ◌∷◌, arith, ◌==◌, eq_iff,
  keep,
}
use testring.Common.Dict.{Dict, get, values, IsUnique}
use testring.Transport.Direct.{
  DirectTransport, create_message_uid, is_message_from_process, handle_child_close,
}
use testring.Transport.Settling.{of_process, handle_child_close_lem}
use testring.Transport.Counts.{resolves, entries, resolves-resolved}

entries-get :
    (uid process_id : String) (n : ℕ) (m : Dict ℕ)
    → is_message_from_process process_id uid ≡ true
    → get uid m ≡ some n
    → 0 < entries n (keep (of_process process_id) m)
unfolding get
entries-get uid process_id n [] q h = ground arith
entries-get uid process_id n ((k, w) ∷ m) q h = elim (Bool-cases (k == uid)) [
  | inl e ↦ rw (ap (is_message_from_process process_id) ((eq_iff k uid).0 e) ∙ q) (ground arith)
  | inr e ↦ ground (arith, entries-get uid process_id n m q)
]

longer_id :
    (process_id suffix uniq_id : String)
    → is_message_from_process process_id (create_message_uid (concat process_id suffix) uniq_id)
      ≡ true
longer_id process_id suffix uniq_id =
    rw (concat_assoc process_id suffix (concat "|" uniq_id))
      (starts_with-append process_id (concat suffix (concat "|" uniq_id)))

-- The exit of a child resolves the promise of each send that still waits for an answer of a process
-- whose id begins with the id of that child: of the child itself, which will never answer, and of
-- every other process with a longer id that begins with this one.
close_resolves_longer :
    (process_id suffix uniq_id : String) (call : ℕ) (d : DirectTransport)
    → IsUnique d.response_handlers
    → get (create_message_uid (concat process_id suffix) uniq_id) d.response_handlers ≡ some call
    → 0 < resolves call (handle_child_close process_id d).0
close_resolves_longer process_id suffix uniq_id call d u h =
    let m = keep (of_process process_id) d.response_handlers in
    rw (handle_child_close_lem process_id d u, resolves-resolved call (values m))
      (entries-get (create_message_uid (concat process_id suffix) uniq_id) process_id call
        d.response_handlers (longer_id process_id suffix uniq_id) h)
