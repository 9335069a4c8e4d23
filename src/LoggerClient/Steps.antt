-- ===== src/LoggerClient/Steps.antt =====
-- core/logger/src/abstract-logger-client.ts: the stack of steps.
use text.Mathlib.TextPositions.{eq_refl}
use testring.Common.{
  ◌≡◌, refl, false, Option, none, some, String, List, [], ◌∷◌, ◌++◌, ◌==◌, All, append-nil,
}
use testring.LoggerClient.{
  StepType, StepEntity, LoggerStack, Entry, LoggerClient, id_of, get_current_step, Callback, Method,
  create_log, build_entry, call_method, type_of, start_step, end_until, end_step, call_step,
}

end_until_lem :
    (message step_id : String) (extra stack : LoggerStack)
    → All (λ s. (message == s.message) ≡ false) extra
    → end_until (some message) (extra ++ record { step_id = step_id; message = message } ∷ stack)
      ≡ stack
unfolding end_until
end_until_lem message step_id [] stack h = rw (eq_refl message) refl
end_until_lem message step_id (s ∷ extra) stack (h, hs) =
    rw h (end_until_lem message step_id extra stack hs)

step_entry :
    (client : LoggerClient) (message step_id : String) (step_type : Option StepType)
    (stack : LoggerStack)
    → let entry = (start_step client message step_type step_id stack).0 in
      (entry.step_uid ≡ some step_id) × (entry.parent_step ≡ id_of (get_current_step stack))
unfolding start_step create_log build_entry
step_entry client message step_id none stack = (refl, refl)
step_entry client message step_id (some t) stack = (refl, refl)

call_method-parent :
    (client : LoggerClient) (method : Method) (args : List String) (s : StepEntity)
    (stack : LoggerStack)
    → (call_method client method args (s ∷ stack)).parent_step ≡ some s.step_id
unfolding call_method type_of create_log build_entry
call_method-parent client Method.log args s stack = refl
call_method-parent client Method.info args s stack = refl
call_method-parent client Method.success args s stack = refl
call_method-parent client Method.warn args s stack = refl
call_method-parent client Method.error args s stack = refl
call_method-parent client Method.debug args s stack = refl
call_method-parent client Method.verbose args s stack = refl
call_method-parent client Method.screenshot args s stack = refl
call_method-parent client Method.file args s stack = refl
call_method-parent client Method.media args s stack = refl

-- A step leaves the stack of steps as it was, and passes on what its callback throws, also where the
-- callback throws or leaves steps of its own open, if these have other messages. Its own entry comes
-- first, with its id, and with the step around it as its parent; and what the callback logs at once
-- has this step as its parent.
call_step_lem :
    (client : LoggerClient) (message : String) (callback : Callback) (step_type : Option StepType)
    (step_id : String) (stack extra : LoggerStack)
    → let begun : LoggerStack = record { step_id = step_id; message = message } ∷ stack in
      All (λ s. (message == s.message) ≡ false) extra
      → (callback begun).1 ≡ extra ++ begun
      → (entry : Entry) × (call_step client message callback step_type step_id stack
          ≡ (entry ∷ (callback begun).0, stack, (callback begun).2))
        × (entry.step_uid ≡ some step_id)
        × (entry.parent_step ≡ id_of (get_current_step stack))
        × ((method : Method) (args : List String)
            → (call_method client method args begun).parent_step ≡ some step_id)
unfolding call_step start_step end_step
call_step_lem client message callback step_type step_id stack extra other left =
    let s : StepEntity = record { step_id = step_id; message = message } in
    let begun : LoggerStack = s ∷ stack in
    let (uid, parent) = step_entry client message step_id step_type stack in
    (
      (start_step client message step_type step_id stack).0,
      rw (append-nil (callback begun).0, left, end_until_lem message step_id extra stack other)
          refl,
      uid,
      parent,
      λ method args. call_method-parent client method args s stack,
    )
