-- ===== src/FilePermission/Call.antt =====
-- core/fs-store/src/utils/FilePermissionResolver.ts: one call of any operation that changes state.
use testring.Common.{Bool, true, false, Option, String, List, [], ◌∷◌}
use testring.FilePermission.{
  FilePermissionResolver, Item, Event, access_granted, unlink_granted, lock, unlock, clean_lock,
  hook_access, release_access, unhook_access, clean_access, hook_unlink, release_unlink,
  unhook_unlink, clean_unlink,
}

pub data Call : Type 0 where
  locks unlocks accesses releases_access unhooks_access : Item → Call
  unlinks releases_unlink unhooks_unlink : Item → Call
  cleans_lock cleans_access cleans_unlink : Option String → Call

unfoldable pub step : Call → FilePermissionResolver → List Event × FilePermissionResolver
step (locks item) f = let (_, events, g) = lock item f in (events, g)
step (unlocks item) f = unlock item f
step (accesses item) f = let (_, events, g) = hook_access item f in (events, g)
step (releases_access item) f = release_access item f
step (unhooks_access item) f = let (_, events, g) = unhook_access item f in (events, g)
step (unlinks item) f = hook_unlink item f
step (releases_unlink item) f = release_unlink item f
step (unhooks_unlink item) f = let (_, events, g) = unhook_unlink item f in (events, g)
step (cleans_lock worker_id) f = clean_lock worker_id f
step (cleans_access worker_id) f = clean_access worker_id f
step (cleans_unlink worker_id) f = clean_unlink worker_id f

abbrev pub grants_unlink : Event → Bool
grants_unlink (unlink_granted item state) = true
grants_unlink _ = false

-- The items that are granted access among the events.
abbrev pub accessed : List Event → List Item
accessed [] = []
accessed (access_granted item ∷ events) = item ∷ accessed events
accessed (_ ∷ events) = accessed events
