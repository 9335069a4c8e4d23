-- ===== src/FilePermission/Going.antt =====
-- core/fs-store/src/utils/FilePermissionResolver.ts: the events of an operation, and whether it leaves the
-- file going or gone.
use testring.Common.{
  ◌++◌, count-append, Bool, Bool-cases, List, count, ap, ◌∙◌, ltb, ◌≡◌, refl, ◌⊎◌, inl, inr, true,
  false, Option, none, some, [], ◌∷◌, arith,
}
use testring.Queue
use testring.Queue.{Queue}
use testring.FilePermission.{
  Event, rank, can_be_deleted, FilePermissionResolver, Item, free, is_deleted, try_delete,
  chk_empty, access_first, try_access, lock, hook_access, unhook_access, delete_first, differs,
}
use testring.FilePermission.Call.{grants_unlink}
use testring.FilePermission.Access.{Outcome}

-- Some events leave the file going or gone, or they grant no unlink and it was not so before.
abbrev pub Goes : Bool → Outcome → Type 0
Goes before (events, g) =
    (is_deleted g ≡ true) ⊎ ((count grants_unlink events ≡ 0) × (before ≡ false))

pub stays-Goes : (f g : FilePermissionResolver) → g.state ≡ f.state → Goes (is_deleted f) ([], g)
stays-Goes f g same = elim (Bool-cases (is_deleted f)) [
  | inl e ↦ inl (ap (λ s. ltb (rank free) (rank s)) same ∙ e)
  | inr e ↦ inr (refl, e)
]

delete_first-Goes :
    (f : FilePermissionResolver) (next : Option Item × Queue Item)
    → Goes (is_deleted f) ((delete_first f next).1, (delete_first f next).2)
unfolding delete_first
delete_first-Goes f (none, rest) = stays-Goes f (record f { del = rest }) refl
delete_first-Goes f (some item, rest) = elim (Bool-cases (is_deleted f)) [
  | inl e ↦ inl (rw e e)
  | inr e ↦ inl (rw e refl)
]

pub try_delete-Goes :
    (f : FilePermissionResolver) → Goes (is_deleted f) ((try_delete f).1, (try_delete f).2)
unfolding try_delete
try_delete-Goes f = elim (Bool-cases (can_be_deleted f)) [
  | inl e ↦ rw e (delete_first-Goes f (Queue.shift f.del))
  | inr e ↦ rw e (stays-Goes f f refl)
]

pub chk_empty-Goes : (f : FilePermissionResolver) → Goes false (chk_empty f)
unfolding chk_empty
chk_empty-Goes f = ground (arith, try_delete-Goes (record f { state = free }))

access_first-Goes :
    (f : FilePermissionResolver) (next : Option Item × Queue Item)
    → Goes false (access_first f next)
unfolding access_first
access_first-Goes f (none, rest) = chk_empty-Goes (record f { access_queue = rest })
access_first-Goes f (some item, rest) = inr (refl, refl)

pub try_access-Goes :
    (f : FilePermissionResolver) → Goes (is_deleted f) ((try_access f).1, (try_access f).2)
unfolding try_access
try_access-Goes f = ground (arith, access_first-Goes f (Queue.shift f.access_queue))

pub lock-Goes :
    (item : Item) (f : FilePermissionResolver)
    → Goes (is_deleted f) ((lock item f).1, (lock item f).2)
unfolding lock
lock-Goes item f = ground arith

-- Events that grant no unlink, before some others or behind them.
pub behind_events :
    (b : Bool) (front events : List Event) (g : FilePermissionResolver)
    → count grants_unlink front ≡ 0
    → Goes b (events, g)
    → Goes b (front ++ events, g)
behind_events b front events g x (inl d) = inl d
behind_events b front events g x (inr (z, e)) =
    inr (omega (arith, count-append grants_unlink front events), e)

pub before_events :
    (b : Bool) (events back : List Event) (g : FilePermissionResolver)
    → count grants_unlink back ≡ 0
    → Goes b (events, g)
    → Goes b (events ++ back, g)
before_events b events back g x (inl d) = inl d
before_events b events back g x (inr (z, e)) =
    inr (omega (arith, count-append grants_unlink events back), e)

pub still_gone : (o : Outcome) → Goes true o → is_deleted o.1 ≡ true
still_gone (events, g) (inl d) = d
still_gone (events, g) (inr (none_granted, e)) = absurd (ground (arith, e))

pub hook_access-Goes :
    (item : Item) (f : FilePermissionResolver)
    → Goes (is_deleted f) ((hook_access item f).1, (hook_access item f).2)
unfolding hook_access
hook_access-Goes item f =
    ground
      (arith, try_access-Goes (record f { access_queue = Queue.push (item ∷ []) f.access_queue }))

pub unhook_access-Goes :
    (item : Item) (f : FilePermissionResolver)
    → Goes (is_deleted f) ((unhook_access item f).1, (unhook_access item f).2)
unfolding unhook_access
unhook_access-Goes item f =
    let q = (Queue.remove (λ other _. differs item other) f.access_queue).1 in
    ground (arith, try_access-Goes (record f { access_queue = q }))
