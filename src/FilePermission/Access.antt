-- ===== src/FilePermission/Access.antt =====
-- core/fs-store/src/utils/FilePermissionResolver.ts: who has access to the file.
use testring.Common.{
  ap, append-nil, ◌∙◌, ◌≡◌, refl, ◌⊎◌, inl, inr, Bool, true, false, not, ◌&&◌, Option, none, some,
  String, List, [], ◌∷◌, ◌++◌, arith, any, keep, named, ◌≢◌, ◌==◌,
}
use testring.MultiLock
use testring.Queue
use testring.Queue.{Queue}
use testring.FilePermission.{
  unlink_granted, lock_granted, fired_clean, deleted, free, FilePermissionResolver, Item, Event,
  create, try_delete, chk_empty, access_first, try_access, lock, unlock, clean_lock, hook_access,
  release_access, unhook_access, clean_access, hook_unlink, release_unlink, unhook_unlink,
  clean_unlink, delete_first, access_granted, differs, fired, on_access_release,
}
use testring.FilePermission.Call.{
  Call, locks, unlocks, accesses, releases_access, unhooks_access, unlinks, releases_unlink,
  unhooks_unlink, cleans_lock, cleans_access, cleans_unlink, step, accessed,
}

abbrev pub Outcome : Type 0
Outcome = List Event × FilePermissionResolver

-- Nobody is granted access, and whether somebody has it stays as it was.
abbrev IsQuiet : FilePermissionResolver → Outcome → Type 0
IsQuiet f (events, g) = (accessed events ≡ []) × (g.accessing ≡ f.accessing)

delete_first-IsQuiet :
    (f : FilePermissionResolver) (next : Option Item × Queue Item)
    → IsQuiet f ((delete_first f next).1, (delete_first f next).2)
unfolding delete_first
delete_first-IsQuiet f (none, rest) = (refl, refl)
delete_first-IsQuiet f (some item, rest) = (refl, refl)

try_delete-IsQuiet : (f : FilePermissionResolver) → IsQuiet f ((try_delete f).1, (try_delete f).2)
unfolding try_delete
try_delete-IsQuiet f = ground (arith, delete_first-IsQuiet f (Queue.shift f.del))

chk_empty-IsQuiet : (f : FilePermissionResolver) → IsQuiet f (chk_empty f)
unfolding chk_empty
chk_empty-IsQuiet f = ground (arith, try_delete-IsQuiet (record f { state = free }))

-- Access is granted to one item, to whom it then belongs, or to nobody.
abbrev Grants : FilePermissionResolver → Outcome → Type 0
Grants f (events, g) =
    ((accessed events ≡ []) × (g.accessing ≡ f.accessing))
    ⊎ (f.accessing ≡ false) × (g.accessing ≡ true) × ((item : Item) × (accessed events ≡ item ∷ []))

access_first-Grants :
    (f : FilePermissionResolver) (next : Option Item × Queue Item)
    → f.accessing ≡ false
    → Grants f (access_first f next)
unfolding access_first
access_first-Grants f (none, rest) h = inl (chk_empty-IsQuiet (record f { access_queue = rest }))
access_first-Grants f (some item, rest) h = inr (h, refl, (item, refl))

try_access-Grants : (f : FilePermissionResolver) → Grants f ((try_access f).1, (try_access f).2)
unfolding try_access
try_access-Grants f = ground (arith, access_first-Grants f (Queue.shift f.access_queue))

-- What a call other than the end of an access does to who has access.
unlock-IsQuiet : (item : Item) (f : FilePermissionResolver) → IsQuiet f (unlock item f)
unfolding unlock
unlock-IsQuiet item f =
    let g : FilePermissionResolver = record f {
      multi_lock = (MultiLock.release item.worker_id f.multi_lock).1;
    } in
    ground (arith, chk_empty-IsQuiet g)

clean_lock-IsQuiet : (w : Option String) (f : FilePermissionResolver) → IsQuiet f (clean_lock w f)
unfolding clean_lock
clean_lock-IsQuiet w f =
    chk_empty-IsQuiet (record f { multi_lock = MultiLock.clean (named w) f.multi_lock })

step-Grants :
    (c : Call) (f : FilePermissionResolver)
    → ((item : Item) → c ≢ releases_access item)
    → Grants f (step c f)
unfolding step lock hook_access unhook_access clean_access hook_unlink release_unlink unhook_unlink
    clean_unlink
step-Grants (locks item) f h = inl (ground arith)
step-Grants (unlocks item) f h = inl (unlock-IsQuiet item f)
step-Grants (accesses item) f h =
    ground
      (arith, try_access-Grants (record f { access_queue = Queue.push (item ∷ []) f.access_queue }))
step-Grants (releases_access item) f h = absurd (h item refl)
step-Grants (unhooks_access item) f h =
    let rest = (Queue.remove (λ other _. differs item other) f.access_queue).1 in
    ground (arith, try_access-Grants (record f { access_queue = rest }))
step-Grants (unlinks item) f h =
    inl (try_delete-IsQuiet (record f { del = Queue.push (item ∷ []) f.del }))
step-Grants (releases_unlink item) f h = inl (try_delete-IsQuiet (record f { state = deleted }))
step-Grants (unhooks_unlink item) f h =
    let rest = (Queue.remove (λ other _. differs item other) f.del).1 in
    try_access-Grants (record f { del = rest })
step-Grants (cleans_lock w) f h = inl (clean_lock-IsQuiet w f)
step-Grants (cleans_access w) f h = inl (refl, refl)
step-Grants (cleans_unlink w) f h = inl (refl, refl)

accessed-append : (xs ys : List Event) → accessed (xs ++ ys) ≡ accessed xs ++ accessed ys
accessed-append [] ys = refl
accessed-append (fired h x ∷ xs) ys = accessed-append xs ys
accessed-append (fired_clean h w ∷ xs) ys = accessed-append xs ys
accessed-append (lock_granted x s ∷ xs) ys = accessed-append xs ys
accessed-append (access_granted x ∷ xs) ys = ap (◌∷◌ x) (accessed-append xs ys)
accessed-append (unlink_granted x s ∷ xs) ys = accessed-append xs ys

release_access-Grants :
    (item : Item) (f : FilePermissionResolver)
    → Grants (record f { accessing = false }) (release_access item f)
unfolding release_access
release_access-Grants item f =
    let g : FilePermissionResolver = record f { accessing = false } in
    rw (accessed-append (try_access g).1 (fired on_access_release item ∷ []), append-nil)
      (try_access-Grants g)

-- The resolver, and the items that were granted access and have not given it back.
pub record World : Type 0 where
  pub resolver : FilePermissionResolver
  pub active : List Item

abbrev pub start : String → World
start data_id = record { resolver = create data_id; active = [] }

abbrev pub same_item : Item → Item → Bool
same_item x y = x.worker_id == y.worker_id && x.request_id == y.request_id

abbrev pub after : Outcome → List Item → World
after (events, f) active = record { resolver = f; active = accessed events ++ active }

-- Any call at any time, but that an access is ended only by an item that has it.
pub data Step (w : World) : World → Type 0 where
  calls :
      (c : Call)
      → ((item : Item) → c ≢ releases_access item)
      → Step w (after (step c w.resolver) w.active)
  ends :
      (item : Item)
      → any (same_item item) w.active ≡ true
      → Step w (
          after
            (step (releases_access item) w.resolver)
            (keep (λ x. not (same_item item x)) w.active))

pub data Reach (w : World) : World → Type 0 where
  here : Reach w w
  next : {u v : World} → Reach w u → Step u v → Reach w v

abbrev pub IsExclusive : World → Type 0
IsExclusive w =
    (w.resolver.accessing ≡ false) × (w.active ≡ [])
    ⊎ (w.resolver.accessing ≡ true) × ((item : Item) × (w.active ≡ item ∷ []))

Grants-IsExclusive :
    (f : FilePermissionResolver) (o : Outcome) (active : List Item)
    → IsExclusive (record { resolver = f; active = active })
    → Grants f o
    → IsExclusive (after o active)
Grants-IsExclusive f o active (inl (a, e)) (inl (n, k)) = inl (k ∙ a, cc)
Grants-IsExclusive f o active (inr (a, (item, e))) (inl (n, k)) = inr (k ∙ a, (item, cc))
Grants-IsExclusive f o active (inl (a, e)) (inr (b, k, (item, n))) = inr (k, (item, rw (n, e)))
Grants-IsExclusive f o active (inr (a, _)) (inr (b, _, _)) = cc

ended :
    (item : Item) (w : World)
    → IsExclusive w
    → any (same_item item) w.active ≡ true
    → keep (λ x. not (same_item item x)) w.active ≡ []
ended item w (inl (a, e)) h = ground arith
ended item w (inr (a, (x, e))) h = ground arith

Step-IsExclusive : {w v : World} → Step w v → IsExclusive w → IsExclusive v
unfolding step
Step-IsExclusive {w} (calls c h) x =
    Grants-IsExclusive w.resolver (step c w.resolver) w.active x (step-Grants c w.resolver h)
Step-IsExclusive {w} (ends item h) x =
    Grants-IsExclusive (record w.resolver { accessing = false }) (release_access item w.resolver) _
      (inl (refl, ended item w x h)) (release_access-Grants item w.resolver)

Reach-keeps : {w v : World} → IsExclusive w → Reach w v → IsExclusive v
Reach-keeps x here = x
Reach-keeps x (next r s) = Step-IsExclusive s (Reach-keeps x r)

-- At most one agent has access at any time, and `accessing` tells whether one has: after any calls
-- on a new resolver, in any order and interleaving, in which an access is ended only by an item that
-- has it, the flag is off and nobody has access, or it is on and exactly one item has.
pub Reach-IsExclusive : (data_id : String) {w : World} → Reach (start data_id) w → IsExclusive w
unfolding create
Reach-IsExclusive data_id r = Reach-keeps (inl (refl, refl)) r
