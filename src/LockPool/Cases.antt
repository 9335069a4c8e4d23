-- ===== src/LockPool/Cases.antt =====
-- core/fs-store/src/utils/LockPool.ts: the branches of `release` and of `clean`.
use testring.Common.{◌≡◌, true, false, not, Option, String, List, [], ◌∷◌, keep, keep-not_self}
use testring.Queue.Laws.{extract-keep}
use testring.LockPool.{LockPool, QueueItem, notify, is_of, release_pool, release}

-- The item is still waiting: it is taken out, and its promise refused.
pub release_waiting :
    (w : String) (r : Option String) (p : LockPool) (x : QueueItem) (ys : List QueueItem)
    → keep (is_of w r) p.request_que.array ≡ x ∷ ys
    → release w r p ≡ (
      true,
      notify x.notifier false,
      record p {
        request_que = record { array = keep (λ y. not (is_of w r y)) p.request_que.array };
      },
    )
unfolding release
release_waiting w r p x ys e = rw (extract-keep (is_of w r) p.request_que, e)

pub release_held :
    (w : String) (r : Option String) (p : LockPool)
    → keep (is_of w r) p.request_que.array ≡ []
    → release w r p ≡ release_pool w r p
unfolding release
release_held w r p e = rw (
  extract-keep (is_of w r) p.request_que,
  keep-not_self (is_of w r) p.request_que.array e,
  e,
  release,
)
