-- ===== src/StoreClient.antt =====
-- core/fs-store/src/fs-store-client.ts: the class FSStoreClient, which sends requests to the store and
-- runs the callback of a request on each response to it. `base_name` is that of the module path; a
-- callback is known by its number, and the meta of a request, which the client changes in place, is its
-- own: that a caller passes one object to several requests is left out. `Meta` has the fields that the
-- client reads, and the extension.
pub mod Laws
mod Tests
use testring.Common.{
  named, ℕ, Bool, true, false, Option, none, some, String, List, [], ◌∷◌, truthy, ◌==◌,
  if◌then◌else◌,
}
use testring.Common.Dict.{Dict, get, set, delete, is_some}
use testring.StoreServer.{
  no_file_name_for_unlink, impossible_to_lock, impossible_to_access, no_access, invalid_full_path,
  no_exist, Action, Status, Response, Request, access, lock, unlink, release, done,
}

pub record Meta : Type 0 where
  pub file_name : Option String
  pub ext : Option String

pub record RequestItem : Type 0 where
  pub action : Action
  pub callback : Option ℕ
  pub meta : Meta
  pub full_path : Option String

abbrev pub FsStoreClient : Type 0
FsStoreClient = Dict RequestItem

-- What the client does: the messages that it broadcasts, and the callbacks that it runs.
pub data Event : Type 0 where
  requested released : Request → Event
  cleaned : Event
  called : ℕ → String → String → Event

-- The first generated id that no request has: the loop of `ensureRequestId`, on the ids that the
-- generator gives.
pub fresh_id : List String → FsStoreClient → Option String
fresh_id [] c = none
fresh_id (id ∷ ids) c = if is_some (get id c) then fresh_id ids c else some id

abbrev pub message : String → Action → Meta → Request
message id action meta = record {
  request_id = id;
  action = action;
  file_name = meta.file_name;
  ext = meta.ext;
}

abbrev pub item : Action → Meta → ℕ → RequestItem
item action meta callback = record {
  action = action;
  callback = some callback;
  meta = meta;
  full_path = none;
}

abbrev ask_as :
    Action → Meta → ℕ → Option String → FsStoreClient → Option (String × List Event × FsStoreClient)
ask_as action meta callback none c = none
ask_as action meta callback (some id) c =
    some (id, requested (message id action meta) ∷ [], set id (item action meta callback) c)

-- `getLock` and `getAccess`: the id of the request, what is sent, and the client afterwards.
pub ask :
    Action → Meta → ℕ → List String → FsStoreClient → Option (String × List Event × FsStoreClient)
unfolding fresh_id
ask action meta callback ids c = ask_as action meta callback (fresh_id ids c) c

abbrev named_unlink :
    Meta
    → Option String
    → ℕ
    → List String
    → FsStoreClient
    → Option (String × List Event × FsStoreClient)
named_unlink meta none callback ids c = none
named_unlink meta (some name) callback ids c = ask unlink meta callback ids c

-- `getUnlink`, which throws where no file is named.
unfoldable pub get_unlink :
    Meta → ℕ → List String → FsStoreClient → Option (String × List Event × FsStoreClient)
get_unlink meta callback ids c = named_unlink meta (named meta.file_name) callback ids c

abbrev release_item :
    String → Option ℕ → Option RequestItem → FsStoreClient → Bool × List Event × FsStoreClient
release_item id callback none c = (false, [], c)
release_item id callback (some r) c = (
  true,
  released (message id r.action r.meta) ∷ [],
  set id (record { action = release; callback = callback; meta = r.meta; full_path = r.full_path })
      c,
)

-- `release`: false where no request has the id.
pub release_request : String → Option ℕ → FsStoreClient → Bool × List Event × FsStoreClient
release_request id callback c = release_item id callback (get id c) c

abbrev pub is_ok : Status → Bool
is_ok done = true
is_ok no_file_name_for_unlink = false
is_ok impossible_to_lock = false
is_ok impossible_to_access = false
is_ok no_access = false
is_ok invalid_full_path = false
is_ok no_exist = false

abbrev pub is_release : Action → Bool
is_release release = true
is_release access = false
is_release lock = false
is_release unlink = false

abbrev call : Option ℕ → String → String → List Event
call none path id = []
call (some callback) path id = called callback path id ∷ []

module _ (base_name : String → String) where
  abbrev pub with_path : String → RequestItem → RequestItem
  with_path path r = record r {
    full_path = some path;
    meta = record r.meta { file_name = some (base_name path) };
  }

  abbrev on_item : Response → Option RequestItem → FsStoreClient → List Event × FsStoreClient
  on_item m none c = ([], c)
  on_item m (some r) c = (
    call r.callback m.full_path m.request_id,
    (if is_ok m.status
        then if is_release r.action
          then delete m.request_id c
          else set m.request_id (with_path m.full_path r) c
        else c),
  )

  -- The handler of a response.
  pub on_response : Response → FsStoreClient → List Event × FsStoreClient
  on_response m c = on_item m (get m.request_id c) c

-- `releaseAllWorkerActions`
pub release_all : FsStoreClient → List Event × FsStoreClient
release_all c = (cleaned ∷ [], c)
