-- ===== src/StoreClient/Laws.antt =====
-- core/fs-store/src/fs-store-client.ts: the life of a request, and responses that do not fit.
use testring.Common.{
  subst, ℕ, true, false, Option, none, some, String, List, [], ◌∷◌, ◌≡◌, ◌≢◌, refl, if◌then◌else◌,
  ◌==◌, eq_refl, arith, inl, inr, Bool-cases,
}
use testring.Common.Dict.{get, set, delete, is_some, get-set, get-delete}
use testring.StoreServer.{Action, Status, Response, access, lock, unlink, release, done}
use testring.StoreClient.{
  call, is_ok, with_path, message, is_release, FsStoreClient, Meta, RequestItem, ask,
  release_request, on_response, fresh_id, item, requested, released, called,
}

abbrev pub answer : String → String → Action → Status → Response
answer id path action status = record {
  request_id = id;
  full_path = path;
  action = action;
  status = status;
}

some_inj : (x y : String) → some x ≡ some y → x ≡ y
some_inj x y h = cc

not_some : (o : Option RequestItem) → is_some o ≡ false → o ≡ none
not_some none h = refl
not_some (some r) h = cc

fresh_id-get :
    (ids : List String) (c : FsStoreClient) {id : String}
    → fresh_id ids c ≡ some id
    → get id c ≡ none
unfolding fresh_id
fresh_id-get [] c h = cc
fresh_id-get (first ∷ ids) c {id} h = elim (Bool-cases (is_some (get first c))) [
  | inl taken ↦ fresh_id-get ids c (rw taken at h)
  | inr free ↦
      let same : some first ≡ some id = rw free at h in
      subst (λ k. get k c ≡ none) (some_inj first id same) (not_some (get first c) free)
]

get-set_self : (id : String) (r : RequestItem) (c : FsStoreClient) → get id (set id r c) ≡ some r
get-set_self id r c = rw (get-set, eq_refl id) refl

is_release-false : (action : Action) → action ≢ release → is_release action ≡ false
is_release-false access h = refl
is_release-false lock h = refl
is_release-false unlink h = refl
is_release-false release h = absurd (h refl)

forgotten :
    (other id : String) (a b r : RequestItem) (c : FsStoreClient)
    → get other (delete id (set id a (set id b (set id r c))))
      ≡ (if id == other then none else get other c)
forgotten other id a b r c = ground (
  arith,
  get-delete id other (set id a (set id b (set id r c))),
  get-set id other a (set id b (set id r c)),
  get-set id other b (set id r c),
  get-set id other r c,
)

unknown_lem :
    (base_name : String → String) (id : String) (c : FsStoreClient)
    → get id c ≡ none
    → (path : String) → on_response base_name (answer id path release done) c ≡ ([], c)
unfolding on_response
unknown_lem base_name id c none_has path = rw none_has refl

module _ (base_name : String → String) (id : String) (r : RequestItem) (c : FsStoreClient)
    (found : get id c ≡ some r) where
  granted_lem :
      (path : String) (action : Action)
      → is_release r.action ≡ false
      → on_response base_name (answer id path action done) c
        ≡ (call r.callback path id, set id (with_path base_name path r) c)
  unfolding on_response
  granted_lem path action asks = rw (found, asks) refl

  freed_lem :
      (callback : Option ℕ)
      → release_request id callback c ≡ (
        true,
        released (message id r.action r.meta) ∷ [],
        set id (record r { action = release; callback = callback }) c,
      )
  unfolding release_request
  freed_lem callback = rw found refl

  ended_lem :
      (path : String) (action : Action)
      → is_release r.action ≡ true
      → on_response base_name (answer id path action done) c
        ≡ (call r.callback path id, delete id c)
  unfolding on_response
  ended_lem path action releases = rw (found, releases) refl

  -- A response that refuses runs the callback of the request with the path, as one that grants does,
  -- and changes nothing.
  refused_lem :
      (path : String) (action : Action) (status : Status)
      → is_ok status ≡ false
      → on_response base_name (answer id path action status) c ≡ (call r.callback path id, c)
  unfolding on_response
  refused_lem path action status refuses = rw (found, refuses) refl

-- Where one of the generated ids is free, a request is made under an id that no other request has:
-- it is sent with the action and the file name, and all other requests stay as they were. When the
-- store grants it, its callback runs with the path; when it is then released, the store is told the
-- action and the name of that path, and the answer to this runs the callback of the release and
-- forgets the request.
pub ask-release :
    (base_name : String → String) (action : Action) (meta : Meta) (callback later : ℕ)
    (ids : List String) (c : FsStoreClient) (path : String) {id : String}
    → action ≢ release
    → fresh_id ids c ≡ some id
    → let asked : FsStoreClient = set id (item action meta callback) c in
      let granted = on_response base_name (answer id path action done) asked in
      let freed = release_request id (some later) granted.1 in
      let ended = on_response base_name (answer id path release done) freed.2 in
      (get id c ≡ none)
      × (ask action meta callback ids c
          ≡ some (
            id,
            requested (record {
              request_id = id;
              action = action;
              file_name = meta.file_name;
              ext = meta.ext;
            })
                ∷ [],
            asked,
          ))
      × (granted.0 ≡ called callback path id ∷ [])
      × (freed.1
          ≡ released (record {
            request_id = id;
            action = action;
            file_name = some (base_name path);
            ext = meta.ext;
          })
            ∷ [])
      × (ended.0 ≡ called later path id ∷ [])
      × ((other : String) → get other ended.1 ≡ (if id == other then none else get other c))
unfolding ask
ask-release base_name action meta callback later ids c path {id} not_release free =
    let r = item action meta callback in
    let asked : FsStoreClient = set id r c in
    let own = with_path base_name path r in
    let freed = record own { action = release; callback = some later } in
    let asks = is_release-false action not_release in
    let at_first = granted_lem base_name id r asked (get-set_self id r c) path action asks in
    let has = get-set_self id own asked in
    let then_freed = freed_lem base_name id own (set id own asked) has (some later) in
    let gone = set id freed (set id own asked) in
    let at_last = ended_lem base_name id freed gone (get-set_self id freed _) path release refl in
    (
      fresh_id-get ids c free,
      rw free refl,
      rw at_first refl,
      rw (at_first, then_freed) refl,
      rw (at_first, then_freed, at_last) refl,
      λ other. rw (at_first, then_freed, at_last) (forgotten other id freed own r c),
    )

-- A request that is released before the store has granted it takes the grant for the answer to its
-- release: the callback of the release runs, the request is forgotten, and the answer to the release
-- that comes later finds nothing.
pub release-early :
    (base_name : String → String) (id path : String) (r : RequestItem) (later : ℕ)
    (c : FsStoreClient)
    → get id c ≡ some r
    → let freed = release_request id (some later) c in
      let granted = on_response base_name (answer id path r.action done) freed.2 in
      (granted.0 ≡ called later path id ∷ [])
      × (on_response base_name (answer id path release done) granted.1 ≡ ([], granted.1))
release-early base_name id path r later c found =
    let gone = record r { action = release; callback = some later } in
    let then_freed = freed_lem base_name id r c found (some later) in
    let at_last =
      ended_lem base_name id gone (set id gone c) (get-set_self id gone c) path r.action refl in
    (
      rw (then_freed, at_last) refl,
      rw (then_freed, at_last)
          (unknown_lem base_name id (delete id (set id gone c)) (rw (get-delete, eq_refl id) refl)
            path),
    )
