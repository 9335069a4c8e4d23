-- ===== src/StoreClient/Tests.antt =====
-- core/fs-store/src/fs-store-client.ts: a client with one request.
use testring.Common.{none, some, String, [], ◌∷◌, ◌≡◌, refl, if◌then◌else◌, ◌==◌}
use testring.Common.Dict.{get, set}
use testring.StoreServer.{access, lock, release, done, impossible_to_access}
use testring.StoreClient.{
  FsStoreClient, Meta, ask, release_request, on_response, fresh_id, item, requested, released,
  called,
}
use testring.StoreClient.Laws.{answer, ask-release, release-early}

abbrev base : String → String
base path = "a.txt"

abbrev text_file : Meta
text_file = record { file_name = none; ext = some "txt" }

abbrev busy : FsStoreClient
busy = ("1", item access text_file 7) ∷ []

refused :
    on_response base (answer "1" "/tmp/a.txt" access impossible_to_access) busy
    ≡ (called 7 "/tmp/a.txt" "1" ∷ [], busy)
unfolding on_response get
refused = refl

ask-release_example :
    let asked : FsStoreClient = set "2" (item lock text_file 8) busy in
    let granted = on_response base (answer "2" "/tmp/a.txt" lock done) asked in
    let freed = release_request "2" (some 9) granted.1 in
    let ended = on_response base (answer "2" "/tmp/a.txt" release done) freed.2 in
    (get "2" busy ≡ none)
    × (ask lock text_file 8 ("1" ∷ "2" ∷ []) busy
        ≡ some (
          "2",
          requested (record { request_id = "2"; action = lock; file_name = none; ext = some "txt" })
              ∷ [],
          asked,
        ))
    × (granted.0 ≡ called 8 "/tmp/a.txt" "2" ∷ [])
    × (freed.1
        ≡ released
            (record { request_id = "2"; action = lock; file_name = some "a.txt"; ext = some "txt" })
          ∷ [])
    × (ended.0 ≡ called 9 "/tmp/a.txt" "2" ∷ [])
    × ((other : String) → get other ended.1 ≡ (if "2" == other then none else get other busy))
unfolding fresh_id get
ask-release_example =
    ask-release base lock text_file 8 9 ("1" ∷ "2" ∷ []) busy "/tmp/a.txt" (λ e. cc) refl

release-early_example :
    let freed = release_request "1" (some 9) busy in
    let granted = on_response base (answer "1" "/tmp/a.txt" access done) freed.2 in
    (granted.0 ≡ called 9 "/tmp/a.txt" "1" ∷ [])
    × (on_response base (answer "1" "/tmp/a.txt" release done) granted.1 ≡ ([], granted.1))
unfolding get
release-early_example = release-early base "1" "/tmp/a.txt" (item access text_file 7) 9 busy refl
