-- ===== src/Api/Blobs/Access.antt =====
-- Who reads and who writes the bytes of an object.
use agenthub_server.Base.{
  ap, Text, ◌==◌, ◌&&◌, ◌≡◌, refl, sym, true, false, Option, none, some, [], arith, find, ◌∙◌,
  ==_refl,
}
use agenthub_server.Schema.{BlobRow}
use agenthub_server.World.{World, Env, Outcome, world_of, query_row, exec, exec_update, ok, err}
use agenthub_server.Auth.Jwt.{JwtSigner, parse}
use agenthub_server.Auth.Sessions.{check_session_active}
use agenthub_server.Auth.ApiTokens.{touch_api_token, lookup_api_token}
use agenthub_server.Auth.Middleware.{
  Identity, Gate, session_identity, token_identity, require_auth_or_token, serve, reject,
}
use agenthub_server.Blobs.{BlobObject, blob_of, get_blob_by_id}
use agenthub_server.Blobs.Store.{Blob, FileBlobOptions, Disk, put_file, get_file, file_blob}
use agenthub_server.Blobs.Files.{find-write_file}
use agenthub_server.Api.{Served, handle_lem, behind, with_auth_or_token, write_json, write_header}
use agenthub_server.Api.Blobs.{
  Download, header_of, sent, upload_blob_handler, upload_route, download_blob_handler,
  download_route,
}

got_lem :
    (account_id id : Text) (w : World) {o : BlobObject} {v : World}
    → get_blob_by_id account_id id w ≡ ok o v
    → (r : BlobRow) × (find (blob_of account_id id) w.db.blobs ≡ some r)
      × (o.content_type ≡ r.content_type)
unfolding get_blob_by_id
got_lem account_id id w {o} {v} h = by_row (find (blob_of account_id id) w.db.blobs) refl
  where
    by_row :
        (row : Option BlobRow)
        → find (blob_of account_id id) w.db.blobs ≡ row
        → (r : BlobRow) × (find (blob_of account_id id) w.db.blobs ≡ some r)
          × (o.content_type ≡ r.content_type)
    by_row none e = ground arith
    by_row (some r) e = (r, e, ground arith)

sent-json :
    (o : BlobObject) (content : Option Text) (w : World) {d : Download}
    → (sent o content w).reply ≡ write_json 200 d
    → (d.content_type ≡ header_of o.content_type) × (content ≡ some d.content)
sent-json o none w h = (ground arith, ground arith)
sent-json o (some content) w h = (ground arith, ground arith)

sent_lem :
    {S : Type 0} (store : Blob S) (id : Text) (s : S) (c : Identity) (w : World) {d : Download}
    → (download_blob_handler store id s c w).reply ≡ write_json 200 d
    → (r : BlobRow) × (find (blob_of c.account_id id) w.db.blobs ≡ some r)
      × (d.content_type ≡ header_of r.content_type)
      × (store.get id s ≡ some d.content)
unfolding download_blob_handler
sent_lem store id s c w {d} =
    handle_lem
      (λ (x : Served Download).
        x.reply ≡ write_json 200 d
        → (r : BlobRow) × (find (blob_of c.account_id id) w.db.blobs ≡ some r)
          × (d.content_type ≡ header_of r.content_type)
          × (store.get id s ≡ some d.content))
      (get_blob_by_id c.account_id id w) _ _
      (λ o v got h.
        let (r, there, kind) = got_lem c.account_id id w got in
        let (same, content) = sent-json o (store.get id s) v h in
        (r, there, same ∙ ap header_of kind, content))
      (λ e v got h. ground arith)

gate-blobs :
    (env : Env) (signer : JwtSigner) (header : Text) (w : World)
    → (world_of (require_auth_or_token env signer header w)).db.blobs ≡ w.db.blobs
unfolding require_auth_or_token session_identity token_identity parse check_session_active
    lookup_api_token touch_api_token query_row exec_update exec
gate-blobs env signer header w = ground arith

-- The reply of a download tells whom it was served to.
abbrev pub IsEntitled : {S : Type 0} → Blob S → Text → S → World → Outcome Gate → Download → Type 0
IsEntitled store id s w (ok (serve c) v) d =
    (r : BlobRow) × (find (λ (r : BlobRow). r.id == id && r.account_id == c.account_id) w.db.blobs
      ≡ some r)
    × (d.content_type ≡ header_of r.content_type)
    × (store.get id s ≡ some d.content)
IsEntitled store id s w (ok (reject status) v) d = ⊥
IsEntitled store id s w (err e v) d = ⊥

-- A download that answers 200 was asked for by a caller whom RequireAuthOrToken let in, and for whose
-- account there is a row of the id; the reply has the row's content type, if that is not empty, and the
-- bytes that the store yields under the id.
pub download_sound :
    {S : Type 0} (store : Blob S) (env : Env) (signer : JwtSigner) (header id : Text) (w : World)
    (s : S) {d : Download}
    → (download_route store env signer header id w s).reply ≡ write_json 200 d
    → IsEntitled store id s w (require_auth_or_token env signer header w) d
unfolding download_route with_auth_or_token
download_sound store env signer header id w s {d} h =
    by_gate (require_auth_or_token env signer header w) (gate-blobs env signer header w) h
  where
    by_gate :
        (o : Outcome Gate)
        → (world_of o).db.blobs ≡ w.db.blobs
        → (behind o (download_blob_handler store id s)).reply ≡ write_json 200 d
        → IsEntitled store id s w o d
    by_gate (ok (serve c) v) same e =
        let (r, there, kind, content) = sent_lem store id s c v e in
        (r, rw (sym same) there, kind, content)
    by_gate (ok (reject status) v) same e = ground arith
    by_gate (err x v) same e = ground arith

-- The file store returns what was put last under a key; other paths are as they were.
put_get :
    (path content : Text) (s : Disk)
    → s.refuses path ≡ false
    → s.stops_at path ≡ none
    → s.locks path ≡ false
    → s.reads_to path ≡ none
    → ((put_file path content s).0 ≡ true)
      × (get_file path (put_file path content s).1 ≡ some content)
unfolding put_file get_file
put_get path content s allowed whole open_to read = (
  ground (arith, allowed, whole),
  ground (
    arith,
    allowed,
    whole,
    open_to,
    read,
    find-write_file path path content s.files,
    ==_refl path,
  ),
)

-- PUT /api/blobs/upload/{id} asks only for a caller who is let in. Where the file system takes the
-- whole content and gives it back, the reply is 204, and the owner of the object, if the database does not fail, then
-- downloads that content under the type of the object's row: whoever uploaded it, and whatever was
-- stored under the id before.
pub download-upload :
    (join : Text → Text → Text) (o : FileBlobOptions) (env : Env) (signer : JwtSigner)
    (header id content : Text) (uploader reader : Identity) (w v u : World) (s : Disk) (r : BlobRow)
    → require_auth_or_token env signer header w ≡ ok (serve uploader) v
    → s.refuses (join o.base_path id) ≡ false
    → s.stops_at (join o.base_path id) ≡ none
    → s.locks (join o.base_path id) ≡ false
    → s.reads_to (join o.base_path id) ≡ none
    → find (blob_of reader.account_id id) u.db.blobs ≡ some r
    → u.faults ≡ []
    → ((upload_route (file_blob join o) env signer header id content w s).served.reply
        ≡ write_header 204)
      × ((download_blob_handler
            (file_blob join o)
            id
            (upload_route (file_blob join o) env signer header id content w s).store
            reader
            u).reply
          ≡ write_json 200 (record { content_type = header_of r.content_type; content = content }))
unfolding upload_route upload_blob_handler file_blob download_blob_handler get_blob_by_id
download-upload join o env signer header id content uploader reader w v u s r let_in allowed whole
      open_to read there calm =
    let (done, kept) = put_get (join o.base_path id) content s allowed whole open_to read in
    (ground (arith, let_in, done), ground (arith, let_in, done, kept, there, calm))
