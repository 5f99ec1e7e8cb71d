-- ===== src/Api/Blobs.antt =====
-- internal/api/blobs.go: the endpoints under /api/blobs.
pub mod Access
use agenthub_server.Base.{
  Text, str, ◌==◌, is_empty, Bool, true, false, not, ◌||◌, if◌then◌else◌, Option, none, some, [],
  ◌∷◌, has,
}
use agenthub_server.Base.Int.{ℤ, is_zero, is_negative, pos}
use agenthub_server.World.{World, Env, Outcome, new_id, ok, err}
use agenthub_server.Auth.Jwt.{JwtSigner}
use agenthub_server.Auth.Middleware.{Identity, Gate, require_auth_or_token, serve, reject}
use agenthub_server.Blobs.{BlobObject, create_blob, get_blob_by_id}
use agenthub_server.Blobs.Store.{Blob}
use agenthub_server.Api.{
  Reply, Served, send_reply, handle, fails_with, decoded, with_auth_or_token, write_json,
  write_error, write_header, http_error, blob_created,
}

pub record PresignReq : Type 0 where
  pub content_type : Text
  pub size_bytes : ℤ
  pub sha256 : Text

pub record Presigned : Type 0 where
  pub put_url : Text
  pub object_id : Text

-- A reply that describes an object, with the URL to download it
pub record BlobReply : Type 0 where
  pub object : BlobObject
  pub download_url : Text

-- The bytes that are sent of an object, and the Content-Type header, if the handler sets it
pub record Download : Type 0 where
  pub content_type : Option Text
  pub content : Text

-- What a handler has done, with the store that it leaves.
pub record StoreServed (S : Type 0) (A : Type 0) : Type 0 where
  pub served : Served A
  pub store : S

abbrev pub reply_to : {S : Type 0} {A : Type 0} → Reply A → World → S → StoreServed S A
reply_to r w s = record { served = send_reply r w; store = s }

-- http.Error of the middleware, or the handler
abbrev pub behind_gate :
    {S : Type 0} {A : Type 0}
    → Outcome Gate
    → (Identity → World → S → StoreServed S A)
    → S
    → StoreServed S A
behind_gate (ok (serve c) w) h s = h c w s
behind_gate (ok (reject status) w) h s = reply_to (http_error status) w s
behind_gate (err e w) h s = reply_to (http_error 500) w s

-- store.PresignPut
unfoldable pub presigned : Text → Option Text → World → Served Presigned
presigned object_id none w = send_reply (write_error 500 (str "presign_failed")) w
presigned object_id (some url) w =
    send_reply (write_json 200 (record { put_url = url; object_id = object_id })) w

-- in.ContentType == "" || in.SizeBytes <= 0
abbrev pub is_bad_presign : PresignReq → Bool
is_bad_presign i = is_empty i.content_type || is_zero i.size_bytes || is_negative i.size_bytes

abbrev pub uploaded : {S : Type 0} → Bool × S → World → StoreServed S (Unit {0})
uploaded (true, s) w = reply_to (write_header 204) w s
uploaded (false, s) w = reply_to (write_error 500 (str "upload_failed")) w s

-- dlURL, _ := store.PresignGet(...)
abbrev pub url_or_empty : Option Text → Text
url_or_empty none = []
url_or_empty (some url) = url

-- The object, with the metadata of a body that decodes
abbrev pub committed_object : Identity → Text → Option PresignReq → BlobObject
committed_object c id none = record {
  id = id;
  account_id = c.account_id;
  key = id;
  content_type = [];
  size_bytes = pos 0;
  sha256 = [];
  created_by_user_id = c.user_id;
  created_at = none;
}
committed_object c id (some b) = record {
  id = id;
  account_id = c.account_id;
  key = id;
  content_type = b.content_type;
  size_bytes = b.size_bytes;
  sha256 = b.sha256;
  created_by_user_id = c.user_id;
  created_at = none;
}

abbrev pub blob_not_found {ℓ} : {B : Type ℓ} → World → Served B
blob_not_found w = send_reply (write_error 404 (str "not_found")) w

-- if obj.ContentType != ""
abbrev pub header_of : Text → Option Text
header_of content_type = if is_empty content_type then none else some content_type

-- store.Get, and io.Copy, which sends what the reader yields; its error comes after the status and is
-- not looked at.
abbrev pub sent : BlobObject → Option Text → World → Served Download
sent o none w = send_reply (write_error 500 (str "read_failed")) w
sent o (some content) w =
    send_reply
      (write_json 200 (record { content_type = header_of o.content_type; content = content })) w

module _ {S : Type 0} (store : Blob S) where
  unfoldable pub presign_blob_handler : Env → Option PresignReq → World → Served Presigned
  unfolding new_id
  presign_blob_handler env body = decoded body (λ i w. elim (is_bad_presign i) [
    | true ↦ send_reply (write_error 400 (str "invalid_params")) w
    | false ↦
        handle (new_id env w)
          (λ object_id.
            presigned object_id (store.presign_put object_id i.content_type i.size_bytes))
          (fails_with 500 (str "presign_failed"))
  ])

  -- The handler does not look at the caller.
  unfoldable pub upload_blob_handler : Text → Text → Identity → World → S → StoreServed S (Unit {0})
  upload_blob_handler id content c w s = uploaded (store.put id content s) w

  unfoldable pub upload_route :
      Env → JwtSigner → Text → Text → Text → World → S → StoreServed S (Unit {0})
  upload_route env signer header id content w s =
      behind_gate (require_auth_or_token env signer header w) (upload_blob_handler id content) s

  abbrev pub commit_served : BlobObject → World → Served BlobReply
  commit_served o w = record {
    reply = write_json 200 (record {
      object = record o { created_at = some w.now };
      download_url = url_or_empty (store.presign_get o.id);
    });
    published =
        record {
          account_id = o.account_id;
          event = blob_created o.id o.content_type o.size_bytes o.sha256;
        }
        ∷ [];
    world = w;
  }

  unfoldable pub commit_object : BlobObject → World → Served BlobReply
  commit_object o w =
      handle (create_blob o w) (λ t. commit_served o) (fails_with 500 (str "commit_failed"))

  -- The answer of store.Exists
  abbrev pub commit_if : Option Bool → BlobObject → World → Served BlobReply
  commit_if none o w = send_reply (write_error 500 (str "check_failed")) w
  commit_if (some false) o w = send_reply (write_error 400 (str "upload_missing")) w
  commit_if (some true) o w = commit_object o w

  unfoldable pub commit_blob_handler :
      Text → Option PresignReq → Identity → World → S → Served BlobReply
  commit_blob_handler id body c w s = commit_if (store.exists id s) (committed_object c id body) w

  unfoldable pub get_blob_handler : Text → Identity → World → Served BlobReply
  get_blob_handler id c w =
      handle (get_blob_by_id c.account_id id w)
        (λ o. send_reply (
          write_json 200
            (record { object = o; download_url = url_or_empty (store.presign_get id) })))
        (λ e. blob_not_found)

  unfoldable pub download_blob_handler : Text → S → Identity → World → Served Download
  download_blob_handler id s c w =
      handle (get_blob_by_id c.account_id id w) (λ o. sent o (store.get id s)) (λ e. blob_not_found)

  unfoldable pub download_route : Env → JwtSigner → Text → Text → World → S → Served Download
  download_route env signer header id w s =
      with_auth_or_token env signer header (download_blob_handler id s) w
