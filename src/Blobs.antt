-- ===== src/Blobs.antt =====
-- internal/blobs and internal/blob: the metadata of the stored objects, and the file store.
pub mod Store
pub mod Files
use agenthub_server.Base.{
  Text, ◌==◌, is_empty, ℕ, Bool, not, ◌&&◌, ◌||◌, Option, none, some, List, map, find, where_rows,
  order_desc,
}
use agenthub_server.Base.Int.{ℤ}
use agenthub_server.Schema.{BlobRow}
use agenthub_server.Schema.Inserts.{insert_blob}
use agenthub_server.World.{
  World, M, ◌>>◌, require, seconds_now, query, query_row, exec, exec_update, bad_input,
}

pub record BlobObject : Type 0 where
  pub id : Text
  pub account_id : Text
  pub key : Text
  pub content_type : Text
  pub size_bytes : ℤ
  pub sha256 : Text
  pub created_by_user_id : Text
  pub created_at : Option ℕ

abbrev pub blob_row : BlobObject → World → BlobRow
blob_row o w = record {
  id = o.id;
  account_id = o.account_id;
  key = o.key;
  content_type = o.content_type;
  size_bytes = o.size_bytes;
  sha256 = o.sha256;
  created_by_user_id = o.created_by_user_id;
  created_at = seconds_now w;
}

-- Create
unfoldable pub create_blob : BlobObject → M (Unit {0})
unfolding exec
create_blob o = do
  require
      (not
        (is_empty o.id || is_empty o.account_id || is_empty o.key || is_empty o.created_by_user_id))
      bad_input
  exec (λ w. insert_blob w.db (blob_row o w))

abbrev pub scan_blob : BlobRow → BlobObject
scan_blob r = record {
  id = r.id;
  account_id = r.account_id;
  key = r.key;
  content_type = r.content_type;
  size_bytes = r.size_bytes;
  sha256 = r.sha256;
  created_by_user_id = r.created_by_user_id;
  created_at = some r.created_at;
}

abbrev pub scanned_blob : Option BlobRow → Option BlobObject
scanned_blob none = none
scanned_blob (some r) = some (scan_blob r)

-- WHERE id = ? AND account_id = ?
abbrev pub blob_of : Text → Text → BlobRow → Bool
blob_of account_id i r = r.id == i && r.account_id == account_id

-- GetByID
unfoldable pub get_blob_by_id : Text → Text → M BlobObject
unfolding query_row
get_blob_by_id account_id i = query_row (λ w. scanned_blob (find (blob_of account_id i) w.db.blobs))

-- ListForAccount
unfoldable pub list_blobs : Text → M (List BlobObject)
unfolding query
list_blobs account_id = query (λ w. map scan_blob (
    order_desc (λ (r : BlobRow). r.created_at)
      (where_rows (λ (r : BlobRow). r.account_id == account_id) w.db.blobs)))

-- Delete
unfoldable pub delete_blob : Text → Text → M (Unit {0})
unfolding exec_update
delete_blob account_id i =
    exec_update
      (λ w. record (w.db) { blobs = where_rows (λ r. not (blob_of account_id i r)) w.db.blobs })
