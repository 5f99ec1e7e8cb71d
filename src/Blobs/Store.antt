-- ===== src/Blobs/Store.antt =====
-- internal/blob/blob.go: the interface of an object store, and the store in files.
use agenthub_server.Base.{
  Text, str, ◌==◌, ℕ, Bool, true, false, not, ◌&&◌, Option, none, some, List, [], ◌∷◌, ◌++◌, take,
  find, has, where_rows,
}
use agenthub_server.Base.Int.{ℤ}

-- The Blob interface over the state of a store; a call that returns false or `none` returned an error.
-- Of the reader that Get returns, the model has the bytes that it yields until it ends or fails.
pub record Blob (S : Type 0) : Type 0 where
  pub presign_put : Text → Text → ℤ → Option Text
  pub presign_get : Text → Option Text
  pub put : Text → Text → S → Bool × S
  pub get : Text → S → Option Text
  pub exists : Text → S → Option Bool
  pub delete : Text → S → Bool × S

pub record FileBlobOptions : Type 0 where
  pub base_path : Text
  pub base_url : Text

pub record File : Type 0 where
  pub path : Text
  pub content : Text

-- The file system: its files, the paths whose files the system refuses to make or remove, the ones
-- that it refuses to open, the ones of which it cannot say whether they exist, and where writing or
-- reading a file stops short.
pub record Disk : Type 0 where
  pub files : List File
  pub refuses : Text → Bool
  pub locks : Text → Bool
  pub hides : Text → Bool
  pub stops_at : Text → Option ℕ
  pub reads_to : Text → Option ℕ

abbrev pub at_path : Text → File → Bool
at_path path f = f.path == path

-- os.Create and io.Copy: the file has the content instead of what it had.
unfoldable pub write_file : Text → Text → List File → List File
write_file path content files =
    where_rows (λ f. not (at_path path f)) files ++ record { path = path; content = content } ∷ []

abbrev pub copied : Text → Text → Option ℕ → Disk → Bool × Disk
copied path content none d = (true, record d { files = write_file path content d.files })
copied path content (some n) d =
    (false, record d { files = write_file path (take n content) d.files })

-- Put, where `path` is f.path(key)
unfoldable pub put_file : Text → Text → Disk → Bool × Disk
put_file path content d = elim (d.refuses path) [
  | true ↦ (false, d)
  | false ↦ copied path content (d.stops_at path) d
]

-- What the reader of a file yields until it ends or fails
abbrev pub cut_at : Option ℕ → Text → Text
cut_at none content = content
cut_at (some n) content = take n content

abbrev pub content_of : Option ℕ → Option File → Option Text
content_of stop none = none
content_of stop (some f) = some (cut_at stop f.content)

unfoldable pub get_file : Text → Disk → Option Text
get_file path d = elim (d.locks path) [
  | true ↦ none
  | false ↦ content_of (d.reads_to path) (find (at_path path) d.files)
]

unfoldable pub file_exists : Text → Disk → Option Bool
file_exists path d = elim (d.hides path) [ true ↦ none | false ↦ some (has (at_path path) d.files) ]

unfoldable pub delete_file : Text → Disk → Bool × Disk
delete_file path d = elim (has (at_path path) d.files && d.refuses path) [
  | true ↦ (false, d)
  | false ↦ (true, record d { files = where_rows (λ f. not (at_path path f)) d.files })
]

-- NewFileBlob; `join` is filepath.Join.
unfoldable pub file_blob : (Text → Text → Text) → FileBlobOptions → Blob Disk
file_blob join o = record {
  presign_put = λ key content_type size. some (o.base_url ++ (str "/upload/" ++ key));
  presign_get = λ key. some (o.base_url ++ (str "/download/" ++ key));
  put = λ key. put_file (join o.base_path key);
  get = λ key. get_file (join o.base_path key);
  exists = λ key. file_exists (join o.base_path key);
  delete = λ key. delete_file (join o.base_path key);
}
