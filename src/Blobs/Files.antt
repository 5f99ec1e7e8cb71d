-- ===== src/Blobs/Files.antt =====
-- The file store is a map from paths to contents.
use agenthub_server.Base.{
  Text, ◌==◌, ◌≡◌, refl, ap, subst, Bool, true, false, not, none, some, List, [], ◌∷◌, ◌++◌, inl,
  inr, arith, find, where_rows, if◌then◌else◌, ◌∙◌, ==_iff, ==_refl, Bool-cases, find-append-none,
  find-append_miss,
}
use agenthub_server.Blobs.Store.{File, at_path, write_file, content_of}

module _ {ℓ} {A : Type ℓ} where
  find-where_rows-not :
      (p : A → Bool) (xs : List A) → find p (where_rows (λ x. not (p x)) xs) ≡ none
  unfolding find where_rows
  find-where_rows-not p [] = refl
  find-where_rows-not p (x ∷ xs) = ground (arith, find-where_rows-not p xs)

  find-where_rows_other :
      (p q : A → Bool) (xs : List A)
      → ((x : A) → q x ≡ true → p x ≡ false)
      → find q (where_rows (λ x. not (p x)) xs) ≡ find q xs
  unfolding find where_rows
  find-where_rows_other p q [] apart = refl
  find-where_rows_other p q (x ∷ xs) apart =
      ground (arith, apart x, find-where_rows_other p q xs apart)

-- A file that was written has the content, and every other path what it had.
pub find-write_file :
    (path other content : Text) (files : List File)
    → content_of none (find (at_path other) (write_file path content files))
      ≡ (if path == other then some content else content_of none (find (at_path other) files))
unfolding write_file
find-write_file path other content files = elim (Bool-cases (path == other)) [
  | inl same ↦ rw same (
      subst
        (λ p.
          content_of none
            (find (at_path p) (where_rows (λ f. not (at_path path f)) files ++ written ∷ []))
          ≡ some content)
        ((==_iff path other).0 same) overwritten)
  | inr differ ↦ rw differ (
      ap (content_of none) (
        find-append_miss (at_path other) (where_rows (λ f. not (at_path path f)) files) written
          differ
        ∙ find-where_rows_other (at_path path) (at_path other) files (λ f e.
          ground (arith, e, differ, ==_iff f.path path, ==_iff f.path other, ==_iff path other))))
]
  where
    written : File
    written = record { path = path; content = content }

    overwritten :
        content_of none
          (find (at_path path) (where_rows (λ f. not (at_path path f)) files ++ written ∷ []))
        ≡ some content
    overwritten =
        ap (content_of none) (
          find-append-none (at_path path) (where_rows (λ f. not (at_path path f)) files)
            (written ∷ []) (find-where_rows-not (at_path path) files))
        ∙ (unfold find in ground (arith, ==_refl path))
