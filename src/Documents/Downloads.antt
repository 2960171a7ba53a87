-- ===== src/Documents/Downloads.antt =====
-- What has been uploaded is what is downloaded.
use mentos_backend.Common.{
  ℕ, ◌≡◌, refl, sym, ap, ◌∙◌, Bool, true, false, some, List, [], ◌∷◌, ◌++◌, arith, any, first, ◌⊎◌,
  inl, inr, Text, same, same_refl,
}
use mentos_backend.Codes.Scheme.{document_codes, print_code}
use mentos_backend.Model.{Document, StoredFile, World, Request, Exception}
use mentos_backend.Orm.{Orm, Documented, reference, orm-eq-reference, ok, err}
use mentos_backend.Documents.{
  External, UploadedFile, UploadDocumentDto, uploaded_file, uploaded_row, without, stored, upload,
  find_by_code_or_fail,
}
use mentos_backend.Documents.Filed.{AreFiled, Others}
use mentos_backend.Documents.{download}
use mentos_backend.Documents.Stored.{Command, run_all, run_all-Kept}
use mentos_backend.Documents.Writes.{
  Left, with_document, owned-code, write_upload_cases, upload_cases,
}

first-append_new :
    {A : Type 0} (p : A → Bool) (a : A) (xs : List A)
    → any p xs ≡ false
    → p a ≡ true
    → first p (xs ++ a ∷ []) ≡ some a
first-append_new p a [] h t = ground arith
first-append_new p a (x ∷ xs) h t = ground (arith, first-append_new p a xs)

any-without :
    (key : Text) (files : List StoredFile) → any (λ f. same f.key key) (without key files) ≡ false
any-without key [] = refl
any-without key (f ∷ files) = ground (arith, any-without key files)

-- The object of an upload is found under its key.
first-stored :
    (file : StoredFile) (files : List StoredFile)
    → first (λ f. same f.key file.key) (stored file files) ≡ some file
first-stored file files =
    first-append_new (λ f. same f.key file.key) file (without file.key files)
      (any-without file.key files) (same_refl file.key)

downloaded :
    (ext : External) (code : Text) (a : Document) (file : StoredFile) (w : World)
    → ext.serves a.storage_key ≡ true
    → first (λ d. same d.code code) w.documents ≡ some a
    → first (λ f. same f.key a.storage_key) w.files ≡ some file
    → download reference ext code w ≡ (ok (a, file), w)
unfolding download find_by_code_or_fail
downloaded ext code a file w served row object = ground arith

-- the object with the bytes and the type of the upload
abbrev pub object_of : UploadedFile → Document → StoredFile
object_of file d = record { key = d.storage_key; body = file.buffer; mime_type = file.mime_type }

-- An upload returns a document that can be downloaded, or throws, and leaves at most the object.
abbrev pub Uploaded :
    Orm → External → Request → UploadDocumentDto → UploadedFile → ℕ → World → Type 0
Uploaded orm ext req dto file user_id w =
    ((d : Document) × (w' : World) × (upload orm ext req dto (some file) user_id w ≡ (ok d, w'))
      × (download orm ext d.code w' ≡ (ok (d, object_of file d), w')))
    ⊎ ((e : Exception) × (w' : World) × Left file w w'
        × (upload orm ext req dto (some file) user_id w ≡ (err e, w')))

written-downloaded :
    (ext : External) (req : Request) (dto : UploadDocumentDto) (file : UploadedFile)
    (id user_id n : ℕ) (w : World)
    → ((key : Text) → ext.serves key ≡ true)
    → Others (print_code document_codes n) w.documents
    → let d = uploaded_row req dto file id user_id (print_code document_codes n) in
      let w' = with_document (uploaded_file (print_code document_codes n) file) d w in
      download reference ext d.code w' ≡ (ok (d, object_of file d), w')
written-downloaded ext req dto file id user_id n w served unused =
    let code : Text = print_code document_codes n in
    let d : Document = uploaded_row req dto file id user_id code in
    let object : StoredFile = uploaded_file code file in
    let d_code : d.code ≡ code = (owned-code dto.owner_type id _).0 in
    let d_key : d.storage_key ≡ object.key = (owned-code dto.owner_type id _).1 in
    downloaded ext d.code d (object_of file d) (with_document object d w) (served d.storage_key)
      (first-append_new (λ (e : Document). same e.code d.code) d w.documents
        (ap (λ c. any (λ (e : Document). same e.code c) w.documents) d_code ∙ unused)
        (same_refl d.code))
      (ap (λ k. first (λ (f : StoredFile). same f.key k) (stored object w.files)) d_key
        ∙ first-stored object w.files
        ∙ ap (λ k. some (record object { key = k })) (sym d_key))

upload-reference :
    (ext : External) (req : Request) (dto : UploadDocumentDto) (file : UploadedFile) (user_id : ℕ)
    (w : World)
    → ((key : Text) → ext.serves key ≡ true)
    → AreFiled w.files w.documents
    → Uploaded reference ext req dto file user_id w
upload-reference ext req dto file user_id w served h =
    elim (upload_cases ext req dto file user_id w) [
      | inl (e, failed) ↦ inr (e, w, inl refl, failed)
      | inr (id, run) ↦ elim (write_upload_cases ext req dto file id user_id w h) [
        | inr (e, w', left, failed) ↦ inr (e, w', left, run ∙ failed)
        | inl (n, unused, done) ↦ inl (
          uploaded_row req dto file id user_id (print_code document_codes n),
          with_document (uploaded_file (print_code document_codes n) file)
              (uploaded_row req dto file id user_id (print_code document_codes n)) w,
          run ∙ done,
          written-downloaded ext req dto file id user_id n w served unused,
        )
      ]
    ]

run_all-reference :
    (ext : External) (cs : List Command) (req : Request) (dto : UploadDocumentDto)
    (file : UploadedFile) (user_id : ℕ) (w : World)
    → ((key : Text) → ext.serves key ≡ true)
    → AreFiled w.files w.documents
    → AreFiled (run_all reference ext cs w).files (run_all reference ext cs w).documents
      × Uploaded reference ext req dto file user_id (run_all reference ext cs w)
run_all-reference ext cs req dto file user_id w served h =
    let filed = run_all-Kept ext cs w h in
    (filed, upload-reference ext req dto file user_id (run_all reference ext cs w) served filed)

-- If no two documents share a code and each has its object in the storage, under a key that begins
-- with its code, then so it is after any uploads, lease agreements and removals, each of which may
-- fail, also in the storage. One more upload then returns a document whose download gives that
-- document with the bytes and the type of the upload, or it throws and leaves everything, but for
-- one case: where the name of the file is longer than its column, the row is refused after the file
-- has been stored, and the object stays under the next code. The storage hands out every object that
-- it has.
pub run_all-Uploaded :
    (orm : Orm)
    → Documented orm
    → (ext : External) (cs : List Command) (req : Request) (dto : UploadDocumentDto)
      (file : UploadedFile) (user_id : ℕ) (w : World)
    → ((key : Text) → ext.serves key ≡ true)
    → AreFiled w.files w.documents
    → AreFiled (run_all orm ext cs w).files (run_all orm ext cs w).documents
      × Uploaded orm ext req dto file user_id (run_all orm ext cs w)
run_all-Uploaded orm documented = rw (orm-eq-reference orm documented) run_all-reference
