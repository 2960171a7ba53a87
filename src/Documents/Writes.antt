-- ===== src/Documents/Writes.antt =====
-- What an upload and a lease agreement write, where the documents are filed.
use mathlib.Core.Path.{subst}
use mentos_backend.Common.{
  ℕ, ◌≡◌, refl, sym, ap, ◌∙◌, Bool, ◌==◌, true, false, some, List, [], ◌∷◌, ◌++◌, arith, any, map,
  ◌⊎◌, Bool-cases, inl, inr, Text, same, same_refl, any-append,
}
use mentos_backend.Codes.Scheme.{document_codes, print_code, next_code}
use mentos_backend.Codes.Column.{IsColumn, next_number, next_code-IsColumn, unused-IsColumn}
use mentos_backend.Model.{
  Property, RentalUnit, Tenant, Lease, Document, StoredFile, World, Request, Exception,
  storage_failed, query_failed, file_required,
}
use mentos_backend.Orm.{reference, ok, err, Outcome-cases}
use mentos_backend.Documents.{
  External, UploadedFile, UploadDocumentDto, put_documents, uploaded_file, fits_name, uploaded_row,
  agreement, agreement_file, without, stored, generate_lease_agreement, resolve_owner_entity_id,
  write_upload, upload,
}
use mentos_backend.Documents.Owners.{OwnerType, owned}
use mentos_backend.Documents.Filed.{
  key_of, Holds, AreFiled, Others, AreFiled-stored, AreFiled-append,
}

numbers_of : (files : List StoredFile) (ds : List Document) → AreFiled files ds → List ℕ
numbers_of files [] h = []
numbers_of files (d ∷ ds) (_, (n, _, _, _, _), rest) = n ∷ numbers_of files ds rest

numbers_of-IsColumn :
    (files : List StoredFile) (ds : List Document) (h : AreFiled files ds)
    → IsColumn (λ (d : Document). d.code) document_codes (numbers_of files ds h) ds
unfolding numbers_of
numbers_of-IsColumn files [] h = refl
numbers_of-IsColumn files (d ∷ ds) (_, (n, name, c, _, _), rest) =
    ap (λ (code : Text). code ∷ map (λ (e : Document). e.code) ds) c
    ∙ ap (λ codes. print_code document_codes n ∷ codes) (numbers_of-IsColumn files ds rest)

-- There is a next code, and no row has it.
pub next_document_code-Others :
    (files : List StoredFile) (ds : List Document)
    → AreFiled files ds
    → (n : ℕ) × (next_code document_codes (map (λ (d : Document). d.code) ds)
        ≡ some (print_code document_codes n))
      × Others (print_code document_codes n) ds
next_document_code-Others files ds h =
    let ns : List ℕ = numbers_of files ds h in
    let column = numbers_of-IsColumn files ds h in
    (
      next_number document_codes ns,
      next_code-IsColumn document_codes (λ t. refl) refl (λ (d : Document). d.code) ds ns column,
      unused-IsColumn document_codes (λ t. refl) refl (λ (d : Document). d.code) ds ns column,
    )

Holds-new : (file : StoredFile) (files : List StoredFile) → Holds (stored file files) file.key
Holds-new file files =
    any-append (λ (f : StoredFile). same f.key file.key) (without file.key files) (file ∷ [])
    ∙ ground (arith, same_refl file.key)

-- An object is stored, and the row that names it inserted.
pub AreFiled-insert :
    (n : ℕ) (name : Text) (file : StoredFile) (d : Document) (files : List StoredFile)
    (ds : List Document)
    → AreFiled files ds
    → Others (print_code document_codes n) ds
    → d.code ≡ print_code document_codes n
    → d.storage_key ≡ file.key
    → file.key ≡ key_of n name
    → AreFiled (stored file files) (ds ++ d ∷ [])
AreFiled-insert n name file d files ds h unused code key name_key =
    AreFiled-append (stored file files) d ds (AreFiled-stored file files ds h)
      (ap (λ c. has_code c ds) code ∙ unused)
      (
        n,
        name,
        code,
        key ∙ name_key,
        subst (Holds (stored file files)) (sym key) (Holds-new file files),
      )
  where
    has_code : Text → List Document → Bool
    has_code c ds = any (λ (e : Document). same e.code c) ds

abbrev pub Kept : World → Type 0
Kept w = AreFiled w.files w.documents

-- the storage, and the documents, with one more
abbrev pub with_document : StoredFile → Document → World → World
with_document file d w =
    put_documents (record w { files = stored file w.files }) (w.documents ++ d ∷ [])

module _ (ext : External) (w : World) (code : Text)
    (next : next_code document_codes (map (λ (d : Document). d.code) w.documents) ≡ some code) where
  pub generated :
      (id : ℕ) (lease : Lease) (tenant : Tenant) (unit : RentalUnit) (property : Property)
      → ext.accepts (agreement_file code (ext.render lease tenant unit property)) ≡ true
      → Others code w.documents
      → reference.transaction
          (generate_lease_agreement reference ext id lease tenant unit property)
          w
        ≡ (
          ok tt,
          with_document
              (agreement_file code (ext.render lease tenant unit property))
              (agreement id code lease tenant (ext.render lease tenant unit property))
              w,
        )
  unfolding generate_lease_agreement
  generated id lease tenant unit property accepted unused = ground arith

  pub not_generated :
      (id : ℕ) (lease : Lease) (tenant : Tenant) (unit : RentalUnit) (property : Property)
      → ext.accepts (agreement_file code (ext.render lease tenant unit property)) ≡ false
      → (reference.transaction
          (generate_lease_agreement reference ext id lease tenant unit property)
          w).1
        ≡ w
  unfolding generate_lease_agreement
  not_generated id lease tenant unit property refused = ground arith

pub owned-code :
    (o : OwnerType) (id : ℕ) (d : Document)
    → ((owned o id d).code ≡ d.code) × ((owned o id d).storage_key ≡ d.storage_key)
owned-code OwnerType.property id d = (refl, refl)
owned-code OwnerType.unit id d = (refl, refl)
owned-code OwnerType.tenant id d = (refl, refl)
owned-code OwnerType.lease id d = (refl, refl)
owned-code OwnerType.invoice id d = (refl, refl)
owned-code OwnerType.payment id d = (refl, refl)
owned-code OwnerType.maintenance id d = (refl, refl)

abbrev pub with_object : StoredFile → World → World
with_object file w = record w { files = stored file w.files }

-- what an upload that fails leaves: everything, or, if the name does not fit into its column,
-- everything but the object, which is under the next code
abbrev pub Left : UploadedFile → World → World → Type 0
Left file w w' =
    (w' ≡ w)
    ⊎ ((fits_name file ≡ false)
        × (code : Text) × (next_code document_codes (map (λ (d : Document). d.code) w.documents)
            ≡ some code)
        × (w' ≡ with_object (uploaded_file code file) w))

module _ (ext : External) (req : Request) (dto : UploadDocumentDto) (file : UploadedFile)
    (id user_id : ℕ) (w : World) where
  module _ (code : Text)
      (next : next_code document_codes (map (λ (d : Document). d.code) w.documents)
        ≡ some code) where
    abbrev row : Document
    row = uploaded_row req dto file id user_id code

    written :
        ext.accepts (uploaded_file code file) ≡ true
        → fits_name file ≡ true
        → Others row.code w.documents
        → reference.transaction (write_upload reference ext req dto file id user_id) w
          ≡ (ok row, with_document (uploaded_file code file) row w)
    unfolding write_upload
    written accepted fits unused = ground arith

    unfit :
        ext.accepts (uploaded_file code file) ≡ true
        → fits_name file ≡ false
        → reference.transaction (write_upload reference ext req dto file id user_id) w
          ≡ (err query_failed, with_object (uploaded_file code file) w)
    unfolding write_upload
    unfit accepted long = ground arith

    not_written :
        ext.accepts (uploaded_file code file) ≡ false
        → reference.transaction (write_upload reference ext req dto file id user_id) w
          ≡ (err storage_failed, w)
    unfolding write_upload
    not_written refused = ground arith

  -- A write to the storage and the table returns the new row, or it leaves the tables, and in the
  -- storage at most the object under the code that the row would have got.
  pub write_upload_cases :
      Kept w
      → ((n : ℕ) × Others (print_code document_codes n) w.documents
          × (reference.transaction (write_upload reference ext req dto file id user_id) w ≡ (
            ok (uploaded_row req dto file id user_id (print_code document_codes n)),
            with_document
                (uploaded_file (print_code document_codes n) file)
                (uploaded_row req dto file id user_id (print_code document_codes n))
                w,
          )))
        ⊎ ((e : Exception) × (w' : World) × Left file w w'
            × (reference.transaction (write_upload reference ext req dto file id user_id) w
                ≡ (err e, w')))
  write_upload_cases h =
      let (n, next, unused) = next_document_code-Others w.files w.documents h in
      let code : Text = print_code document_codes n in
      let unused_row : Others (row code next).code w.documents =
        ap (λ c. any (λ (d : Document). same d.code c) w.documents)
          (owned-code dto.owner_type id _).0
        ∙ unused in
      elim (Bool-cases (ext.accepts (uploaded_file code file))) [
        | inr refused ↦ inr (storage_failed, w, inl refl, not_written code next refused)
        | inl accepted ↦ elim (Bool-cases (fits_name file)) [
          | inl fits ↦ inl (n, unused, written code next accepted fits unused_row)
          | inr long ↦ inr (
            query_failed,
            with_object (uploaded_file code file) w,
            inr (long, code, next, refl),
            unfit code next accepted long,
          )
        ]
      ]

resolve-same :
    (ext : External) (o : OwnerType) (code : Text) (w : World)
    → (resolve_owner_entity_id reference ext o code w).1 ≡ w
unfolding resolve_owner_entity_id
resolve-same ext OwnerType.property code w = ground arith
resolve-same ext OwnerType.unit code w = ground arith
resolve-same ext OwnerType.tenant code w = ground arith
resolve-same ext OwnerType.lease code w = ground arith
resolve-same ext OwnerType.invoice code w = ground arith
resolve-same ext OwnerType.payment code w = ground arith
resolve-same ext OwnerType.maintenance code w = ground arith

-- An upload fails before its transaction and leaves everything, or it is its transaction.
pub upload_cases :
    (ext : External) (req : Request) (dto : UploadDocumentDto) (file : UploadedFile) (user_id : ℕ)
    (w : World)
    → ((e : Exception) × (upload reference ext req dto (some file) user_id w ≡ (err e, w)))
      ⊎ ((id : ℕ) × (upload reference ext req dto (some file) user_id w
            ≡ reference.transaction (write_upload reference ext req dto file id user_id) w))
unfolding upload
upload_cases ext req dto file user_id w = elim (Bool-cases (file.size == 0)) [
  | inl empty ↦ inl (file_required, ground arith)
  | inr full ↦
      elim (Outcome-cases (resolve_owner_entity_id reference ext dto.owner_type dto.owner_id w)) [
        | inl (id, w', e) ↦
            let same_w : w' ≡ w =
              sym (ap (λ r. r.1) e) ∙ resolve-same ext dto.owner_type dto.owner_id w in
            inr (id, ground arith)
        | inr (x, w', e) ↦
            let same_w : w' ≡ w =
              sym (ap (λ r. r.1) e) ∙ resolve-same ext dto.owner_type dto.owner_id w in
            inl (x, ground arith)
      ]
]
