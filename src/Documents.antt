-- ===== src/Documents.antt =====
-- documents/documents.service.ts, and the bucket behind storage/storage.service.ts. Whether the
-- storage carries out a call, and the PDF renderer of documents/lease-agreement.pdf.ts, are
-- parameters.
pub mod Owners
pub mod Filed
pub mod Writes
pub mod Stored
pub mod Downloads
use mentos_backend.Common.{
  ℕ, ◌==◌, ◌||◌, Bool, not, if◌then◌else◌, Option, none, some, List, [], ◌∷◌, ◌++◌, length, map,
  is_some, leb, select, first, Text, text, same,
}
use mentos_backend.Codes.Scheme.{document_codes}
use mentos_backend.Model.{
  Property, RentalUnit, Tenant, Lease, Document, GeneratedBy, StoredFile, Table, not_found,
  file_required, storage_failed, query_failed, World, Request,
}
use mentos_backend.Orm.{
  Orm, Exec, pure, gets, modify, or_throw, throw_if, or_unique, allocate_code, ◌>>=◌, ◌>>◌,
}
use Owners.{OwnerType, owned, owner_column}

-- What lies outside of the repository: whether the object storage accepts an upload, whether it
-- carries out a delete and hands out an object, and the bytes that pdfkit makes of a lease.
pub record External : Type 0 where
  pub accepts : StoredFile → Bool
  pub deletes : Text → Bool
  pub serves : Text → Bool
  pub render : Lease → Tenant → RentalUnit → Property → List ℕ

-- the uploaded file as multer hands it over
pub record UploadedFile : Type 0 where
  pub original_name : Text
  pub mime_type : Text
  pub size : ℕ
  pub buffer : List ℕ

pub record UploadDocumentDto : Type 0 where
  pub name : Text
  pub category : Text
  pub owner_type : OwnerType
  pub owner_id : Text

abbrev pub put_documents : World → List Document → World
put_documents w t = record w { db = record w.db { documents = t } }

-- the rows with `id` in a nullable column
abbrev pub points_to : Option ℕ → ℕ → Bool
points_to none id = Bool.false
points_to (some n) id = n == id

abbrev pub blank : ℕ → Text → Document
blank id code = record {
  id = id;
  code = code;
  name = text "";
  category = text "";
  property_id = none;
  unit_id = none;
  tenant_id = none;
  lease_id = none;
  invoice_id = none;
  payment_id = none;
  maintenance_request_id = none;
  storage_key = text "";
  mime_type = text "";
  size_bytes = 0;
  original_file_name = none;
  version = 1;
  generated_by = GeneratedBy.upload;
  uploaded_by_user_id = none;
}

abbrev pub agreement_key : Text → Text
agreement_key code = text "documents/" ++ code ++ text "/lease-agreement.pdf"

-- the row of the lease agreement, and its file
abbrev pub agreement : ℕ → Text → Lease → Tenant → List ℕ → Document
agreement id code l t pdf = record (blank id code) {
  name = text "Lease agreement · " ++ l.code ++ text " " ++ t.name;
  category = text "Lease";
  lease_id = some l.id;
  storage_key = agreement_key code;
  mime_type = text "application/pdf";
  size_bytes = length pdf;
  generated_by = GeneratedBy.system;
}

abbrev pub agreement_file : Text → List ℕ → StoredFile
agreement_file code pdf = record {
  key = agreement_key code;
  body = pdf;
  mime_type = text "application/pdf";
}

abbrev pub upload_key : Text → UploadedFile → Text
upload_key code file = text "documents/" ++ code ++ text "/" ++ file.original_name

-- the object of an upload, and its row
abbrev pub uploaded_file : Text → UploadedFile → StoredFile
uploaded_file code file = record {
  key = upload_key code file;
  body = file.buffer;
  mime_type = file.mime_type;
}

abbrev pub uploaded_row : Request → UploadDocumentDto → UploadedFile → ℕ → ℕ → Text → Document
uploaded_row req dto file entity_id user_id code =
    owned dto.owner_type entity_id (record (blank req.new_id code) {
      name = dto.name;
      category = dto.category;
      storage_key = upload_key code file;
      mime_type = file.mime_type;
      size_bytes = file.size;
      original_file_name = some file.original_name;
      uploaded_by_user_id = some user_id;
    })

-- originalFileName is a varchar(255); nothing bounds the name before the row is inserted. The other
-- columns hold whatever the validation of the request lets through.
abbrev pub fits_name : UploadedFile → Bool
fits_name file = leb (length file.original_name) 255

-- the bucket without the object of a key
abbrev pub without : Text → List StoredFile → List StoredFile
without key files = select (λ f. not (same f.key key)) files

-- an object replaces the one that has its key
abbrev pub stored : StoredFile → List StoredFile → List StoredFile
stored file files = without file.key files ++ file ∷ []

module _ (orm : Orm) (ext : External) where
  -- the code under the lock of the table
  unfoldable pub next_document_code : Exec Text
  unfolding allocate_code
  next_document_code = do
    codes ← gets (λ w. map (λ d. d.code) w.documents)
    allocate_code document_codes codes

  -- StorageService.upload: no transaction takes the object back
  unfoldable pub upload_file : StoredFile → Exec Unit
  upload_file file = do
    throw_if (not (ext.accepts file)) storage_failed
    modify (λ w. record w { files = stored file w.files })

  unfoldable pub insert_document : Document → Exec Unit
  insert_document document = do
    rows ← gets (λ w. orm.insert (λ d. same d.code document.code) document w.documents)
    saved ← or_unique rows
    modify (λ w. put_documents w saved)

  unfoldable pub find_by_code_or_fail : Text → Exec Document
  find_by_code_or_fail code = do
    found ← gets (λ w. orm.find_one (λ d. same d.code code) w.documents)
    or_throw (not_found Table.document code) found

  -- runs in the transaction of LeasesService.create
  unfoldable pub generate_lease_agreement : ℕ → Lease → Tenant → RentalUnit → Property → Exec Unit
  unfolding next_document_code upload_file insert_document
  generate_lease_agreement id lease tenant unit property = do
    code ← next_document_code
    let pdf = ext.render lease tenant unit property
    upload_file (agreement_file code pdf)
    insert_document (agreement id code lease tenant pdf)

  -- the uuid behind a business code
  unfoldable pub resolve_owner_entity_id : OwnerType → Text → Exec ℕ
  resolve_owner_entity_id OwnerType.property code = do
    found ← gets (λ w. orm.find_one (λ r. same r.code code) w.properties)
    row ← or_throw (not_found Table.property code) found
    pure row.id
  resolve_owner_entity_id OwnerType.unit code = do
    found ← gets (λ w. orm.find_one (λ r. same r.code code) w.units)
    row ← or_throw (not_found Table.unit code) found
    pure row.id
  resolve_owner_entity_id OwnerType.tenant code = do
    found ← gets (λ w. orm.find_one (λ r. same r.code code) w.tenants)
    row ← or_throw (not_found Table.tenant code) found
    pure row.id
  resolve_owner_entity_id OwnerType.lease code = do
    found ← gets (λ w. orm.find_one (λ r. same r.code code) w.leases)
    row ← or_throw (not_found Table.lease code) found
    pure row.id
  resolve_owner_entity_id OwnerType.invoice code = do
    found ← gets (λ w. orm.find_one (λ r. same r.code code) w.invoices)
    row ← or_throw (not_found Table.invoice code) found
    pure row.id
  resolve_owner_entity_id OwnerType.payment code = do
    found ← gets (λ w. orm.find_one (λ r. same r.code code) w.payments)
    row ← or_throw (not_found Table.payment code) found
    pure row.id
  resolve_owner_entity_id OwnerType.maintenance code = do
    found ← gets (λ w. orm.find_one (λ r. same r.code code) w.requests)
    row ← or_throw (not_found Table.request code) found
    pure row.id

  -- the body of the transaction of `upload`
  unfoldable pub write_upload : Request → UploadDocumentDto → UploadedFile → ℕ → ℕ → Exec Document
  unfolding next_document_code upload_file insert_document
  write_upload req dto file entity_id user_id = do
    code ← next_document_code
    upload_file (uploaded_file code file)
    let document = uploaded_row req dto file entity_id user_id code
    throw_if (not (fits_name file)) query_failed
    insert_document document
    pure document

  unfoldable pub upload : Request → UploadDocumentDto → Option UploadedFile → ℕ → Exec Document
  unfolding resolve_owner_entity_id write_upload
  upload req dto none user_id = do or_throw file_required none
  upload req dto (some file) user_id = do
    throw_if (file.size == 0) file_required
    entity_id ← resolve_owner_entity_id dto.owner_type dto.owner_id
    orm.transaction (write_upload req dto file entity_id user_id)

  unfoldable pub find_by_owner : OwnerType → Text → Exec (List Document)
  unfolding resolve_owner_entity_id
  find_by_owner owner_type owner_id = do
    entity_id ← resolve_owner_entity_id owner_type owner_id
    gets (λ w. orm.find (λ d. points_to (owner_column owner_type d) entity_id) w.documents)

  -- StorageService.download: a key without an object is an error of the storage
  unfoldable pub download : Text → Exec (Document × StoredFile)
  unfolding find_by_code_or_fail
  download code = do
    document ← find_by_code_or_fail code
    throw_if (not (ext.serves document.storage_key)) storage_failed
    found ← gets (λ w. first (λ f. same f.key document.storage_key) w.files)
    file ← or_throw storage_failed found
    pure (document, file)

  -- the row goes first, then the stored file
  unfoldable pub remove : Text → Exec Unit
  unfolding find_by_code_or_fail
  remove code = do
    document ← find_by_code_or_fail code
    modify (λ w. put_documents w (orm.delete (λ d. d.id == document.id) w.documents))
    throw_if (not (ext.deletes document.storage_key)) storage_failed
    modify (λ w. record w { files = without document.storage_key w.files })
