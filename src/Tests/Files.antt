-- ===== src/Tests/Files.antt =====
-- The documents and their objects.
use mentos_backend.Common.{refl, some, [], ◌∷◌, List, text}
use mentos_backend.Orm.{reference, reference-Documented}
use mentos_backend.Documents.{UploadedFile, UploadDocumentDto}
use mentos_backend.Documents.Owners.{OwnerType}
use mentos_backend.Documents.Filed.{AreFiled}
use mentos_backend.Documents.Stored.{Command, uploads, generates, removes, run_all}
use mentos_backend.Documents.Downloads.{Uploaded, run_all-Uploaded}
use mentos_backend.Tests.Sample.{req, house, flat, asha, letting, occupied, storage}

abbrev scan : UploadedFile
scan = record {
  original_name = text "id.png";
  mime_type = text "image/png";
  size = 3;
  buffer = 1 ∷ 2 ∷ 3 ∷ [];
}

abbrev card : UploadDocumentDto
card = record {
  name = text "ID card";
  category = text "Identity";
  owner_type = OwnerType.tenant;
  owner_id = text "T-01";
}

abbrev calls : List Command
calls =
    generates 61 letting asha flat house
    ∷ uploads req card (some scan) 1
    ∷ removes (text "D-2")
    ∷ removes (text "D-9")
    ∷ []

run_all-Uploaded_example :
    AreFiled
      (run_all reference storage calls occupied).files
      (run_all reference storage calls occupied).documents
    × Uploaded reference storage req card scan 1 (run_all reference storage calls occupied)
run_all-Uploaded_example =
    run_all-Uploaded reference reference-Documented storage calls req card scan 1 occupied
      (λ key. refl) tt
