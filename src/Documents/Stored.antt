-- ===== src/Documents/Stored.antt =====
-- Whatever is uploaded, generated and removed, and whatever the storage refuses, every document keeps
-- its object.
use mathlib.Core.Path.{subst}
use mathlib.Core.List.{append_assoc}
use mentos_backend.Common.{
  ℕ, ◌≡◌, refl, sym, ◌∙◌, ◌==◌, not, Option, none, some, List, [], ◌∷◌, ◌++◌, arith, select, first,
  ◌⊎◌, Bool-cases, Option-cases, inl, inr, Text, text, same,
}
use mentos_backend.Codes.Scheme.{document_codes, print_code}
use mentos_backend.Model.{Property, RentalUnit, Tenant, Lease, Document, StoredFile, World, Request}
use mentos_backend.Orm.{Orm, reference}
use mentos_backend.Documents.{
  External, UploadedFile, UploadDocumentDto, put_documents, uploaded_file, uploaded_row, agreement,
  agreement_file, without, generate_lease_agreement, upload, find_by_code_or_fail, remove,
}
use mentos_backend.Documents.Filed.{
  key_of, AreFiled, Others, AreFiled-stored, AreFiled-select, AreFiled-without, Others-first,
}
use mentos_backend.Documents.Writes.{
  Kept, Left, with_document, next_document_code-Others, AreFiled-insert, generated, not_generated,
  owned-code, write_upload_cases, upload_cases,
}

-- the handlers that change the documents
pub data Command : Type 0 where
  uploads : Request → UploadDocumentDto → Option UploadedFile → ℕ → Command
  generates : ℕ → Lease → Tenant → RentalUnit → Property → Command
  removes : Text → Command

module _ (orm : Orm) (ext : External) where
  abbrev pub run : Command → World → World
  run (uploads req dto file user_id) w = (upload orm ext req dto file user_id w).1
  run (generates id lease tenant unit property) w =
      (orm.transaction (generate_lease_agreement orm ext id lease tenant unit property) w).1
  run (removes code) w = (remove orm ext code w).1

  abbrev pub run_all : List Command → World → World
  run_all [] w = w
  run_all (c ∷ cs) w = run_all cs (run c w)

generates-Kept :
    (ext : External) (id : ℕ) (lease : Lease) (tenant : Tenant) (unit : RentalUnit)
    (property : Property) (w : World)
    → Kept w
    → Kept
        (reference.transaction
          (generate_lease_agreement reference ext id lease tenant unit property)
          w).1
generates-Kept ext id lease tenant unit property w h =
    let (n, next, unused) = next_document_code-Others w.files w.documents h in
    let code : Text = print_code document_codes n in
    let pdf : List ℕ = ext.render lease tenant unit property in
    let file : StoredFile = agreement_file code pdf in
    let row : Document = agreement id code lease tenant pdf in
    let key : file.key ≡ key_of n (text "lease-agreement.pdf") =
      sym (append_assoc (text "documents/" ++ code) (text "/") (text "lease-agreement.pdf")) in
    elim (Bool-cases (ext.accepts file)) [
      | inr refused ↦
          subst Kept (sym (not_generated ext w code next id lease tenant unit property refused)) h
      | inl accepted ↦
          subst (λ r. Kept r.1)
            (sym (generated ext w code next id lease tenant unit property accepted unused))
            (AreFiled-insert n (text "lease-agreement.pdf") file row w.files w.documents h unused
              refl refl key)
    ]

with_document-Kept :
    (req : Request) (dto : UploadDocumentDto) (file : UploadedFile) (id user_id n : ℕ) (w : World)
    → Kept w
    → Others (print_code document_codes n) w.documents
    → Kept (
        with_document
          (uploaded_file (print_code document_codes n) file)
          (uploaded_row req dto file id user_id (print_code document_codes n))
          w)
with_document-Kept req dto file id user_id n w h unused =
    AreFiled-insert n file.original_name (uploaded_file (print_code document_codes n) file)
      (uploaded_row req dto file id user_id (print_code document_codes n)) w.files w.documents h
      unused (owned-code dto.owner_type id _).0 (owned-code dto.owner_type id _).1 refl

Left-Kept : (file : UploadedFile) (w w' : World) → Kept w → Left file w w' → Kept w'
Left-Kept file w w' h (inl same_w) = subst Kept (sym same_w) h
Left-Kept file w w' h (inr (_, code, _, orphan)) =
    subst Kept (sym orphan) (AreFiled-stored (uploaded_file code file) w.files w.documents h)

uploads-Kept :
    (ext : External) (req : Request) (dto : UploadDocumentDto) (file : Option UploadedFile)
    (user_id : ℕ) (w : World)
    → Kept w
    → Kept (upload reference ext req dto file user_id w).1
unfolding upload
uploads-Kept ext req dto none user_id w h = h
uploads-Kept ext req dto (some file) user_id w h = elim (upload_cases ext req dto file user_id w) [
  | inl (e, failed) ↦ subst (λ r. Kept r.1) (sym failed) h
  | inr (id, run) ↦ elim (write_upload_cases ext req dto file id user_id w h) [
    | inr (e, w', left_over, failed) ↦
        subst (λ r. Kept r.1) (sym (run ∙ failed)) (Left-Kept file w w' h left_over)
    | inl (n, unused, done) ↦
        subst (λ r. Kept r.1) (sym (run ∙ done))
          (with_document-Kept req dto file id user_id n w h unused)
  ]
]

module _ (ext : External) (code : Text) (w : World) where
  -- the rows without that of a document
  abbrev left : Document → List Document
  left a = select (λ d. not (d.id == a.id)) w.documents

  removes_cases :
      (a : Document)
      → first (λ d. same d.code code) w.documents ≡ some a
      → ((remove reference ext code w).1 ≡ put_documents w (left a))
        ⊎ ((remove reference ext code w).1
            ≡ put_documents (record w { files = without a.storage_key w.files }) (left a))
  unfolding remove find_by_code_or_fail
  removes_cases a found = elim (Bool-cases (ext.deletes a.storage_key)) [
    | inl t ↦ inr (ground arith)
    | inr f ↦ inl (ground arith)
  ]

  removes-Kept : Kept w → Kept (remove reference ext code w).1
  unfolding remove find_by_code_or_fail
  removes-Kept h = elim (Option-cases (first (λ (d : Document). same d.code code) w.documents)) [
    | inl missing ↦
        let same_w : (remove reference ext code w).1 ≡ w = ground arith in subst Kept (sym same_w) h
    | inr (a, found) ↦
        let (filed, others) = Others-first w.files code a w.documents h found in
        let fewer : AreFiled w.files (left a) =
          AreFiled-select w.files (λ d. not (d.id == a.id)) w.documents h in
        elim (removes_cases a found) [
          | inl e ↦ subst Kept (sym e) fewer
          | inr e ↦ subst Kept (sym e) (AreFiled-without w.files a (left a) filed fewer others)
        ]
  ]

run-Kept : (ext : External) (c : Command) (w : World) → Kept w → Kept (run reference ext c w)
run-Kept ext (uploads req dto file user_id) w h = uploads-Kept ext req dto file user_id w h
run-Kept ext (generates id lease tenant unit property) w h =
    generates-Kept ext id lease tenant unit property w h
run-Kept ext (removes code) w h = removes-Kept ext code w h

pub run_all-Kept :
    (ext : External) (cs : List Command) (w : World) → Kept w → Kept (run_all reference ext cs w)
run_all-Kept ext [] w h = h
run_all-Kept ext (c ∷ cs) w h = run_all-Kept ext cs (run reference ext c w) (run-Kept ext c w h)
