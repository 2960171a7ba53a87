-- ===== src/Documents/Filed.antt =====
-- The rows of the documents, and the objects that they name in the storage.
use mathlib.Core.Path.{subst}
use mathlib.Core.List.{append_assoc}
use mentos_backend.Common.{
  ℕ, ◌≡◌, refl, sym, ap, ◌∙◌, Bool, ◌==◌, true, false, not, some, List, [], ◌∷◌, ◌++◌, arith, any,
  select, first, any-append, Bool-cases, inl, inr, Text, text, same, same-eq, same_refl, same_iff,
}
use mentos_backend.Codes.Decimal.{show, pad_start}
use mentos_backend.Codes.Decimal.RoundTrip.{before, before-cast_integer, cast_integer-pad_start}
use mentos_backend.Codes.Scheme.{document_codes, print_code, drop}
use mentos_backend.Model.{Document, StoredFile}
use mentos_backend.Documents.{without, stored}

-- the key of an object: the code of its document, and a name
abbrev pub key_of : ℕ → Text → Text
key_of n name = text "documents/" ++ print_code document_codes n ++ text "/" ++ name

abbrev pub Holds : List StoredFile → Text → Type 0
Holds files key = any (λ f. same f.key key) files ≡ true

-- the row has a printed code, and names an object under that code, which is there
abbrev pub IsFiled : List StoredFile → Document → Type 0
IsFiled files d =
    (n : ℕ) × (name : Text) × (d.code ≡ print_code document_codes n)
    × (d.storage_key ≡ key_of n name)
    × Holds files d.storage_key

-- No two rows have the same code, and each is filed.
abbrev pub AreFiled : List StoredFile → List Document → Type 0
AreFiled files [] = Unit
AreFiled files (d ∷ ds) =
    (any (λ e. same e.code d.code) ds ≡ false) × IsFiled files d × AreFiled files ds

key_of-before : (n : ℕ) (name : Text) → before b'/' (drop 12 (key_of n name)) ≡ pad_start 0 (show n)
unfolding print_code
key_of-before n name =
    ap (before b'/') (append_assoc (pad_start 0 (show n)) (text "/") name)
    ∙ before-cast_integer n (pad_start 0 (show n)) name (cast_integer-pad_start 0 n)

-- Objects of different documents have different keys.
key_of-code :
    (m n : ℕ) (a b : Text)
    → key_of m a ≡ key_of n b
    → print_code document_codes m ≡ print_code document_codes n
unfolding print_code
key_of-code m n a b e =
    ap (λ digits. text "D-" ++ digits)
      (sym (key_of-before m a) ∙ ap (λ k. before b'/' (drop 12 k)) e ∙ key_of-before n b)

same_sym : (s t : Text) → same s t ≡ same t s
same_sym s t = ground (arith, same_iff s t, same_iff t s, same_refl s)

Holds-without :
    (key k : Text) (files : List StoredFile)
    → same key k ≡ false
    → Holds files k
    → Holds (without key files) k
Holds-without key k [] other h = h
Holds-without key k (f ∷ files) other h = elim (Bool-cases (same f.key key)) [
  | inl t ↦
      let e : same f.key k ≡ same key k = ap (λ s. same s k) (same-eq f.key key t) in
      ground (arith, Holds-without key k files other)
  | inr kept ↦ ground (arith, Holds-without key k files other)
]

Holds-stored :
    (file : StoredFile) (k : Text) (files : List StoredFile)
    → Holds files k
    → Holds (stored file files) k
Holds-stored file k files h =
    any-append (λ (f : StoredFile). same f.key k) (without file.key files) (file ∷ [])
    ∙ elim (Bool-cases (same file.key k)) [
      | inl t ↦ ground arith
      | inr other ↦ ground (arith, Holds-without file.key k files other h)
    ]

pub AreFiled-stored :
    (file : StoredFile) (files : List StoredFile) (ds : List Document)
    → AreFiled files ds
    → AreFiled (stored file files) ds
AreFiled-stored file files [] h = tt
AreFiled-stored file files (d ∷ ds) (fresh, (n, name, c, k, held), rest) = (
  fresh,
  (n, name, c, k, Holds-stored file d.storage_key files held),
  AreFiled-stored file files ds rest,
)

pub AreFiled-append :
    (files : List StoredFile) (d : Document) (ds : List Document)
    → AreFiled files ds
    → any (λ e. same e.code d.code) ds ≡ false
    → IsFiled files d
    → AreFiled files (ds ++ d ∷ [])
AreFiled-append files d [] h unused filed = (refl, filed, tt)
AreFiled-append files d (e ∷ ds) (fresh, there, rest) unused filed = (
  ground (
    arith,
    any-append (λ (x : Document). same x.code e.code) ds (d ∷ []),
    same_sym d.code e.code,
  ),
  there,
  AreFiled-append files d ds rest (ground arith) filed,
)

any-select :
    {A : Type 0} (q p : A → Bool) (xs : List A) → any q xs ≡ false → any q (select p xs) ≡ false
any-select q p [] h = refl
any-select q p (x ∷ xs) h = ground (arith, any-select q p xs)

pub AreFiled-select :
    (files : List StoredFile) (p : Document → Bool) (ds : List Document)
    → AreFiled files ds
    → AreFiled files (select p ds)
AreFiled-select files p [] h = tt
AreFiled-select files p (d ∷ ds) (fresh, filed, rest) = elim (Bool-cases (p d)) [
  | inl t ↦ rw t (
    any-select (λ (e : Document). same e.code d.code) p ds fresh,
    filed,
    AreFiled-select files p ds rest,
  )
  | inr f ↦ rw f (AreFiled-select files p ds rest)
]

-- the code is that of no row
abbrev pub Others : Text → List Document → Type 0
Others code ds = any (λ (e : Document). same e.code code) ds ≡ false

first-true : {A : Type 0} (p : A → Bool) (a : A) (xs : List A) → first p xs ≡ some a → p a ≡ true
first-true p a [] h = cc
first-true p a (x ∷ xs) h = elim (Bool-cases (p x)) [
  | inl t ↦ let e : x ≡ a = ground arith in ap p (sym e) ∙ t
  | inr f ↦ first-true p a xs (ground arith)
]

-- Once the rows with the id of the row that was found are gone, no row has its code.
pub Others-first :
    (files : List StoredFile) (code : Text) (a : Document) (ds : List Document)
    → AreFiled files ds
    → first (λ d. same d.code code) ds ≡ some a
    → IsFiled files a × Others a.code (select (λ d. not (d.id == a.id)) ds)
Others-first files code a [] h e = cc
Others-first files code a (d ∷ ds) (fresh, filed, rest) found =
    elim (Bool-cases (same d.code code)) [
      | inl t ↦
          let e : d ≡ a = ground arith in
          let gone : not (a.id == a.id) ≡ false = ground arith in
          let fresh_a : Others a.code ds =
            ap (λ (x : Document). any (λ e. same e.code x.code) ds) (sym e) ∙ fresh in
          (
            subst (IsFiled files) e filed,
            subst (λ x. Others a.code (select (λ r. not (r.id == a.id)) (x ∷ ds))) (sym e)
                (rw gone (
                  any-select (λ (r : Document). same r.code a.code) (λ r. not (r.id == a.id)) ds
                    fresh_a)),
          )
      | inr f ↦
          let (filed_a, others) = Others-first files code a ds rest (ground arith) in
          let other : same d.code a.code ≡ false =
            ap (same d.code)
              (same-eq a.code code (first-true (λ x. same x.code code) a ds (ground arith)))
            ∙ f in
          (filed_a, ground arith)
    ]

apart :
    (files : List StoredFile) (a d : Document)
    → IsFiled files a
    → IsFiled files d
    → same d.code a.code ≡ false
    → same a.storage_key d.storage_key ≡ false
apart files a d (m, x, ca, ka, _) (n, y, cd, kd, _) other =
    elim (Bool-cases (same a.storage_key d.storage_key)) [
      | inl t ↦
          let one_key : key_of n y ≡ key_of m x =
            sym kd ∙ sym (same-eq a.storage_key d.storage_key t) ∙ ka in
          let one_code : d.code ≡ a.code = cd ∙ key_of-code n m y x one_key ∙ sym ca in
          absurd (
            let e : same d.code a.code ≡ true =
              ap (same d.code) (sym one_code) ∙ same_refl d.code in
            cc)
      | inr f ↦ f
    ]

pub AreFiled-without :
    (files : List StoredFile) (a : Document) (ds : List Document)
    → IsFiled files a
    → AreFiled files ds
    → Others a.code ds
    → AreFiled (without a.storage_key files) ds
AreFiled-without files a [] filed h others = tt
AreFiled-without files a (d ∷ ds) filed (fresh, (n, name, c, k, held), rest) others = (
  fresh,
  (
    n,
    name,
    c,
    k,
    Holds-without a.storage_key d.storage_key files
        (apart files a d filed (n, name, c, k, held) (ground arith)) held,
  ),
  AreFiled-without files a ds filed rest (ground arith),
)
