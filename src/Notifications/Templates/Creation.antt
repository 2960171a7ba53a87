-- ===== src/Notifications/Templates/Creation.antt =====
-- A new pair of templates is always written, and the table stays a table of pairs.
use mathlib.Core.Path.{subst}
use mathlib.Core.List.{append_assoc}
use mentos_backend.Common.{
  ℕ, ◌≡◌, refl, sym, ap, ◌∙◌, ◌==◌, Bool, false, List, [], ◌∷◌, ◌++◌, arith, any, any-append, first,
  change, true, if◌then◌else◌, Option-cases, inl, inr, Text, same,
}
use mentos_backend.Model.{NotificationTemplate, World, Request}
use mentos_backend.Orm.{Orm, Documented, reference, orm-eq-reference, ok}
use mentos_backend.Notifications.Templates.{
  swahili_code, english_row, swahili_row, create, update, put_templates, CreateTemplateDto,
  UpdateTemplateDto,
}
use mentos_backend.Notifications.Templates.Pairs.{
  IsPair, IsPaired, pair_code_of, fresh_number, append-IsPaired, is_pair_code-print_code,
  is_pair_code-swahili_code, told_apart, next_pair_code, unused_english, unused_swahili,
}

module _ (req : Request) (dto : CreateTemplateDto) (w : World) (ns : List ℕ)
    (paired : IsPaired ns w.templates) where
  abbrev code : Text
  code = pair_code_of (fresh_number ns)

  abbrev en : NotificationTemplate
  en = english_row req code dto

  abbrev sw : NotificationTemplate
  sw = swahili_row req code dto

  unused_second :
      any (λ (r : NotificationTemplate). same r.code (swahili_code code)) (w.templates ++ en ∷ [])
      ≡ false
  unfolding english_row
  unused_second = ground (
    arith,
    any-append (λ (r : NotificationTemplate). same r.code (swahili_code code)) w.templates
        (en ∷ []),
    unused_swahili ns w.templates paired,
    told_apart code (swahili_code code) (is_pair_code-print_code (fresh_number ns))
        (is_pair_code-swahili_code (fresh_number ns)),
  )

  create_lem :
      create reference req dto w ≡ (ok en, put_templates w ((w.templates ++ en ∷ []) ++ sw ∷ []))
  unfolding create english_row swahili_row
  create_lem = ground (
    arith,
    next_pair_code ns w.templates paired,
    unused_english ns w.templates paired,
    unused_second,
  )

-- the handlers that write templates
pub data Command : Type 0 where
  create_pair : Request → CreateTemplateDto → Command
  edit : Text → UpdateTemplateDto → Command

module _ (orm : Orm) where
  abbrev pub run : Command → World → World
  run (create_pair req dto) w = (create orm req dto w).1
  run (edit code dto) w = (update orm code dto w).1

  abbrev pub run_all : List Command → World → World
  run_all [] w = w
  run_all (c ∷ cs) w = run_all cs (run c w)

created-IsPair :
    (req : Request) (dto : CreateTemplateDto) (k : ℕ)
    → IsPair k (english_row req (pair_code_of k) dto) (swahili_row req (pair_code_of k) dto)
unfolding english_row swahili_row
created-IsPair req dto k = record {
  english_code = refl;
  swahili_code = refl;
  paired = (refl, refl);
  languages = (refl, refl);
  one_trigger = refl;
}

-- a create that starts from pairs returns, and leaves pairs
abbrev pub Creates : Orm → Request → CreateTemplateDto → World → List ℕ → Type 0
Creates orm req dto w ns =
    (en : NotificationTemplate) × (rows : List NotificationTemplate) × (create orm req dto w
      ≡ (ok en, put_templates w rows))
    × (en.code ≡ pair_code_of (fresh_number ns))
    × IsPaired (ns ++ fresh_number ns ∷ []) rows

create-Creates :
    (req : Request) (dto : CreateTemplateDto) (w : World) (ns : List ℕ)
    → IsPaired ns w.templates
    → Creates reference req dto w ns
unfolding english_row
create-Creates req dto w ns paired =
    let k : ℕ = fresh_number ns in
    (
      en req dto w ns paired,
      w.templates ++ en req dto w ns paired ∷ sw req dto w ns paired ∷ [],
      create_lem req dto w ns paired
          ∙ ap (λ t. (ok (en req dto w ns paired), put_templates w t))
              (append_assoc w.templates (en req dto w ns paired ∷ [])
                (sw req dto w ns paired ∷ [])),
      refl,
      append-IsPaired ns w.templates k (en req dto w ns paired) (sw req dto w ns paired) paired
          (created-IsPair req dto k),
    )

module _ (p : NotificationTemplate → Bool) (dto : UpdateTemplateDto) where
  abbrev edited : NotificationTemplate → NotificationTemplate
  edited t = record t { subject = dto.subject; body = dto.body }

  abbrev edited_if : Bool → NotificationTemplate → NotificationTemplate
  edited_if b t = if b then edited t else t

  edited-IsPair :
      (n : ℕ) (a b : NotificationTemplate) (s t : Bool)
      → IsPair n a b
      → IsPair n (edited_if s a) (edited_if t b)
  edited-IsPair n a b true true h = record {
    english_code = h.english_code;
    swahili_code = h.swahili_code;
    paired = h.paired;
    languages = h.languages;
    one_trigger = h.one_trigger;
  }
  edited-IsPair n a b true false h = record {
    english_code = h.english_code;
    swahili_code = h.swahili_code;
    paired = h.paired;
    languages = h.languages;
    one_trigger = h.one_trigger;
  }
  edited-IsPair n a b false true h = record {
    english_code = h.english_code;
    swahili_code = h.swahili_code;
    paired = h.paired;
    languages = h.languages;
    one_trigger = h.one_trigger;
  }
  edited-IsPair n a b false false h = h

  change-IsPaired :
      (ns : List ℕ) (rows : List NotificationTemplate)
      → IsPaired ns rows
      → IsPaired ns (change p edited rows)
  change-IsPaired [] [] h = tt
  change-IsPaired [] (r ∷ rows) h = absurd h
  change-IsPaired (n ∷ ns) [] h = absurd h
  change-IsPaired (n ∷ ns) (r ∷ []) h = absurd h
  change-IsPaired (n ∷ ns) (a ∷ b ∷ rows) h =
      (edited-IsPair n a b (p a) (p b) h.0, change-IsPaired ns rows h.1)

update-IsPaired :
    (key : Text) (dto : UpdateTemplateDto) (w : World) (ns : List ℕ)
    → IsPaired ns w.templates
    → IsPaired ns (update reference key dto w).1.templates
unfolding update
update-IsPaired key dto w ns paired =
    elim (Option-cases (first (λ (t : NotificationTemplate). same t.code key) w.templates)) [
      | inl e ↦ rw e paired
      | inr (t, e) ↦ rw e (change-IsPaired (λ r. r.id == t.id) dto ns w.templates paired)
    ]

run-IsPaired :
    (c : Command) (w : World) (ns : List ℕ)
    → IsPaired ns w.templates
    → (ns' : List ℕ) × IsPaired ns' (run reference c w).templates
run-IsPaired (create_pair req dto) w ns paired =
    let (_, rows, e, _, p) = create-Creates req dto w ns paired in
    (
      ns ++ fresh_number ns ∷ [],
      subst (λ r. IsPaired (ns ++ fresh_number ns ∷ []) r.1.templates) (sym e) p,
    )
run-IsPaired (edit key dto) w ns paired = (ns, update-IsPaired key dto w ns paired)

run_all-reference :
    (cs : List Command) (req : Request) (dto : CreateTemplateDto) (w : World) (ns : List ℕ)
    → IsPaired ns w.templates
    → (ns' : List ℕ) × IsPaired ns' (run_all reference cs w).templates
      × Creates reference req dto (run_all reference cs w) ns'
run_all-reference [] req dto w ns paired = (ns, paired, create-Creates req dto w ns paired)
run_all-reference (c ∷ cs) req dto w ns paired =
    let (ns', paired') = run-IsPaired c w ns paired in
    run_all-reference cs req dto (run reference c w) ns' paired'

-- From a table of pairs, whatever templates are created and edited, the table consists of pairs: an
-- English row and a Swahili row of the same trigger, both with the code of the English row as their
-- pair code. One more create then returns, gives the pair the number after the greatest, which no
-- other pair has, and leaves pairs.
pub run_all-IsPaired :
    (orm : Orm)
    → Documented orm
    → (cs : List Command) (req : Request) (dto : CreateTemplateDto) (w : World) (ns : List ℕ)
    → IsPaired ns w.templates
    → (ns' : List ℕ) × IsPaired ns' (run_all orm cs w).templates
      × Creates orm req dto (run_all orm cs w) ns'
run_all-IsPaired orm documented = rw (orm-eq-reference orm documented) run_all-reference
