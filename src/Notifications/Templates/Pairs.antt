-- ===== src/Notifications/Templates/Pairs.antt =====
-- The table of templates consists of pairs, an English row and the Swahili row that belongs to it,
-- and a new pair never clashes.
use mentos_backend.Common.{
  ℕ, ◌+◌, ◌≡◌, refl, ap, ◌∙◌, Bool, true, false, some, List, [], ◌∷◌, ◌++◌, map, arith, ◌==◌, any,
  length, select, Text, text, same, same-eq, same_iff, Bool-cases, inl, inr,
}
use mentos_backend.Codes.Decimal.{show, pad_start}
use mentos_backend.Codes.Decimal.RoundTrip.{cast_integer-pad_start, cast_integer-dash}
use mentos_backend.Codes.Scheme.{print_code, next_code}
use mentos_backend.Codes.Fresh.{same-print_code, next_code-print_code, coalesce_max-above}
use mentos_backend.Codes.Column.{==_sym, next_number}
use mentos_backend.Model.{NotificationTemplate, TemplateLanguage}
use mentos_backend.Notifications.Templates.{template_codes, swahili_code, is_pair_code}

abbrev pub pair_code_of : ℕ → Text
pair_code_of n = print_code template_codes n

-- the rows of one template
pub record IsPair (n : ℕ) (en sw : NotificationTemplate) : Type 0 where
  pub english_code : en.code ≡ pair_code_of n
  pub swahili_code : sw.code ≡ swahili_code (pair_code_of n)
  pub paired : (en.pair_code ≡ en.code) × (sw.pair_code ≡ en.code)
  pub languages :
      (en.language ≡ TemplateLanguage.english) × (sw.language ≡ TemplateLanguage.swahili)
  pub one_trigger : sw.trigger_key ≡ en.trigger_key

-- the table consists of pairs with the given numbers
abbrev pub IsPaired : List ℕ → List NotificationTemplate → Type 0
IsPaired [] [] = Unit
IsPaired (n ∷ ns) (en ∷ sw ∷ rows) = IsPair n en sw × IsPaired ns rows
IsPaired _ _ = ⊥

pub is_pair_code-print_code : (n : ℕ) → is_pair_code (pair_code_of n) ≡ true
unfolding is_pair_code print_code
is_pair_code-print_code n = rw (cast_integer-pad_start 2 n) refl

pub is_pair_code-swahili_code : (n : ℕ) → is_pair_code (swahili_code (pair_code_of n)) ≡ false
unfolding is_pair_code print_code
is_pair_code-swahili_code n = rw (cast_integer-dash (pad_start 2 (show n)) (text "SW")) refl

-- codes that the query tells apart are different
pub told_apart : (c d : Text) → is_pair_code c ≡ true → is_pair_code d ≡ false → same c d ≡ false
told_apart c d yes_ no_ = elim (Bool-cases (same c d)) [
  | inl t ↦ absurd (let e : is_pair_code c ≡ is_pair_code d = ap is_pair_code (same-eq c d t) in cc)
  | inr f ↦ f
]

length-append : (s x : Text) → length (s ++ x) ≡ length s + length x
length-append [] x = omega arith
length-append (c ∷ s) x = omega (arith, length-append s x)

append-injective : (s t x : Text) → length s ≡ length t → s ++ x ≡ t ++ x → s ≡ t
append-injective [] [] x l e = refl
append-injective [] (d ∷ t) x l e = absurd (omega arith)
append-injective (c ∷ s) [] x l e = absurd (omega arith)
append-injective (c ∷ s) (d ∷ t) x l e = ground (arith, append-injective s t x)

same-append : (s t x : Text) → same (s ++ x) (t ++ x) ≡ same s t
same-append s t x =
    let size : s ++ x ≡ t ++ x → s ≡ t = λ e.
      append-injective s t x (omega (arith, length-append s x, length-append t x, ap length e)) e in
    ground (arith, same_iff (s ++ x) (t ++ x), same_iff s t, size, ap (λ u. u ++ x) {x = s} {y = t})

select_codes :
    (ns : List ℕ) (rows : List NotificationTemplate)
    → IsPaired ns rows
    → select is_pair_code (map (λ (t : NotificationTemplate). t.code) rows)
      ≡ map (print_code template_codes) ns
select_codes [] [] h = refl
select_codes [] (r ∷ rows) h = absurd h
select_codes (n ∷ ns) [] h = absurd h
select_codes (n ∷ ns) (r ∷ []) h = absurd h
select_codes (n ∷ ns) (en ∷ sw ∷ rows) h =
    rw
      (
        h.0.english_code,
        h.0.swahili_code,
        is_pair_code-print_code n,
        is_pair_code-swahili_code n,
        select_codes ns rows h.1,
      )
      refl

pub append-IsPaired :
    (ns : List ℕ) (rows : List NotificationTemplate) (k : ℕ) (en sw : NotificationTemplate)
    → IsPaired ns rows
    → IsPair k en sw
    → IsPaired (ns ++ k ∷ []) (rows ++ en ∷ sw ∷ [])
append-IsPaired [] [] k en sw h p = (p, tt)
append-IsPaired [] (r ∷ rows) k en sw h p = absurd h
append-IsPaired (n ∷ ns) [] k en sw h p = absurd h
append-IsPaired (n ∷ ns) (r ∷ []) k en sw h p = absurd h
append-IsPaired (n ∷ ns) (a ∷ b ∷ rows) k en sw h p = (h.0, append-IsPaired ns rows k en sw h.1 p)

-- No row has a code that differs from the two codes of each pair.
unused :
    (c : Text) (ns : List ℕ) (rows : List NotificationTemplate)
    → IsPaired ns rows
    → any (λ n. same (pair_code_of n) c) ns ≡ false
    → any (λ n. same (swahili_code (pair_code_of n)) c) ns ≡ false
    → any (λ (r : NotificationTemplate). same r.code c) rows ≡ false
unused c [] [] h e s = refl
unused c [] (r ∷ rows) h e s = absurd h
unused c (n ∷ ns) [] h e s = absurd h
unused c (n ∷ ns) (r ∷ []) h e s = absurd h
unused c (n ∷ ns) (a ∷ b ∷ rows) h e s =
    rw (h.0.english_code, h.0.swahili_code) (ground (arith, unused c ns rows h.1))

any_never {ℓ} :
    {A : Type ℓ} (p : A → Bool) (xs : List A) → ((x : A) → p x ≡ false) → any p xs ≡ false
any_never p [] h = refl
any_never p (x ∷ xs) h = rw (h x) (any_never p xs h)

any_ext {ℓ} :
    {A : Type ℓ} (p q : A → Bool) (xs : List A) → ((x : A) → p x ≡ q x) → any p xs ≡ any q xs
any_ext p q [] h = refl
any_ext p q (x ∷ xs) h = rw (h x, any_ext p q xs h) refl

abbrev pub fresh_number : List ℕ → ℕ
fresh_number ns = next_number template_codes ns

same_sym : (s t : Text) → same s t ≡ same t s
same_sym [] [] = refl
same_sym [] (d ∷ t) = refl
same_sym (c ∷ s) [] = refl
same_sym (c ∷ s) (d ∷ t) = rw (==_sym c d, same_sym s t) refl

module _ (ns : List ℕ) (rows : List NotificationTemplate) (paired : IsPaired ns rows) where
  pub next_pair_code :
      next_code template_codes
        (select is_pair_code (map (λ (t : NotificationTemplate). t.code) rows))
      ≡ some (pair_code_of (fresh_number ns))
  next_pair_code =
      ap (next_code template_codes) (select_codes ns rows paired)
      ∙ next_code-print_code template_codes (λ t. refl) ns

  unused_number : any (λ n. same (pair_code_of n) (pair_code_of (fresh_number ns))) ns ≡ false
  unused_number =
      any_ext (λ n. same (pair_code_of n) (pair_code_of (fresh_number ns)))
        (λ n. n == fresh_number ns) ns
        (λ n.
          same-print_code template_codes (λ t. refl) n (fresh_number ns)
          ∙ ==_sym (fresh_number ns) n)
      ∙ coalesce_max-above 0 ns

  pub unused_english :
      any (λ (r : NotificationTemplate). same r.code (pair_code_of (fresh_number ns))) rows ≡ false
  unused_english = unused (pair_code_of (fresh_number ns)) ns rows paired unused_number (
      any_never (λ n. same (swahili_code (pair_code_of n)) (pair_code_of (fresh_number ns))) ns
        (λ n.
          same_sym (swahili_code (pair_code_of n)) (pair_code_of (fresh_number ns))
          ∙ told_apart (pair_code_of (fresh_number ns)) (swahili_code (pair_code_of n))
              (is_pair_code-print_code (fresh_number ns)) (is_pair_code-swahili_code n)))

  pub unused_swahili :
      any
        (λ (r : NotificationTemplate). same r.code (swahili_code (pair_code_of (fresh_number ns))))
        rows
      ≡ false
  unused_swahili =
      unused (swahili_code (pair_code_of (fresh_number ns))) ns rows paired
        (any_never (λ n. same (pair_code_of n) (swahili_code (pair_code_of (fresh_number ns)))) ns
          (λ n.
            told_apart (pair_code_of n) (swahili_code (pair_code_of (fresh_number ns)))
              (is_pair_code-print_code n) (is_pair_code-swahili_code (fresh_number ns))))
        (any_ext
            (λ n.
              same (swahili_code (pair_code_of n)) (swahili_code (pair_code_of (fresh_number ns))))
            (λ n. same (pair_code_of n) (pair_code_of (fresh_number ns))) ns
            (λ n. same-append (pair_code_of n) (pair_code_of (fresh_number ns)) (text "-SW"))
          ∙ unused_number)
