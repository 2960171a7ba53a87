-- ===== src/Notifications/Rendering/Pieces.antt =====
-- What rendering does with a template that is made of literal text and tokens.
use mentos_backend.Common.{
  ℕ, ◌+◌, ◌≡◌, refl, ap, ◌∙◌, true, false, none, some, List, [], ◌∷◌, ◌++◌, arith, ◌==◌, length,
  All, Text, Option-cases, inl, inr,
}
use mentos_backend.Notifications.Rendering.{
  is_word, word, after_word, token_at, scan, render, fill, property_of, inherited, lookup, braced,
  Vars,
}

pub data Piece : Type 0 where
  literal : Text → Piece
  token : Text → Piece

abbrev pub print_piece : Piece → Text
print_piece (literal s) = s
print_piece (token key) = braced key

abbrev pub print_pieces : List Piece → Text
print_pieces [] = []
print_pieces (p ∷ ps) = print_piece p ++ print_pieces ps

abbrev pub filled_piece : Vars → Piece → Text
filled_piece vars (literal s) = s
filled_piece vars (token key) = elim (lookup key vars) [ some v ↦ v | none ↦ braced key ]

abbrev pub filled : Vars → List Piece → Text
filled vars [] = []
filled vars (p ∷ ps) = filled_piece vars p ++ filled vars ps

-- literal text without an opening brace, and a token of word characters that is not the name of a
-- member that every object inherits
abbrev pub IsPiece : Piece → Type 0
IsPiece (literal s) = All (λ c. (c == b'{') ≡ false) s
IsPiece (token []) = ⊥
IsPiece (token (c ∷ key)) =
    All (λ d. is_word d ≡ true) (c ∷ key) × (lookup (c ∷ key) inherited ≡ none)

token_at-literal : (c : ℕ) (s : Text) → (c == b'{') ≡ false → token_at (c ∷ s) ≡ none
unfolding token_at
token_at-literal c [] h = refl
token_at-literal c (d ∷ []) h = refl
token_at-literal c (d ∷ e ∷ s) h = rw h

module _ (vars : Vars) (c : ℕ) (s : Text) where
  scan_copied : token_at (c ∷ s) ≡ none → scan vars 0 (c ∷ s) ≡ c ∷ scan vars 0 s
  unfolding scan
  scan_copied h = ground arith

  scan_filled :
      (key : Text)
      → token_at (c ∷ s) ≡ some key
      → scan vars 0 (c ∷ s) ≡ fill vars key ++ scan vars (length key + 3) s
  unfolding scan
  scan_filled key h = ground arith

scan-literal :
    (vars : Vars) (s t : Text)
    → All (λ c. (c == b'{') ≡ false) s
    → scan vars 0 (s ++ t) ≡ s ++ scan vars 0 t
scan-literal vars [] t h = refl
scan-literal vars (c ∷ s) t h =
    scan_copied vars c (s ++ t) (token_at-literal c (s ++ t) h.0)
    ∙ ap (λ u. c ∷ u) (scan-literal vars s t h.1)

-- the characters of a replaced token are passed over
scan-length : (vars : Vars) (s t : Text) → scan vars (length s) (s ++ t) ≡ scan vars 0 t
unfolding scan
scan-length vars [] t = refl
scan-length vars (c ∷ s) t = scan-length vars s t

word-key : (key u t : Text) → All (λ d. is_word d ≡ true) key → word ((key ++ b'}' ∷ u) ++ t) ≡ key
unfolding word
word-key [] u t h = refl
word-key (c ∷ key) u t h = rw (h.0, word-key key u t h.1)

after_word-key :
    (key u t : Text)
    → All (λ d. is_word d ≡ true) key
    → after_word ((key ++ b'}' ∷ u) ++ t) ≡ b'}' ∷ u ++ t
unfolding after_word
after_word-key [] u t h = refl
after_word-key (c ∷ key) u t h = rw h.0 (after_word-key key u t h.1)

token_at-braced :
    (c : ℕ) (key t : Text)
    → All (λ d. is_word d ≡ true) (c ∷ key)
    → token_at (braced (c ∷ key) ++ t) ≡ some (c ∷ key)
unfolding token_at
token_at-braced c key t h =
    rw (h.0, after_word-key key (b'}' ∷ []) t h.1, word-key key (b'}' ∷ []) t h.1)

length-key : (key : Text) → length (key ++ b'}' ∷ b'}' ∷ []) ≡ length key + 2
length-key [] = refl
length-key (c ∷ key) = omega (arith, length-key key)

scan-braced :
    (vars : Vars) (c : ℕ) (key t : Text)
    → All (λ d. is_word d ≡ true) (c ∷ key)
    → scan vars 0 (braced (c ∷ key) ++ t) ≡ fill vars (c ∷ key) ++ scan vars 0 t
unfolding scan
scan-braced vars c key t h =
    let tail : Text = b'{' ∷ (c ∷ key) ++ b'}' ∷ b'}' ∷ [] in
    let size : length (c ∷ key) + 3 ≡ length tail = omega (arith, length-key key) in
    scan_filled vars b'{' (tail ++ t) (c ∷ key) (token_at-braced c key t h)
    ∙ ap (λ n. fill vars (c ∷ key) ++ scan vars n (tail ++ t)) size
    ∙ ap (λ s. fill vars (c ∷ key) ++ s) (scan-length vars tail t)

-- a token is replaced by its value, or stays
fill-value :
    (vars : Vars) (key : Text)
    → lookup key inherited ≡ none
    → fill vars key ≡ filled_piece vars (token key)
unfolding fill property_of
fill-value vars key plain = elim (Option-cases (lookup key vars)) [
  | inl missing ↦ ground arith
  | inr (v, found) ↦ ground arith
]

scan-pieces :
    (vars : Vars) (ps : List Piece)
    → All IsPiece ps
    → scan vars 0 (print_pieces ps) ≡ filled vars ps
unfolding scan
scan-pieces vars [] h = refl
scan-pieces vars (literal s ∷ ps) h =
    scan-literal vars s (print_pieces ps) h.0 ∙ ap (λ t. s ++ t) (scan-pieces vars ps h.1)
scan-pieces vars (token [] ∷ ps) h = absurd h.0
scan-pieces vars (token (c ∷ key) ∷ ps) h =
    scan-braced vars c key (print_pieces ps) h.0.0
    ∙ ap (λ t. t ++ scan vars 0 (print_pieces ps)) (fill-value vars (c ∷ key) h.0.1)
    ∙ ap (λ t. filled_piece vars (token (c ∷ key)) ++ t) (scan-pieces vars ps h.1)

-- A template that is printed from pieces, literal text without an opening brace and tokens whose
-- keys are words but not the names of members that every object inherits, is rendered piece by
-- piece: the literal text stays, each token is replaced by its value, or stays where it has none,
-- and what is filled in is not scanned again.
pub render-print_pieces :
    (vars : Vars) (ps : List Piece)
    → All IsPiece ps
    → render (print_pieces ps) vars ≡ filled vars ps
unfolding render
render-print_pieces = scan-pieces
