-- ===== src/Notifications/Rendering.antt =====
-- NotificationsService.render: text.replace(/\{\{(\w+)\}\}/g, (token, key) => vars[key] ?? token).
pub mod Pieces
use mentos_backend.Common.{
  ℕ, zero, suc, ◌+◌, ◌≡◌, refl, Bool, false, ◌&&◌, ◌||◌, Option, none, some, List, [], ◌∷◌, ◌++◌,
  ◌==◌, leb, if◌then◌else◌, or_else, length, Text, text, same,
}

-- \w
abbrev pub is_word : ℕ → Bool
is_word c =
    (leb b'0' c && leb c b'9')
    || (leb b'A' c && leb c b'Z')
    || (leb b'a' c && leb c b'z')
    || c == b'_'

abbrev pub Vars : Type 0
Vars = List (Text × Text)

abbrev pub lookup : Text → Vars → Option Text
lookup key [] = none
lookup key ((k, v) ∷ vars) = if same k key then some v else lookup key vars

-- what a plain object inherits, as `replace` turns it into text
unfoldable pub inherited : Vars
inherited =
    (text "constructor", text "function Object() { [native code] }")
    ∷ (text "toString", text "function toString() { [native code] }")
    ∷ (text "toLocaleString", text "function toLocaleString() { [native code] }")
    ∷ (text "valueOf", text "function valueOf() { [native code] }")
    ∷ (text "hasOwnProperty", text "function hasOwnProperty() { [native code] }")
    ∷ (text "isPrototypeOf", text "function isPrototypeOf() { [native code] }")
    ∷ (text "propertyIsEnumerable", text "function propertyIsEnumerable() { [native code] }")
    ∷ (text "__defineGetter__", text "function __defineGetter__() { [native code] }")
    ∷ (text "__defineSetter__", text "function __defineSetter__() { [native code] }")
    ∷ (text "__lookupGetter__", text "function __lookupGetter__() { [native code] }")
    ∷ (text "__lookupSetter__", text "function __lookupSetter__() { [native code] }")
    ∷ (text "__proto__", text "[object Object]")
    ∷ []

-- `vars[key]`
unfoldable pub property_of : Vars → Text → Option Text
property_of vars key = elim (lookup key vars) [ none ↦ lookup key inherited | some v ↦ some v ]

-- the characters of a word, and whether the braces that close a token stand behind them
word : Text → Text
word [] = []
word (c ∷ s) = if is_word c then c ∷ word s else []

after_word : Text → Text
after_word [] = []
after_word (c ∷ s) = if is_word c then after_word s else c ∷ s

closes : Text → Bool
closes (c ∷ d ∷ s) = c == b'}' && d == b'}'
closes _ = false

-- The key of the token that the text begins with.
token_at : Text → Option Text
unfolding word after_word closes
token_at (c ∷ d ∷ e ∷ s) =
    if c == b'{' && d == b'{' && is_word e && closes (after_word s) then some (e ∷ word s) else none
token_at _ = none

abbrev pub braced : Text → Text
braced key = b'{' ∷ b'{' ∷ key ++ b'}' ∷ b'}' ∷ []

-- the replacement of a token
unfoldable pub fill : Vars → Text → Text
fill vars key = or_else (property_of vars key) (braced key)

-- The scan from left to right; the number counts the characters of a replaced token that it still
-- has to pass over.
scan : Vars → ℕ → Text → Text
unfolding token_at
scan vars k [] = []
scan vars (suc k) (c ∷ s) = scan vars k s
scan vars zero (c ∷ s) = elim (token_at (c ∷ s)) [
  | none ↦ c ∷ scan vars zero s
  | some key ↦ fill vars key ++ scan vars (length key + 3) s
]

unfoldable pub render : Text → Vars → Text
unfolding scan
render s vars = scan vars 0 s

render_known : render (text "Hi {{name}}!") ((text "name", text "Asha") ∷ []) ≡ text "Hi Asha!"
unfolding render fill property_of
render_known = refl

render_unknown :
    render (text "{{{a}} {{b c}} {{d}}") ((text "a", text "x") ∷ []) ≡ text "{x {{b c}} {{d}}"
unfolding render fill property_of inherited
render_unknown = refl

render_inherited : render (text "{{valueOf}}") [] ≡ text "function valueOf() { [native code] }"
unfolding render fill property_of inherited
render_inherited = refl
