-- ===== src/Auth/Ttl.antt =====
-- auth/ttl.util.ts
use mentos_backend.Common.{
  ℕ, ◌+◌, ◌-◌, ◌*◌, ◌==◌, ◌&&◌, leb, if◌then◌else◌, Option, none, some, [], ◌∷◌, or_else, Text,
  text, ◌≡◌, refl,
}
use mentos_backend.Users.Inputs.{trim, trim_start}

-- the value of the leading digits, with what follows them
abbrev digits : ℕ → Text → ℕ × Text
digits acc [] = (acc, [])
digits acc (c ∷ s) =
    let rest = digits (acc * 10 + (c - b'0')) s in
    if leb b'0' c && leb c b'9' then rest else (acc, c ∷ s)

-- factor[match[2] ?? 's'] of what follows the white space, `none` if the pattern does not match
abbrev factor : Text → Option ℕ
factor [] = some 1
factor (c ∷ []) =
    if c == b's'
    then some 1
    else if c == b'm'
    then some 60
    else if c == b'h'
    then some 3600
    else if c == b'd'
    then some 86400
    else none
factor (c ∷ d ∷ s) = none

-- /^(\d+)\s*([smhd])?$/ on a text that is not empty
abbrev scan : Text → Option ℕ
scan [] = none
scan (c ∷ s) =
    let (n, rest) = digits 0 (c ∷ s) in
    if leb b'0' c && leb c b'9'
    then elim (factor (trim_start rest)) [ none ↦ none | some k ↦ some (n * k) ]
    else none

unfoldable pub parse_ttl_seconds : Option Text → ℕ → ℕ
unfolding trim
parse_ttl_seconds ttl fallback_seconds = or_else (scan (trim (or_else ttl []))) fallback_seconds

parse_minutes : parse_ttl_seconds (some (text " 15m")) 900 ≡ 900
unfolding parse_ttl_seconds trim
parse_minutes = refl

parse_days : parse_ttl_seconds (some (text "7 d")) 900 ≡ 604800
unfolding parse_ttl_seconds trim
parse_days = refl

parse_bad : parse_ttl_seconds (some (text "7w")) 900 ≡ 900
unfolding parse_ttl_seconds trim
parse_bad = refl
