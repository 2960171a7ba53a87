-- ===== src/Users/Inputs.antt =====
-- What the account services take from outside of the repository: crypto, bcrypt, JwtService,
-- ConfigService and the case mapping of Unicode; and the white space that `trim` strips.
use mentos_backend.Common.{ℕ, ◌==◌, ◌||◌, ◌&&◌, leb, any, Bool, [], ◌∷◌, if◌then◌else◌, Text}
use mentos_backend.Tokens.{Settings}

pub record Platform : Type 0 where
  pub to_lower_case : Text → Text
  pub sha256 : Text → Text
  -- bcrypt.hash with the configured rounds and a salt, and bcrypt.compare
  pub bcrypt_hash : Text → Text → Text
  pub bcrypt_compare : Text → Text → Bool
  -- JwtService.signAsync of { sub, email, tv }
  pub sign : ℕ → Text → ℕ → Text
  pub settings : Settings

-- The random values of a request: a token, the uuid of its row, a salt.
pub record Random : Type 0 where
  pub token : Text
  pub id : ℕ
  pub salt : Text

abbrev pub is_space : ℕ → Bool
is_space c =
    (leb 9 c && leb c 13)
    || (leb 8192 c && leb c 8202)
    || any (λ d. d == c) (32 ∷ 160 ∷ 5760 ∷ 8232 ∷ 8233 ∷ 8239 ∷ 8287 ∷ 12288 ∷ 65279 ∷ [])

abbrev pub trim_start : Text → Text
trim_start [] = []
trim_start (c ∷ s) = if is_space c then trim_start s else c ∷ s

abbrev reverse : Text → Text → Text
reverse [] acc = acc
reverse (c ∷ s) acc = reverse s (c ∷ acc)

-- String.prototype.trim
unfoldable pub trim : Text → Text
trim s = reverse (trim_start (reverse (trim_start s) [])) []
