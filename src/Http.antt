-- ===== src/Http.antt =====
-- What the guards and the interceptor see of an HTTP request and of its handler: Express, Nest's
-- Reflector and HttpException.
use mentos_backend.Common.{
  ℕ, ◌==◌, Bool, Option, none, some, List, [], ◌∷◌, ◌++◌, if◌then◌else◌, Text, same,
}
use mentos_backend.Model.{User, Role, Json, World}

-- the metadata of a route's handler and class: @Permissions and @AuditSkip
pub record Route : Type 0 where
  pub permissions : Option (List Text)
  pub audit_skip : Bool

pub record HttpRequest : Type 0 where
  pub method : Text
  pub path : Text
  -- the path with the query
  pub url : Text
  -- the pattern of the route
  pub route_path : Option Text
  pub params : List (Text × Text)
  -- set by JwtStrategy, with the role that is loaded with the user
  pub user : Option User
  pub role : Option Role
  pub ip : Option Text
  pub user_agent : Option Text

-- what a handler throws: an HttpException with its status, response and message, another Error with
-- its message, or any other value
pub data Thrown : Type 0 where
  http_exception : ℕ → Json → Text → Thrown
  error : Text → Thrown
  other : Thrown

pub data Handled : Type 0 where
  returned : Json → Handled
  thrown : Thrown → Handled

-- next.handle()
abbrev pub Handler : Type 0
Handler = World → Handled × World

-- req.params?.[name]
abbrev pub param : Text → List (Text × Text) → Option Text
param name [] = none
param name ((k, v) ∷ params) = if same k name then some v else param name params

-- `[first, rest] = key.split('.')`, for a key with one dot
abbrev pub before_dot : Text → Text
before_dot [] = []
before_dot (c ∷ s) = if c == b'.' then [] else c ∷ before_dot s

abbrev pub after_dot : Text → Text
after_dot [] = []
after_dot (c ∷ s) = if c == b'.' then s else after_dot s

-- parts.join(separator)
abbrev pub join : Text → List Text → Text
join separator [] = []
join separator (s ∷ []) = s
join separator (s ∷ t ∷ parts) = s ++ separator ++ join separator (t ∷ parts)
