-- ===== src/Audit/Context.antt =====
-- audit/audit.interceptor.ts: what a request is about, by the metadata of its route or by its path.
use mathlib.Core.List.{reverse}
use mentos_backend.Common.{
  ℕ, ◌==◌, ◌&&◌, ◌||◌, not, Bool, true, false, Option, none, some, List, [], ◌∷◌, map,
  if◌then◌else◌, or_else, Text, text, same, includes,
}
use mentos_backend.Http.{Route, HttpRequest, param, before_dot, after_dot}

pub record ActionContext : Type 0 where
  pub resource : Text
  pub action : Text
  pub is_auth_action : Bool

-- the truth of a text
abbrev is_text : Text → Bool
is_text [] = false
is_text (c ∷ s) = true

abbrev is_text_or_null : Option Text → Bool
is_text_or_null none = false
is_text_or_null (some s) = is_text s

abbrev or_current : Text → Text → Text
or_current [] last = last
or_current (c ∷ s) last = reverse (c ∷ s)

-- path.split('/').filter(Boolean).pop() ?? '', by the current segment from its end and the last one
unfoldable pub last_segment : Text → Text → Text → Text
last_segment current last [] = or_current current last
last_segment current last (c ∷ s) =
    let next = last_segment [] (or_current current last) s in
    let longer = last_segment (c ∷ current) last s in if c == b'/' then next else longer

-- s.replace(/a/g, b)
abbrev pub replaced : ℕ → ℕ → Text → Text
replaced a b s = map (λ c. if c == a then b else c) s

abbrev is_skipped : Text → Bool
is_skipped action = same action (text "refresh") || same action (text "me")

abbrev gated_context : Text → HttpRequest → Option ActionContext
gated_context key http =
    if same http.method (text "GET") && not (is_text_or_null (param (text "code") http.params))
    then none
    else some (record { resource = before_dot key; action = after_dot key; is_auth_action = false })

abbrev auth_context : Text → Option ActionContext
auth_context action =
    if not (is_text action) || is_skipped action
    then none
    else some (record { resource = text "auth"; action = action; is_auth_action = true })

abbrev path_context : HttpRequest → Option ActionContext
unfolding last_segment
path_context http =
    if includes (text "/auth/") http.path
    then auth_context (replaced b'-' b'_' (last_segment [] [] http.path))
    else none

unfoldable pub resolve_action_context : Route → HttpRequest → Option ActionContext
unfolding path_context
resolve_action_context route http = by_permissions (or_else route.permissions [])
  where
    by_permissions : List Text → Option ActionContext
    by_permissions [] = path_context http
    by_permissions (key ∷ _) = gated_context key http
