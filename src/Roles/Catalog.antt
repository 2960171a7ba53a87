-- ===== src/Roles/Catalog.antt =====
-- common/rbac/perm-catalog.ts: the keys `<resource>.<action>`, without the labels and groups that
-- only the roles screen shows.
use mentos_backend.Common.{List, [], ◌∷◌, ◌++◌, map, Text, text}

-- the resources with their actions
abbrev pub perm_resources : List (Text × List Text)
perm_resources =
    (text "dashboard", text "read" ∷ [])
    ∷ (text "property", text "read" ∷ text "create" ∷ text "update" ∷ text "delete" ∷ [])
    ∷ (text "unit", text "read" ∷ text "create" ∷ text "update" ∷ text "delete" ∷ [])
    ∷ (text "tenant", text "read" ∷ text "create" ∷ text "update" ∷ text "blacklist" ∷ [])
    ∷ (
      text "lease",
      text "read" ∷ text "create" ∷ text "update" ∷ text "terminate" ∷ text "export" ∷ [],
    )
    ∷ (text "invoice", text "read" ∷ text "create" ∷ text "update" ∷ [])
    ∷ (text "payment", text "read" ∷ text "create" ∷ [])
    ∷ (text "report", text "read" ∷ text "export" ∷ [])
    ∷ (text "maintenance", text "read" ∷ text "create" ∷ text "assign" ∷ text "close" ∷ [])
    ∷ (text "document", text "read" ∷ text "create" ∷ text "delete" ∷ [])
    ∷ (text "notification", text "read" ∷ text "send" ∷ text "configure" ∷ [])
    ∷ (text "template", text "read" ∷ text "update" ∷ [])
    ∷ (text "user", text "read" ∷ text "create" ∷ text "update" ∷ [])
    ∷ (text "role", text "read" ∷ text "create" ∷ text "update" ∷ text "delete" ∷ [])
    ∷ (text "audit", text "read" ∷ [])
    ∷ []

abbrev keys_of : List (Text × List Text) → List Text
keys_of [] = []
keys_of ((resource, actions) ∷ rest) = map (λ a. resource ++ text "." ++ a) actions ++ keys_of rest

-- allPermKeys()
abbrev pub all_perm_keys : List Text
all_perm_keys = keys_of perm_resources
