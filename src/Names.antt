-- ===== src/Names.antt =====
-- src/kohakuhub/utils/names.py, and the reserved names of src/kohakuhub/api/validation.py.
-- `lower` is Python's `str.lower`, which goes by the Unicode tables: a parameter.
pub mod Lake
use Prim.Native.Char.{code}
use kohaku_hub.Prelude.{ℕ, String, Bool, ◌||◌, List, [], ◌∷◌, any, ◌==◌, str_eq, if◌then◌else◌}

-- `text.replace(c, "")` for a text `c` of one character
remove : ℕ → String → String
remove c String.[] = String.[]
remove c (String.◌∷◌ ch text) =
    let rest = remove c text in if code ch == c then rest else String.◌∷◌ ch rest

unfoldable pub normalize_name : (lower : String → String) → String → String
unfolding remove
normalize_name lower name = remove b'_' (remove b'-' (lower name))

abbrev pub reserved_names : List String
reserved_names =
    "models" ∷ "datasets" ∷ "spaces" ∷ "admin" ∷ "organizations" ∷ "api" ∷ "org" ∷ "auth"
    ∷ "settings" ∷ "new" ∷ "login" ∷ "register" ∷ "logout" ∷ "docs" ∷ "swagger" ∷ "health"
    ∷ "version" ∷ "resolve" ∷ "tree" ∷ "blob" ∷ "commit" ∷ "commits" ∷ "branch" ∷ "branches" ∷ "tag"
    ∷ "tags" ∷ "upload" ∷ "edit" ∷ "fallback-sources" ∷ "cache" ∷ "stats" ∷ "quota" ∷ []

unfoldable pub is_reserved : (lower : String → String) → String → Bool
is_reserved lower name =
    any (str_eq (lower name)) reserved_names
    || any (str_eq (normalize_name lower name)) reserved_names
