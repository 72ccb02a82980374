-- ===== src/Names/Lake.antt =====
-- src/kohakuhub/utils/lakefs.py: the name of a repository in LakeFS. `lower` is Python's `str.lower`,
-- `base_repr` is numpy's `base_repr(num, base=36)`, and `halves` are the two numbers of 14 bytes in the
-- SHA3-224 digest of the UTF-8 of a text.
pub mod Hash
pub mod Form
mod Tests
use Prim.Native.Nat.{bit_xor}
use Prim.Native.Char.{Char, code}
use kohaku_hub.Prelude.{
  ℕ, zero, suc, ◌-◌, String, Bool, false, ◌&&◌, ◌||◌, not, leb, ◌==◌, str_eq, if◌then◌else◌,
}
use kohaku_hub.Auth.Permissions.{◌+s◌}

abbrev pub is_hyphen : Char → Bool
is_hyphen c = code c == b'-'

-- [a-z0-9]
abbrev pub is_lower_alnum : Char → Bool
is_lower_alnum c = leb b'a' (code c) && leb (code c) b'z' || leb b'0' (code c) && leb (code c) b'9'

-- Each character that fails the test becomes a hyphen.
unfoldable pub hyphens_for : (Char → Bool) → String → String
hyphens_for allowed String.[] = String.[]
hyphens_for allowed (String.◌∷◌ c text) =
    if allowed c then String.◌∷◌ c (hyphens_for allowed text) else "-" +s hyphens_for allowed text

-- `replace("/", "-").replace("_", "-").replace(".", "-")`
abbrev pub is_no_separator : Char → Bool
is_no_separator c = not (code c == b'/' || code c == b'_' || code c == b'.')

abbrev pub starts_hyphen : String → Bool
starts_hyphen String.[] = false
starts_hyphen (String.◌∷◌ c text) = is_hyphen c

-- `re.sub(r"-+", "-", text)`
unfoldable pub collapse : String → String
collapse String.[] = String.[]
collapse (String.◌∷◌ c text) =
    let rest = collapse text in
    if is_hyphen c && starts_hyphen rest then rest else String.◌∷◌ c rest

-- `text.strip("-")`
unfoldable pub lstrip : String → String
lstrip String.[] = String.[]
lstrip (String.◌∷◌ c text) =
    let rest = lstrip text in if is_hyphen c then rest else String.◌∷◌ c text

unfoldable pub rstrip : String → String
rstrip String.[] = String.[]
rstrip (String.◌∷◌ c text) =
    let rest = rstrip text in if is_hyphen c && str_eq rest "" then String.[] else String.◌∷◌ c rest

unfoldable pub sanitize_repo_id : (lower : String → String) → String → String
sanitize_repo_id lower repo_id =
    let safe = hyphens_for is_no_separator repo_id in
    let safe' = hyphens_for (λ c. is_lower_alnum c || is_hyphen c) (lower safe) in
    rstrip (lstrip (collapse safe'))

-- `text[:n]`
unfoldable pub first : ℕ → String → String
first zero text = String.[]
first (suc n) String.[] = String.[]
first (suc n) (String.◌∷◌ c text) = String.◌∷◌ c (first n text)

unfoldable pub length_text : String → ℕ
length_text String.[] = 0
length_text (String.◌∷◌ c text) = suc (length_text text)

unfoldable pub zeros : ℕ → String → String
zeros zero text = text
zeros (suc n) text = "0" +s zeros n text

-- `text.zfill(width)`, for a text without a sign
unfoldable pub zfill : ℕ → String → String
zfill width text = zeros (width - length_text text) text

unfoldable pub type_char : String → String
type_char repo_type =
    if str_eq repo_type "dataset" then "d" else if str_eq repo_type "space" then "s" else "m"

module _ (lower : String → String) (base_repr : ℕ → String) (halves : String → ℕ × ℕ) where
  unfoldable pub base36_encode : ℕ → String
  base36_encode num = lower (base_repr num)

  unfoldable pub hash_to_112bit : String → ℕ
  hash_to_112bit text = let (half1, half2) = halves text in bit_xor half1 half2

  unfoldable pub lakefs_repo_name : (repo_type repo_id : String) → String
  lakefs_repo_name repo_type repo_id =
      type_char repo_type
      +s "-"
      +s first 38 (sanitize_repo_id lower repo_id)
      +s "-"
      +s zfill 22 (base36_encode (hash_to_112bit repo_id))
