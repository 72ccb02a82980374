-- ===== src/Names/Lake/Tests.antt =====
-- Names of LakeFS repositories.
use kohaku_hub.Prelude.{ℕ, ◌≡◌, refl, String, arith}
use kohaku_hub.Names.Lake.{
  hyphens_for, collapse, lstrip, rstrip, sanitize_repo_id, first, length_text, zeros, zfill,
  type_char, base36_encode, hash_to_112bit, lakefs_repo_name,
}
use kohaku_hub.Names.Lake.Form.{HashLaws, IsLakeName, lakefs_repo_name-IsLakeName}

abbrev same_text : String → String
same_text text = text

abbrev one_digit : ℕ → String
one_digit num = "7"

abbrev two_halves : String → ℕ × ℕ
two_halves text = (6, 3)

separators : sanitize_repo_id same_text "-org/my__data.v2_" ≡ "org-my-data-v2"
unfolding sanitize_repo_id hyphens_for collapse lstrip rstrip
separators = refl

dataset_name :
    lakefs_repo_name same_text one_digit two_halves "dataset" "org/x.y"
    ≡ "d-org-x-y-0000000000000000000007"
unfolding lakefs_repo_name sanitize_repo_id hyphens_for collapse lstrip rstrip first length_text
    zeros zfill type_char base36_encode hash_to_112bit
dataset_name = refl

laws : HashLaws same_text one_digit two_halves
unfolding length_text
laws = record {
  digits = λ num. (refl, tt);
  few_digits = λ num h. omega arith;
  half_bits = λ text. (omega arith, omega arith);
}

lakefs_repo_name-IsLakeName_example :
    IsLakeName (lakefs_repo_name same_text one_digit two_halves "dataset" "org/x.y")
lakefs_repo_name-IsLakeName_example =
    lakefs_repo_name-IsLakeName same_text one_digit two_halves "dataset" "org/x.y" laws
