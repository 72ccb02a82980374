-- ===== src/Names/Lake/Form.antt =====
-- The form that LakeFS wants of a repository's name, ^[a-z0-9][a-z0-9-]{2,62}$, and the names that
-- src/kohakuhub/utils/lakefs.py makes.
use Prim.Native.Nat.{◌^◌}
use Prim.Native.Char.{Char}
use kohaku_hub.Prelude.{
  ℕ, zero, suc, ◌+◌, ◌-◌, ◌≤◌, ◌<◌, ◌≡◌, refl, ◌∙◌, String, Bool, true, false, ◌&&◌, ◌||◌, str_eq,
  Bool-cases, inl, inr, arith,
}
use text.Mathlib.TextLemmas.{nil-append, cons-append}
use kohaku_hub.Auth.Permissions.{◌+s◌}
use kohaku_hub.Names.Lake.{
  is_hyphen, is_lower_alnum, is_no_separator, hyphens_for, starts_hyphen, collapse, lstrip, rstrip,
  sanitize_repo_id, first, length_text, zeros, zfill, type_char, base36_encode, hash_to_112bit,
  lakefs_repo_name,
}
use kohaku_hub.Names.Lake.Hash.{hash_to_112bit-lt}

-- Each character of the text passes the test.
abbrev pub AllText : (Char → Bool) → String → Type 0
AllText p String.[] = Unit
AllText p (String.◌∷◌ c text) = (p c ≡ true) × AllText p text

abbrev pub is_safe : Char → Bool
is_safe c = is_lower_alnum c || is_hyphen c

AllText-append : (p : Char → Bool) (s t : String) → AllText p s → AllText p t → AllText p (s +s t)
AllText-append p String.[] t hs ht = rw nil-append ht
AllText-append p (String.◌∷◌ c s) t (hc, hs) ht = rw cons-append (hc, AllText-append p s t hs ht)

length_text-append : (s t : String) → length_text (s +s t) ≡ length_text s + length_text t
unfolding length_text
length_text-append String.[] t = rw nil-append (omega arith)
length_text-append (String.◌∷◌ c s) t = rw cons-append (omega (arith, length_text-append s t))

AllText-mono :
    (p q : Char → Bool) (s : String)
    → ((c : Char) → p c ≡ true → q c ≡ true)
    → AllText p s
    → AllText q s
AllText-mono p q String.[] through h = tt
AllText-mono p q (String.◌∷◌ c s) through (hc, hs) = (through c hc, AllText-mono p q s through hs)

hyphens_for-AllText : (s : String) → AllText is_safe (hyphens_for is_safe s)
unfolding hyphens_for
hyphens_for-AllText String.[] = tt
hyphens_for-AllText (String.◌∷◌ c s) = elim (Bool-cases (is_safe c)) [
  | inl safe ↦ rw safe (safe, hyphens_for-AllText s)
  | inr other ↦ rw other (AllText-append is_safe "-" _ (refl, tt) (hyphens_for-AllText s))
]

module _ (p : Char → Bool) where
  collapse-AllText : (s : String) → AllText p s → AllText p (collapse s)
  unfolding collapse
  collapse-AllText String.[] h = tt
  collapse-AllText (String.◌∷◌ c s) (hc, hs) =
      let rest = collapse-AllText s hs in
      elim (Bool-cases (is_hyphen c && starts_hyphen (collapse s))) [
        | inl again ↦ rw again rest
        | inr new ↦ rw new (hc, rest)
      ]

  lstrip-AllText : (s : String) → AllText p s → AllText p (lstrip s)
  unfolding lstrip
  lstrip-AllText String.[] h = tt
  lstrip-AllText (String.◌∷◌ c s) (hc, hs) =
      let rest = lstrip-AllText s hs in
      elim (Bool-cases (is_hyphen c)) [
        | inl hyphen ↦ rw hyphen rest
        | inr other ↦ rw other (hc, hs)
      ]

  rstrip-AllText : (s : String) → AllText p s → AllText p (rstrip s)
  unfolding rstrip
  rstrip-AllText String.[] h = tt
  rstrip-AllText (String.◌∷◌ c s) (hc, hs) =
      let rest = rstrip-AllText s hs in
      elim (Bool-cases (is_hyphen c && str_eq (rstrip s) "")) [
        | inl last ↦ rw last tt
        | inr other ↦ rw other (hc, rest)
      ]

  first-AllText : (n : ℕ) (s : String) → AllText p s → AllText p (first n s)
  unfolding first
  first-AllText zero s h = tt
  first-AllText (suc n) String.[] h = tt
  first-AllText (suc n) (String.◌∷◌ c s) (hc, hs) = (hc, first-AllText n s hs)

length_text-first : (n : ℕ) (s : String) → length_text (first n s) ≤ n
unfolding first length_text
length_text-first zero s = omega arith
length_text-first (suc n) String.[] = omega arith
length_text-first (suc n) (String.◌∷◌ c s) = omega (arith, length_text-first n s)

sanitize_repo_id-AllText :
    (lower : String → String) (repo_id : String) → AllText is_safe (sanitize_repo_id lower repo_id)
unfolding sanitize_repo_id
sanitize_repo_id-AllText lower repo_id = rstrip-AllText is_safe _ (
    lstrip-AllText is_safe _ (
      collapse-AllText is_safe _
        (hyphens_for-AllText (lower (hyphens_for is_no_separator repo_id)))))

zeros-AllText : (n : ℕ) (s : String) → AllText is_lower_alnum s → AllText is_lower_alnum (zeros n s)
unfolding zeros
zeros-AllText zero s h = h
zeros-AllText (suc n) s h = AllText-append is_lower_alnum "0" _ (refl, tt) (zeros-AllText n s h)

length_text-zeros : (n : ℕ) (s : String) → length_text (zeros n s) ≡ n + length_text s
unfolding zeros length_text
length_text-zeros zero s = omega arith
length_text-zeros (suc n) s =
    length_text-append "0" (zeros n s) ∙ omega (arith, length_text-zeros n s)

length_text-zfill :
    (width : ℕ) (s : String) → length_text s ≤ width → length_text (zfill width s) ≡ width
unfolding zfill
length_text-zfill width s h = length_text-zeros (width - length_text s) s ∙ omega arith

-- What is known of `str.lower`, `numpy.base_repr` and the digest's halves: the digits to base 36 are
-- 0-9 and a-z in lower case, a number of 112 bits has 22 of them at most, and 14 bytes are 112 bits.
pub record HashLaws (lower : String → String) (base_repr : ℕ → String) (halves : String → ℕ × ℕ)
    : Type 0 where
  pub digits : (num : ℕ) → AllText is_lower_alnum (lower (base_repr num))
  pub few_digits : (num : ℕ) → num < 2 ^ 112 → length_text (lower (base_repr num)) ≤ 22
  pub half_bits : (text : String) → ((halves text).0 < 2 ^ 112) × ((halves text).1 < 2 ^ 112)

-- A name of the form: it begins with one of a, ..., z, 0, ..., 9.
abbrev pub starts_alnum : String → Bool
starts_alnum String.[] = false
starts_alnum (String.◌∷◌ c text) = is_lower_alnum c

pub record IsLakeName (name : String) : Type 0 where
  pub characters : AllText is_safe name
  pub first_character : starts_alnum name ≡ true
  pub at_least : 3 ≤ length_text name
  pub at_most : length_text name ≤ 63

type_char_form :
    (repo_type : String)
    → (c : Char) × (type_char repo_type ≡ String.◌∷◌ c String.[]) × (is_lower_alnum c ≡ true)
unfolding type_char
type_char_form repo_type = elim (Bool-cases (str_eq repo_type "dataset")) [
  | inl dataset ↦ ("d", rw dataset refl, refl)
  | inr other ↦ elim (Bool-cases (str_eq repo_type "space")) [
    | inl space ↦ ("s", rw (other, space) refl, refl)
    | inr model ↦ ("m", rw (other, model) refl, refl)
  ]
]

-- A name that begins with one letter or digit.
cons-IsLakeName :
    (c : Char) (rest : String)
    → is_lower_alnum c ≡ true
    → AllText is_safe rest
    → 2 ≤ length_text rest
    → length_text rest ≤ 62
    → IsLakeName (String.◌∷◌ c String.[] +s rest)
unfolding length_text
cons-IsLakeName c rest hc safe low high =
    rw (cons-append, nil-append)
      (record {
        characters = (ground arith, safe);
        first_character = hc;
        at_least = omega arith;
        at_most = omega arith;
      })

alnum-is_safe : (c : Char) → is_lower_alnum c ≡ true → is_safe c ≡ true
alnum-is_safe c h = ground arith

-- What stands behind the letter.
tail_form :
    (safe_id suffix : String)
    → AllText is_safe safe_id
    → AllText is_lower_alnum suffix
    → length_text safe_id ≤ 38
    → length_text suffix ≡ 22
    → AllText is_safe ("-" +s safe_id +s "-" +s suffix)
      × (24 ≤ length_text ("-" +s safe_id +s "-" +s suffix))
      × (length_text ("-" +s safe_id +s "-" +s suffix) ≤ 62)
unfolding length_text
tail_form safe_id suffix id_safe suffix_safe id_length suffix_length =
    let suffix_safe' = AllText-mono is_lower_alnum is_safe suffix alnum-is_safe suffix_safe in
    let inner =
      AllText-append is_safe safe_id _ id_safe
        (AllText-append is_safe "-" suffix (refl, tt) suffix_safe') in
    let l1 = length_text-append "-" (safe_id +s "-" +s suffix) in
    let l2 = length_text-append safe_id ("-" +s suffix) in
    let l3 = length_text-append "-" suffix in
    (AllText-append is_safe "-" _ (refl, tt) inner, omega arith, omega arith)

module _ (lower : String → String) (base_repr : ℕ → String) (halves : String → ℕ × ℕ)
    (repo_id : String) (laws : HashLaws lower base_repr halves) where
  abbrev encoded : String
  encoded = base36_encode lower base_repr halves (hash_to_112bit lower base_repr halves repo_id)

  encoded_form : AllText is_lower_alnum encoded × (length_text encoded ≤ 22)
  unfolding base36_encode
  encoded_form =
      let num = hash_to_112bit lower base_repr halves repo_id in
      let bits = hash_to_112bit-lt lower base_repr halves repo_id (laws.half_bits repo_id) in
      (laws.digits num, laws.few_digits num bits)

  suffix-AllText : AllText is_lower_alnum (zfill 22 encoded)
  unfolding zfill
  suffix-AllText = zeros-AllText (22 - length_text encoded) encoded encoded_form.0

-- Where lower-case digits to base 36 are 0-9 and a-z, 22 of them at most for a number of 112 bits, and
-- the halves of the digest have 112 bits, the name of every repository, of whatever text its id is,
-- has the form that LakeFS wants: 3 to 63 of the characters a-z, 0-9 and the hyphen, of which the
-- first is no hyphen.
pub lakefs_repo_name-IsLakeName :
    (lower : String → String) (base_repr : ℕ → String) (halves : String → ℕ × ℕ)
    (repo_type repo_id : String)
    → HashLaws lower base_repr halves
    → IsLakeName (lakefs_repo_name lower base_repr halves repo_type repo_id)
unfolding lakefs_repo_name
lakefs_repo_name-IsLakeName lower base_repr halves repo_type repo_id laws =
    let (c, letter, alnum) = type_char_form repo_type in
    let safe_id = sanitize_repo_id lower repo_id in
    let (_, short) = encoded_form lower base_repr halves repo_id laws in
    let (safe, low, high) =
      tail_form (first 38 safe_id) (zfill 22 (encoded lower base_repr halves repo_id laws))
        (first-AllText is_safe 38 safe_id (sanitize_repo_id-AllText lower repo_id))
        (suffix-AllText lower base_repr halves repo_id laws) (length_text-first 38 safe_id)
        (length_text-zfill 22 (encoded lower base_repr halves repo_id laws) short) in
    rw letter (cons-IsLakeName c _ alnum safe (omega arith) high)
