-- ===== src/Fallback/Keys.antt =====
-- The keys of the fallback cache (src/kohakuhub/api/fallback/cache.py), which are texts: a prefix
-- finds those of a user, a suffix those of a repository.
use kohaku_hub.Prelude.{
  ℕ, ◌≡◌, refl, sym, String, Bool, true, false, ◌&&◌, ◌||◌, Option, none, some, ◌==◌, str_eq,
  eq_iff, arith,
}
use mathlib.Core.Path.{subst}
use Prim.Native.Char.{Char}
use Prim.Native.String.append
use kohaku_hub.Auth.Permissions.{◌+s◌}

pub record RepoKey : Type 0 where
  pub repo_type : String
  pub namespace : String
  pub name : String

abbrev pub same_user : Option ℕ → Option ℕ → Bool
same_user none none = true
same_user none (some v) = false
same_user (some u) none = false
same_user (some u) (some v) = u == v

abbrev pub same_repo : RepoKey → RepoKey → Bool
same_repo r q =
    str_eq r.repo_type q.repo_type && str_eq r.namespace q.namespace && str_eq r.name q.name

unfoldable pub user_key : (ℕ → String) → Option ℕ → String
user_key str none = "anon"
user_key str (some user_id) = str user_id

abbrev pub suffix_of : RepoKey → String
suffix_of repo = ":" +s repo.repo_type +s ":" +s repo.namespace +s "/" +s repo.name

abbrev pub prefix_of : (ℕ → String) → Option ℕ → String
prefix_of str user_id = "fallback:repo:u=" +s user_key str user_id +s ":"

unfoldable pub get_key : (ℕ → String) → Option ℕ → String → RepoKey → String
get_key str user_id tokens_hash repo =
    "fallback:repo:u=" +s user_key str user_id +s ":t=" +s tokens_hash +s suffix_of repo

-- `s.endswith(t)`
unfoldable pub ends_with : String → String → Bool
ends_with String.[] t = str_eq "" t
ends_with (String.◌∷◌ c s) t = str_eq (String.◌∷◌ c s) t || ends_with s t

-- `s.startswith(t)`, by cutting off the first characters of both
unfoldable pub starts_with : String → String → Bool
starts_with s String.[] = true
starts_with String.[] (String.◌∷◌ d t) = false
starts_with (String.◌∷◌ c s) (String.◌∷◌ d t) =
    str_eq (String.◌∷◌ c "") (String.◌∷◌ d "") && starts_with s t

pub ends_with-append : (a s t : String) → ends_with s t ≡ true → ends_with (a +s s) t ≡ true
unfolding ends_with
ends_with-append String.[] s t h = subst (λ u. ends_with u t ≡ true) (sym (λ i. append.nil s i)) h
ends_with-append (String.◌∷◌ c a) s t h =
    let rest = ends_with-append a s t h in
    subst (λ u. ends_with u t ≡ true) (sym (λ i. append.cons c a s i)) (ground (arith, rest))

ends_with_itself : (s : String) → ends_with s s ≡ true
unfolding ends_with
ends_with_itself String.[] = refl
ends_with_itself (String.◌∷◌ c s) =
    let same = (eq_iff (String.◌∷◌ c s) (String.◌∷◌ c s)).1 refl in ground (arith, same)

append_cons : (c : Char) (s t : String) → String.◌∷◌ c s +s t ≡ String.◌∷◌ c (s +s t)
append_cons c s t = λ i. append.cons c s t i

-- A text begins as each of its beginnings.
starts_with-append : (s t u : String) → starts_with s u ≡ true → starts_with (s +s t) u ≡ true
unfolding starts_with
starts_with-append s t String.[] h = refl
starts_with-append String.[] t (String.◌∷◌ d u) h = absurd (ground arith)
starts_with-append (String.◌∷◌ c s) t (String.◌∷◌ d u) h =
    let rest = starts_with-append s t u in
    subst (λ v. starts_with v (String.◌∷◌ d u) ≡ true) (sym (append_cons c s t))
      (ground (arith, rest))

-- A common front does not matter.
pub starts_with-append_both :
    (a s u : String) → starts_with s u ≡ true → starts_with (a +s s) (a +s u) ≡ true
unfolding starts_with
starts_with-append_both String.[] s u h =
    subst (λ v. starts_with v ("" +s u) ≡ true) (sym (λ i. append.nil s i))
      (subst (λ v. starts_with s v ≡ true) (sym (λ i. append.nil u i)) h)
starts_with-append_both (String.◌∷◌ c a) s u h =
    let rest = starts_with-append_both a s u h in
    let same = (eq_iff (String.◌∷◌ c "") (String.◌∷◌ c "")).1 refl in
    subst (λ v. starts_with v (String.◌∷◌ c a +s u) ≡ true) (sym (append_cons c a s))
      (subst (λ v. starts_with (String.◌∷◌ c (a +s s)) v ≡ true) (sym (append_cons c a u))
        (ground (arith, rest, same)))

pub get_key-has_suffix :
    (str : ℕ → String) (user_id : Option ℕ) (tokens_hash : String) (repo : RepoKey)
    → ends_with (get_key str user_id tokens_hash repo) (suffix_of repo) ≡ true
unfolding get_key
get_key-has_suffix str user_id tokens_hash repo =
    let tail = suffix_of repo in
    ends_with-append "fallback:repo:u=" _ tail (
      ends_with-append (user_key str user_id) _ tail (
        ends_with-append ":t=" _ tail
          (ends_with-append tokens_hash tail tail (ends_with_itself tail))))

after_user : (s : String) → starts_with (":t=" +s s) ":" ≡ true
unfolding starts_with
after_user s = starts_with-append ":t=" s ":" refl

pub get_key-has_prefix :
    (str : ℕ → String) (user_id : Option ℕ) (tokens_hash : String) (repo : RepoKey)
    → starts_with (get_key str user_id tokens_hash repo) (prefix_of str user_id) ≡ true
unfolding get_key
get_key-has_prefix str user_id tokens_hash repo =
    let user = user_key str user_id in
    let tail = tokens_hash +s suffix_of repo in
    starts_with-append_both "fallback:repo:u=" (user +s ":t=" +s tail) (user +s ":")
      (starts_with-append_both user (":t=" +s tail) ":" (after_user tail))
