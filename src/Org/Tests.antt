-- ===== src/Org/Tests.antt =====
-- The organization endpoints at concrete tables.
use kohaku_hub.Prelude.{
  ℕ, ◌≡◌, refl, String, true, false, none, some, find?, any, keep, ◌==◌, ◌&&◌, if◌then◌else◌, [],
  ◌∷◌,
}
use kohaku_hub.Fixtures.{tables, settings, alice, acme, bob, alice_in_acme}
use kohaku_hub.Http.{ok, err, http}
use kohaku_hub.Db.{Db}
use kohaku_hub.Db.Queries.{
  get_organization, get_user_by_username, get_user_organization, create_user_organization,
  update_user_organization, delete_user_organization,
}
use kohaku_hub.Db.Keys.{role_of}
use kohaku_hub.Names.{is_reserved, normalize_name}
use kohaku_hub.Auth.Permissions.{check_namespace_permission}
use kohaku_hub.Org.{
  create_organization, has_normalized_name, organization_row, with_user,
  create_organization_endpoint, add_member, remove_member_endpoint, update_member_role_endpoint,
}
use kohaku_hub.Org.Members.{Acts, add_member_effect}
use kohaku_hub.Org.Roles.{create_organization_effect}

org_tests : Unit {0}
unfolding add_member remove_member_endpoint update_member_role_endpoint get_organization
    get_user_by_username get_user_organization create_user_organization update_user_organization
    delete_user_organization find? any keep create_organization_endpoint create_organization
    is_reserved normalize_name
org_tests = tt

abbrev bob_in_acme : Db
bob_in_acme = record tables {
  memberships = alice_in_acme ∷ record { user = 3; organization = 2; role = "member" } ∷ [];
}

added : add_member "acme" "bob" "member" alice tables ≡ ok bob_in_acme
unfolding org_tests
added = refl

removed : remove_member_endpoint "acme" "bob" alice bob_in_acme ≡ ok tables
unfolding org_tests
removed = refl

abbrev bob_admin : Db
bob_admin = record tables {
  memberships = alice_in_acme ∷ record { user = 3; organization = 2; role = "admin" } ∷ [];
}

changed : update_member_role_endpoint "acme" "bob" "admin" alice bob_in_acme ≡ ok bob_admin
unfolding org_tests
changed = refl

refused :
    add_member "acme" "bob" "member" bob tables ≡ err (http 403 "Not authorized to add members")
unfolding org_tests
refused = refl

add_member_effect_example :
    (a : Acts "acme" "bob" alice tables) × (role_of a.target.id a.org.id tables ≡ none)
    × ((u o : ℕ)
        → role_of u o bob_in_acme ≡ (
            if a.target.id == u && a.org.id == o
            then some (record { user = a.target.id; organization = a.org.id; role = "member" })
            else role_of u o tables))
add_member_effect_example = add_member_effect "acme" "bob" alice tables "member" added

abbrev same_text : String → String
same_text text = text

abbrev labs_made : Db
labs_made = record (with_user tables (organization_row settings 4 "labs" none none)) {
  memberships = alice_in_acme ∷ record { user = 3; organization = 4; role = "super-admin" } ∷ [];
}

labs : create_organization_endpoint same_text settings 4 "labs" bob tables ≡ ok labs_made
unfolding org_tests
labs = refl

create_organization_effect_example :
    (is_reserved same_text "labs" ≡ false)
    × (get_organization "labs" tables ≡ none)
    × (any (has_normalized_name same_text "labs") tables.users ≡ false)
    × (check_namespace_permission "labs" (some bob) true false labs_made ≡ ok true)
create_organization_effect_example =
    create_organization_effect same_text settings 4 "labs" bob tables labs

found_rows :
    (get_organization "acme" tables ≡ some acme)
    × (get_user_by_username "alice" tables ≡ some alice)
    × (get_user_organization alice acme tables ≡ some alice_in_acme)
unfolding org_tests
found_rows = (refl, refl, refl)
