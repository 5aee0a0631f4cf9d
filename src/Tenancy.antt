-- ===== src/Tenancy.antt =====
-- internal/tenancy/types.go: the roles and their order.
pub mod Routes
use mock_agents.Prelude.{
  Bool, true, false, not, ◌&&◌, String, List, [], ◌∷◌, if◌then◌else◌, str_eq, ltb, leb, ℤ, pos,
  negsuc, ◌≡◌, arith,
}

abbrev pub role_viewer : String
role_viewer = "viewer"

abbrev pub role_editor : String
role_editor = "editor"

abbrev pub role_admin : String
role_admin = "admin"

abbrev pub role_platform : String
role_platform = "platform"

-- Unknown roles rank -1.
unfoldable pub rank : String → ℤ
rank r =
    if str_eq r role_viewer
    then pos 1
    else if str_eq r role_editor
    then pos 2
    else if str_eq r role_admin
    then pos 3
    else if str_eq r role_platform
    then pos 4
    else negsuc 0

-- `required.rank() > 0`
abbrev pub is_positive : ℤ → Bool
is_positive (pos n) = ltb 0 n
is_positive (negsuc n) = false

abbrev pub leb_ranks : ℤ → ℤ → Bool
leb_ranks (pos m) (pos n) = leb m n
leb_ranks (pos m) (negsuc n) = false
leb_ranks (negsuc m) (pos n) = true
leb_ranks (negsuc m) (negsuc n) = leb n m

unfoldable pub at_least : String → String → Bool
at_least r required = leb_ranks (rank required) (rank r) && is_positive (rank required)

unfoldable pub is_valid : String → Bool
is_valid r = is_positive (rank r)

unfoldable pub is_assignable_via_api : String → Bool
is_assignable_via_api r = is_valid r && not (str_eq r role_platform)

abbrev pub all_roles : List String
all_roles = role_viewer ∷ role_editor ∷ role_admin ∷ role_platform ∷ []

-- A role that is enough for one that is enough for a third is enough for the third.
both_ranks :
    (a b c : ℤ)
    → (leb_ranks b a && is_positive b) ≡ true
    → (leb_ranks c b && is_positive c) ≡ true
    → (leb_ranks c a && is_positive c) ≡ true
both_ranks (pos m) (pos n) (pos k) h j = ground (arith, h, j)
both_ranks (negsuc m) (pos n) (pos k) h j = absurd (cc h)
both_ranks (pos m) (negsuc n) (pos k) h j = absurd (cc j)
both_ranks (negsuc m) (negsuc n) (pos k) h j = absurd (cc j)
both_ranks a b (negsuc k) h j = absurd (ground (arith, j))

pub at_least_trans :
    (r s t : String) → at_least r s ≡ true → at_least s t ≡ true → at_least r t ≡ true
unfolding at_least
at_least_trans r s t h j = both_ranks (rank r) (rank s) (rank t) h j
