-- ===== src/AccessControl/Reads.antt =====
-- The checks of the service change nothing, and what each has established when it passes.
use apiv.Prelude.{
  String, false, Option, some, List, [], ◌∷◌, contains, truthy, Run, ok, ◌≡◌, refl, arith,
}
use apiv.Store.{Role, Permission, TenantGrant}
use apiv.AccessControl.State.{Ac, at_most_one}
use apiv.AccessControl.Repository.{get_role_by_id, get_permission_by_key, get_override}
use apiv.AccessControl.Checks.{
  require_tenant_id, get_accessible_role_or_throw, get_editable_role_or_throw,
  assert_permission_is_customizable, is_foreign, protected_role_names,
}

abbrev pub Reads : {A : Type 0} → Run Ac A → Type 0
Reads m = (s : Ac) → (m s).1 ≡ s

at_most_one-Reads : {A : Type 0} (xs : List A) → Reads (at_most_one xs)
at_most_one-Reads [] s = refl
at_most_one-Reads (x ∷ []) s = refl
at_most_one-Reads (x ∷ y ∷ xs) s = refl

pub require_tenant_id-Reads : (tenant : Option String) → Reads (require_tenant_id tenant)
unfolding require_tenant_id
require_tenant_id-Reads tenant s = ground arith

get_role_by_id-Reads : (id : String) → Reads (get_role_by_id id)
unfolding get_role_by_id
get_role_by_id-Reads id s = grind (arith, at_most_one-Reads {A = Role})

pub get_accessible_role_or_throw-Reads :
    (id tenant : String) → Reads (get_accessible_role_or_throw id tenant)
unfolding get_accessible_role_or_throw
get_accessible_role_or_throw-Reads id tenant s = ground (arith, get_role_by_id-Reads id s)

pub get_editable_role_or_throw-Reads :
    (id tenant : String) → Reads (get_editable_role_or_throw id tenant)
unfolding get_editable_role_or_throw
get_editable_role_or_throw-Reads id tenant s =
    ground (arith, get_accessible_role_or_throw-Reads id tenant s)

pub assert_permission_is_customizable-Reads :
    (key : String) → Reads (assert_permission_is_customizable key)
unfolding assert_permission_is_customizable get_permission_by_key
assert_permission_is_customizable-Reads key s = grind (arith, at_most_one-Reads {A = Permission})

pub get_override-Reads : (tenant role_id key : String) → Reads (get_override tenant role_id key)
unfolding get_override
get_override-Reads tenant role_id key s = grind (arith, at_most_one-Reads {A = TenantGrant})

-- An editable role is not the owner's, and not another tenant's.
pub get_editable_role_or_throw_ok :
    (id tenant : String) (s : Ac) (role : Role) (t : Ac)
    → get_editable_role_or_throw id tenant s ≡ (ok role, t)
    → (contains role.name protected_role_names ≡ false) × (is_foreign tenant role.tenant_id ≡ false)
unfolding get_editable_role_or_throw get_accessible_role_or_throw
get_editable_role_or_throw_ok id tenant s role t h = ground arith

pub require_tenant_id_lem :
    (tenant : Option String) (t : String) (s : Ac)
    → truthy tenant ≡ some t
    → require_tenant_id tenant s ≡ (ok t, s)
unfolding require_tenant_id
require_tenant_id_lem tenant t s h = rw (h, require_tenant_id)
