-- ===== src/AccessControl/Grants.antt =====
-- The rows of tenant_role_permissions under each write of the repository.
use apiv.Prelude.{
  String, Bool, not, none, some, List, [], ◌∷◌, ◌++◌, map, filter, any, update, if◌then◌else◌, ◌≡◌,
  ◌≢◌, refl, arith, eq_iff, eq_refl,
}
use apiv.Store.{TenantGrant}
use apiv.Permissions.Spec.{last_for}
use apiv.AccessControl.Repository.{is_grant_of, is_grant_for, granted_as, upsert_rows}

abbrev grant_entry : TenantGrant → String × Bool
grant_entry g = (g.permission_key, g.is_granted)

-- The entries that `fetchTenantOverrides` reads from the rows.
abbrev pub read : String → String → List TenantGrant → List (String × Bool)
read t r gs = map grant_entry (filter (is_grant_of t r) gs)

abbrev pub new_grant : String → String → String → Bool → TenantGrant
new_grant t r k b = record { tenant_id = t; role_id = r; permission_key = k; is_granted = b }

last_for-update :
    (t r k : String) (b : Bool) (gs : List TenantGrant)
    → last_for k (read t r (update (is_grant_for t r k) (granted_as b) gs))
      ≡ (if any (is_grant_for t r k) gs then some b else none)
last_for-update t r k b [] = refl
last_for-update t r k b (g ∷ gs) = ground (
  arith,
  last_for-update t r k b gs,
  eq_iff g.permission_key k,
  eq_iff k g.permission_key,
  eq_refl k,
)

last_for-append :
    (t r k : String) (b : Bool) (gs : List TenantGrant)
    → last_for k (read t r (gs ++ new_grant t r k b ∷ [])) ≡ some b
last_for-append t r k b [] = ground (arith, eq_refl k, eq_refl t, eq_refl r)
last_for-append t r k b (g ∷ gs) = ground (arith, last_for-append t r k b gs)

pub last_for-upsert :
    (t r k : String) (b : Bool) (gs : List TenantGrant)
    → last_for k (read t r (upsert_rows t r k b gs)) ≡ some b
unfolding upsert_rows
last_for-upsert t r k b gs = ground (arith, last_for-update t r k b gs, last_for-append t r k b gs)

pub last_for-delete :
    (t r k : String) (gs : List TenantGrant)
    → last_for k (read t r (filter (λ g. not (is_grant_for t r k g)) gs)) ≡ none
last_for-delete t r k [] = refl
last_for-delete t r k (g ∷ gs) =
    ground (arith, last_for-delete t r k gs, eq_iff g.permission_key k, eq_iff k g.permission_key)

read-update_ne :
    (t r k u q : String) (b : Bool) (gs : List TenantGrant)
    → t ≢ u
    → read u q (update (is_grant_for t r k) (granted_as b) gs) ≡ read u q gs
read-update_ne t r k u q b [] ne = refl
read-update_ne t r k u q b (g ∷ gs) ne =
    ground (arith, read-update_ne t r k u q b gs ne, eq_iff g.tenant_id t, eq_iff g.tenant_id u)

read-append_ne :
    (t r k u q : String) (b : Bool) (gs : List TenantGrant)
    → t ≢ u
    → read u q (gs ++ new_grant t r k b ∷ []) ≡ read u q gs
read-append_ne t r k u q b [] ne = ground (arith, eq_iff t u)
read-append_ne t r k u q b (g ∷ gs) ne = ground (arith, read-append_ne t r k u q b gs ne)

-- An upsert of one tenant leaves what any other tenant reads.
read-upsert_ne :
    (t r k u q : String) (b : Bool) (gs : List TenantGrant)
    → t ≢ u
    → read u q (upsert_rows t r k b gs) ≡ read u q gs
unfolding upsert_rows
read-upsert_ne t r k u q b gs ne =
    ground (arith, read-update_ne t r k u q b gs ne, read-append_ne t r k u q b gs ne)

module _ (t r k q : String) (b : Bool) (ne : r ≢ q) where
  read-update_role_ne :
      (gs : List TenantGrant)
      → read t q (update (is_grant_for t r k) (granted_as b) gs) ≡ read t q gs
  read-update_role_ne [] = refl
  read-update_role_ne (g ∷ gs) =
      ground (arith, read-update_role_ne gs, eq_iff g.role_id r, eq_iff g.role_id q)

  read-append_role_ne :
      (gs : List TenantGrant) → read t q (gs ++ new_grant t r k b ∷ []) ≡ read t q gs
  read-append_role_ne [] = ground (arith, eq_iff r q)
  read-append_role_ne (g ∷ gs) = ground (arith, read-append_role_ne gs)

  -- An upsert for one role leaves what is read for any other.
  pub read-upsert_role_ne :
      (gs : List TenantGrant) → read t q (upsert_rows t r k b gs) ≡ read t q gs
  unfolding upsert_rows
  read-upsert_role_ne gs = ground (arith, read-update_role_ne gs, read-append_role_ne gs)
