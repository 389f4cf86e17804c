-- ===== src/Permissions/OverrideRows.antt =====
-- The rows of user_permissions_override under each write.
use apiv.Prelude.{
  String, Bool, true, none, some, List, [], ◌∷◌, ◌++◌, map, filter, any, update, if◌then◌else◌, ◌≡◌,
  ◌≢◌, refl, arith, eq_iff, eq_refl,
}
use apiv.Store.{Override, OverrideAction}
use apiv.Permissions.Queries.{is_grant}
use apiv.Permissions.Overrides.{is_active_of, is_active_for, with_action, disabled, upsert}
use apiv.Permissions.Spec.{last_for}

-- The entries that `fetchUserOverrides` reads from the rows.
abbrev pub entry : Override → String × Bool
entry o = (o.permission_key, is_grant o.action)

abbrev pub read : String → List Override → List (String × Bool)
read user os = map entry (filter (is_active_of user) os)

last_for-update :
    (u k : String) (a : OverrideAction) (os : List Override)
    → last_for k (read u (update (is_active_for u k) (with_action a) os))
      ≡ (if any (is_active_for u k) os then some (is_grant a) else none)
last_for-update u k a [] = refl
last_for-update u k a (o ∷ os) = ground (
  arith,
  last_for-update u k a os,
  eq_iff o.permission_key k,
  eq_iff k o.permission_key,
  eq_refl k,
)

last_for-append :
    (u k : String) (a : OverrideAction) (os : List Override)
    → last_for k (
        read u
          (os ++ record { user_id = u; permission_key = k; action = a; is_active = true } ∷ []))
      ≡ some (is_grant a)
last_for-append u k a [] = ground (arith, eq_refl k, eq_refl u)
last_for-append u k a (o ∷ os) = ground (arith, last_for-append u k a os)

pub last_for-upsert :
    (u k : String) (a : OverrideAction) (os : List Override)
    → last_for k (read u (upsert u k a os)) ≡ some (is_grant a)
unfolding upsert
last_for-upsert u k a os = ground (arith, last_for-update u k a os, last_for-append u k a os)

last_for-update_ne :
    (u k j : String) (f : Override → Override) (os : List Override)
    → ((o : Override) → (f o).user_id ≡ o.user_id)
    → ((o : Override) → (f o).permission_key ≡ o.permission_key)
    → k ≢ j
    → last_for j (read u (update (is_active_for u k) f os)) ≡ last_for j (read u os)
last_for-update_ne u k j f [] p q ne = refl
last_for-update_ne u k j f (o ∷ os) p q ne = ground (
  arith,
  last_for-update_ne u k j f os p q ne,
  p o,
  q o,
  eq_iff o.permission_key k,
  eq_iff j o.permission_key,
)

last_for-append_ne :
    (u k j : String) (a : OverrideAction) (os : List Override)
    → k ≢ j
    → last_for j (
        read u
          (os ++ record { user_id = u; permission_key = k; action = a; is_active = true } ∷ []))
      ≡ last_for j (read u os)
last_for-append_ne u k j a [] ne = ground (arith, eq_iff j k)
last_for-append_ne u k j a (o ∷ os) ne = ground (arith, last_for-append_ne u k j a os ne)

pub last_for-upsert_ne :
    (u k j : String) (a : OverrideAction) (os : List Override)
    → k ≢ j
    → last_for j (read u (upsert u k a os)) ≡ last_for j (read u os)
unfolding upsert
last_for-upsert_ne u k j a os ne = ground (
  arith,
  last_for-update_ne u k j (with_action a) os (λ _. refl) (λ _. refl) ne,
  last_for-append_ne u k j a os ne,
)

pub last_for-disabled :
    (u k : String) (os : List Override)
    → last_for k (read u (update (is_active_for u k) disabled os)) ≡ none
last_for-disabled u k [] = refl
last_for-disabled u k (o ∷ os) =
    ground (arith, last_for-disabled u k os, eq_iff o.permission_key k, eq_iff k o.permission_key)

pub read-disabled :
    (u : String) (os : List Override) → read u (update (is_active_of u) disabled os) ≡ []
read-disabled u [] = refl
read-disabled u (o ∷ os) = ground (arith, read-disabled u os)
