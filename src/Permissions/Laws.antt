-- ===== src/Permissions/Laws.antt =====
-- Resolution against its specification, and what a read leaves alone.
use apiv.Prelude.{
  String, Bool, true, false, ◌||◌, Option, none, some, List, [], ◌∷◌, ◌==◌, contains, add, delete,
  to_set, set_from, contains-add, contains-delete, contains-set_from, contains-to_set, truthy,
  lookup, erase, All, ◌≡◌, refl, eq_iff, arith, Option-cases, Bool-cases, inl, inr, sym, ap, ◌∙◌,
}
use apiv.Store.{Database}
use apiv.Permissions.Cache.{State}
use apiv.Permissions.Queries.{query_system_role_id, fetch_global_grants, fetch_tenant_overrides}
use apiv.Permissions.Resolve.{
  remember, lookup_system_role_id, lookup_role_id, merge, merge_overrides, resolve_tenant,
  resolve_granted_keys, union_roles,
}
use apiv.Permissions.Spec.{last_for, decide, role_id, tenant_override, grants, any_grants, IsFresh}

pub contains-merge :
    (k : String) (os : List (String × Bool)) (keys : List String)
    → contains k (merge os keys) ≡ decide (last_for k os) (contains k keys)
contains-merge k [] keys = refl
contains-merge k ((j, true) ∷ os) keys =
    ground (arith, contains-merge k os (add j keys), contains-add k j keys)
contains-merge k ((j, false) ∷ os) keys =
    ground (arith, contains-merge k os (delete j keys), contains-delete k j keys)

abbrev Agrees : Database → List (String × String) → Type 0
Agrees db ids = All (λ e. query_system_role_id e.0 db ≡ some e.1) ids

lookup-Agrees :
    (db : Database) (role : String) (ids : List (String × String)) (id : String)
    → Agrees db ids
    → lookup role ids ≡ some id
    → query_system_role_id role db ≡ some id
lookup-Agrees db role [] id h e = ground arith
lookup-Agrees db role ((r, i) ∷ ids) id (h, hs) e =
    ground (arith, eq_iff role r, lookup-Agrees db role ids id hs)

erase-Agrees :
    (db : Database) (role : String) (ids : List (String × String))
    → Agrees db ids
    → Agrees db (erase role ids)
erase-Agrees db role [] h = tt
erase-Agrees db role ((r, i) ∷ ids) (h, hs) = ground (arith, erase-Agrees db role ids hs)

-- What a lookup of role ids leaves alone.
pub record Keeps (s t : State) : Type 0 where
  pub db : t.db ≡ s.db
  pub cache : t.cache ≡ s.cache
  pub cache_up : t.cache_up ≡ s.cache_up
  pub fresh : IsFresh t

remember_lem :
    (role : String) (s : State) (q : Option String)
    → IsFresh s
    → query_system_role_id role s.db ≡ q
    → ((remember role s q).0 ≡ q) × Keeps s (remember role s q).1
unfolding remember
remember_lem role s none h e =
    (refl, record { db = refl; cache = refl; cache_up = refl; fresh = h })
remember_lem role s (some id) h e = (
  refl,
  record {
    db = refl;
    cache = refl;
    cache_up = refl;
    fresh = (e, erase-Agrees s.db role s.system_role_ids h);
  },
)

lookup_system_role_id_lem :
    (role : String) (s : State)
    → IsFresh s
    → ((lookup_system_role_id role s).0 ≡ query_system_role_id role s.db)
      × Keeps s (lookup_system_role_id role s).1
unfolding lookup_system_role_id
lookup_system_role_id_lem role s h =
    let again = remember_lem role s (query_system_role_id role s.db) h refl in
    elim (Option-cases (lookup role s.system_role_ids)) [
      | inl e ↦ rw (e, lookup_system_role_id) again
      | inr (id, e) ↦ elim (Bool-cases (id == "")) [
        | inl empty ↦ rw (e, empty, lookup_system_role_id) again
        | inr full ↦
            rw (e, full, lookup_system_role_id)
              (
                sym (lookup-Agrees s.db role s.system_role_ids id h e),
                record { db = refl; cache = refl; cache_up = refl; fresh = h },
              )
      ]
    ]

pub lookup_role_id_lem :
    (role : String) (tenant : Option String) (s : State)
    → IsFresh s
    → ((lookup_role_id role tenant s).0 ≡ role_id role tenant s.db)
      × Keeps s (lookup_role_id role tenant s).1
unfolding lookup_role_id role_id
lookup_role_id_lem role tenant s h = ground (arith, lookup_system_role_id_lem role s h)

contains-merge_overrides :
    (k : String) (os : List (String × Bool)) (keys : List String)
    → contains k (merge_overrides os keys) ≡ decide (last_for k os) (contains k keys)
contains-merge_overrides k [] keys = refl
contains-merge_overrides k (o ∷ os) keys =
    contains-merge k (o ∷ os) (to_set keys)
    ∙ ap (decide (last_for k (o ∷ os))) (contains-to_set k keys)

resolve_tenant_lem :
    (role : String) (tenant : Option String) (key : String) (s : State)
    → IsFresh s
    → (contains key (resolve_tenant role tenant (fetch_global_grants role s.db) s).0
        ≡ decide
            (tenant_override role tenant key s.db)
            (contains key (fetch_global_grants role s.db)))
      × Keeps s (resolve_tenant role tenant (fetch_global_grants role s.db) s).1
unfolding resolve_tenant tenant_override
resolve_tenant_lem role tenant key s h = elim (Option-cases (truthy tenant)) [
  | inl e ↦
      rw (e, resolve_tenant, tenant_override)
        (refl, record { db = refl; cache = refl; cache_up = refl; fresh = h })
  | inr (t, e) ↦
      let (same, keeps) = lookup_role_id_lem role tenant s h in
      elim (Option-cases (truthy (role_id role tenant s.db))) [
        | inl e' ↦ ground (arith, lookup_role_id_lem role tenant s h)
        | inr (id, e') ↦ ground (
          arith,
          lookup_role_id_lem role tenant s h,
          contains-merge_overrides key (fetch_tenant_overrides t id s.db)
              (fetch_global_grants role s.db),
        )
      ]
]

pub resolve_granted_keys_lem :
    (role : String) (tenant : Option String) (key : String) (s : State)
    → IsFresh s
    → (contains key (resolve_granted_keys role tenant s).0 ≡ grants role tenant key s.db)
      × Keeps s (resolve_granted_keys role tenant s).1
unfolding resolve_granted_keys grants tenant_override
resolve_granted_keys_lem role tenant key s h = elim (Bool-cases (role == "owner")) [
  | inl owner ↦ rw owner (refl, record { db = refl; cache = refl; cache_up = refl; fresh = h })
  | inr other ↦ rw other (resolve_tenant_lem role tenant key s h)
]

pub union_roles_lem :
    (roles : List String) (tenant : Option String) (key : String) (merged : List String) (s : State)
    → IsFresh s
    → (contains key (union_roles roles tenant merged s).0
        ≡ (contains key merged || any_grants roles tenant key s.db))
      × Keeps s (union_roles roles tenant merged s).1
unfolding union_roles
union_roles_lem [] tenant key merged s h =
    (ground arith, record { db = refl; cache = refl; cache_up = refl; fresh = h })
union_roles_lem (role ∷ roles) tenant key merged s h =
    let (keys, s') = resolve_granted_keys role tenant s in
    let (same, keeps) = resolve_granted_keys_lem role tenant key s h in
    let (rest, keeps') = union_roles_lem roles tenant key (set_from merged keys) s' keeps.fresh in
    (
      ground (arith, contains-set_from key merged keys),
      record {
        db = keeps'.db ∙ keeps.db;
        cache = keeps'.cache ∙ keeps.cache;
        cache_up = keeps'.cache_up ∙ keeps.cache_up;
        fresh = keeps'.fresh;
      },
    )
