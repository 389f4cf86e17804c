-- ===== src/Pricing/EffectiveRole.antt =====
-- src/core/pricing/effective-role.resolver.ts. Priorities are natural numbers here.
use Prim.Native.Nat.{max}
use apiv.Prelude.{
  ℕ, String, Bool, not, ◌&&◌, Option, none, some, List, [], ◌∷◌, ◌==◌, nat_eq, filter, find,
  maybe_single, contains,
}
use apiv.Store.{Role, UserRole, Database}
use apiv.Permissions.Queries.{rows}

abbrev excluded_role_names : List String
excluded_role_names = "superadmin" ∷ []

pub record EffectiveRole : Type 0 where
  pub role_id : String
  pub role_name : String
  pub priority : ℕ

-- A row of the query: `is_primary` and the embedded role.
pub record Held : Type 0 where
  pub is_primary : Bool
  pub role : Role

-- The embedded join; rows whose role is null are dropped by the first filter.
abbrev pub join_roles : List Role → List UserRole → List Held
join_roles roles [] = []
join_roles roles (u ∷ us) =
    let rest = join_roles roles us in
    elim (find (λ (r : Role). r.id == u.role_id) roles) [
      | none ↦ rest
      | some r ↦ record { is_primary = u.is_primary; role = r } ∷ rest
    ]

abbrev pub is_eligible : Held → Bool
is_eligible h = h.role.is_hierarchy_participant && not (contains h.role.name excluded_role_names)

abbrev pub max_priority : List Held → ℕ
max_priority [] = 0
max_priority (h ∷ hs) = max h.role.priority (max_priority hs)

abbrev pub has_priority : ℕ → Held → Bool
has_priority p h = nat_eq h.role.priority p

abbrev pub to_effective_role : Held → EffectiveRole
to_effective_role h = record {
  role_id = h.role.id;
  role_name = h.role.name;
  priority = h.role.priority;
}

-- One candidate, or else one primary candidate, or else null: an unresolved tie.
abbrev pub pick_candidate : List Held → Option EffectiveRole
pick_candidate candidates = elim (maybe_single candidates) [
  | some h ↦ some (to_effective_role h)
  | none ↦ elim (maybe_single (filter (λ (h : Held). h.is_primary) candidates)) [
    | some h ↦ some (to_effective_role h)
    | none ↦ none
  ]
]

-- With no eligible row the code returns at once; the candidates are then empty here too.
unfoldable pub resolve_held : List Held → Option EffectiveRole
resolve_held held =
    let eligible = filter is_eligible held in
    pick_candidate (filter (has_priority (max_priority eligible)) eligible)

-- The query fails when either table does.
unfoldable pub resolve_effective_role : String → Database → Option EffectiveRole
resolve_effective_role user db = elim db.roles [
  | none ↦ none
  | some roles ↦
      resolve_held
        (join_roles roles (filter (λ (u : UserRole). u.user_id == user) (rows db.user_roles)))
]
