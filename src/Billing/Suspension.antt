-- ===== src/Billing/Suspension.antt =====
-- Whom the pass over exhausted attempts suspends.
use apiv.Prelude.{
  ℕ, String, Bool, true, ◌||◌, List, [], ◌∷◌, ◌==◌, filter, update, any, map, contains, add,
  if◌then◌else◌, ◌≡◌, refl, ap, ◌∙◌, arith, eq_iff, contains-add,
}
use apiv.Billing.Tables.{Attempt, Tenant, Books}
use apiv.Billing.Dunning.{
  is_expired, tenants_of, suspend, suspend_tenant, suspend_all, suspend_expired_grace_periods,
}

abbrev pub suspend_if : (String → Bool) → Tenant → Tenant
suspend_if p t = if p t.id then suspend t else t

suspend-step :
    (t : String) (ts : List String) (l : List Tenant)
    → map (suspend_if (λ k. contains k ts)) (update (λ (x : Tenant). x.id == t) suspend l)
      ≡ map (suspend_if (λ k. contains k (t ∷ ts))) l
suspend-step t ts [] = refl
suspend-step t ts (x ∷ xs) = ground (arith, suspend-step t ts xs, eq_iff x.id t)

suspend-none : (l : List Tenant) → l ≡ map (suspend_if (λ k. contains k [])) l
suspend-none [] = refl
suspend-none (x ∷ xs) = ap (λ l. x ∷ l) (suspend-none xs)

suspend_all_lem :
    (now : ℕ) (ts : List String) (s : Books)
    → (suspend_all now ts s).tenants ≡ map (suspend_if (λ k. contains k ts)) s.tenants
unfolding suspend_tenant
suspend_all_lem now [] s = suspend-none s.tenants
suspend_all_lem now (t ∷ ts) s =
    suspend_all_lem now ts (suspend_tenant now t s) ∙ suspend-step t ts s.tenants

-- Has the tenant an attempt among these?
abbrev pub concerns : String → List Attempt → Bool
concerns k ats = any (λ (a : Attempt). k == a.tenant_id) ats

contains-tenants_of :
    (k : String) (ats : List Attempt) (acc : List String)
    → contains k (tenants_of ats acc) ≡ (contains k acc || concerns k ats)
contains-tenants_of k [] acc = ground arith
contains-tenants_of k (a ∷ ats) acc =
    ground (arith, contains-tenants_of k ats (add a.tenant_id acc), contains-add k a.tenant_id acc)

suspend_if-ext :
    (p q : String → Bool) (l : List Tenant)
    → ((k : String) → p k ≡ q k)
    → map (suspend_if p) l ≡ map (suspend_if q) l
suspend_if-ext p q [] h = refl
suspend_if-ext p q (x ∷ xs) h = ground (arith, h x.id, suspend_if-ext p q xs h)

pass_up :
    (now : ℕ) (s : Books)
    → s.up ≡ true
    → suspend_expired_grace_periods now s
      ≡ suspend_all now (tenants_of (filter (is_expired now) s.attempts) []) s
unfolding suspend_expired_grace_periods
pass_up now s e = ground (arith, e)

-- When the database answers, the pass suspends exactly the tenants that have an exhausted attempt
-- old enough. The status of their subscriptions plays no part: a tenant that has paid since is
-- suspended again.
suspend_expired_grace_periods_lem :
    (now : ℕ) (s : Books)
    → s.up ≡ true
    → (suspend_expired_grace_periods now s).tenants
      ≡ map (suspend_if (λ k. concerns k (filter (is_expired now) s.attempts))) s.tenants
suspend_expired_grace_periods_lem now s e =
    let ats = filter (is_expired now) s.attempts in
    ap (λ (t : Books). t.tenants) (pass_up now s e)
    ∙ (suspend_all_lem now (tenants_of ats []) s
        ∙ suspend_if-ext (λ k. contains k (tenants_of ats [])) (λ k. concerns k ats) s.tenants
            (λ k. contains-tenants_of k ats []))
