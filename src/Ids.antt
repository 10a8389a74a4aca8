-- ===== src/Ids.antt =====
-- The identifiers of crates/hier-kv-gateway-core/src/ids.rs: texts compared by content.
pub mod Parsing
use text.Mathlib.Text.{◌==◌ as str_eq}
use text.Mathlib.TextEquality.{eq_iff}
use hier_kv_gateway.Prelude.{
  ℕ, ℕ_discrete, String, ◌≡◌, true, false, inl, inr, Bool-cases, sym, ◌∙◌,
}

-- `==` of texts, as a decision.
unfoldable pub String_discrete : Discrete String
String_discrete s t = elim (Bool-cases (str_eq s t)) [
  | inl e ↦ yes ((eq_iff s t).0 e)
  | inr e ↦ no (λ p. differ (sym e ∙ (eq_iff s t).1 p))
]
  where
    differ : false ≡ true → ⊥
    differ h = cc

pub record RegionId : Type 0 where
  pub name : String

pub record BackendInstanceId : Type 0 where
  pub name : String

-- A backend instance of a region.
pub record BackendId : Type 0 where
  pub region : RegionId
  pub instance_id : BackendInstanceId

pub record InstanceId : Type 0 where
  pub name : String

pub record SessionId : Type 0 where
  pub name : String

pub record TenantId : Type 0 where
  pub name : String

pub record IndexerDomainId : Type 0 where
  pub value : ℕ

pub record PoolId : Type 0 where
  pub domain : IndexerDomainId
  pub region : RegionId

unfoldable pub RegionId_discrete : Discrete RegionId
RegionId_discrete = hlevel String_discrete

unfoldable pub BackendId_discrete : Discrete BackendId
BackendId_discrete = hlevel String_discrete

unfoldable pub InstanceId_discrete : Discrete InstanceId
InstanceId_discrete = hlevel String_discrete

unfoldable pub SessionId_discrete : Discrete SessionId
SessionId_discrete = hlevel String_discrete

unfoldable pub TenantId_discrete : Discrete TenantId
TenantId_discrete = hlevel String_discrete

unfoldable pub IndexerDomainId_discrete : Discrete IndexerDomainId
IndexerDomainId_discrete = hlevel ℕ_discrete

unfoldable pub PoolId_discrete : Discrete PoolId
PoolId_discrete = hlevel (String_discrete, ℕ_discrete)
