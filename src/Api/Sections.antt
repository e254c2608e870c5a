-- ===== src/Api/Sections.antt =====
-- The sections of api/v1/common_types.go that the controllers do not read yet.
use greatsql_operator.Prelude.{String, Bool, Option, List}
use greatsql_operator.Api.Meta.{Raw, StringMap}
use greatsql_operator.Api.Pod.{PodSpec, ClaimTemplate}

-- `MemberRole`
abbrev pub MemberRole : Type 0
MemberRole = String

abbrev pub primary_role : MemberRole
primary_role = "primary"

abbrev pub sencondary_role : MemberRole
sencondary_role = "sencondary"

abbrev pub arbitrator_role : MemberRole
arbitrator_role = "arbitrator"

pub record ServiceExpose : Type 0 where
  pub enabled : Bool
  pub type : String
  pub load_balancer_source_ranges : List String
  pub load_balancer_ip : String
  pub annotations : Option StringMap
  pub labels : Option StringMap
  pub external_traffic_policy : String
  pub internal_traffic_policy : String
  pub traffic_policy : String

-- The embedded `PodSpec` is a field.
pub record Proxy : Type 0 where
  pub enabled : Bool
  pub pod_spec : PodSpec
  pub expose : ServiceExpose

pub record SchedulerBuckup : Type 0 where
  pub enable : Option Bool

pub record MetricsCollection : Type 0 where
  pub enable : Option Bool

pub record Storage : Type 0 where
  pub type : String
  pub persistent_volume_source : Option Raw
  pub persistent_volume_claim_template : Option ClaimTemplate
