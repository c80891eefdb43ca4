-- ===== src/Job/Targets.antt =====
-- job_targets.go: the targets of a job. A nil slice is returned where there is no target.
use rediver_sdk_go.Prelude.{String, Slice, Option, none, some, map, ℤ, non_empty, if◌then◌else◌}
use rediver_sdk_go.Job.Message.{JobTarget, ProtoDomain, ProtoAddress, ProtoServiceTarget}
use rediver_sdk_go.Job.Defs.{Job}

pub record DomainTarget : Type 0 where
  pub id : String
  pub value : String
  pub cname : String
  pub ips : Slice String

-- IPTarget and SubnetTarget have the same fields.
pub record AddressTarget : Type 0 where
  pub id : String
  pub value : String

pub record ServiceTarget : Type 0 where
  pub id : String
  pub value : String
  pub host : String
  pub port : ℤ
  pub url : String

-- `if x := d.GetX(); x != "" { t.X = x }` on a fresh value.
abbrev when_full : String → String
when_full s = if non_empty s then s else ""

-- The bodies of the loops.
unfoldable pub to_domain_target : ProtoDomain → DomainTarget
to_domain_target d = record {
  id = when_full d.id;
  value = d.value;
  cname = when_full d.cname;
  ips = d.ips;
}

unfoldable pub to_address_target : ProtoAddress → AddressTarget
to_address_target a = record { id = when_full a.id; value = a.value }

unfoldable pub to_service_target : ProtoServiceTarget → ServiceTarget
to_service_target s = record {
  id = when_full s.id;
  value = s.value;
  host = s.host;
  port = s.port;
  url = s.url;
}

module _ {F O : Type 0} where
  -- `j.detail == nil || j.detail.Target == nil` as no target.
  unfoldable pub target : Job F O → Option JobTarget
  target j = elim j.detail [ none ↦ none | some d ↦ d.target ]

  unfoldable pub domains : Job F O → Slice DomainTarget
  unfolding target
  domains j = elim (target j) [ none ↦ none | some t ↦ some (map to_domain_target t.domains) ]

  unfoldable pub ips : Job F O → Slice AddressTarget
  unfolding target
  ips j = elim (target j) [ none ↦ none | some t ↦ some (map to_address_target t.ips) ]

  unfoldable pub subnets : Job F O → Slice AddressTarget
  unfolding target
  subnets j = elim (target j) [ none ↦ none | some t ↦ some (map to_address_target t.subnets) ]

  unfoldable pub services : Job F O → Slice ServiceTarget
  unfolding target
  services j = elim (target j) [ none ↦ none | some t ↦ some (map to_service_target t.services) ]
