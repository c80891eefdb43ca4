-- ===== src/Job/Message.antt =====
-- GetJobDetailResponse as far as the SDK reads it: the fields that it asks for, with an unset
-- optional text read as "". `O` is structpb.Value.
use rediver_sdk_go.Prelude.{Bool, String, Slice, Option, List, ℤ}

pub data CiEvent : Type 0 where
  push pull_request tag other : CiEvent

pub data GitProvider : Type 0 where
  gitlab github bitbucket other : GitProvider

pub record ProtoDomain : Type 0 where
  pub id : String
  pub value : String
  pub cname : String
  pub ips : Slice String

pub record ProtoAddress : Type 0 where
  pub id : String
  pub value : String

pub record ProtoServiceTarget : Type 0 where
  pub id : String
  pub value : String
  pub host : String
  pub port : ℤ
  pub url : String

pub record RepositoryTarget : Type 0 where
  pub url : String
  pub provider : GitProvider
  pub event : CiEvent
  pub branch : String
  pub tag : String
  pub commit_sha : String
  pub base_branch : String
  pub base_commit_sha : String
  pub pull_request_number : ℤ

pub record Credential : Type 0 where
  pub username : String
  pub password : String

pub record ProtoRepository : Type 0 where
  pub target : Option RepositoryTarget
  pub artifact_id : String
  pub diff_only : Bool
  pub credential : Option Credential

pub record JobTarget : Type 0 where
  pub domains : List ProtoDomain
  pub ips : List ProtoAddress
  pub subnets : List ProtoAddress
  pub services : List ProtoServiceTarget
  pub repository : Option ProtoRepository

pub record JobDetail (O : Type 0) : Type 0 where
  pub id : String
  pub retest : Bool
  pub scanner : String
  pub timeout_minutes : ℤ
  pub version : ℤ
  pub target : Option JobTarget
  pub integration : Option (List String)  -- the Cloudflare tokens
  pub params : Option (List (String × O))
