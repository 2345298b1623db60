-- ===== src/Model.antt =====
-- crates/core/src/model.rs: the data that the components exchange. A `Sid`, a path and a name are
-- texts, an access mask is a `u32`.
pub mod Diagnostic
pub mod History
pub mod Effective
pub mod Risk
pub mod Error
mod Tests
use stars_ad_permission_anal.Base.{ℕ, Bool, List, Option, String}

abbrev pub Sid : Type 0
Sid = String

pub data IdentityKind : Type 0 where
  user group computer well_known foreign_security_principal orphaned unknown : IdentityKind

pub record Identity : Type 0 where
  pub sid : Sid
  pub name : Option String
  pub domain : Option String
  pub kind : IdentityKind
  pub disabled : Bool
  pub user_principal_name : Option String
  pub sid_history_count : ℕ
  pub sid_history : List Sid

pub data PolicyDword : Type 0 where
  value : ℕ → PolicyDword
  absent : PolicyDword
  unreadable : String → PolicyDword

pub data RemoteUacFiltering : Type 0 where
  unknown : RemoteUacFiltering
  filtered : String → RemoteUacFiltering
  not_filtered : String → RemoteUacFiltering

pub data AccessContext : Type 0 where
  local_interactive remote_smb unspecified : AccessContext

pub data MembershipPathSource : Type 0 where
  primary_group domain_group local_group ldap_matching_rule account_type trusted_domain_logon :
      MembershipPathSource

pub record MembershipHop : Type 0 where
  pub sid : Sid
  pub name : Option String

pub record MembershipPath : Type 0 where
  pub nodes : List Sid
  pub names : List (Option String)
  pub source : MembershipPathSource
  pub complete : Bool
  pub also_via : List MembershipHop

pub record GroupMembership : Type 0 where
  pub member_sid : Sid
  pub group_sid : Sid
  pub direct : Bool
  pub group_name : Option String
  pub path : Option MembershipPath
  pub group_sid_history_count : ℕ
  pub group_sid_history : List Sid

pub data AceKind : Type 0 where
  allow deny : AceKind

pub record AceEntry : Type 0 where
  pub kind : AceKind
  pub sid : Sid
  pub mask : ℕ
  pub inherited : Bool
  pub inheritance_flags : ℕ
  pub propagation_flags : ℕ

pub record UnsupportedAce : Type 0 where
  pub ace_type : ℕ
  pub flags : ℕ
  pub mask : ℕ

pub data LinkKind : Type 0 where
  junction symbolic_link : LinkKind

pub record LinkInfo : Type 0 where
  pub kind : LinkKind
  pub target : String
  pub relative : Bool

pub record FileSystemObject : Type 0 where
  pub path : String
  pub is_directory : Bool
  pub owner_sid : Option Sid
  pub dacl : List AceEntry
  pub inheritance_disabled : Bool
  pub is_reparse_point : Bool
  pub unsupported_aces : List UnsupportedAce
  pub null_dacl : Bool
  pub sd_hash : Option ℕ
  pub link : Option LinkInfo
  pub identity_unknown : Option String

pub data ShareEvalStatus : Type 0 where
  not_applicable applied unrestricted : ShareEvalStatus
  read_failed : String → ShareEvalStatus

pub data ShareMaskStatus : Type 0 where
  not_applicable : ShareMaskStatus
  applied : ℕ → ShareMaskStatus
  unrestricted : ShareMaskStatus
  read_failed : String → ShareMaskStatus

pub data LocalGroupEvalStatus : Type 0 where
  not_queried applied : LocalGroupEvalStatus
  not_available : String → LocalGroupEvalStatus

pub record LocalGroupDescriptor : Type 0 where
  pub sid : Sid
  pub name : String
  pub members : List Sid

pub record LocalGroupEntry : Type 0 where
  pub group : Sid
  pub name : String
  pub via : List Sid

pub record LocalGroupExpansion : Type 0 where
  pub certain : List LocalGroupEntry
  pub logon_dependent : List LocalGroupEntry

pub record ContributingAce : Type 0 where
  pub sid : Sid
  pub mask : ℕ

pub record DfsEvaluation : Type 0 where
  pub requested : String
  pub target : String
  pub folder : Option String
  pub other_targets : List String
  pub other_targets_known : Bool
