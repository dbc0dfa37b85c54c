-- ===== src/Common/Types.antt =====
-- internal/common/types.go: the records. A uuid is a number, `uuid.Nil` is 0; a time is a number of
-- instants, the zero time is 0.
use role_provider_service.Base.{ℕ, Bool, List, Option, Text}

abbrev pub Uuid : Type 0
Uuid = ℕ

abbrev pub Time : Type 0
Time = ℕ

pub record Group : Type 0 where
  pub id : Text
  pub token : Text
  pub display_name : Text
  pub description : Text
  pub source_id : Option Uuid
  pub source_name : Text
  pub relations : List Text
  pub created_at : Time
  pub updated_at : Time

pub record Source : Type 0 where
  pub id : Uuid
  pub name : Text
  pub typ : Text
  pub schedule : Text
  pub dn_email_regexp : Text
  pub group_relation_regexp : Text
  pub file_path : Text
  pub last_synced_at : Option Time
  pub last_sync_status : Text
  pub created_at : Time
  pub updated_at : Time
  pub reserved_names : List Text

pub record SyncLog : Type 0 where
  pub id : Uuid
  pub source_id : Uuid
  pub started_at : Time
  pub finished_at : Option Time
  pub tuples_added : ℕ
  pub tuples_removed : ℕ
  pub error_message : Text
  pub notes : List Text

pub record Membership : Type 0 where
  pub member : Text
  pub relation : Text
  pub expires_at : Option Time
  pub expired : Bool
  pub created_at : Time

pub record Manager : Type 0 where
  pub token : Text
  pub created_by : Text
  pub created_at : Time

-- The actions recorded in a group's history.
pub data Action : Type 0 where
  group_created group_updated group_deleted group_adopted : Action
  member_added member_removed manager_added manager_removed relation_changed : Action

pub record Change : Type 0 where
  pub id : Uuid
  pub group_id : Text
  pub at : Time
  pub actor : Text
  pub on_behalf_of : Text
  pub action : Action
  pub member : Text
  pub relation : Text
  pub expires_at : Option Time
  pub detail : Text

pub record TuplePair : Type 0 where
  pub group_id : Text
  pub relation : Text
  pub member_type : Text
  pub member_id : Text
