-- ===== src/Database/Tables.antt =====
-- The rows of the tables that server/database/genesis.sql creates, and the log record of
-- server/database/models.py. A timestamp is a number of ticks.
use custom_file_operation_pr.Prelude.{ℕ, Bool, Option, List, Text, Bytes}
use custom_file_operation_pr.Prelude.Int.{ℤ}
use custom_file_operation_pr.Models.Roles.{RoleTypes}

pub record UserRow : Type 0 where
  pub username : Text
  pub file_count : ℤ
  pub storage_used : ℤ
  pub password_hash : Bytes
  pub password_salt : Bytes

pub record FileRow : Type 0 where
  pub filename : Text
  pub owner : Text
  pub file_size : ℤ
  pub public : Bool

pub record PermissionRow : Type 0 where
  pub file_owner : Text
  pub filename : Text
  pub grantee : Text
  pub role : RoleTypes
  pub granted_at : ℕ
  pub granted_by : Option Text
  pub granted_until : Option ℕ

pub record BanRow : Type 0 where
  pub username : Text
  pub ban_reason : Text
  pub ban_description : Option Text
  pub ban_time : ℕ
  pub lifted_at : Option ℕ

pub record Tables : Type 0 where
  pub users : List UserRow
  pub files : List FileRow
  pub file_permissions : List PermissionRow
  pub ban_logs : List BanRow

pub data Severity : Type 0 where
  info trace error non_critical_failure critical_failure : Severity

pub data LogType : Type 0 where
  user database session request network internal permission audit unknown : LogType

pub data LogAuthor : Type 0 where
  user_master connection_master file_handler socket_handler bootup_handler : LogAuthor
  permission_handler stream_parser admin cronjob exception_fallback : LogAuthor

-- `ActivityLog`, without its free text, its host and its time of occurrence
pub record ActivityLog : Type 0 where
  pub reported_severity : Severity
  pub logged_by : LogAuthor
  pub log_category : LogType
  pub user_concerned : Option Text
