-- ===== src/Access/Sync/Store.antt =====
-- The rows and the requests of the synchronisation (api/src/entities/access.entity.ts,
-- api/src/access/access.service.ts: EmployeeInput, PermissionInput).
use digitalreception.Base.{ℕ, Bool, List, Option}
use digitalreception.Text.{Text}

pub data EmployeeSource : Type 0 where
  from_api from_console : EmployeeSource

-- The columns that the synchronisation reads and writes; an index stands for what it is made of.
pub record Employee : Type 0 where
  pub id : ℕ
  pub tenant : ℕ
  pub external_id : ℕ
  pub source : EmployeeSource
  pub first_name : Option Text
  pub last_name : Option Text
  pub email : Option Text
  pub department : Option Text
  pub job_title : Option Text
  pub project : Option ℕ
  pub badge : Option Text
  pub badge_hint : Option Text
  pub active : Bool
  pub valid_from : Option ℕ
  pub valid_until : Option ℕ

pub record Door : Type 0 where
  pub id : ℕ
  pub tenant : ℕ
  pub external_id : ℕ
  pub site : ℕ
  pub name : Text
  pub active : Bool

pub record Site : Type 0 where
  pub id : ℕ
  pub tenant : ℕ
  pub code : ℕ

pub record Project : Type 0 where
  pub id : ℕ
  pub tenant : ℕ
  pub code : ℕ
  pub name : Text
  pub client : Option Text
  pub active : Bool

-- Without its identifier, new at each synchronisation, to which nothing refers.
pub record Rule : Type 0 where
  pub tenant : ℕ
  pub employee : ℕ
  pub door : ℕ
  pub days : Option (List ℕ)
  pub from : Option Text
  pub until : Option Text

pub record Host : Type 0 where
  pub tenant : ℕ
  pub employee : Option ℕ
  pub first_name : Text
  pub last_name : Text
  pub email : Option Text
  pub department : Option Text
  pub job_title : Option Text

-- The tenant and the employee of a row.
pub record Link : Type 0 where
  pub tenant : ℕ
  pub employee : Option ℕ

pub record Db : Type 0 where
  pub employees : List Employee
  pub doors : List Door
  pub sites : List Site
  pub projects : List Project
  pub rules : List Rule
  pub hosts : List Host
  pub events : List Link
  pub devices : List Link
  pub bookings : List Link

pub data Error : Type 0 where
  unknown_site unknown_door time_window_incomplete invalid_badge_uid unknown_project : Error
  badge_in_use duplicate_entry employee_not_found deadlock : Error

pub record PermissionInput : Type 0 where
  pub door : ℕ
  pub days : Option (List ℕ)
  pub from : Option Text
  pub until : Option Text

-- For the badge and the project the outer none is a field that is absent, the inner one null.
pub record EmployeeInput : Type 0 where
  pub first_name : Text
  pub last_name : Text
  pub email : Option Text
  pub department : Option Text
  pub job_title : Option Text
  pub badge_uid : Option (Option Text)
  pub active : Option Bool
  pub project : Option (Option ℕ)
  pub valid_from : Option ℕ
  pub valid_until : Option ℕ
  pub permissions : List PermissionInput
