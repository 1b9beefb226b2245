-- ===== src/Notices/Store.antt =====
-- The tables of the notices that wait to be sent (api/src/entities/webhook.entity.ts and
-- push.entity.ts) and what the code sends in them.
use digitalreception.Base.{ℕ, String, Bool, List, Option}
use digitalreception.Text.{Text}

pub data WebhookKind : Type 0 where
  teams slack generic : WebhookKind

pub data WebhookEvent : Type 0 where
  visit_arrived access_denied evacuation_started test : WebhookEvent

-- An absent field is none.
pub record EventData : Type 0 where
  pub site : String
  pub locale : String
  pub visitor : Option Text
  pub company : Option Text
  pub host : Option Text
  pub door : Option Text
  pub reason : Option Text
  pub employee : Option Text
  pub guests : Option ℕ
  pub employees : Option ℕ

pub record Payload : Type 0 where
  pub event : WebhookEvent
  pub at : ℕ
  pub data_of : EventData

-- The comma-separated events are a list.
pub record Webhook : Type 0 where
  pub id : ℕ
  pub tenant : ℕ
  pub kind : WebhookKind
  pub events : List WebhookEvent
  pub site : Option ℕ
  pub include_names : Bool
  pub active : Bool
  pub last_result : Option Text
  pub last_at : Option ℕ

pub data DeliveryStatus : Type 0 where
  pending delivered failed : DeliveryStatus

pub record WebhookDelivery : Type 0 where
  pub id : ℕ
  pub tenant : ℕ
  pub webhook : ℕ
  pub payload : Payload
  pub status : DeliveryStatus
  pub attempts : ℕ
  pub next_at : ℕ
  pub created_at : ℕ

pub record PushDevice : Type 0 where
  pub id : ℕ
  pub tenant : ℕ
  pub employee : ℕ
  pub locale : String

pub data PushData : Type 0 where
  -- The site, the visitor and the company.
  arrival : String → Text → Option Text → PushData
  -- The site, the carrier and the pieces.
  parcel : String → Option String → ℕ → PushData

pub record PushDelivery : Type 0 where
  pub id : ℕ
  pub tenant : ℕ
  pub employee : ℕ
  pub payload : PushData
  pub status : DeliveryStatus
  pub attempts : ℕ
  pub next_at : ℕ
  pub created_at : ℕ
