-- ===== src/Adapter.antt =====
-- pkg/adapter/adapter.go: the events that an adapter delivers, the handler's decision and the
-- adapter's status.
use cloudtap.Prelude.{Bool, Option}
use cloudtap.Prelude.Int.{ℤ}
use cloudtap.Text.{Str}
use cloudtap.Time.{Instant}
use cloudtap.GoMap.{GoMap}

pub data EventType : Type 0 where
  connect disconnect request : EventType

-- A `time.Time`: a reading of the clock, or `time.Unix(s, 0)`.
pub data Timestamp : Type 0 where
  clock : Instant → Timestamp
  unix : ℤ → Timestamp

pub record RequestInfo : Type 0 where
  pub method : Str
  pub path : Str
  pub host : Str
  pub tls : Bool
  pub headers : GoMap Str

pub record ConnectionEvent : Type 0 where
  pub id : Str
  pub connection_id : Str
  pub timestamp : Timestamp
  pub type : EventType
  pub target : Str
  pub user : Str
  pub source_ip : Str
  pub source_port : ℤ
  pub dest_ip : Str
  pub dest_port : ℤ
  pub protocol : Str
  pub request_info : Option RequestInfo
  pub metadata : GoMap Str

pub record Decision : Type 0 where
  pub allowed : Bool
  pub reason : Str
  pub policy : Str

abbrev pub ConnectionHandler : Type 0
ConnectionHandler = ConnectionEvent → Decision

-- The sentinel errors.
pub data SentinelError : Type 0 where
  handler_not_set already_started not_started : SentinelError

pub record Status : Type 0 where
  pub type : Str
  pub connected : Bool
  pub started_at : Instant
  pub uptime_seconds : ℤ
  pub active_connections : ℤ
  pub reconnect_attempts : ℤ
  pub backend_endpoint : Str
  pub last_error : Str
  pub last_error_at : Instant
