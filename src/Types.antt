-- ===== src/Types.antt =====
-- fq/types.py: the constants and the records of the protocol.
pub mod Tls
use fq_client_py.Prelude.{ℕ, ◌-◌, ◌^◌, Bool, List, Str, text, ℤ}

abbrev pub protocol_version : ℕ
protocol_version = 1

abbrev pub scan_cursor_initial : Str
scan_cursor_initial = text "0"

abbrev pub default_max_message_size : ℕ
default_max_message_size = 4096

abbrev pub max_value : ℕ
max_value = 2 ^ 63 - 1

pub record CappingKey : Type 0 where
  pub key : Str
  pub capping : ℤ

pub record LimitKey : Type 0 where
  pub key : Str
  pub window : ℤ

pub record RateLimitResult : Type 0 where
  pub allowed : Bool
  pub current : ℕ
  pub remaining : ℕ
  pub reset_after : ℕ

pub record LimitEvent : Type 0 where
  pub key : Str
  pub window : ℕ
  pub current : ℕ
  pub reset_after : ℕ

pub record QuotaAcquireResult : Type 0 where
  pub acquired : Bool
  pub allocated : ℕ
  pub used : ℕ
  pub remaining : ℕ
  pub expires_after : ℕ

pub record QuotaClientInfo : Type 0 where
  pub client_id : Str
  pub amount : ℕ
  pub expires_at : ℕ

pub record QuotaInfo : Type 0 where
  pub limit : ℕ
  pub used : ℕ
  pub remaining : ℕ
  pub clients : List QuotaClientInfo

pub record ScanKey : Type 0 where
  pub key : Str
  pub window : ℕ

pub record ScanResult : Type 0 where
  pub cursor : Str
  pub keys : List ScanKey

pub record QuotaEvent : Type 0 where
  pub event : Str
  pub name : Str
  pub client_id : Str
  pub amount : ℕ
  pub used : ℕ
  pub remaining : ℕ
  pub expires_at : ℕ

-- class InspectSection(StrEnum)
pub data InspectSection : Type 0 where
  summary all wal dump repl engine streams : InspectSection

unfoldable pub section_value : InspectSection → Str
section_value summary = text ""
section_value all = text "ALL"
section_value wal = text "WAL"
section_value dump = text "DUMP"
section_value repl = text "REPL"
section_value engine = text "ENGINE"
section_value streams = text "STREAMS"
