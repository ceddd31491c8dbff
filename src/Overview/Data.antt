-- ===== src/Overview/Data.antt =====
-- features/overview: the data of overview-schema.ts, server-state.ts and
-- hooks/use-server-identity.ts.
--
-- A bounded integer is a natural number; the bounded number `cpuPercent`, a double that is not
-- negative, is a fraction.
use blockops.Prelude.{ℕ, Option, none, some, List}
use blockops.Js.Text.{Text, codes}
use blockops.Ui.{Tone, good, warn, bad, neutral, Fraction}
use blockops.Backups.Catalog.{Backup}
use blockops.Overview.Page.{ServerState, online, offline, starting, stopping, unknown}

-- `availableSchema`: the value, or none, and a message.
pub data Available (A : Type 0) : Type 0 where
  available : A → Option Text → Available A
  unavailable : Option Text → Available A

pub record ServerInfo : Type 0 where
  pub state : ServerState
  pub image : Option Text
  pub started_at : Option Text
  pub uptime_seconds : Option ℕ
  pub version : Option Text
  pub software : Option Text

pub record ServerMetrics : Type 0 where
  pub cpu_percent : Fraction
  pub memory_usage_bytes : ℕ
  pub memory_limit_bytes : ℕ

pub record DiskMetrics : Type 0 where
  pub used_bytes : ℕ
  pub total_bytes : ℕ

pub record PlayerSummary : Type 0 where
  pub online : ℕ
  pub max : ℕ
  pub names : List Text

pub record WarningLine : Type 0 where
  pub sequence : ℕ
  pub timestamp : Text
  pub line_text : Text

pub record Overview : Type 0 where
  pub server : Available ServerInfo
  pub metrics : Available ServerMetrics
  pub disk : Available DiskMetrics
  pub players : Available PlayerSummary
  pub recent_warnings : List WarningLine
  pub last_successful_backup : Option Backup

unfoldable pub server_state_tone : ServerState → Tone
server_state_tone online = good
server_state_tone starting = warn
server_state_tone stopping = warn
server_state_tone offline = bad
server_state_tone unknown = neutral

abbrev pub state_text : ServerState → Text
state_text online = codes "online"
state_text offline = codes "offline"
state_text starting = codes "starting"
state_text stopping = codes "stopping"
state_text unknown = codes "unknown"

pub record ServerIdentity : Type 0 where
  pub state : ServerState
  pub software : Option Text
  pub version : Option Text
  pub uptime_seconds : Option ℕ

abbrev pub no_identity : ServerIdentity
no_identity = record { state = unknown; software = none; version = none; uptime_seconds = none }

abbrev pub identity_of : Available ServerInfo → ServerIdentity
identity_of (unavailable message) = no_identity
identity_of (available info message) = record {
  state = info.state;
  software = info.software;
  version = info.version;
  uptime_seconds = info.uptime_seconds;
}

-- `useServerIdentity`, from the data of the overview query
unfoldable pub use_server_identity : Option Overview → ServerIdentity
use_server_identity none = no_identity
use_server_identity (some data_) = identity_of data_.server

abbrev pub state_of : Available ServerInfo → ServerState
state_of (available info message) = info.state
state_of (unavailable message) = unknown
