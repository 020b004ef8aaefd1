-- ===== src/Config/Types.antt =====
-- crates/silta/src/config.rs: the configuration as parsed from TOML. Paths are strings; the
-- reserved tables (`asr`, `relay_permissions`), which only give warnings, are left out.
use silta.Common.{ℕ, String, List}
use silta.Protocol.{Role}

pub record MatrixConfig : Type 0 where
  pub homeserver_url : String
  pub user_id : String
  pub password : String
  pub device_id : String
  pub device_name : String

pub record PersonConfig : Type 0 where
  pub name : String
  pub role : Role
  pub addresses : List String

pub data Receive : Type 0 where
  all : Receive
  groups : Receive
  -- people, rooms
  selective : List String → List String → Receive

pub data SendPolicy : Type 0 where
  any own : SendPolicy

pub record SessionConfig : Type 0 where
  pub name : String
  pub receive : Receive
  pub send : SendPolicy
  pub user : String

pub record Config : Type 0 where
  pub socket : String
  pub state_dir : String
  pub matrix : MatrixConfig
  pub people : List PersonConfig
  pub sessions : List SessionConfig
  pub replay_window_secs : ℕ
  pub inbox_max_age_days : ℕ
  pub attachment_max_mb : ℕ
  pub alert_grace_secs : ℕ

-- `ConfigError::Invalid`, one constructor for each message
pub data Invalid : Type 0 where
  no_socket no_state_dir no_homeserver : Invalid
  bad_bot_id : String → Invalid
  no_password no_device_id no_inbox_age no_attachment_cap : Invalid
  empty_person_name : Invalid
  person_twice : String → Invalid
  -- address, person
  bad_address : String → String → Invalid
  bot_address : String → Invalid
  address_twice : String → Invalid
  empty_session_name : Invalid
  session_twice : String → Invalid
  session_without_user : String → Invalid
  -- the first session and this one
  two_groups : String → String → Invalid
  two_all : String → String → Invalid
  -- session, person
  unknown_person : String → String → Invalid
  -- person, the other session, this one
  person_listed_twice : String → String → String → Invalid
  -- session, room
  bad_room : String → String → Invalid
  room_listed_twice : String → String → String → Invalid

pub data Result {ℓ} (A : Type ℓ) : Type ℓ where
  ok : A → Result A
  err : Invalid → Result A
