-- ===== src/Watch/Types.antt =====
-- The data of crates/silta/src/alert.rs.
use silta.Common.{ℕ, Option, String}
use silta.Common.Assoc.{Assoc}

pub data Alert : Type 0 where
  away : (session : String) (since_ms : ℕ) → Alert
  back : (session : String) (away_ms : ℕ) → Alert
  silent : (session room_id : String) (delivered_ms : ℕ) → Alert

pub record State : Type 0 where
  pub disconnected_since : Option ℕ
  pub alerted_at : Option ℕ
  pub silent_alerted_at : Option ℕ

pub record Watch : Type 0 where
  pub grace_ms : ℕ
  pub sessions : Assoc State
