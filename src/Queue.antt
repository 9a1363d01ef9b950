-- ===== src/Queue.antt =====
-- pkg/queue/queue.go: the configuration and the messages of the store-and-forward queue.
-- Times and durations are numbers of nanoseconds. A non-positive limit of the configuration or of a
-- call means "no limit" in the code (every test is `> 0`), so it is modelled by 0.
pub mod Memory
mod Tests
use msg2agent.Prelude.{ℕ, Text, Bool, true, ltb, Option}

pub data QueueError : Type 0 where
  queue_full queue_closed not_found : QueueError

pub record Config : Type 0 where
  pub message_ttl : ℕ
  pub max_queue_size : ℕ
  pub max_total_messages : ℕ
  pub max_delivery_attempts : ℕ
  pub ack_timeout : ℕ
  pub enable_dlq : Bool

abbrev pub default_config : Config
default_config = record {
  message_ttl = 604800000000000;
  max_queue_size = 10000;
  max_total_messages = 100000;
  max_delivery_attempts = 3;
  ack_timeout = 30000000000;
  enable_dlq = true;
}

-- `body` is the field `Data`.
pub record QueuedMessage : Type 0 where
  pub id : ℕ
  pub recipient_did : Text
  pub body : Text
  pub queued_at : ℕ
  pub expires_at : ℕ
  pub delivery_attempts : ℕ
  pub last_attempt : Option ℕ
  pub sender_did : Text

-- `time.Now().After(m.ExpiresAt)`
abbrev pub is_expired : ℕ → QueuedMessage → Bool
is_expired now m = ltb m.expires_at now

pub record DeadLetterMessage : Type 0 where
  pub message : QueuedMessage
  pub fail_reason : Text
  pub moved_at : ℕ
