-- ===== src/Conversation.antt =====
-- pkg/conversation/types.go and store.go: threads, messages, receipts, filters, and the errors and the
-- configuration of a conversation store. The fields `Metadata`, of arbitrary JSON, are read by no code
-- here and left out. Times are numbers; the clock and the fresh UUID are arguments. The counts `Limit` and
-- `Offset` are numbers: the code treats those that are not positive as 0.
pub mod Memory
use msg2agent.Prelude.{
  ℕ, Text, text_eq, Bool, true, false, Option, none, some, List, [], ◌∷◌, ◌++◌, if◌then◌else◌,
}
use msg2agent.Prelude.Ints.{ℤ, pos}
use msg2agent.Prelude.Occurs.{contains}

pub data ConversationError : Type 0 where
  thread_not_found message_not_found receipt_not_found store_closed : ConversationError

-- `""` is the state of a thread that was made by `NewThread`.
pub data ThreadState : Type 0 where
  unset active awaiting_input completed failed : ThreadState

pub record Thread : Type 0 where
  pub id : ℕ
  pub title : Text
  pub participants : List Text
  pub created_at : ℕ
  pub updated_at : ℕ
  pub last_message : Option ℕ
  pub message_count : ℤ
  pub state : ThreadState
  pub task_ids : List Text
  pub session_ids : List Text

unfoldable pub new_thread : ℕ → ℕ → List Text → Thread
new_thread id now participants = record {
  id = id;
  title = [];
  participants = participants;
  created_at = now;
  updated_at = now;
  last_message = none;
  message_count = pos 0;
  state = unset;
  task_ids = [];
  session_ids = [];
}

unfoldable pub has_participant : Thread → Text → Bool
unfolding contains
has_participant t did = contains did t.participants

unfoldable pub add_participant : ℕ → Text → Thread → Thread × Bool
unfolding has_participant
add_participant now did t =
    if has_participant t did
    then (t, false)
    else (record t { participants = t.participants ++ did ∷ []; updated_at = now }, true)

pub record StoredMessage : Type 0 where
  pub id : ℕ
  pub thread_id : ℕ
  pub parent_id : Option ℕ
  pub from : Text
  pub to : Text
  pub kind : Text
  pub body : Text
  pub timestamp : ℕ
  pub thread_seq_no : ℕ
  pub encrypted : Bool

pub record MessageReceipt : Type 0 where
  pub message_id : ℕ
  pub recipient_did : Text
  pub delivered_at : Option ℕ
  pub read_at : Option ℕ

-- `t != nil`
abbrev pub is_set : Option ℕ → Bool
is_set none = false
is_set (some t) = true

unfoldable pub is_delivered : MessageReceipt → Bool
is_delivered r = is_set r.delivered_at

unfoldable pub is_read : MessageReceipt → Bool
is_read r = is_set r.read_at

pub record ThreadFilter : Type 0 where
  pub participant_did : Text
  pub since : Option ℕ
  pub limit : ℕ
  pub offset : ℕ

pub record MessageFilter : Type 0 where
  pub thread_id : ℕ
  pub since : Option ℕ
  pub before : Option ℕ
  pub types : List Text
  pub limit : ℕ
  pub offset : ℕ

pub record StoreConfig : Type 0 where
  pub max_threads : ℕ
  pub max_messages_per_thread : ℕ
  pub retention_days : ℕ

unfoldable pub default_store_config : StoreConfig
default_store_config = record { max_threads = 0; max_messages_per_thread = 0; retention_days = 0 }
