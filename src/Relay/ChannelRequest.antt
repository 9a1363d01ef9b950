-- ===== src/Relay/ChannelRequest.antt =====
-- The requests of the handlers of cmd/relay/channel.go, with the parameters that were parsed, and what the
-- handlers send back.
use msg2agent.Prelude.{ℕ, Text, text_eq, Option, List, Result}
use msg2agent.Registry.Channel.{ChannelError, ChannelType, ChannelRole}
use msg2agent.Relay.Hub.{RelayHub}

pub data ChannelFailure : Type 0 where
  must_register_first invalid_params invalid_channel_type channels_not_supported
        invalid_channel_id :
      ChannelFailure
  channel_id_or_name_required no_such_channel already_exists owner_cannot_leave not_a_member :
      ChannelFailure
  only_owner_can_delete : ChannelFailure
  internal_error : ChannelError → ChannelFailure

pub record ChannelInfo : Type 0 where
  pub id : ℕ
  pub name : Text
  pub kind : ChannelType
  pub owner : Text
  pub description : Text
  pub member_count : ℕ

pub record MemberInfo : Type 0 where
  pub did : Text
  pub role : ChannelRole
  pub joined_at : ℕ

pub data ChannelReply : Type 0 where
  created : ℕ → Text → ChannelReply
  joined already_member left not_member deleted distributed : ChannelReply
  listed : List ChannelInfo → ChannelReply
  member_list : List MemberInfo → ChannelReply

-- What handling a request leaves: the hub, and what is sent back.
abbrev pub Handled : Type 0
Handled = RelayHub × Result ChannelFailure ChannelReply

pub record ChannelRef : Type 0 where
  pub channel_id : Text
  pub name : Text

pub record CreateParams : Type 0 where
  pub name : Text
  pub kind : Text
  pub description : Text

pub record SenderKeyParams : Type 0 where
  pub channel : ChannelRef
  pub chain_key : Text
  pub signature_key : Text

-- The channel requests, as `processRequest` dispatches them by method.
pub data ChannelRequest : Type 0 where
  create_request : Option CreateParams → ChannelRequest
  join_request leave_request members_request delete_request : Option ChannelRef → ChannelRequest
  list_request : ChannelRequest
  sender_key_request : Option SenderKeyParams → ChannelRequest
