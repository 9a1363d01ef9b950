-- ===== src/Registry/Channel.antt =====
-- pkg/registry/channel.go: a channel and its members. Times are numbers of nanoseconds; `time.Now()`
-- and the fresh UUID of a channel are arguments. The field `Metadata` is read by no code and left out.
pub mod Members
pub mod Keys
use msg2agent.Prelude.{
  ℕ, Text, text_eq, ◌==◌, Bool, true, false, not, ◌&&◌, Option, none, some, List, [], ◌∷◌, ◌++◌,
  map, if◌then◌else◌,
}

pub data ChannelError : Type 0 where
  channel_not_found channel_exists not_channel_member not_channel_owner member_already_added :
      ChannelError

pub data ChannelType : Type 0 where
  group broadcast topic : ChannelType

pub data ChannelRole : Type 0 where
  owner admin member : ChannelRole

pub record SenderKey : Type 0 where
  pub chain_key : Text
  pub signature_key : Text
  pub iteration : ℕ

pub record ChannelMember : Type 0 where
  pub did : Text
  pub joined_at : ℕ
  pub role : ChannelRole
  pub sender_key : Option SenderKey

pub record Channel : Type 0 where
  pub id : ℕ
  pub name : Text
  pub kind : ChannelType
  pub owner_did : Text
  pub description : Text
  pub members : List ChannelMember
  pub created_at : ℕ
  pub updated_at : ℕ

unfoldable pub new_channel : ℕ → ℕ → Text → ChannelType → Text → Channel
new_channel id now name kind owner_did = record {
  id = id;
  name = name;
  kind = kind;
  owner_did = owner_did;
  description = [];
  members = record { did = owner_did; joined_at = now; role = owner; sender_key = none } ∷ [];
  created_at = now;
  updated_at = now;
}

-- The loop of `IsMember`.
unfoldable pub has_did : Text → List ChannelMember → Bool
has_did did [] = false
has_did did (m ∷ ms) = let later = has_did did ms in if m.did == did then true else later

unfoldable pub is_member : Channel → Text → Bool
is_member c did = has_did did c.members

unfoldable pub add_member : ℕ → Text → ChannelRole → Channel → Channel × Option ChannelError
add_member now did role c = if is_member c did then (c, some member_already_added) else (
  record c {
    members =
        c.members ++ record { did = did; joined_at = now; role = role; sender_key = none } ∷ [];
    updated_at = now;
  },
  none,
)

-- The loop of `RemoveMember`: the members without the first of that DID.
unfoldable pub without_did : Text → List ChannelMember → List ChannelMember
without_did did [] = []
without_did did (m ∷ ms) = let later = without_did did ms in if m.did == did then ms else m ∷ later

unfoldable pub remove_member : ℕ → Text → Channel → Channel × Bool
remove_member now did c =
    if has_did did c.members
    then (record c { members = without_did did c.members; updated_at = now }, true)
    else (c, false)

unfoldable pub is_owner : Channel → Text → Bool
is_owner c did = c.owner_did == did

abbrev pub is_admin_role : ChannelRole → Bool
is_admin_role admin = true
is_admin_role _ = false

unfoldable pub has_admin : Text → List ChannelMember → Bool
has_admin did [] = false
has_admin did (m ∷ ms) =
    let later = has_admin did ms in if (m.did == did) && is_admin_role m.role then true else later

unfoldable pub is_admin : Channel → Text → Bool
is_admin c did = if is_owner c did then true else has_admin did c.members

abbrev pub is_broadcast : ChannelType → Bool
is_broadcast broadcast = true
is_broadcast _ = false

unfoldable pub can_send : Channel → Text → Bool
can_send c did =
    if not (is_member c did) then false else if is_broadcast c.kind then is_owner c did else true

unfoldable pub find_member : Text → List ChannelMember → Option ChannelMember
find_member did [] = none
find_member did (m ∷ ms) = let later = find_member did ms in if m.did == did then some m else later

unfoldable pub get_member : Channel → Text → Option ChannelMember
get_member c did = find_member did c.members

unfoldable pub member_dids : Channel → List Text
member_dids c = map (λ m. m.did) c.members

-- The loop of `SetSenderKey`: the first member of that DID gets the key.
unfoldable pub with_key : Text → Option SenderKey → List ChannelMember → List ChannelMember
with_key did key [] = []
with_key did key (m ∷ ms) =
    let later = with_key did key ms in
    if m.did == did then record m { sender_key = key } ∷ ms else m ∷ later

unfoldable pub set_sender_key : ℕ → Text → Option SenderKey → Channel → Channel × Bool
set_sender_key now did key c =
    if has_did did c.members
    then (record c { members = with_key did key c.members; updated_at = now }, true)
    else (c, false)

abbrev pub key_of : Option ChannelMember → Option SenderKey
key_of none = none
key_of (some m) = m.sender_key

unfoldable pub get_sender_key : Channel → Text → Option SenderKey
get_sender_key c did = key_of (get_member c did)
