-- ===== src/Relay/Hub/Clients.antt =====
-- The map of connected clients (`Register` and `Unregister` of cmd/relay/hub.go, and `handleRegister` of
-- cmd/relay/client.go): who is found under an id or a DID, in runs of several clients.
use msg2agent.Prelude.{
  Text, text_eq, text_beq_iff, ◌==◌, ◌≡◌, ◌≢◌, refl, sym, Bool, false, ◌||◌, ◌&&◌, not, is_nil,
  none, some, if◌then◌else◌, arith,
}
use msg2agent.Prelude.Dict.{get, put, delete, get-put, get-delete, get-put_self, get-delete_self}
use msg2agent.Relay.Hub.{Client, RelayHub, register, unregister, take_did}

-- Whether `key` is the id of the client or its DID; no client has the empty DID.
abbrev pub is_name_of : Client → Text → Bool
is_name_of c key = c.id == key || (not (is_nil c.did) && c.did == key)

-- `Register` makes the client the one that is found under its id and its DID, and `Unregister` makes
-- nothing found under them; both leave every other name as it was.
pub register_lem :
    (c : Client) (h : RelayHub) (key : Text)
    → (get key (register c h).clients
        ≡ (if is_name_of c key then some c.handle else get key h.clients))
      × (get key (unregister c h).clients ≡ (if is_name_of c key then none else get key h.clients))
unfolding register unregister
register_lem c h key = (
  ground (
    arith,
    get-put c.id key c.handle h.clients,
    get-put c.did key c.handle (put c.id c.handle h.clients),
  ),
  ground (arith, get-delete c.id key h.clients, get-delete c.did key (delete c.id h.clients)),
)

-- When a client that is connected under its id takes a DID which an older client has, the DID leads to
-- it; when the older client disconnects afterwards, nothing is found under the DID, though the newer
-- client has the DID and is still connected under its id.
pub unregister-take_did :
    (old new : Client) (h : RelayHub)
    → is_nil old.did ≡ false
    → get new.id h.clients ≡ some new.handle
    → new.id ≢ old.id
    → new.id ≢ old.did
    → let (new', t) = take_did old.did new h in
      (new'.did ≡ old.did)
      × (get new'.did t.clients ≡ some new.handle)
      × (get new'.did (unregister old t).clients ≡ none)
      × (get new'.id (unregister old t).clients ≡ some new.handle)
unfolding unregister take_did
unregister-take_did old new h some_did there other_id other_did =
    let taken = put old.did new.handle h.clients in
    (
      refl,
      get-put_self old.did new.handle h.clients,
      rw some_did (get-delete_self old.did _),
      ground (
        arith,
        get-delete old.did new.id (delete old.id taken),
        get-delete old.id new.id taken,
        get-put old.did new.id new.handle h.clients,
        text_beq_iff old.did new.id,
        text_beq_iff old.id new.id,
        (λ (e : old.did ≡ new.id). other_did (sym e)),
        (λ (e : old.id ≡ new.id). other_id (sym e)),
      ),
    )

-- A client that registers under a second DID and then disconnects is still found under the first.
pub unregister-retake_did :
    (c : Client) (first second : Text) (h : RelayHub)
    → first ≢ second
    → first ≢ c.id
    → (let r = take_did first c h in
        let r' = take_did second r.0 r.1 in
        get first (unregister r'.0 r'.1).clients ≡ some c.handle)
unfolding unregister take_did
unregister-retake_did c first second h d i = ground (
  arith,
  get-delete second first (delete c.id (put second c.handle (put first c.handle h.clients))),
  get-delete c.id first (put second c.handle (put first c.handle h.clients)),
  get-put second first c.handle (put first c.handle h.clients),
  get-put_self first c.handle h.clients,
  text_beq_iff second first,
  text_beq_iff c.id first,
)
