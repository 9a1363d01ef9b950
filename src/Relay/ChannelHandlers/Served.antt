-- ===== src/Relay/ChannelHandlers/Served.antt =====
-- A channel request together with its answer, which goes into the buffer of the client that asked.
use msg2agent.Prelude.{
  ℕ, nat_eq, nat_beq_iff, Text, text_eq, ◌==◌, ◌≡◌, ◌⊎◌, ap, sym, ◌∙◌, inl, inr, true, Bool-cases,
  Option, some, List, if◌then◌else◌, Result, ok, err, arith,
}
use msg2agent.Prelude.Dict.{slice_at}
use msg2agent.Registry.Channel.{channel_not_found, Channel}
use msg2agent.Registry.ChannelStore.{MemoryChannelStore, get_channel}
use msg2agent.Relay.Hub.{Frame, channel_deleted, response, Client, RelayHub, send}
use msg2agent.Relay.Hub.Kept.{send-queue}
use msg2agent.Relay.Hub.FanOut.{
  send_clients, appended, appended_zero, appended-send, slice_at-send_other,
}
use msg2agent.Relay.ChannelHandlers.{handle_channel_delete, respond, serve_request}
use msg2agent.Relay.ChannelRequest.{
  ChannelFailure, ChannelRef, ChannelReply, Handled, deleted, delete_request,
}
use msg2agent.Relay.ChannelHandlers.Valid.{HubIsSound}
use msg2agent.Relay.ChannelHandlers.Rules.{
  told, Requests, ChannelDeleted, handle_channel_delete_lem,
}

-- The buffer of client `j` when the answer to client `c` was put behind what waits, if there is room.
abbrev pub answered : Client → ℕ → Text → List Frame → List Frame
answered c j payload b = if c.handle == j then appended 1 (response payload) b else b

slice_at-send :
    (k j : ℕ) (f : Frame) (h : RelayHub)
    → slice_at j (send k f h).0.buffers
      ≡ (if k == j then appended 1 f (slice_at j h.buffers) else slice_at j h.buffers)
slice_at-send k j f h = elim (Bool-cases (k == j)) [
  | inl y ↦ rw y (
      let e : k ≡ j = (nat_beq_iff k j).0 y in
      rw e (sym (appended_zero f (slice_at j (send j f h).0.buffers)) ∙ appended-send 0 j f h))
  | inr n ↦ rw n (slice_at-send_other j k f h n)
]

send-channels : (k : ℕ) (f : Frame) (h : RelayHub) → (send k f h).0.channels ≡ h.channels
unfolding send
send-channels k f h = ground arith

module _ (encode : Result ChannelFailure ChannelReply → Text) (parse_uuid : Text → Option ℕ) where
  -- What a request to delete a channel and its answer did.
  abbrev pub DeleteServed : Option ChannelRef → Client → RelayHub → RelayHub → Type 0
  DeleteServed params c h t =
      ((e : ChannelFailure) × (t.channels ≡ h.channels)
        × (t.clients ≡ h.clients)
        × (t.queue ≡ h.queue)
        × ((j : ℕ) → slice_at j t.buffers ≡ answered c j (encode (err e)) (slice_at j h.buffers)))
      ⊎ ((store s : MemoryChannelStore) × (ch : Channel) × (h.channels ≡ some store)
          × (get_channel ch.id store ≡ ok ch)
          × (ch.owner_did ≡ c.did)
          × Requests parse_uuid params ch
          × (t.channels ≡ some s)
          × (get_channel ch.id s ≡ err channel_not_found)
          × ((j : ℕ)
              → slice_at j t.buffers
                ≡ answered c j (encode (ok deleted)) (
                    appended (told (λ d. true) h.clients j ch.members)
                      (channel_deleted ch.id ch.name) (slice_at j h.buffers))))

  respond-DeleteServed :
      (params : Option ChannelRef) (c : Client) (h : RelayHub) (r : Handled)
      → ChannelDeleted parse_uuid params c h r
      → DeleteServed params c h (respond encode c r)
  unfolding respond
  respond-DeleteServed params c h (u, r) (inl (same, (e, failed))) =
      let f : Frame = response (encode r) in
      inl (
        e,
        send-channels c.handle f u ∙ ap (λ (x : RelayHub). x.channels) same,
        send_clients c.handle f u ∙ ap (λ (x : RelayHub). x.clients) same,
        send-queue c.handle f u ∙ ap (λ (x : RelayHub). x.queue) same,
        λ j.
            slice_at-send c.handle j f u
            ∙ ap (λ x. answered c j (encode x) (slice_at j u.buffers)) failed
            ∙ ap (λ (x : RelayHub). answered c j (encode (err e)) (slice_at j x.buffers)) same,
      )
  respond-DeleteServed params c h (u, r)
        (inr (store, ch, a, b, o, w, said, (s, left, gone), told_)) =
      let f : Frame = response (encode r) in
      inr (
        store,
        s,
        ch,
        a,
        b,
        o,
        w,
        send-channels c.handle f u ∙ left,
        gone,
        λ j.
            slice_at-send c.handle j f u
            ∙ ap (λ x. answered c j (encode x) (slice_at j u.buffers)) said
            ∙ ap (answered c j (encode (ok deleted))) (told_ j),
      )

  -- A request to delete a channel, with its answer. Either it is refused: nothing changes but that the
  -- requester is sent an error. Or it comes from the owner of the stored channel that it names: the
  -- channel is found no more, and every client's buffer is what it was, with the notification appended
  -- once for each member that is connected through the client, and for the requester with the reply
  -- deleted behind that, each as far as there is room. The channel store is a sound one.
  pub serve_request-DeleteServed :
      (id now : ℕ) (c : Client) (params : Option ChannelRef) (h : RelayHub)
      → HubIsSound h
      → DeleteServed params c h (serve_request encode parse_uuid id now c (delete_request params) h)
  unfolding serve_request
  serve_request-DeleteServed id now c params h v =
      respond-DeleteServed params c h (handle_channel_delete parse_uuid c params h)
        (handle_channel_delete_lem parse_uuid c params h v)
