-- ===== src/Conversation/Memory/Listing.antt =====
-- What ListThreads and GetMessages answer, and their pages.
use mathlib.Core.List.{Permᴰ}
use msg2agent.Prelude.{
  ℕ, ◌≤◌, suc, zero, nat_eq, nat_beq_iff, text_eq, ◌==◌, ◌≡◌, refl, ap, ◌∙◌, inl, inr, Bool, false,
  ◌&&◌, is_nil, Option-cases, Option, none, some, List, [], ◌∷◌, map, keep, length, take, drop,
  arith, if◌then◌else◌, if_false, ok, nat_beq,
}
use msg2agent.Prelude.Dict.{Dict, get, slice_at, measure}
use msg2agent.Prelude.Occurs.{occurs, contains-occurs}
use msg2agent.Conversation.{Thread, StoredMessage, ThreadFilter, MessageFilter, has_participant}
use msg2agent.Conversation.Memory.{MemoryStore}
use msg2agent.Conversation.Memory.Queries.{
  paginate, stored_at, thread_matches_filter, message_matches_filter, list_threads, get_messages,
}
use msg2agent.Conversation.Memory.Participants.{IsIndexed}
use msg2agent.Conversation.Memory.Counts.{IsCounted}

module _ {A : Type 0} where
  drop_past : (n : ℕ) (l : List A) → length l ≤ n → drop n l ≡ []
  drop_past zero [] h = refl
  drop_past zero (x ∷ l) h = absurd (omega arith)
  drop_past (suc n) [] h = refl
  drop_past (suc n) (x ∷ l) h = drop_past n l (omega arith)

  take_all : (n : ℕ) (l : List A) → length l ≤ n → take n l ≡ l
  take_all zero [] h = refl
  take_all zero (x ∷ l) h = absurd (omega arith)
  take_all (suc n) [] h = refl
  take_all (suc n) (x ∷ l) h = ap (λ r. x ∷ r) (take_all n l (omega arith))

  -- The result without its first `offset` entries, cut to `limit` entries if the limit is not
  -- zero.
  abbrev pub page_of : ℕ → ℕ → List A → List A
  page_of offset limit l = if nat_beq limit 0 then drop offset l else take limit (drop offset l)

  pub paginate_lem :
      (offset limit : ℕ) (l : List A) → paginate offset limit l ≡ page_of offset limit l
  unfolding paginate
  paginate_lem offset limit l =
      ground (arith, drop_past offset l, take_all limit (drop offset l), take_all limit [])

  occurs-perm :
      (f : A → ℕ) (j : ℕ) {xs ys : List A} → Permᴰ xs ys → occurs j (map f xs) ≡ occurs j (map f ys)
  unfolding occurs
  occurs-perm f j Permᴰ.nil = refl
  occurs-perm f j (Permᴰ.cons e p) = ground (arith, occurs-perm f j p, ap f e)
  occurs-perm f j (Permᴰ.swap e g) = ground (arith, ap f e, ap f g)
  occurs-perm f j (Permᴰ.trans p q) = occurs-perm f j p ∙ occurs-perm f j q

  measure_zero : (p : A → Bool) (o : Option A) → 0 ≡ measure (λ a. if p a then 0 else 0) o
  measure_zero p none = refl
  measure_zero p (some a) = ground arith

  -- The entries that an index leads to.
  occurs-stored_at :
      (key : A → ℕ) (p : A → Bool) (j : ℕ) (ids : List ℕ) (m : Dict ℕ A)
      → ((i : ℕ) (a : A) → get i m ≡ some a → key a ≡ i)
      → occurs j (map key (keep p (stored_at ids m)))
        ≡ measure (λ a. if p a then occurs j ids else 0) (get j m)
  unfolding stored_at occurs
  occurs-stored_at key p j [] m h = measure_zero p (get j m)
  occurs-stored_at key p j (i ∷ ids) m h = elim (Option-cases (get i m)) [
    | inl e ↦ rw (e, stored_at) (ground (arith, occurs-stored_at key p j ids m h, nat_beq_iff i j))
    | inr (a, e) ↦
        rw (e, stored_at)
          (ground (arith, occurs-stored_at key p j ids m h, nat_beq_iff i j, h i a e))
  ]

-- Whether a listing for the participant of a filter shows a thread, and whether one for the thread of a
-- filter shows a message.
abbrev pub shows_thread : ThreadFilter → Thread → ℕ
shows_thread f t = if has_participant t f.participant_did && thread_matches_filter t f then 1 else 0

abbrev pub shows_message : MessageFilter → StoredMessage → ℕ
shows_message f m = if (m.thread_id == f.thread_id) && message_matches_filter m f then 1 else 0

-- On an open store with the right index, a listing for a participant is, of a list of threads, what is
-- left without the first `offset`, cut to `limit` entries if the limit is not zero; in that list each stored thread that has the participant and passes the filter stands once, and no other thread,
-- when the sort returns a permutation.
pub list_threads_lem :
    (sort : List Thread → List Thread)
    → ((l : List Thread) → Permᴰ (sort l) l)
    → (f : ThreadFilter) (s : MemoryStore) → IsIndexed s
    → s.closed ≡ false
    → is_nil f.participant_did ≡ false
    → (l : List Thread) × (list_threads sort f s ≡ ok (page_of f.offset f.limit l))
      × ((id : ℕ) → occurs id (map (λ t. t.id) l) ≡ measure (shows_thread f) (get id s.threads))
unfolding list_threads has_participant
list_threads_lem sort perm f s v open_ named =
    let ids = slice_at f.participant_did s.threads_by_did in
    let found = keep (λ t. thread_matches_filter t f) (stored_at ids s.threads) in
    (
      sort found,
      if_false s.closed _ _ open_ ∙ rw named (ap ok (paginate_lem f.offset f.limit (sort found))),
      λ id.
          occurs-perm (λ t. t.id) id (perm found)
          ∙ occurs-stored_at (λ t. t.id) (λ t. thread_matches_filter t f) id ids s.threads
              (λ i t h. (v.stored i t h).0)
          ∙ elim (Option-cases (get id s.threads)) [
            | inl e ↦ rw e refl
            | inr (t, e) ↦
                (let (same, distinct) = v.stored id t e in
                  ground (
                    arith,
                    v.listed f.participant_did id,
                    distinct f.participant_did,
                    contains-occurs f.participant_did t.participants,
                  ))
          ],
    )

-- On an open store whose messages are right, the answer for a thread is, of a list of messages, what is
-- left without the first `offset`, cut to `limit` entries if the limit is not zero; in that list each stored message of the thread that passes the filter stands once, and no other message, when the
-- sort returns a permutation.
pub get_messages_lem :
    (sort : List StoredMessage → List StoredMessage)
    → ((l : List StoredMessage) → Permᴰ (sort l) l)
    → (f : MessageFilter) (s : MemoryStore) → IsCounted s
    → s.closed ≡ false
    → (l : List StoredMessage) × (get_messages sort f s ≡ ok (page_of f.offset f.limit l))
      × ((id : ℕ) → occurs id (map (λ m. m.id) l) ≡ measure (shows_message f) (get id s.messages))
unfolding get_messages
get_messages_lem sort perm f s v open_ =
    let ids = slice_at f.thread_id s.messages_by_thread in
    let found = keep (λ m. message_matches_filter m f) (stored_at ids s.messages) in
    (
      sort found,
      if_false s.closed _ _ open_ ∙ ap ok (paginate_lem f.offset f.limit (sort found)),
      λ id.
          occurs-perm (λ m. m.id) id (perm found)
          ∙ occurs-stored_at (λ m. m.id) (λ m. message_matches_filter m f) id ids s.messages v.keyed
          ∙ elim (Option-cases (get id s.messages)) [
            | inl e ↦ rw e refl
            | inr (m, e) ↦ ground (arith, v.listed f.thread_id id)
          ],
    )
