-- ===== src/Conversation/Memory/Participants.antt =====
-- The index from a DID to the threads that it takes part in.
use msg2agent.Prelude.{
  ℕ, nat_eq, nat_beq_iff, ◌+◌, ◌-◌, ◌≤◌, Text, text_eq, text_beq_iff, ◌==◌, ◌≡◌, refl, ap, subst,
  sym, ◌∙◌, inl, inr, Bool, true, not, ◌&&◌, Bool-cases, Option-cases, none, some, List, [], ◌∷◌,
  arith, if◌then◌else◌,
}
use msg2agent.Prelude.Dict.{Dict, get, put, delete, slice_at, measure, get-put, get-delete}
use msg2agent.Prelude.Ints.{decrement}
use msg2agent.Prelude.Occurs.{
  contains-occurs, occurs, append_to, occurs-append_to, occurs-remove_from,
}
use msg2agent.Conversation.{Thread, StoreConfig, StoredMessage, has_participant}
use msg2agent.Conversation.Memory.{
  MemoryStore, new_memory_store, index_each, unindex_each, remove_thread_from_did, reindex,
  with_new_thread, with_thread, without_thread, count_up, count_down, with_message, delete_messages,
  delete_receipts,
}

-- How often a thread has a DID among its participants.
abbrev pub place : Text → Thread → ℕ
place did t = occurs did t.participants

abbrev pub IsDistinct : Thread → Type 0
IsDistinct t = (did : Text) → place did t ≤ 1

-- Under each DID, each thread stands as often as the DID is among its participants, which is once at
-- most; a thread is stored under its id.
pub record AreListed (threads : Dict ℕ Thread) (idx : Dict Text (List ℕ)) : Type 0 where
  pub listed :
      (did : Text) (id : ℕ) → occurs id (slice_at did idx) ≡ measure (place did) (get id threads)
  pub stored : (id : ℕ) (t : Thread) → get id threads ≡ some t → (t.id ≡ id) × IsDistinct t

abbrev pub IsIndexed : MemoryStore → Type 0
IsIndexed s = AreListed s.threads s.threads_by_did

occurs-index_each :
    (p : Text → Bool) (id j : ℕ) (did : Text) (dids : List Text) (idx : Dict Text (List ℕ))
    → occurs j (slice_at did (index_each p id dids idx))
      ≡ occurs j (slice_at did idx) + (if (id == j) && p did then occurs did dids else 0)
unfolding index_each occurs
occurs-index_each p id j did [] idx = ground arith
occurs-index_each p id j did (d ∷ dids) idx = ground (
  arith,
  occurs-index_each p id j did dids (if p d then append_to d id idx else idx),
  occurs-append_to d did id j idx,
  text_beq_iff d did,
)

occurs-unindex_each :
    (p : Text → Bool) (id j : ℕ) (did : Text) (dids : List Text) (idx : Dict Text (List ℕ))
    → occurs j (slice_at did (unindex_each p id dids idx))
      ≡ occurs j (slice_at did idx) - (if (id == j) && p did then occurs did dids else 0)
unfolding unindex_each occurs remove_thread_from_did
occurs-unindex_each p id j did [] idx = ground arith
occurs-unindex_each p id j did (d ∷ dids) idx = ground (
  arith,
  occurs-unindex_each p id j did dids (if p d then remove_thread_from_did d id idx else idx),
  occurs-remove_from d did id j idx,
  text_beq_iff d did,
)

-- The two loops of `UpdateThread` take a thread from the DIDs of its old participants to the new ones.
occurs-reindex :
    (old t : Thread) (j : ℕ) (did : Text) (idx : Dict Text (List ℕ))
    → place did old ≤ 1
    → place did t ≤ 1
    → occurs t.id (slice_at did idx) ≡ place did old
    → occurs j (slice_at did (reindex old t idx))
      ≡ (if t.id == j then place did t else occurs j (slice_at did idx))
unfolding reindex has_participant
occurs-reindex old t j did idx a b h = ground (
  arith,
  occurs-index_each (λ d. not (has_participant old d)) t.id j did t.participants
      (unindex_each (λ d. not (has_participant t d)) t.id old.participants idx),
  occurs-unindex_each (λ d. not (has_participant t d)) t.id j did old.participants idx,
  contains-occurs did old.participants,
  contains-occurs did t.participants,
  nat_beq_iff t.id j,
)

put-AreListed :
    (id : ℕ) (t : Thread) (threads : Dict ℕ Thread) (idx idx' : Dict Text (List ℕ))
    → AreListed threads idx
    → t.id ≡ id
    → IsDistinct t
    → ((did : Text) (j : ℕ)
        → occurs j (slice_at did idx')
          ≡ (if id == j then place did t else occurs j (slice_at did idx)))
    → AreListed (put id t threads) idx'
put-AreListed id t threads idx idx' v same d h = record {
  listed = λ did j. ground (arith, h did j, get-put id j t threads, v.listed did j);
  stored = λ j u g. elim (Bool-cases (id == j)) [
    | inl y ↦
        (let e : t ≡ u = ground (arith, get-put id j t threads) in
          subst (λ x. (x.id ≡ j) × IsDistinct x) e (same ∙ (nat_beq_iff id j).0 y, d))
    | inr n ↦ v.stored j u (ground (arith, get-put id j t threads))
  ];
}

delete-AreListed :
    (id : ℕ) (threads : Dict ℕ Thread) (idx idx' : Dict Text (List ℕ))
    → AreListed threads idx
    → ((did : Text) (j : ℕ)
        → occurs j (slice_at did idx') ≡ (if id == j then 0 else occurs j (slice_at did idx)))
    → AreListed (delete id threads) idx'
delete-AreListed id threads idx idx' v h = record {
  listed = λ did j. ground (arith, h did j, get-delete id j threads, v.listed did j);
  stored = λ j u g. v.stored j u (ground (arith, get-delete id j threads));
}

-- A thread of the same id and participants takes the place of a stored one.
recount-AreListed :
    (id : ℕ) (old t : Thread) (threads : Dict ℕ Thread) (idx : Dict Text (List ℕ))
    → AreListed threads idx
    → get id threads ≡ some old
    → t.id ≡ old.id
    → t.participants ≡ old.participants
    → AreListed (put id t threads) idx
recount-AreListed id old t threads idx v there same parts =
    let (i, d) = v.stored id old there in
    put-AreListed id t threads idx idx v (same ∙ i)
      (λ did. subst (λ l. occurs did l ≤ 1) (sym parts) (d did))
      (λ did j. elim (Bool-cases (id == j)) [
        | inl y ↦
            (let q : id ≡ j = (nat_beq_iff id j).0 y in
              rw y (
                v.listed did j
                ∙ ap (λ k. measure (place did) (get k threads)) (sym q)
                ∙ ap (λ o. measure (place did) o) there
                ∙ ap (λ l. occurs did l) (sym parts)))
        | inr n ↦ rw n refl
      ])

pub new_memory_store-IsIndexed : (config : StoreConfig) → IsIndexed (new_memory_store config)
unfolding new_memory_store get slice_at occurs
new_memory_store-IsIndexed config = record {
  listed = λ did id. refl;
  stored = λ id t h. absurd (cc h);
}

pub with_new_thread-IsIndexed :
    (t : Thread) (s : MemoryStore)
    → IsIndexed s
    → get t.id s.threads ≡ none
    → IsDistinct t
    → IsIndexed (with_new_thread t s)
unfolding with_new_thread
with_new_thread-IsIndexed t s v fresh d =
    put-AreListed t.id t s.threads s.threads_by_did
      (index_each (λ did. true) t.id t.participants s.threads_by_did) v refl d
      (λ did j. ground (
        arith,
        occurs-index_each (λ did. true) t.id j did t.participants s.threads_by_did,
        v.listed did t.id,
        nat_beq_iff t.id j,
      ))

pub with_thread-IsIndexed :
    (t old : Thread) (s : MemoryStore)
    → IsIndexed s
    → get t.id s.threads ≡ some old
    → IsDistinct t
    → IsIndexed (with_thread t old s)
unfolding with_thread
with_thread-IsIndexed t old s v there d =
    put-AreListed t.id t s.threads s.threads_by_did (reindex old t s.threads_by_did) v refl d
      (λ did j.
        occurs-reindex old t j did s.threads_by_did ((v.stored t.id old there).1 did) (d did)
          (v.listed did t.id ∙ ap (λ o. measure (place did) o) there))

pub delete_messages-threads :
    (uuid_string : ℕ → Text) (ids : List ℕ) (s : MemoryStore)
    → ((delete_messages uuid_string ids s).threads ≡ s.threads)
      × ((delete_messages uuid_string ids s).threads_by_did ≡ s.threads_by_did)
      × ((delete_messages uuid_string ids s).messages_by_thread ≡ s.messages_by_thread)
unfolding delete_messages
delete_messages-threads uuid_string [] s = (refl, refl, refl)
delete_messages-threads uuid_string (id ∷ ids) s =
    delete_messages-threads uuid_string ids (record s {
      messages = delete id s.messages;
      receipts = delete_receipts uuid_string id s.receipts;
    })

pub without_thread-IsIndexed :
    (uuid_string : ℕ → Text) (id : ℕ) (t : Thread) (s : MemoryStore)
    → IsIndexed s
    → get id s.threads ≡ some t
    → IsIndexed (without_thread uuid_string id t s)
unfolding without_thread
without_thread-IsIndexed uuid_string id t s v there =
    let idx = unindex_each (λ did. true) id t.participants s.threads_by_did in
    let (a, b, c) =
      delete_messages-threads uuid_string (slice_at id s.messages_by_thread)
        (record s { threads_by_did = idx }) in
    rw (a, b)
      (delete-AreListed id s.threads s.threads_by_did idx v (λ did j. ground (
        arith,
        occurs-unindex_each (λ did. true) id j did t.participants s.threads_by_did,
        v.listed did id,
        there,
        nat_beq_iff id j,
      )))

pub count_down-AreListed :
    (id : ℕ) (threads : Dict ℕ Thread) (idx : Dict Text (List ℕ))
    → AreListed threads idx
    → AreListed (count_down id threads) idx
unfolding count_down
count_down-AreListed id threads idx v = elim (Option-cases (get id threads)) [
  | inl e ↦ rw (e, count_down) v
  | inr (t, e) ↦
      rw (e, count_down)
        (recount-AreListed id t (record t { message_count = decrement t.message_count }) threads idx
          v e refl refl)
]

pub with_message-IsIndexed :
    (now : ℕ) (m : StoredMessage) (t : Thread) (s : MemoryStore)
    → IsIndexed s
    → get m.thread_id s.threads ≡ some t
    → IsIndexed (with_message now m t s)
unfolding with_message
with_message-IsIndexed now m t s v there =
    recount-AreListed m.thread_id t (count_up m.timestamp now t) s.threads s.threads_by_did v there
      refl refl
