-- ===== src/Conversation/Memory/Counts.antt =====
-- The messages of a thread: the index from the thread to them, and the count that the thread keeps.
use msg2agent.Prelude.{
  ℕ, suc, nat_eq, nat_beq_iff, ◌<◌, Text, ◌==◌, ◌≡◌, refl, ap, subst, sym, ◌∙◌, inl, inr, true,
  false, Bool-cases, Option-cases, none, some, List, [], ◌∷◌, length, length-append, arith,
  if◌then◌else◌,
}
use msg2agent.Prelude.Dict.{Dict, get, put, delete, slice_at, measure, get-put, get-delete}
use msg2agent.Prelude.Ints.{pos, increment-pos, decrement, decrement-pos}
use msg2agent.Prelude.Occurs.{
  contains, contains-occurs, occurs, append_to, remove_from, slice_at-append_to,
  slice_at-remove_from, occurs-append_to, occurs-remove_from, length-remove_first,
}
use msg2agent.Conversation.{Thread, StoredMessage, StoreConfig}
use msg2agent.Conversation.Memory.{
  MemoryStore, new_memory_store, with_new_thread, with_thread, with_message, count_up, count_down,
  delete_messages, delete_receipts, unindex_each, without_thread, without_message,
}
use msg2agent.Conversation.Memory.Participants.{delete_messages-threads}

abbrev pub is_in : ℕ → StoredMessage → ℕ
is_in thread_id m = if m.thread_id == thread_id then 1 else 0

-- A thread lists each of its messages once and no other message, and its count is the number of them.
pub record AreCounted (threads : Dict ℕ Thread) (messages : Dict ℕ StoredMessage)
    (idx : Dict ℕ (List ℕ)) : Type 0 where
  pub listed :
      (thread_id id : ℕ)
      → occurs id (slice_at thread_id idx) ≡ measure (is_in thread_id) (get id messages)
  pub counted :
      (thread_id : ℕ) (t : Thread)
      → get thread_id threads ≡ some t
      → t.message_count ≡ pos (length (slice_at thread_id idx))
  pub keyed : (id : ℕ) (m : StoredMessage) → get id messages ≡ some m → m.id ≡ id
  pub unused : (thread_id : ℕ) → get thread_id threads ≡ none → slice_at thread_id idx ≡ []

abbrev pub IsCounted : MemoryStore → Type 0
IsCounted s = AreCounted s.threads s.messages s.messages_by_thread

pub new_memory_store-IsCounted : (config : StoreConfig) → IsCounted (new_memory_store config)
unfolding new_memory_store get slice_at occurs
new_memory_store-IsCounted config = record {
  listed = λ th id. refl;
  counted = λ th t h. absurd (cc h);
  unused = λ th h. refl;
  keyed = λ id m h. absurd (cc h);
}

-- A thread of the given count is put under an id.
put_thread-AreCounted :
    (id : ℕ) (t : Thread) (threads : Dict ℕ Thread) (messages : Dict ℕ StoredMessage)
    (idx : Dict ℕ (List ℕ))
    → AreCounted threads messages idx
    → t.message_count ≡ pos (length (slice_at id idx))
    → AreCounted (put id t threads) messages idx
put_thread-AreCounted id t threads messages idx v h = record {
  listed = v.listed;
  keyed = v.keyed;
  counted = λ th u g. elim (Bool-cases (id == th)) [
    | inl y ↦
        (let e : t ≡ u = ground (arith, get-put id th t threads) in
          subst (λ x. x.message_count ≡ pos (length (slice_at th idx))) e
            (h ∙ ap (λ k. pos (length (slice_at k idx))) ((nat_beq_iff id th).0 y)))
    | inr n ↦ v.counted th u (ground (arith, get-put id th t threads))
  ];
  unused = λ th g. v.unused th (ground (arith, get-put id th t threads));
}

pub with_new_thread-IsCounted :
    (t : Thread) (s : MemoryStore)
    → IsCounted s
    → get t.id s.threads ≡ none
    → t.message_count ≡ pos 0
    → IsCounted (with_new_thread t s)
unfolding with_new_thread
with_new_thread-IsCounted t s v fresh zero_ =
    put_thread-AreCounted t.id t s.threads s.messages s.messages_by_thread v
      (zero_ ∙ ap (λ l. pos (length l)) (sym (v.unused t.id fresh)))

pub with_thread-IsCounted :
    (t old : Thread) (s : MemoryStore)
    → IsCounted s
    → get t.id s.threads ≡ some old
    → t.message_count ≡ old.message_count
    → IsCounted (with_thread t old s)
unfolding with_thread
with_thread-IsCounted t old s v there same =
    put_thread-AreCounted t.id t s.threads s.messages s.messages_by_thread v
      (same ∙ v.counted t.id old there)

-- The count of the thread of the index that grows or shrinks is put right.
module _ (th : ℕ) (threads : Dict ℕ Thread) (messages : Dict ℕ StoredMessage)
    (idx : Dict ℕ (List ℕ)) (v : AreCounted threads messages idx) where
  reindex-AreCounted :
      (t : Thread) (messages' : Dict ℕ StoredMessage) (idx' : Dict ℕ (List ℕ))
      → t.message_count ≡ pos (length (slice_at th idx'))
      → ((i : ℕ) → (th == i) ≡ false → slice_at i idx' ≡ slice_at i idx)
      → ((i j : ℕ) → occurs j (slice_at i idx') ≡ measure (is_in i) (get j messages'))
      → ((j : ℕ) (m : StoredMessage) → get j messages' ≡ some m → m.id ≡ j)
      → AreCounted (put th t threads) messages' idx'
  reindex-AreCounted t messages' idx' h others l k = record {
    listed = l;
    keyed = k;
    counted = λ i u g. elim (Bool-cases (th == i)) [
      | inl y ↦
          (let e : t ≡ u = ground (arith, get-put th i t threads) in
            subst (λ x. x.message_count ≡ pos (length (slice_at i idx'))) e
              (h ∙ ap (λ k. pos (length (slice_at k idx'))) ((nat_beq_iff th i).0 y)))
      | inr n ↦
          v.counted i u (ground (arith, get-put th i t threads))
          ∙ ap (λ k. pos (length k)) (sym (others i n))
    ];
    unused = λ i g. elim (Bool-cases (th == i)) [
      | inl y ↦ absurd (ground (arith, get-put th i t threads))
      | inr n ↦ others i n ∙ v.unused i (ground (arith, get-put th i t threads))
    ];
  }

occurs_nil : (x : ℕ) {l : List ℕ} → l ≡ [] → occurs x l ≡ 0
unfolding occurs
occurs_nil x e = ap (λ l. occurs x l) e

length-append_to :
    (th id : ℕ) (idx : Dict ℕ (List ℕ))
    → length (slice_at th (append_to th id idx)) ≡ suc (length (slice_at th idx))
length-append_to th id idx = ground (
  arith,
  slice_at-append_to th th id idx,
  length-append (slice_at th idx) (id ∷ []),
  nat_beq_iff th th,
)

length-remove_from :
    (th id : ℕ) (idx : Dict ℕ (List ℕ))
    → 0 < occurs id (slice_at th idx)
    → length (slice_at th idx) ≡ suc (length (slice_at th (remove_from th id idx)))
length-remove_from th id idx h = ground (
  arith,
  slice_at-remove_from th th id idx,
  length-remove_first id (slice_at th idx) h,
  nat_beq_iff th th,
)

pub with_message-IsCounted :
    (now : ℕ) (m : StoredMessage) (t : Thread) (s : MemoryStore)
    → IsCounted s
    → get m.thread_id s.threads ≡ some t
    → get m.id s.messages ≡ none
    → IsCounted (with_message now m t s)
unfolding with_message
with_message-IsCounted now m t s v there fresh =
    reindex-AreCounted m.thread_id s.threads s.messages s.messages_by_thread v
      (count_up m.timestamp now t) (put m.id m s.messages)
      (append_to m.thread_id m.id s.messages_by_thread)
      (increment-pos t.message_count (length (slice_at m.thread_id s.messages_by_thread))
          (v.counted m.thread_id t there)
        ∙ ap (λ n. pos n) (sym (length-append_to m.thread_id m.id s.messages_by_thread)))
      (λ i n. ground (arith, slice_at-append_to m.thread_id i m.id s.messages_by_thread))
      (λ i j. ground (
        arith,
        occurs-append_to m.thread_id i m.id j s.messages_by_thread,
        get-put m.id j m s.messages,
        v.listed i j,
        fresh,
        nat_beq_iff m.id j,
        nat_beq_iff m.thread_id i,
      ))
      (λ j n g. elim (Bool-cases (m.id == j)) [
        | inl y ↦
            (let e : m ≡ n = ground (arith, get-put m.id j m s.messages) in
              ap (λ x. x.id) (sym e) ∙ (nat_beq_iff m.id j).0 y)
        | inr z ↦ v.keyed j n (ground (arith, get-put m.id j m s.messages))
      ])

pub without_message-IsCounted :
    (uuid_string : ℕ → Text) (id : ℕ) (m : StoredMessage) (s : MemoryStore)
    → IsCounted s
    → get id s.messages ≡ some m
    → IsCounted (without_message uuid_string id m s)
unfolding without_message count_down
without_message-IsCounted uuid_string id m s v there =
    let in_ : 0 < occurs id (slice_at m.thread_id s.messages_by_thread) =
      ground (arith, v.listed m.thread_id id, there, nat_beq_iff m.thread_id m.thread_id) in
    let other : (i : ℕ)
        → (m.thread_id == i) ≡ false
        → slice_at i (remove_from m.thread_id id s.messages_by_thread)
          ≡ slice_at i s.messages_by_thread =
      λ i n. ground (arith, slice_at-remove_from m.thread_id i id s.messages_by_thread) in
    elim (Option-cases (get m.thread_id s.threads)) [
      | inl e ↦ absurd (omega (arith, in_, occurs_nil id (v.unused m.thread_id e)))
      | inr (t, e) ↦
          rw (e, count_down)
            (reindex-AreCounted m.thread_id s.threads s.messages s.messages_by_thread v
              (record t { message_count = decrement t.message_count }) (delete id s.messages)
              (remove_from m.thread_id id s.messages_by_thread)
              (decrement-pos t.message_count
                (length (slice_at m.thread_id (remove_from m.thread_id id s.messages_by_thread)))
                (v.counted m.thread_id t e
                  ∙ ap (λ n. pos n) (length-remove_from m.thread_id id s.messages_by_thread in_)))
              other
              (λ i j. ground (
                arith,
                occurs-remove_from m.thread_id i id j s.messages_by_thread,
                get-delete id j s.messages,
                v.listed i j,
                there,
                nat_beq_iff id j,
                nat_beq_iff m.thread_id i,
              ))
              (λ j n g. v.keyed j n (ground (arith, get-delete id j s.messages))))
    ]

messages-delete_messages :
    (uuid_string : ℕ → Text) (ids : List ℕ) (j : ℕ) (s : MemoryStore)
    → get j (delete_messages uuid_string ids s).messages
      ≡ (if contains j ids then none else get j s.messages)
unfolding delete_messages contains
messages-delete_messages uuid_string [] j s = refl
messages-delete_messages uuid_string (id ∷ ids) j s = ground (
  arith,
  messages-delete_messages uuid_string ids j (record s {
    messages = delete id s.messages;
    receipts = delete_receipts uuid_string id s.receipts;
  }),
  get-delete id j s.messages,
)

-- What the index holds once the list of a thread is deleted.
slice_at-delete :
    (id th : ℕ) (idx : Dict ℕ (List ℕ))
    → slice_at th (delete id idx) ≡ (if id == th then [] else slice_at th idx)
unfolding slice_at
slice_at-delete id th idx = ground (arith, get-delete id th idx)

-- A message that the list of a thread holds is in no other thread.
listed_elsewhere :
    (id th j : ℕ) (s : MemoryStore)
    → IsCounted s
    → contains j (slice_at id s.messages_by_thread) ≡ true
    → (id == th) ≡ false
    → measure (is_in th) (get j s.messages) ≡ 0
listed_elsewhere id th j s v c n = elim (Option-cases (get j s.messages)) [
  | inl e ↦ rw e refl
  | inr (m, e) ↦ ground (
    arith,
    v.listed id j,
    contains-occurs j (slice_at id s.messages_by_thread),
    nat_beq_iff m.thread_id id,
    nat_beq_iff m.thread_id th,
    nat_beq_iff id th,
  )
]

pub without_thread-IsCounted :
    (uuid_string : ℕ → Text) (id : ℕ) (t : Thread) (s : MemoryStore)
    → IsCounted s
    → get id s.threads ≡ some t
    → IsCounted (without_thread uuid_string id t s)
unfolding without_thread occurs
without_thread-IsCounted uuid_string id t s v there =
    let ids = slice_at id s.messages_by_thread in
    let s₁ : MemoryStore = record s {
      threads_by_did = unindex_each (λ did. true) id t.participants s.threads_by_did;
    } in
    let (a, b, c) = delete_messages-threads uuid_string ids s₁ in
    record {
      listed = λ th j. ground (
        arith,
        slice_at-delete id th (delete_messages uuid_string ids s₁).messages_by_thread,
        messages-delete_messages uuid_string ids j s₁,
        c,
        v.listed th j,
        v.listed id j,
        contains-occurs j ids,
        listed_elsewhere id th j s v,
        nat_beq_iff id th,
      );
      keyed = λ j m g. v.keyed j m (ground (arith, messages-delete_messages uuid_string ids j s₁));
      counted = λ th u g. ground (
        arith,
        slice_at-delete id th (delete_messages uuid_string ids s₁).messages_by_thread,
        get-delete id th (delete_messages uuid_string ids s₁).threads,
        a,
        c,
        v.counted th u,
      );
      unused = λ th g. ground (
        arith,
        slice_at-delete id th (delete_messages uuid_string ids s₁).messages_by_thread,
        get-delete id th (delete_messages uuid_string ids s₁).threads,
        a,
        c,
        v.unused th,
      );
    }
