-- ===== src/Conversation/Memory/Receipts.antt =====
-- The receipts of a conversation store, and the keys that they are stored under. The UUID package prints
-- a UUID as 36 characters, and prints two UUIDs differently.
use msg2agent.Prelude.{
  ℕ, suc, zero, nat_eq, nat_beq_iff, Text, text, text_eq, text_beq, text_beq_iff, ◌==◌, ◌≡◌, ◌≢◌,
  ◌⊎◌, refl, ap, sym, ◌∙◌, inl, inr, Bool, true, false, not, Bool-cases, Option-cases, Option, none,
  some, List, [], ◌∷◌, ◌++◌, keep, length, length-append, take, arith, if◌then◌else◌, if_false,
  passes_guard, ok, err, Eq,
}
use msg2agent.Prelude.Dict.{Dict, get, put, get-put, get-delete_self}
use msg2agent.Conversation.{MessageReceipt, is_delivered, is_set, receipt_not_found, StoredMessage}
use msg2agent.Conversation.Memory.{
  MemoryStore, is_receipt_of, delete_receipts, get_message, without_message, delete_message,
  message_not_found,
}
use msg2agent.Conversation.Memory.Marks.{
  receipt_key, first_time, delivered, read_receipt, with_delivery, mark_delivered, with_reading,
  mark_read, get_receipt,
}

module _ {A : Type 0} where
  take-append : (n : ℕ) (p r : List A) → length p ≡ n → take n (p ++ r) ≡ p
  take-append zero [] [] h = refl
  take-append zero [] (x ∷ r) h = refl
  take-append zero (x ∷ p) r h = absurd (omega arith)
  take-append (suc n) [] r h = absurd (omega arith)
  take-append (suc n) (x ∷ p) r h = ap (λ l. x ∷ l) (take-append n p r (omega arith))

  append_cancel : (p r q : List A) → p ++ r ≡ p ++ q → r ≡ q
  append_cancel [] r q h = h
  append_cancel (x ∷ p) r q h = append_cancel p r q (cc h)

-- What is left of a map when the entries of some keys are dropped.
get-keep :
    {K V : Type 0} ⦃e : Eq K⦄ (p : K → Bool) (k : K) (m : Dict K V)
    → get k (keep (λ b. p b.0) m) ≡ (if p k then get k m else none)
unfolding get
get-keep ⦃e⦄ p k [] = ground arith
get-keep ⦃e⦄ p k ((j, v) ∷ m) = elim (Bool-cases (j == k)) [
  | inl y ↦ (let q : j ≡ k = (e.beq_iff j k).0 y in ground (arith, get-keep p k m, ap p q))
  | inr n ↦ ground (arith, get-keep p k m)
]

delivered-is_set :
    (now id : ℕ) (did : Text) (o : Option MessageReceipt)
    → is_set (delivered now id did o).delivered_at ≡ true
delivered-is_set now id did none = refl
delivered-is_set now id did (some r) = elim (Option-cases r.delivered_at) [
  | inl e ↦ rw e refl
  | inr (t, e) ↦ rw e refl
]

read-is_set :
    (now id : ℕ) (did : Text) (o : Option MessageReceipt)
    → (is_set (read_receipt now id did o).delivered_at ≡ true)
      × ((read_receipt now id did o).read_at ≡ some now)
read-is_set now id did none = (refl, refl)
read-is_set now id did (some r) =
    (elim (Option-cases r.delivered_at) [ inl e ↦ rw e refl | inr (t, e) ↦ rw e refl ], refl)

first_time-set : (now : ℕ) (o : Option ℕ) → is_set o ≡ true → first_time now o ≡ o
first_time-set now none h = cc
first_time-set now (some t) h = refl

delivered-old :
    (now id : ℕ) (did : Text) (o : Option MessageReceipt) (old : MessageReceipt)
    → o ≡ some old
    → ((delivered now id did o).read_at ≡ old.read_at)
      × (is_set old.delivered_at ≡ true → delivered now id did o ≡ old)
delivered-old now id did o old e = (
  ap (λ x. (delivered now id did x).read_at) e,
  λ h.
      ap (λ x. delivered now id did x) e
      ∙ ap (λ t. record old { delivered_at = t }) (first_time-set now old.delivered_at h),
)

read-old :
    (now id : ℕ) (did : Text) (o : Option MessageReceipt) (old : MessageReceipt)
    → o ≡ some old
    → is_set old.delivered_at ≡ true
    → (read_receipt now id did o).delivered_at ≡ old.delivered_at
read-old now id did o old e h =
    ap (λ x. (read_receipt now id did x).delivered_at) e ∙ first_time-set now old.delivered_at h

module _ (uuid_string : ℕ → Text) (length_36 : (id : ℕ) → length (uuid_string id) ≡ 36)
    (distinct : (i j : ℕ) → uuid_string i ≡ uuid_string j → i ≡ j) where
  -- A key tells the message and the recipient.
  receipt_key-injective :
      (i j : ℕ) (d c : Text)
      → receipt_key uuid_string i d ≡ receipt_key uuid_string j c
      → (i ≡ j) × (d ≡ c)
  unfolding receipt_key
  receipt_key-injective i j d c h =
      let k : uuid_string i ++ (text ":" ++ d) ≡ uuid_string j ++ (text ":" ++ c) = h in
      let same : i ≡ j = distinct i j (
        sym (take-append 36 (uuid_string i) (text ":" ++ d) (length_36 i))
        ∙ ap (λ l. take 36 l) k
        ∙ take-append 36 (uuid_string j) (text ":" ++ c) (length_36 j)) in
      let rest : text ":" ++ d ≡ text ":" ++ c =
        append_cancel (uuid_string i) (text ":" ++ d) (text ":" ++ c)
          (k ∙ ap (λ n. uuid_string n ++ (text ":" ++ c)) (sym same)) in
      (same, append_cancel (text ":") d c rest)

  is_receipt_of-receipt_key :
      (i j : ℕ) (d : Text) → is_receipt_of uuid_string i (receipt_key uuid_string j d) ≡ (j == i)
  unfolding is_receipt_of receipt_key
  is_receipt_of-receipt_key i j d = ground (
    arith,
    take-append 36 (uuid_string j) (text ":" ++ d) (length_36 j),
    length-append (uuid_string j) (text ":" ++ d),
    length_36 j,
    text_beq_iff (uuid_string j) (uuid_string i),
    distinct j i,
    nat_beq_iff j i,
    ap uuid_string,
  )

  receipt_key-eq :
      (i j : ℕ) (d c : Text)
      → (i ≢ j) ⊎ (d ≢ c)
      → text_beq (receipt_key uuid_string i d) (receipt_key uuid_string j c) ≡ false
  receipt_key-eq i j d c h =
      elim (Bool-cases (receipt_key uuid_string i d == receipt_key uuid_string j c)) [
        | inl y ↦
            (let (a, b) =
                receipt_key-injective i j d c (
                  (text_beq_iff (receipt_key uuid_string i d) (receipt_key uuid_string j c)).0 y) in
              absurd (elim h [ inl x ↦ x a | inr x ↦ x b ]))
        | inr n ↦ n
      ]

  mark_delivered-after :
      (now id : ℕ) (did : Text) (s : MemoryStore) {m : StoredMessage}
      → s.closed ≡ false
      → get id s.messages ≡ some m
      → mark_delivered uuid_string now id did s
        ≡ (record s { receipts = with_delivery uuid_string now id did s.receipts }, none)
  unfolding mark_delivered
  mark_delivered-after now id did s open_ there =
      passes_guard s.closed (get id s.messages) _ _
        (λ m. (record s { receipts = with_delivery uuid_string now id did s.receipts }, none)) open_
        there

  mark_read-after :
      (now id : ℕ) (did : Text) (s : MemoryStore) {m : StoredMessage}
      → s.closed ≡ false
      → get id s.messages ≡ some m
      → mark_read uuid_string now id did s
        ≡ (record s { receipts = with_reading uuid_string now id did s.receipts }, none)
  unfolding mark_read
  mark_read-after now id did s open_ there =
      passes_guard s.closed (get id s.messages) _ _
        (λ m. (record s { receipts = with_reading uuid_string now id did s.receipts }, none)) open_
        there

  get_receipt-open :
      (id : ℕ) (did : Text) (s : MemoryStore)
      → s.closed ≡ false
      → get_receipt uuid_string id did s ≡ elim (get (receipt_key uuid_string id did) s.receipts) [
        | none ↦ err receipt_not_found
        | some r ↦ ok r
      ]
  unfolding get_receipt
  get_receipt-open id did s open_ = if_false s.closed _ _ open_

  get_message-stored :
      (id : ℕ) (s : MemoryStore) {m : StoredMessage}
      → get_message id s ≡ ok m
      → (s.closed ≡ false) × (get id s.messages ≡ some m)
  unfolding get_message
  get_message-stored id s h = ground arith

  get_receipt-put :
      (i j : ℕ) (d c : Text) (r : MessageReceipt) (s : MemoryStore)
      → s.closed ≡ false
      → get_receipt uuid_string j c
          (record s { receipts = put (receipt_key uuid_string i d) r s.receipts })
        ≡ (if receipt_key uuid_string i d == receipt_key uuid_string j c
            then ok r
            else get_receipt uuid_string j c s)
  get_receipt-put i j d c r s open_ = ground (
    arith,
    get_receipt-open j c (record s { receipts = put (receipt_key uuid_string i d) r s.receipts })
        open_,
    get_receipt-open j c s open_,
    get-put (receipt_key uuid_string i d) (receipt_key uuid_string j c) r s.receipts,
  )

  get_receipt-put_self :
      (i : ℕ) (d : Text) (r : MessageReceipt) (s : MemoryStore)
      → s.closed ≡ false
      → get_receipt uuid_string i d
          (record s { receipts = put (receipt_key uuid_string i d) r s.receipts })
        ≡ ok r
  get_receipt-put_self i d r s open_ = ground (
    arith,
    get_receipt-put i i d d r s open_,
    text_beq_iff (receipt_key uuid_string i d) (receipt_key uuid_string i d),
  )

  get_receipt-put_other :
      (i j : ℕ) (d c : Text) (r : MessageReceipt) (s : MemoryStore)
      → s.closed ≡ false
      → (i ≢ j) ⊎ (d ≢ c)
      → get_receipt uuid_string j c
          (record s { receipts = put (receipt_key uuid_string i d) r s.receipts })
        ≡ get_receipt uuid_string j c s
  get_receipt-put_other i j d c r s open_ h =
      get_receipt-put i j d c r s open_ ∙ if_false _ _ _ (receipt_key-eq i j d c h)

  get_receipt-stored :
      (id : ℕ) (did : Text) (s : MemoryStore) {r : MessageReceipt}
      → get_receipt uuid_string id did s ≡ ok r
      → get (receipt_key uuid_string id did) s.receipts ≡ some r
  unfolding get_receipt
  get_receipt-stored id did s h = ground arith

  -- Marking a stored message as delivered leaves a receipt of the message for the recipient that says
  -- delivered; a receipt that said so already stays as it is, with the time of the first delivery, the
  -- time of reading stays, and every other receipt stays.
  pub mark_delivered_lem :
      (now id : ℕ) (did : Text) (s : MemoryStore) (m : StoredMessage)
      → get_message id s ≡ ok m
      → let t = (mark_delivered uuid_string now id did s).0 in
        ((r : MessageReceipt) × (get_receipt uuid_string id did t ≡ ok r)
          × (is_delivered r ≡ true)
          × ((old : MessageReceipt)
              → get_receipt uuid_string id did s ≡ ok old
              → (r.read_at ≡ old.read_at) × (is_delivered old ≡ true → r ≡ old)))
        × ((j : ℕ) (c : Text)
            → (id ≢ j) ⊎ (did ≢ c)
            → get_receipt uuid_string j c t ≡ get_receipt uuid_string j c s)
  unfolding is_delivered with_delivery
  mark_delivered_lem now id did s m h =
      let (open_, there) = get_message-stored id s h in
      let o = get (receipt_key uuid_string id did) s.receipts in
      let r = delivered now id did o in
      rw (mark_delivered-after now id did s open_ there) (
        (
          r,
          get_receipt-put_self id did r s open_,
          delivered-is_set now id did o,
          λ old g. delivered-old now id did o old (get_receipt-stored id did s g),
        ),
        λ j c ne. get_receipt-put_other id j did c r s open_ ne,
      )

  -- Marking a stored message as read leaves a receipt of the message for the recipient that says
  -- delivered, and read at that time; the time of an earlier delivery stays, and every other receipt
  -- stays.
  pub mark_read_lem :
      (now id : ℕ) (did : Text) (s : MemoryStore) (m : StoredMessage)
      → get_message id s ≡ ok m
      → let t = (mark_read uuid_string now id did s).0 in
        ((r : MessageReceipt) × (get_receipt uuid_string id did t ≡ ok r)
          × (is_delivered r ≡ true)
          × (r.read_at ≡ some now)
          × ((old : MessageReceipt)
              → get_receipt uuid_string id did s ≡ ok old
              → is_delivered old ≡ true
              → r.delivered_at ≡ old.delivered_at))
        × ((j : ℕ) (c : Text)
            → (id ≢ j) ⊎ (did ≢ c)
            → get_receipt uuid_string j c t ≡ get_receipt uuid_string j c s)
  unfolding is_delivered with_reading
  mark_read_lem now id did s m h =
      let (open_, there) = get_message-stored id s h in
      let o = get (receipt_key uuid_string id did) s.receipts in
      let r = read_receipt now id did o in
      rw (mark_read-after now id did s open_ there) (
        (
          r,
          get_receipt-put_self id did r s open_,
          (read-is_set now id did o).0,
          (read-is_set now id did o).1,
          λ old g. read-old now id did o old (get_receipt-stored id did s g),
        ),
        λ j c ne. get_receipt-put_other id j did c r s open_ ne,
      )

  -- Deleting a stored message deletes its receipts, for every recipient, and no receipt of another
  -- message.
  pub delete_message-receipts :
      (id : ℕ) (s : MemoryStore) (m : StoredMessage)
      → get_message id s ≡ ok m
      → let t = (delete_message uuid_string id s).0 in
        (get_message id t ≡ err message_not_found)
        × ((did : Text) → get_receipt uuid_string id did t ≡ err receipt_not_found)
        × ((j : ℕ) (did : Text)
            → j ≢ id
            → get_receipt uuid_string j did t ≡ get_receipt uuid_string j did s)
  unfolding delete_message without_message delete_receipts get_message
  delete_message-receipts id s m h =
      let (open_, there) = get_message-stored id s h in
      let after : delete_message uuid_string id s ≡ (without_message uuid_string id m s, none) =
        passes_guard s.closed (get id s.messages) _ _
          (λ m. (without_message uuid_string id m s, none)) open_ there in
      let kept : (j : ℕ) (did : Text)
          → get (receipt_key uuid_string j did) (delete_receipts uuid_string id s.receipts)
            ≡ (if j == id then none else get (receipt_key uuid_string j did) s.receipts) =
        λ j did. ground (
          arith,
          get-keep (λ k. not (is_receipt_of uuid_string id k)) (receipt_key uuid_string j did)
              s.receipts,
          is_receipt_of-receipt_key id j did,
        ) in
      rw after (
        if_false s.closed _ _ open_
            ∙ ap (λ o. elim o [ none ↦ err message_not_found | some n ↦ ok n ])
                (get-delete_self id s.messages),
        λ did. ground (
          arith,
          get_receipt-open id did (without_message uuid_string id m s) open_,
          kept id did,
          nat_beq_iff id id,
        ),
        λ j did ne. ground (
          arith,
          get_receipt-open j did (without_message uuid_string id m s) open_,
          get_receipt-open j did s open_,
          kept j did,
          nat_beq_iff j id,
        ),
      )
