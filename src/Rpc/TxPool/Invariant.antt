-- ===== src/Rpc/TxPool/Invariant.antt =====
-- What always holds of the bridge's maps and its eviction queue.
use monad_services.Prelude.{
  ℕ, ◌+◌, ◌-◌, ◌≡◌, ◌≢◌, refl, sym, inl, inr, true, false, some, List, [], ◌∷◌, ◌++◌, contains,
  set_remove, ◌==◌, leb, ◌||◌, Bool-cases, Option-cases, arith, All,
}
use monad_services.Prelude.Map
use monad_services.Prelude.Map.{
  lookup, remove, contains_key, lookup-insert, lookup-remove, lookup-remove-some, keys,
  lookup-append, contains_key-insert, contains_key-remove, contains_key_of_lookup,
  lookup_of_contains_key, contains_key-append_one, contains-keys,
}
use monad_services.Rpc.TxPool.Addresses.{
  Grouped, forget_address-Grouped, record_address-Grouped, hashes_at-retain_non_empty,
  retain_non_empty-Distinct,
}
use monad_services.Rpc.TxPool.{
  Bridge, Sender, TxStatus, Action, EthTxPoolEvent, channel, add_tx, forget_address,
  retain_snapshot, insert_snapshot, apply_snapshot, insert_status, record_address, handle_action,
  handle_events, drop_tx, pop_expired, cleanup, tx_evict_duration,
}

abbrev pub queue_hashes : List (ℕ × ℕ) → List ℕ
queue_hashes [] = []
queue_hashes ((at, hash) ∷ queue) = hash ∷ queue_hashes queue

contains-queue_hashes :
    (h t x : ℕ) (q : List (ℕ × ℕ))
    → contains h (queue_hashes (q ++ ((t, x) ∷ []))) ≡ (contains h (queue_hashes q) || (h == x))
contains-queue_hashes h t x [] = ground arith
contains-queue_hashes h t x ((u, y) ∷ q) = ground (arith, contains-queue_hashes h t x q)

-- With `queue` for the eviction queue, and `pending` for the transactions whose status a loop has
-- set aside.
pub record Valid (sender : ℕ → ℕ) (pending : List ℕ) (queue : List (ℕ × ℕ)) (b : Bridge)
    : Type 0 where
  -- A transaction with a status is going to be evicted.
  pub queued : (h : ℕ) → contains_key h b.status ≡ true → contains h (queue_hashes queue) ≡ true
  -- A transaction with an address has a status.
  pub known :
      (h a : ℕ)
      → lookup h b.hash_address ≡ some a
      → (contains_key h b.status || contains h pending) ≡ true
  pub addresses : Grouped sender b.hash_address b.address_hashes

abbrev pub IsValid : (ℕ → ℕ) → Bridge → Type 0
IsValid sender b = Valid sender [] b.eviction_queue b

module _ (sender : ℕ → ℕ) where
  -- A new status goes to the back of the queue.
  track-Valid :
      (pending : List ℕ) (q : List (ℕ × ℕ)) (b : Bridge) (h t : ℕ) (s : Sender)
      → Valid sender pending q b
      → Valid sender pending
          (q ++ ((t, h) ∷ []))
          (record b { status = Map.insert h s b.status; eviction_queue = q ++ ((t, h) ∷ []) })
  track-Valid pending q b h t s v = record {
    queued = λ k e.
        ground
          (arith, v.queued k, contains_key-insert h k s b.status, contains-queue_hashes k t h q);
    known = λ k a e. let i = v.known k a e in ground (arith, i, contains_key-insert h k s b.status);
    addresses = v.addresses;
  }

  pub add_tx-IsValid :
      (b : Bridge) (now h : ℕ) → IsValid sender b → IsValid sender (add_tx b now h).0
  unfolding add_tx
  add_tx-IsValid b now h v = elim (Option-cases (lookup h b.status)) [
    | inl missing ↦
        rw (missing, add_tx) (track-Valid [] b.eviction_queue b h now (channel TxStatus.unknown) v)
    | inr (s, found) ↦ rw (found, add_tx) v
  ]

  insert_status-IsValid :
      (now h : ℕ) (st : TxStatus) (b : Bridge)
      → IsValid sender b
      → IsValid sender (insert_status now h st b)
        × (contains_key h (insert_status now h st b).status ≡ true)
  unfolding insert_status
  insert_status-IsValid now h st b v = elim (Option-cases (lookup h b.status)) [
    | inl missing ↦
        rw (missing, insert_status)
          (
            track-Valid [] b.eviction_queue b h now (channel st) v,
            ground (arith, contains_key-insert h h (channel st) b.status),
          )
    | inr (s, found) ↦
        let s' : Sender = record { value = st; version = s.version + 1 } in
        rw (found, insert_status)
          (
            record {
              queued = λ k e. ground (
                arith,
                v.queued k,
                v.queued h,
                contains_key_of_lookup h s b.status found,
                contains_key-insert h k s' b.status,
              );
              known = λ k a e.
                  let i = v.known k a e in ground (arith, i, contains_key-insert h k s' b.status);
              addresses = v.addresses;
            },
            ground (arith, contains_key-insert h h s' b.status),
          )
  ]

  record_address-IsValid :
      (h : ℕ) (b : Bridge)
      → IsValid sender b
      → contains_key h b.status ≡ true
      → IsValid sender (record_address h (sender h) b)
  unfolding record_address
  record_address-IsValid h b v has = record {
    queued = v.queued;
    known = λ k a e. ground (arith, v.known k a, has, lookup-insert h k (sender h) b.hash_address);
    addresses = record_address-Grouped sender b v.addresses h;
  }

  -- An insertion reports the transaction's sender.
  abbrev pub Reports : EthTxPoolEvent → Type 0
  Reports e = elim e.action [ Action.insert address ↦ address ≡ sender e.tx_hash | _ ↦ Unit ]

  handle_action-IsValid :
      (now h : ℕ) (action : Action) (b : Bridge)
      → IsValid sender b
      → Reports (record { tx_hash = h; action = action })
      → IsValid sender (handle_action now h action b)
  unfolding handle_action
  handle_action-IsValid now h (Action.insert a) b v r =
      let (i, has) = insert_status-IsValid now h TxStatus.tracked b v in
      rw r (record_address-IsValid h (insert_status now h TxStatus.tracked b) i has)
  handle_action-IsValid now h Action.commit b v r =
      (insert_status-IsValid now h TxStatus.committed b v).0
  handle_action-IsValid now h (Action.drop x) b v r =
      (insert_status-IsValid now h (TxStatus.dropped x) b v).0
  handle_action-IsValid now h (Action.evict x) b v r =
      (insert_status-IsValid now h (TxStatus.evicted x) b v).0

  pub handle_events-IsValid :
      (es : List EthTxPoolEvent) (b : Bridge) (now : ℕ)
      → IsValid sender b
      → All Reports es
      → IsValid sender (handle_events b now es)
  unfolding handle_events
  handle_events-IsValid [] b now v r = v
  handle_events-IsValid (e ∷ es) b now v r =
      handle_events-IsValid es (handle_action now e.tx_hash e.action b) now
        (handle_action-IsValid now e.tx_hash e.action b v r.0) r.1

  -- One transaction leaves: it has no status and no address any more.
  forget-Valid :
      (h : ℕ) (pending : List ℕ) (q : List (ℕ × ℕ)) (b : Bridge)
      → ((k : ℕ) → contains_key k b.status ≡ true → contains k (queue_hashes q) ≡ true)
      → ((k a : ℕ)
          → lookup k b.hash_address ≡ some a
          → (k ≢ h)
          → (contains_key k b.status || contains k pending) ≡ true)
      → Grouped sender b.hash_address b.address_hashes
      → Valid sender pending q (forget_address h b)
  unfolding forget_address
  forget-Valid h pending q b vq vk g = elim (Option-cases (lookup h b.hash_address)) [
    | inl missing ↦
        rw (missing, forget_address)
          (record {
            queued = vq;
            known = λ k a e. vk k a e (λ same. ground (arith, same, missing));
            addresses = g;
          })
    | inr (c, found) ↦
        let g' = forget_address-Grouped sender b g h in
        rw (found, forget_address)
          (record {
            queued = vq;
            known = λ k a e.
                let (apart, old) = lookup-remove-some h k a _ e in
                vk k a old (λ same. apart (sym same));
            addresses = rw (found, forget_address) at g';
          })
  ]

  forget_address-queue :
      (h : ℕ) (b : Bridge) → (forget_address h b).eviction_queue ≡ b.eviction_queue
  unfolding forget_address
  forget_address-queue h b = ground arith

  -- The two ways of a visited entry.
  removed-Valid :
      (h : ℕ) (s : Sender) (entries : List (ℕ × Sender)) (b : Bridge)
      → Valid sender (keys ((h, s) ∷ entries)) b.eviction_queue b
      → Valid sender (keys entries) (forget_address h b).eviction_queue (forget_address h b)
  removed-Valid h s entries b v = simp (forget_address-queue h b) (
      forget-Valid h (keys entries) b.eviction_queue b v.queued
        (λ k a e apart. let i = v.known k a e in ground (arith, i, apart)) v.addresses)

  kept-Valid :
      (now h : ℕ) (s s' : Sender) (entries : List (ℕ × Sender)) (b : Bridge)
      → Valid sender (keys ((h, s) ∷ entries)) b.eviction_queue b
      → Valid sender (keys entries) (b.eviction_queue ++ ((now, h) ∷ [])) (record b {
        status = b.status ++ ((h, s') ∷ []);
        eviction_queue = b.eviction_queue ++ ((now, h) ∷ []);
      })
  kept-Valid now h s s' entries b v = record {
    queued = λ k e. ground (
      arith,
      v.queued k,
      contains_key-append_one k h s' b.status,
      contains-queue_hashes k now h b.eviction_queue,
    );
    known = λ k a e.
        let i = v.known k a e in ground (arith, i, contains_key-append_one k h s' b.status);
    addresses = v.addresses;
  }

  retain_snapshot-Valid :
      (now : ℕ) (entries : List (ℕ × Sender)) (txs : List ℕ) (b : Bridge)
      → Valid sender (keys entries) b.eviction_queue b
      → IsValid sender (retain_snapshot now entries txs b).0
  unfolding retain_snapshot
  retain_snapshot-Valid now [] txs b v = v
  retain_snapshot-Valid now ((h, s) ∷ entries) txs b v = elim (Bool-cases (contains h txs)) [
    | inl listed ↦
        rw listed (
          retain_snapshot-Valid now entries (set_remove h txs) _ (kept-Valid now h s _ entries b v))
    | inr gone ↦
        rw gone (
          retain_snapshot-Valid now entries txs (forget_address h b)
            (removed-Valid h s entries b v))
  ]

  insert_snapshot-IsValid :
      (now : ℕ) (txs : List ℕ) (b : Bridge)
      → IsValid sender b
      → IsValid sender (insert_snapshot now txs b)
  unfolding insert_snapshot
  insert_snapshot-IsValid now [] b v = v
  insert_snapshot-IsValid now (h ∷ txs) b v =
      insert_snapshot-IsValid now txs _
        (track-Valid [] b.eviction_queue b h now (channel TxStatus.tracked) v)

  pub apply_snapshot-IsValid :
      (b : Bridge) (now : ℕ) (txs : List ℕ)
      → IsValid sender b
      → IsValid sender (apply_snapshot b now txs)
  unfolding apply_snapshot
  apply_snapshot-IsValid b now txs v =
      insert_snapshot-IsValid now (retain_snapshot now b.status txs started).1 _ (
        retain_snapshot-Valid now b.status txs started (record {
          queued = λ k e. absurd (ground (arith, contains_key-empty k));
          known = λ k a e.
              let i = v.known k a e in
              ground (arith, i, contains_key-empty k, contains-keys k b.status);
          addresses = v.addresses;
        }))
    where
      started : Bridge
      started = record b { status = []; eviction_queue = [] }

      contains_key-empty : (k : ℕ) → contains_key {V = Sender} k [] ≡ false
      contains_key-empty k = unfold contains_key lookup in refl

  drop_tx-Valid :
      (h t : ℕ) (q : List (ℕ × ℕ)) (b : Bridge)
      → Valid sender [] ((t, h) ∷ q) b
      → Valid sender [] q (drop_tx h b)
  unfolding drop_tx
  drop_tx-Valid h t q b v = elim (Option-cases (lookup h b.status)) [
    | inl missing ↦
        rw (missing, drop_tx)
          (record {
            queued = λ k e.
                let i = v.queued k e in
                let (s, has) = lookup_of_contains_key k b.status e in
                ground (arith, i, has, missing);
            known = v.known;
            addresses = v.addresses;
          })
    | inr (s, found) ↦
        rw (found, drop_tx)
          (forget-Valid h [] q (record b { status = remove h b.status })
            (λ k e. ground (arith, v.queued k, contains_key-remove h k b.status))
            (λ k a e apart.
              let i = v.known k a e in ground (arith, i, apart, contains_key-remove h k b.status))
            v.addresses)
  ]

  pop_expired-IsValid :
      (now : ℕ) (q : List (ℕ × ℕ)) (b : Bridge)
      → Valid sender [] q b
      → IsValid sender (pop_expired now q b)
  unfolding pop_expired
  pop_expired-IsValid now [] b v = record {
    queued = v.queued;
    known = v.known;
    addresses = v.addresses;
  }
  pop_expired-IsValid now ((t, h) ∷ q) b v = elim (Bool-cases (leb tx_evict_duration (now - t))) [
    | inl old ↦ rw old (pop_expired-IsValid now q (drop_tx h b) (drop_tx-Valid h t q b v))
    | inr young ↦ rw young (record { queued = v.queued; known = v.known; addresses = v.addresses })
  ]

  pub cleanup-IsValid : (b : Bridge) (now : ℕ) → IsValid sender b → IsValid sender (cleanup b now)
  unfolding cleanup
  cleanup-IsValid b now v =
      let p = pop_expired-IsValid now b.eviction_queue b v in
      let g = p.addresses in
      let same = λ (a : ℕ). hashes_at-retain_non_empty a _ g.distinct in
      record {
        queued = p.queued;
        known = p.known;
        addresses = record {
          sent = g.sent;
          grouped = λ h a e. rw (same a) (g.grouped h a e);
          ungrouped = λ h a e. g.ungrouped h a (rw (same a) at e);
          distinct = retain_non_empty-Distinct _ g.distinct;
        };
      }
