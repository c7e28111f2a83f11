-- ===== src/Rpc/TxPool/Statuses.antt =====
-- What readers see of a transaction after each operation.
use monad_services.Prelude.{
  ℕ, ◌+◌, ◌≡◌, refl, ◌∙◌, inl, inr, true, not, Option, none, some, List, [], ◌∷◌, ◌++◌, contains,
  set_remove, contains-set_remove, if◌then◌else◌, ◌==◌, ◌&&◌, Bool-cases, Option-cases, arith, All,
  ◌>>=?◌, map, ◌⊎◌, ap, sym, subst, some-inj,
}
use monad_services.Prelude.Map
use monad_services.Prelude.Map.{
  lookup, lookup-insert, lookup-append, keys, contains_key, lookup_of_contains_key,
}
use monad_services.Rpc.TxPool.{
  Bridge, Sender, TxStatus, Action, EthTxPoolEvent, channel, add_tx, forget_address,
  retain_snapshot, insert_snapshot, apply_snapshot, insert_status, record_address, handle_action,
  handle_events, get_status_by_hash, get_status_by_address, statuses_of, is_known, hashes_at,
}
use monad_services.Rpc.TxPool.Invariant.{IsValid}

abbrev value_in : ℕ → List (ℕ × Sender) → Option TxStatus
value_in h m = lookup h m >>=? λ s. some s.value

value_in-insert :
    (k h : ℕ) (s : Sender) (m : List (ℕ × Sender))
    → value_in h (Map.insert k s m) ≡ (if k == h then some s.value else value_in h m)
value_in-insert k h s m = ground (arith, lookup-insert k h s m)

insert_snapshot-status :
    (now h : ℕ) (txs : List ℕ) (b : Bridge)
    → value_in h (insert_snapshot now txs b).status
      ≡ (if contains h txs then some TxStatus.tracked else value_in h b.status)
unfolding insert_snapshot
insert_snapshot-status now h [] b = refl
insert_snapshot-status now h (x ∷ txs) b = ground (
  arith,
  insert_snapshot-status now h txs (record b {
    status = Map.insert x (channel TxStatus.tracked) b.status;
    eviction_queue = b.eviction_queue ++ ((now, x) ∷ []);
  }),
  value_in-insert x h (channel TxStatus.tracked) b.status,
)

forget_address-status : (h : ℕ) (b : Bridge) → (forget_address h b).status ≡ b.status
unfolding forget_address
forget_address-status h b = ground arith

value_in-append :
    (h x : ℕ) (s : Sender) (m : List (ℕ × Sender))
    → value_in h (m ++ ((x, s) ∷ []))
      ≡ elim (value_in h m) [ some v ↦ some v | none ↦ if x == h then some s.value else none ]
unfolding lookup
value_in-append h x s m = elim (Option-cases (lookup h m)) [
  | inl missing ↦ ground (arith, missing, lookup-append h m ((x, s) ∷ []))
  | inr (w, found) ↦ ground (arith, found, lookup-append h m ((x, s) ∷ []))
]

-- What the loop keeps, and what it leaves of the snapshot.
retain_snapshot-status :
    (now h : ℕ) (entries : List (ℕ × Sender)) (txs : List ℕ) (b : Bridge)
    → (value_in h (retain_snapshot now entries txs b).0.status ≡ elim (value_in h b.status) [
      | some v ↦ some v
      | none ↦ if contains h txs && contains h (keys entries) then some TxStatus.tracked else none
    ])
      × (contains h (retain_snapshot now entries txs b).1
          ≡ (contains h txs && not (contains h (keys entries))))
unfolding retain_snapshot
retain_snapshot-status now h [] txs b = (ground arith, ground arith)
retain_snapshot-status now h ((x, s) ∷ entries) txs b = elim (Bool-cases (contains x txs)) [
  | inl listed ↦
      let s' : Sender = record s { value = TxStatus.tracked } in
      let b' : Bridge = record b {
        status = b.status ++ ((x, s') ∷ []);
        eviction_queue = b.eviction_queue ++ ((now, x) ∷ []);
      } in
      let ih = retain_snapshot-status now h entries (set_remove x txs) b' in
      rw listed (
        ground (arith, ih.0, listed, value_in-append h x s' b.status, contains-set_remove h x txs),
        ground (arith, ih.1, listed, contains-set_remove h x txs),
      )
  | inr gone ↦
      let ih = retain_snapshot-status now h entries txs (forget_address x b) in
      let same = forget_address-status x b in
      rw gone (ground (arith, ih.0, gone, same), ground (arith, ih.1, gone))
]

value_in-empty : (h : ℕ) → value_in h [] ≡ none
unfolding lookup
value_in-empty h = refl

-- After a snapshot exactly its transactions have a status, and each is tracked, whatever was known
-- before.
pub get_status_by_hash-apply_snapshot :
    (b : Bridge) (now : ℕ) (txs : List ℕ) (h : ℕ)
    → get_status_by_hash (apply_snapshot b now txs) h
      ≡ (if contains h txs then some TxStatus.tracked else none)
unfolding get_status_by_hash apply_snapshot
get_status_by_hash-apply_snapshot b now txs h =
    let started : Bridge = record b { status = []; eviction_queue = [] } in
    let (kept, left) = retain_snapshot-status now h b.status txs started in
    let inserted =
      insert_snapshot-status now h (retain_snapshot now b.status txs started).1
        (retain_snapshot now b.status txs started).0 in
    inserted ∙ ground (arith, kept, left, value_in-empty h)

-- The status that an event gives its transaction.
abbrev pub status_of : Action → TxStatus
status_of (Action.insert address) = TxStatus.tracked
status_of Action.commit = TxStatus.committed
status_of (Action.drop reason) = TxStatus.dropped reason
status_of (Action.evict reason) = TxStatus.evicted reason

-- That of the last event about the transaction.
abbrev pub last_status : ℕ → List EthTxPoolEvent → Option TxStatus
last_status h [] = none
last_status h (e ∷ es) = elim (last_status h es) [
  | some s ↦ some s
  | none ↦ if e.tx_hash == h then some (status_of e.action) else none
]

insert_status-status :
    (now x : ℕ) (s : TxStatus) (b : Bridge) (h : ℕ)
    → value_in h (insert_status now x s b).status ≡ (if x == h then some s else value_in h b.status)
unfolding insert_status
insert_status-status now x s b h = elim (Option-cases (lookup x b.status)) [
  | inl missing ↦ rw (missing, insert_status) (value_in-insert x h (channel s) b.status)
  | inr (w, found) ↦
      rw (found, insert_status)
        (value_in-insert x h (record { value = s; version = w.version + 1 }) b.status)
]

handle_action-status :
    (now x : ℕ) (a : Action) (b : Bridge) (h : ℕ)
    → value_in h (handle_action now x a b).status
      ≡ (if x == h then some (status_of a) else value_in h b.status)
unfolding handle_action record_address
handle_action-status now x (Action.insert c) b h = insert_status-status now x TxStatus.tracked b h
handle_action-status now x Action.commit b h = insert_status-status now x _ b h
handle_action-status now x (Action.drop r) b h = insert_status-status now x _ b h
handle_action-status now x (Action.evict r) b h = insert_status-status now x _ b h

-- After a batch of events a transaction has the status of the last event about it, and any other
-- transaction the status it had.
pub get_status_by_hash-handle_events :
    (es : List EthTxPoolEvent) (b : Bridge) (now h : ℕ)
    → get_status_by_hash (handle_events b now es) h
      ≡ elim (last_status h es) [ some s ↦ some s | none ↦ get_status_by_hash b h ]
unfolding get_status_by_hash handle_events
get_status_by_hash-handle_events [] b now h = refl
get_status_by_hash-handle_events (e ∷ es) b now h = ground (
  arith,
  get_status_by_hash-handle_events es (handle_action now e.tx_hash e.action b) now h,
  handle_action-status now e.tx_hash e.action b h,
)

not-is_known :
    (s : TxStatus)
    → (not (is_known s) ≡ true → s ≡ TxStatus.unknown)
      × (s ≡ TxStatus.unknown → not (is_known s) ≡ true)
not-is_known TxStatus.unknown = (λ e. refl, λ e. refl)
not-is_known TxStatus.tracked = (λ e. absurd cc, λ e. absurd cc)
not-is_known TxStatus.committed = (λ e. absurd cc, λ e. absurd cc)
not-is_known (TxStatus.dropped r) = (λ e. absurd cc, λ e. absurd cc)
not-is_known (TxStatus.evicted r) = (λ e. absurd cc, λ e. absurd cc)

-- `add_tx` forwards a transaction exactly when it has no status or the status "unknown"; a transaction
-- without a status becomes unknown, and no other status changes.
pub get_status_by_hash-add_tx :
    (b : Bridge) (now x h : ℕ)
    → (get_status_by_hash (add_tx b now x).0 h ≡ elim (get_status_by_hash b h) [
      | some s ↦ some s
      | none ↦ if x == h then some TxStatus.unknown else none
    ])
      × ((add_tx b now x).2 ≡ true
          → (get_status_by_hash b x ≡ none) ⊎ (get_status_by_hash b x ≡ some TxStatus.unknown))
      × ((get_status_by_hash b x ≡ none) ⊎ (get_status_by_hash b x ≡ some TxStatus.unknown)
          → (add_tx b now x).2 ≡ true)
unfolding get_status_by_hash add_tx
get_status_by_hash-add_tx b now x h = elim (Option-cases (lookup x b.status)) [
  | inl missing ↦ (
    ground (arith, missing, lookup-insert x h (channel TxStatus.unknown) b.status),
    λ e. inl (ground (arith, missing)),
    λ e. ground (arith, missing),
  )
  | inr (w, found) ↦
      let forwards : (add_tx b now x).2 ≡ not (is_known w.value) = ground (arith, found) in
      let status : get_status_by_hash b x ≡ some w.value = ground (arith, found) in
      let (to, from) = not-is_known w.value in
      (
        ground (arith, found),
        λ e. inr (status ∙ ap some (to (sym forwards ∙ e))),
        λ e.
            forwards
            ∙ from
                (unknown w.value (subst (λ o. (o ≡ none) ⊎ (o ≡ some TxStatus.unknown)) status e)),
      )
]
  where
    unknown :
        (s : TxStatus) → (some s ≡ none) ⊎ (some s ≡ some TxStatus.unknown) → s ≡ TxStatus.unknown
    unknown s (inl e) = absurd cc
    unknown s (inr e) = some-inj e

statuses_of_complete :
    (b : Bridge) (hs : List ℕ)
    → All (λ h. contains_key h b.status ≡ true) hs
    → map (λ e. e.0) (statuses_of b hs) ≡ hs
unfolding statuses_of get_status_by_hash
statuses_of_complete b [] a = refl
statuses_of_complete b (h ∷ hs) a =
    let (s, found) = lookup_of_contains_key h b.status a.0 in
    let ih = statuses_of_complete b hs a.1 in ground (arith, found, ih)

-- In a valid bridge an address whose set is kept is answered with a status for each transaction of
-- the set, in order: none is left out.
pub get_status_by_address_complete :
    (sender : ℕ → ℕ) (b : Bridge) (a : ℕ) (hs : List ℕ)
    → IsValid sender b
    → lookup a b.address_hashes ≡ some hs
    → (found : List (ℕ × TxStatus)) × (get_status_by_address b a ≡ some found)
      × (map (λ e. e.0) found ≡ hs)
unfolding get_status_by_address
get_status_by_address_complete sender b a hs v e =
    (statuses_of b hs, rw e, statuses_of_complete b hs (all hs (λ h c. c)))
  where
    known : (h : ℕ) → contains h hs ≡ true → contains_key h b.status ≡ true
    known h c =
        let at : contains h (hashes_at a b.address_hashes) ≡ true = ground (arith, e, c) in
        let i = v.known h a (v.addresses.ungrouped h a at) in ground (arith, i)

    all :
        (xs : List ℕ)
        → ((h : ℕ) → contains h xs ≡ true → contains h hs ≡ true)
        → All (λ h. contains_key h b.status ≡ true) xs
    all [] sub = tt
    all (x ∷ xs) sub = (known x (sub x (ground arith)), all xs (λ h c. sub h (ground (arith, c))))
