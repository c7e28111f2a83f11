-- ===== src/Rpc/TxPool/Eviction.antt =====
-- How long a transaction is kept, over every sequence of operations.
use monad_services.Prelude.{
  ℕ, ◌-◌, ◌≤◌, ◌<◌, ◌≡◌, refl, sym, subst, ◌⊎◌, inl, inr, true, false, List, [], ◌∷◌, ◌++◌,
  contains, leb, Bool-cases, Option-cases, ==-cases, arith, All, All-append,
}
use monad_services.Prelude.Map.{lookup, contains_key}
use monad_services.Rpc.TxPool.{
  Bridge, Sender, TxStatus, Action, EthTxPoolEvent, empty, new, add_tx, forget_address,
  retain_snapshot, insert_snapshot, apply_snapshot, insert_status, record_address, handle_action,
  handle_events, drop_tx, pop_expired, cleanup, tx_evict_duration,
}
use monad_services.Rpc.TxPool.Invariant.{
  IsValid, Reports, queue_hashes, add_tx-IsValid, handle_events-IsValid, apply_snapshot-IsValid,
  cleanup-IsValid,
}

-- What the RPC server does to the bridge, with the time of each.
pub data Op : Type 0 where
  add : ℕ → Op
  snapshot : List ℕ → Op
  events : List EthTxPoolEvent → Op
  clean : Op

unfoldable pub apply : Bridge → ℕ → Op → Bridge
unfolding add_tx apply_snapshot handle_events cleanup
apply b now (Op.add hash) = (add_tx b now hash).0
apply b now (Op.snapshot txs) = apply_snapshot b now txs
apply b now (Op.events es) = handle_events b now es
apply b now Op.clean = cleanup b now

unfoldable pub run : List (ℕ × Op) → Bridge → Bridge
unfolding apply
run [] b = b
run ((now, op) ∷ ops) b = run ops (apply b now op)

-- The clock does not run backwards.
abbrev pub Ordered : ℕ → List (ℕ × Op) → Type 0
Ordered clock [] = Unit
Ordered clock ((now, op) ∷ ops) = (clock ≤ now) × Ordered now ops

abbrev pub AllReport : (ℕ → ℕ) → List (ℕ × Op) → Type 0
AllReport sender [] = Unit
AllReport sender ((now, Op.events es) ∷ ops) = All (Reports sender) es × AllReport sender ops
AllReport sender ((now, Op.add hash) ∷ ops) = AllReport sender ops
AllReport sender ((now, Op.snapshot txs) ∷ ops) = AllReport sender ops
AllReport sender ((now, Op.clean) ∷ ops) = AllReport sender ops

-- The queue's times do not fall, and none is past `clock`.
abbrev pub Timed : ℕ → List (ℕ × ℕ) → Type 0
Timed clock [] = Unit
Timed clock ((at, hash) ∷ q) = (at ≤ clock) × All (λ e. at ≤ e.0) q × Timed clock q

-- An entry not older than the eviction time.
abbrev pub Fresh : ℕ → ℕ × ℕ → Type 0
Fresh now e = now - e.0 < tx_evict_duration

Timed-later : (c d : ℕ) (q : List (ℕ × ℕ)) → c ≤ d → Timed c q → Timed d q
Timed-later c d [] h t = tt
Timed-later c d ((u, x) ∷ q) h t = (omega arith, t.1, Timed-later c d q h t.2)

All-later :
    (c now x : ℕ) (q : List (ℕ × ℕ))
    → Timed c q
    → c ≤ now
    → (u : ℕ) → u ≤ c
    → All (λ e. u ≤ e.0) q
    → All (λ e. u ≤ e.0) (q ++ ((now, x) ∷ []))
All-later c now x q t h u hu a = All-append (λ e. u ≤ e.0) q ((now, x) ∷ []) a (omega arith, tt)

Timed-push :
    (c now x : ℕ) (q : List (ℕ × ℕ)) → Timed c q → c ≤ now → Timed now (q ++ ((now, x) ∷ []))
Timed-push c now x [] t h = (omega arith, tt, tt)
Timed-push c now x ((u, y) ∷ q) t h =
    (omega arith, All-later c now x q t.2 h u t.0 t.1, Timed-push c now x q t.2 h)

insert_status-Timed :
    (c now h : ℕ) (s : TxStatus) (b : Bridge)
    → c ≤ now
    → Timed c b.eviction_queue
    → Timed now (insert_status now h s b).eviction_queue
unfolding insert_status
insert_status-Timed c now h s b le t = elim (Option-cases (lookup h b.status)) [
  | inl missing ↦ rw (missing, insert_status) (Timed-push c now h b.eviction_queue t le)
  | inr (w, found) ↦ rw (found, insert_status) (Timed-later c now b.eviction_queue le t)
]

handle_action-Timed :
    (c now h : ℕ) (a : Action) (b : Bridge)
    → c ≤ now
    → Timed c b.eviction_queue
    → Timed now (handle_action now h a b).eviction_queue
unfolding handle_action
handle_action-Timed c now h (Action.insert a) b le t =
    unfold record_address in insert_status-Timed c now h TxStatus.tracked b le t
handle_action-Timed c now h Action.commit b le t = insert_status-Timed c now h _ b le t
handle_action-Timed c now h (Action.drop r) b le t = insert_status-Timed c now h _ b le t
handle_action-Timed c now h (Action.evict r) b le t = insert_status-Timed c now h _ b le t

handle_events-Timed :
    (c now : ℕ) (es : List EthTxPoolEvent) (b : Bridge)
    → c ≤ now
    → Timed c b.eviction_queue
    → Timed now (handle_events b now es).eviction_queue
unfolding handle_events
handle_events-Timed c now [] b le t = Timed-later c now b.eviction_queue le t
handle_events-Timed c now (e ∷ es) b le t =
    handle_events-Timed now now es (handle_action now e.tx_hash e.action b) (omega arith)
      (handle_action-Timed c now e.tx_hash e.action b le t)

forget_address-queue : (h : ℕ) (b : Bridge) → (forget_address h b).eviction_queue ≡ b.eviction_queue
unfolding forget_address
forget_address-queue h b = ground arith

retain_snapshot-Timed :
    (now : ℕ) (entries : List (ℕ × Sender)) (txs : List ℕ) (b : Bridge)
    → Timed now b.eviction_queue
    → Timed now (retain_snapshot now entries txs b).0.eviction_queue
unfolding retain_snapshot
retain_snapshot-Timed now [] txs b t = t
retain_snapshot-Timed now ((h, s) ∷ entries) txs b t = elim (Bool-cases (contains h txs)) [
  | inl listed ↦ rw listed (
      retain_snapshot-Timed now entries _ _ (Timed-push now now h b.eviction_queue t (omega arith)))
  | inr gone ↦ rw gone (
      retain_snapshot-Timed now entries txs (forget_address h b)
        (subst (Timed now) (sym (forget_address-queue h b)) t))
]

insert_snapshot-Timed :
    (now : ℕ) (txs : List ℕ) (b : Bridge)
    → Timed now b.eviction_queue
    → Timed now (insert_snapshot now txs b).eviction_queue
unfolding insert_snapshot
insert_snapshot-Timed now [] b t = t
insert_snapshot-Timed now (h ∷ txs) b t =
    insert_snapshot-Timed now txs _ (Timed-push now now h b.eviction_queue t (omega arith))

Fresh-of_younger :
    (now t : ℕ) (q : List (ℕ × ℕ))
    → leb tx_evict_duration (now - t) ≡ false
    → All (λ e. t ≤ e.0) q
    → All (Fresh now) q
Fresh-of_younger now t [] y a = tt
Fresh-of_younger now t (e ∷ q) y a = (ground arith, Fresh-of_younger now t q y a.1)

drop_tx-queue : (h : ℕ) (b : Bridge) → (drop_tx h b).eviction_queue ≡ b.eviction_queue
unfolding drop_tx
drop_tx-queue h b = ground arith

-- The loop leaves a queue that is in order and has no expired entry.
pop_expired-Fresh :
    (c now : ℕ) (q : List (ℕ × ℕ)) (b : Bridge)
    → Timed c q
    → Timed c (pop_expired now q b).eviction_queue
      × All (Fresh now) (pop_expired now q b).eviction_queue
unfolding pop_expired
pop_expired-Fresh c now [] b t = (tt, tt)
pop_expired-Fresh c now ((u, h) ∷ q) b t = elim (Bool-cases (leb tx_evict_duration (now - u))) [
  | inl old ↦ rw old (pop_expired-Fresh c now q (drop_tx h b) t.2)
  | inr young ↦ rw young (t, (ground arith, Fresh-of_younger now u q young t.1))
]

add_tx-Timed :
    (c now h : ℕ) (b : Bridge)
    → c ≤ now
    → Timed c b.eviction_queue
    → Timed now (add_tx b now h).0.eviction_queue
unfolding add_tx
add_tx-Timed c now h b le t = elim (Option-cases (lookup h b.status)) [
  | inl missing ↦ rw (missing, add_tx) (Timed-push c now h b.eviction_queue t le)
  | inr (w, found) ↦ rw (found, add_tx) (Timed-later c now b.eviction_queue le t)
]

step-Timed :
    (c now : ℕ) (op : Op) (b : Bridge)
    → c ≤ now
    → Timed c b.eviction_queue
    → Timed now (apply b now op).eviction_queue
unfolding apply
step-Timed c now (Op.add h) b le t = add_tx-Timed c now h b le t
step-Timed c now (Op.snapshot txs) b le t =
    let started : Bridge = record b { status = []; eviction_queue = [] } in
    let retained = retain_snapshot now b.status txs started in
    unfold apply_snapshot in
    insert_snapshot-Timed now retained.1 retained.0
      (retain_snapshot-Timed now b.status txs started tt)
step-Timed c now (Op.events es) b le t = handle_events-Timed c now es b le t
step-Timed c now Op.clean b le t =
    unfold cleanup in
    (pop_expired-Fresh now now b.eviction_queue b (Timed-later c now b.eviction_queue le t)).0

step-IsValid :
    (sender : ℕ → ℕ) (now : ℕ) (op : Op) (ops : List (ℕ × Op)) (b : Bridge)
    → IsValid sender b
    → AllReport sender ((now, op) ∷ ops)
    → IsValid sender (apply b now op) × AllReport sender ops
unfolding apply
step-IsValid sender now (Op.add h) ops b v r = (add_tx-IsValid sender b now h v, r)
step-IsValid sender now (Op.snapshot txs) ops b v r = (apply_snapshot-IsValid sender b now txs v, r)
step-IsValid sender now (Op.events es) ops b v r =
    (handle_events-IsValid sender es b now v r.0, r.1)
step-IsValid sender now Op.clean ops b v r = (cleanup-IsValid sender b now v, r)

empty-IsValid : (sender : ℕ → ℕ) → IsValid sender empty
unfolding lookup contains_key
empty-IsValid sender = record {
  queued = λ h e. absurd (ground arith);
  known = λ h a e. absurd (ground arith);
  addresses = record {
    sent = λ h a e. absurd (ground arith);
    grouped = λ h a e. absurd (ground arith);
    ungrouped = λ h a e. absurd (ground arith);
    distinct = tt;
  };
}

run-IsValid_from :
    (sender : ℕ → ℕ) (ops : List (ℕ × Op)) (b : Bridge)
    → IsValid sender b
    → AllReport sender ops
    → IsValid sender (run ops b)
unfolding run
run-IsValid_from sender [] b v r = v
run-IsValid_from sender ((now, op) ∷ ops) b v r =
    let (next, rest) = step-IsValid sender now op ops b v r in
    run-IsValid_from sender ops (apply b now op) next rest

-- After any operations on a new bridge, in which insertions report the transactions' senders: every
-- transaction with a status stands in the eviction queue; one with an address has a status, and the
-- address is its sender's; and the set of an address holds exactly the transactions that have it.
pub run-IsValid :
    (sender : ℕ → ℕ) (ops : List (ℕ × Op)) (start : ℕ) (txs : List ℕ)
    → AllReport sender ops
    → IsValid sender (run ops (new start txs))
unfolding new
run-IsValid sender ops start txs r =
    run-IsValid_from sender ops (new start txs)
      (apply_snapshot-IsValid sender empty start txs (empty-IsValid sender)) r

-- `hash` was put into the queue at the time `at`.
abbrev pub QueuedAt : ℕ → ℕ → List (ℕ × ℕ) → Type 0
QueuedAt at hash [] = ⊥
QueuedAt at hash ((u, x) ∷ q) = (u ≡ at) × (x ≡ hash) ⊎ QueuedAt at hash q

QueuedAt-of_contains :
    (now h : ℕ) (q : List (ℕ × ℕ))
    → contains h (queue_hashes q) ≡ true
    → All (Fresh now) q
    → (at : ℕ) × QueuedAt at h q × (now - at < tx_evict_duration)
QueuedAt-of_contains now h [] e f = absurd (ground arith)
QueuedAt-of_contains now h ((u, x) ∷ q) e f = elim (==-cases h x) [
  | inl (p, t) ↦ (u, inl (refl, sym p), f.0)
  | inr (p, t) ↦
      let (at, place, young) = QueuedAt-of_contains now h q (ground arith) f.1 in
      (at, inr place, young)
]

run-Timed :
    (c now : ℕ) (ops : List (ℕ × Op)) (b : Bridge)
    → Timed c b.eviction_queue
    → Ordered c (ops ++ ((now, Op.clean) ∷ []))
    → All (Fresh now) (run (ops ++ ((now, Op.clean) ∷ [])) b).eviction_queue
unfolding run
run-Timed c now [] b t o =
    unfold apply cleanup in
    (pop_expired-Fresh now now b.eviction_queue b (Timed-later c now b.eviction_queue o.0 t)).1
run-Timed c now ((u, op) ∷ ops) b t o =
    run-Timed u now ops (apply b u op) (step-Timed c u op b o.0 t) o.1

-- If the clock does not run backwards and insertions report senders, then right after a clean-up
-- every transaction with a status was queued less than 15 minutes ago.
pub run-Fresh :
    (sender : ℕ → ℕ) (ops : List (ℕ × Op)) (start now : ℕ) (txs : List ℕ) (h : ℕ)
    → AllReport sender (ops ++ ((now, Op.clean) ∷ []))
    → Ordered start (ops ++ ((now, Op.clean) ∷ []))
    → let b = run (ops ++ ((now, Op.clean) ∷ [])) (new start txs) in
      contains_key h b.status ≡ true
      → (at : ℕ) × QueuedAt at h b.eviction_queue × (now - at < tx_evict_duration)
unfolding new apply
run-Fresh sender ops start now txs h r o e =
    let all = ops ++ ((now, Op.clean) ∷ []) in
    let v = run-IsValid sender all start txs r in
    let f =
      run-Timed start now ops (new start txs)
        (step-Timed start start (Op.snapshot txs) empty (omega arith) tt) o in
    QueuedAt-of_contains now h _ (v.queued h e) f
