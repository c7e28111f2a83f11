-- ===== src/Rpc/TxPool.antt =====
-- crates/monad-rpc/src/txpool/state.rs: what the RPC server knows of the transactions in the pool.
-- Hashes and addresses are numbers and an `Instant` is a number of nanoseconds. The eviction queue,
-- which the source passes beside the state, is a field of `Bridge`, its front first. A
-- `watch::Sender` is its value with the number of times that its receivers were notified.
pub mod Addresses
pub mod Invariant
pub mod Eviction
pub mod Statuses
mod Runs
use monad_services.Prelude.{
  ℕ, ◌+◌, ◌-◌, ◌*◌, Bool, true, false, not, Option, none, some, List, [], ◌∷◌, ◌++◌, leb, contains,
  set_insert, set_remove, if◌then◌else◌, ◌>>=?◌,
}
use monad_services.Prelude.Map
use monad_services.Prelude.Map.{lookup, remove}

abbrev pub tx_evict_duration : ℕ
tx_evict_duration = 15 * 60 * 1_000_000_000

-- crates/monad-rpc/src/txpool/types.rs; a reason is a number.
pub data TxStatus : Type 0 where
  unknown tracked committed : TxStatus
  dropped evicted : ℕ → TxStatus

pub record Sender : Type 0 where
  pub value : TxStatus
  pub version : ℕ

-- A subscription, and whether it is marked as changed.
pub record Receiver : Type 0 where
  pub tx_hash : ℕ
  pub changed : Bool

pub record Bridge : Type 0 where
  pub status : List (ℕ × Sender)
  pub hash_address : List (ℕ × ℕ)
  pub address_hashes : List (ℕ × List ℕ)
  pub eviction_queue : List (ℕ × ℕ)

abbrev pub channel : TxStatus → Sender
channel s = record { value = s; version = 0 }

unfoldable pub get_status_by_hash : Bridge → ℕ → Option TxStatus
get_status_by_hash b hash = lookup hash b.status >>=? λ s. some s.value

-- The `flat_map` over the address's hashes, which skips a hash with no status.
unfoldable pub statuses_of : Bridge → List ℕ → List (ℕ × TxStatus)
unfolding get_status_by_hash
statuses_of b [] = []
statuses_of b (hash ∷ hashes) =
    let rest = statuses_of b hashes in
    elim (get_status_by_hash b hash) [ none ↦ rest | some s ↦ (hash, s) ∷ rest ]

unfoldable pub get_status_by_address : Bridge → ℕ → Option (List (ℕ × TxStatus))
unfolding statuses_of
get_status_by_address b address =
    lookup address b.address_hashes >>=? λ hashes. some (statuses_of b hashes)

abbrev pub is_known : TxStatus → Bool
is_known TxStatus.unknown = false
is_known _ = true

-- The new state, the receiver that is sent back, and whether the transaction is to be forwarded.
unfoldable pub add_tx : Bridge → ℕ → ℕ → Bridge × Receiver × Bool
add_tx b now hash = elim (lookup hash b.status) [
  | some s ↦ (b, record { tx_hash = hash; changed = is_known s.value }, not (is_known s.value))
  | none ↦ (
    record b {
      status = Map.insert hash (channel TxStatus.unknown) b.status;
      eviction_queue = b.eviction_queue ++ ((now, hash) ∷ []);
    },
    record { tx_hash = hash; changed = false },
    true,
  )
]

-- `entry(address).and_modify(|hashes| hashes.remove(hash))`, and the `get_mut` of `cleanup`.
unfoldable pub remove_hash : ℕ → ℕ → List (ℕ × List ℕ) → List (ℕ × List ℕ)
remove_hash address hash m = elim (lookup address m) [
  | none ↦ m
  | some hashes ↦ Map.insert address (set_remove hash hashes) m
]

-- A hash leaves `hash_address` and the set of its address.
unfoldable pub forget_address : ℕ → Bridge → Bridge
unfolding remove_hash
forget_address hash b = elim (lookup hash b.hash_address) [
  | none ↦ b
  | some address ↦ record b {
    hash_address = remove hash b.hash_address;
    address_hashes = remove_hash address hash b.address_hashes;
  }
]

-- `status.retain` of `apply_snapshot`, over the entries not yet visited; `status` of the result
-- holds those kept, and beside it stand the transactions of the snapshot that were not met.
unfoldable pub retain_snapshot : ℕ → List (ℕ × Sender) → List ℕ → Bridge → Bridge × List ℕ
unfolding forget_address
retain_snapshot now [] txs b = (b, txs)
retain_snapshot now ((hash, s) ∷ entries) txs b =
    let kept = retain_snapshot now entries (set_remove hash txs) (record b {
      status = b.status ++ ((hash, record s { value = TxStatus.tracked }) ∷ []);
      eviction_queue = b.eviction_queue ++ ((now, hash) ∷ []);
    }) in
    let removed = retain_snapshot now entries txs (forget_address hash b) in
    if contains hash txs then kept else removed

unfoldable pub insert_snapshot : ℕ → List ℕ → Bridge → Bridge
insert_snapshot now [] b = b
insert_snapshot now (hash ∷ txs) b = insert_snapshot now txs (record b {
  status = Map.insert hash (channel TxStatus.tracked) b.status;
  eviction_queue = b.eviction_queue ++ ((now, hash) ∷ []);
})

unfoldable pub apply_snapshot : Bridge → ℕ → List ℕ → Bridge
unfolding retain_snapshot insert_snapshot
apply_snapshot b now txs =
    let (retained, left) =
      retain_snapshot now b.status txs (record b { status = []; eviction_queue = [] }) in
    insert_snapshot now left retained

abbrev pub empty : Bridge
empty = record { status = []; hash_address = []; address_hashes = []; eviction_queue = [] }

unfoldable pub new : ℕ → List ℕ → Bridge
unfolding apply_snapshot
new now txs = apply_snapshot empty now txs

-- `EthTxPoolEventType` of the transaction pool.
pub data Action : Type 0 where
  insert : ℕ → Action
  commit : Action
  drop evict : ℕ → Action

pub record EthTxPoolEvent : Type 0 where
  pub tx_hash : ℕ
  pub action : Action

-- The closure `insert` of `handle_events`.
unfoldable pub insert_status : ℕ → ℕ → TxStatus → Bridge → Bridge
insert_status now hash tx_status b = elim (lookup hash b.status) [
  | some s ↦ record b {
    status = Map.insert hash (record { value = tx_status; version = s.version + 1 }) b.status;
  }
  | none ↦ record b {
    status = Map.insert hash (channel tx_status) b.status;
    eviction_queue = b.eviction_queue ++ ((now, hash) ∷ []);
  }
]

abbrev pub hashes_at : ℕ → List (ℕ × List ℕ) → List ℕ
hashes_at address m = elim (lookup address m) [ none ↦ [] | some hashes ↦ hashes ]

unfoldable pub record_address : ℕ → ℕ → Bridge → Bridge
record_address hash address b = record b {
  hash_address = Map.insert hash address b.hash_address;
  address_hashes =
      Map.insert address (set_insert hash (hashes_at address b.address_hashes)) b.address_hashes;
}

unfoldable pub handle_action : ℕ → ℕ → Action → Bridge → Bridge
unfolding insert_status record_address
handle_action now hash (Action.insert address) b =
    record_address hash address (insert_status now hash TxStatus.tracked b)
handle_action now hash Action.commit b = insert_status now hash TxStatus.committed b
handle_action now hash (Action.drop reason) b = insert_status now hash (TxStatus.dropped reason) b
handle_action now hash (Action.evict reason) b = insert_status now hash (TxStatus.evicted reason) b

unfoldable pub handle_events : Bridge → ℕ → List EthTxPoolEvent → Bridge
unfolding handle_action
handle_events b now [] = b
handle_events b now (e ∷ events) = handle_events (handle_action now e.tx_hash e.action b) now events

unfoldable pub drop_tx : ℕ → Bridge → Bridge
unfolding forget_address
drop_tx hash b = elim (lookup hash b.status) [
  | none ↦ b
  | some _ ↦ forget_address hash (record b { status = remove hash b.status })
]

-- The `while` loop of `cleanup`, over the queue.
unfoldable pub pop_expired : ℕ → List (ℕ × ℕ) → Bridge → Bridge
unfolding drop_tx
pop_expired now [] b = record b { eviction_queue = [] }
pop_expired now ((at, hash) ∷ queue) b =
    let rest = pop_expired now queue (drop_tx hash b) in
    if leb tx_evict_duration (now - at)
    then rest
    else record b { eviction_queue = (at, hash) ∷ queue }

-- `address_hashes.retain(|_, hashes| !hashes.is_empty())`
unfoldable pub retain_non_empty : List (ℕ × List ℕ) → List (ℕ × List ℕ)
retain_non_empty [] = []
retain_non_empty ((address, []) ∷ m) = retain_non_empty m
retain_non_empty ((address, x ∷ xs) ∷ m) = (address, x ∷ xs) ∷ retain_non_empty m

unfoldable pub cleanup : Bridge → ℕ → Bridge
unfolding pop_expired retain_non_empty
cleanup b now =
    let popped = pop_expired now b.eviction_queue b in
    record popped { address_hashes = retain_non_empty popped.address_hashes }
