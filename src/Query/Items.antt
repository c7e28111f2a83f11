-- ===== src/Query/Items.antt =====
-- crates/monad-query-schema/src/family and crates/monad-query-types/src/call_kind.rs: the stored items
-- and the bitmap filters that each is found by. Addresses, topics and data are bytes; hashes, amounts and
-- gas are numbers. `decode_2718` is the decoder of alloy: the callee and the selector of an envelope.
pub mod Ancestors
mod Runs
use monad_services.Prelude.{
  ℕ, zero, suc, ◌-◌, ◌≡◌, Bool, true, false, not, ◌&&◌, ◌||◌, Option, none, some, List, [], ◌∷◌,
  ◌++◌, length, take, ltb, ◌==◌, if◌then◌else◌, Result, ok, err, ◌>>=◌, get_elem?,
}
use monad_services.Prelude.Map.{lookup, insert}
use monad_services.Query.Schema.{BitmapFilterValue, QueryError, Message}

-- alloy's header: the fields that the writer reads, and the rest as a number.
pub record Header : Type 0 where
  pub number : ℕ
  pub parent_hash : ℕ
  pub beneficiary : List ℕ
  pub contents : ℕ

pub record StoredTxQueryItem : Type 0 where
  pub tx_hash : ℕ
  pub sender : List ℕ
  pub signed_tx_bytes : List ℕ

pub record StoredLogQueryItem : Type 0 where
  pub tx_index : ℕ
  pub log_index : ℕ
  pub address : List ℕ
  pub topics : List (List ℕ)
  pub data_bytes : List ℕ

pub data CallKind : Type 0 where
  call static_call delegate_call call_code create create2 self_destruct : CallKind

pub record StoredTraceQueryItem : Type 0 where
  pub kind : CallKind
  pub sender : List ℕ
  pub callee : Option (List ℕ)
  pub value : ℕ
  pub gas : ℕ
  pub gas_used : ℕ
  pub input : List ℕ
  pub output : List ℕ
  pub status : ℕ
  pub depth : ℕ
  pub tx_index : ℕ
  pub trace_address : List ℕ
  pub tx_status : Bool

abbrev pub header_filters : Header → List BitmapFilterValue
header_filters header = BitmapFilterValue.miner header.beneficiary ∷ []

-- The `match index` of the topics.
abbrev pub topic_filter : ℕ → List ℕ → BitmapFilterValue
topic_filter zero topic = BitmapFilterValue.topic0 topic
topic_filter (suc zero) topic = BitmapFilterValue.topic1 topic
topic_filter (suc (suc zero)) topic = BitmapFilterValue.topic2 topic
topic_filter (suc (suc (suc index))) topic = BitmapFilterValue.topic3 topic

abbrev pub topic_filters : ℕ → List (List ℕ) → List BitmapFilterValue
topic_filters index [] = []
topic_filters index (topic ∷ topics) = topic_filter index topic ∷ topic_filters (suc index) topics

abbrev pub log_filters : StoredLogQueryItem → List BitmapFilterValue
log_filters log = BitmapFilterValue.address log.address ∷ topic_filters 0 (take 4 log.topics)

abbrev pub filter_of : {A : Type 0} → (A → BitmapFilterValue) → Option A → List BitmapFilterValue
filter_of f none = []
filter_of f (some a) = f a ∷ []

abbrev pub moves_value : CallKind → Bool
moves_value CallKind.call = true
moves_value CallKind.create = true
moves_value CallKind.create2 = true
moves_value CallKind.self_destruct = true
moves_value _ = false

-- `<[u8; 4]>::try_from` of the first four bytes.
abbrev pub selector_of : List ℕ → Option (List ℕ)
selector_of input = if length (take 4 input) == 4 then some (take 4 input) else none

abbrev pub trace_filters : StoredTraceQueryItem × Bool → List BitmapFilterValue
trace_filters (trace, ancestor_reverted) =
    BitmapFilterValue.from_address trace.sender
    ∷ (filter_of BitmapFilterValue.to_address trace.callee
        ++ (filter_of BitmapFilterValue.selector (selector_of trace.input)
            ++ ((if length trace.trace_address == 0 then BitmapFilterValue.top_level ∷ [] else [])
                ++ (if not ancestor_reverted
                      && (trace.tx_status && ((trace.status == 0) && moves_value trace.kind))
                    then BitmapFilterValue.has_transfer ∷ []
                    else []))))

-- `stack.resize(depth, false)` of a shorter stack, after `stack.truncate(depth)`.
abbrev pub pad : ℕ → List Bool → List Bool
pad zero stack = []
pad (suc depth) [] = false ∷ pad depth []
pad (suc depth) (failed ∷ stack) = failed ∷ pad depth stack

-- The flag at the depth above, if the stack has one.
abbrev pub ancestor_at : ℕ → List Bool → Bool
ancestor_at zero stack = false
ancestor_at (suc above) stack = elim (get_elem? stack above) [ none ↦ false | some failed ↦ failed ]

abbrev pub or_default : Option (List Bool) → List Bool
or_default none = []
or_default (some stack) = stack

abbrev pub stack_of : ℕ → List (ℕ × List Bool) → List Bool
stack_of tx_index stacks = or_default (lookup tx_index stacks)

-- The closure of `from_traces`: a trace with its flag, and the stack of its transaction after it.
abbrev pub visit : StoredTraceQueryItem → List Bool → Bool × List Bool
visit trace stack =
    let depth = length trace.trace_address in
    let reverted = ancestor_at depth stack in
    (reverted, pad depth stack ++ ((reverted || not (trace.status == 0)) ∷ []))

-- `from_traces`, from the stacks so far.
unfoldable pub from_traces_loop :
    List (ℕ × List Bool) → List StoredTraceQueryItem → List (StoredTraceQueryItem × Bool)
from_traces_loop stacks [] = []
from_traces_loop stacks (trace ∷ traces) =
    let (reverted, stack) = visit trace (stack_of trace.tx_index stacks) in
    (trace, reverted) ∷ from_traces_loop (insert trace.tx_index stack stacks) traces

abbrev pub from_traces : List StoredTraceQueryItem → List (StoredTraceQueryItem × Bool)
from_traces traces = from_traces_loop [] traces

module _ (decode_2718 : List ℕ → Option (Option (List ℕ) × Option (List ℕ))) where
  unfoldable pub tx_filters : StoredTxQueryItem → Result QueryError (List BitmapFilterValue)
  tx_filters tx = elim (decode_2718 tx.signed_tx_bytes) [
    | none ↦ err (QueryError.decoding Message.invalid_envelope)
    | some (callee, selector) ↦ ok (
        BitmapFilterValue.from_address tx.sender
        ∷ (filter_of BitmapFilterValue.to_address callee
            ++ filter_of BitmapFilterValue.selector selector))
  ]
