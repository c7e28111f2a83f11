-- ===== src/Query/Items/Runs.antt =====
-- Concrete items, and the theorem on the flags of traces at a concrete input.
use monad_services.Prelude.{ℕ, ◌≡◌, refl, Bool, true, false, none, some, List, [], ◌∷◌, err}
use monad_services.Query.Schema.{BitmapFilterValue, QueryError, Message}
use monad_services.Prelude.Map.{lookup, insert}
use monad_services.Query.Items.{
  StoredTraceQueryItem, CallKind, from_traces, from_traces_loop, trace_filters, log_filters,
  tx_filters,
}
use monad_services.Query.Items.Ancestors.{
  Calls, marked, marked_tx, traces_of, from_traces-marked_tx,
}

abbrev frame : ℕ → StoredTraceQueryItem
frame status = record {
  kind = CallKind.call;
  sender = 1 ∷ [];
  callee = some (2 ∷ []);
  value = 5;
  gas = 0;
  gas_used = 0;
  input = 9 ∷ 8 ∷ 7 ∷ [];
  output = [];
  status = status;
  depth = 0;
  tx_index = 0;
  trace_address = [];
  tx_status = true;
}

-- A call that fails with a call in it, and a call after it.
abbrev inner : Calls
inner =
    Calls.call_then (frame 1) (Calls.call_then (frame 0) Calls.no_more Calls.no_more)
      (Calls.call_then (frame 0) Calls.no_more Calls.no_more)

flags : List (StoredTraceQueryItem × Bool) → List Bool
flags [] = []
flags ((t, flag) ∷ ts) = flag ∷ flags ts

flags_test :
    flags (from_traces (traces_of (marked_tx 3 (frame 0) inner)))
    ≡ false ∷ false ∷ true ∷ false ∷ []
unfolding flags marked from_traces_loop lookup insert
flags_test = refl

-- Three bytes of input are no selector, and a reverted frame moves no value.
trace_filters_test :
    (trace_filters (frame 0, false)
      ≡ BitmapFilterValue.from_address (1 ∷ [])
        ∷ BitmapFilterValue.to_address (2 ∷ [])
        ∷ BitmapFilterValue.top_level
        ∷ BitmapFilterValue.has_transfer
        ∷ [])
    × (trace_filters (frame 1, false)
        ≡ BitmapFilterValue.from_address (1 ∷ [])
          ∷ BitmapFilterValue.to_address (2 ∷ [])
          ∷ BitmapFilterValue.top_level
          ∷ [])
trace_filters_test = (refl, refl)

log_filters_test :
    log_filters (record {
      tx_index = 0;
      log_index = 0;
      address = 4 ∷ [];
      topics = (5 ∷ []) ∷ (6 ∷ []) ∷ [];
      data_bytes = [];
    })
    ≡ BitmapFilterValue.address (4 ∷ [])
      ∷ BitmapFilterValue.topic0 (5 ∷ [])
      ∷ BitmapFilterValue.topic1 (6 ∷ [])
      ∷ []
log_filters_test = refl

tx_filters_test :
    tx_filters (λ _. none) (record { tx_hash = 1; sender = 2 ∷ []; signed_tx_bytes = [] })
    ≡ err (QueryError.decoding Message.invalid_envelope)
unfolding tx_filters
tx_filters_test = refl

from_traces-marked_tx_example :
    from_traces (traces_of (marked_tx 3 (frame 0) inner)) ≡ marked_tx 3 (frame 0) inner
from_traces-marked_tx_example = from_traces-marked_tx 3 (frame 0) inner
