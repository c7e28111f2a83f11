-- ===== src/Query/Items/Ancestors.antt =====
-- The flags of `from_traces` against the tree of calls that the traces are a list of.
use monad_services.Prelude.{
  ℕ, zero, suc, ◌≡◌, refl, sym, ap, ◌∙◌, Bool, false, not, ◌||◌, List, [], ◌∷◌, ◌++◌, length, ◌==◌,
  length-append, append_assoc, append-nil, arith,
}
use monad_services.Prelude.Map.{insert, lookup-insert_self}
use monad_services.Query.Items.{
  StoredTraceQueryItem, from_traces, from_traces_loop, pad, ancestor_at, or_default, stack_of,
}

-- The calls that a frame makes: a frame, the calls in it, and the calls after it.
pub data Calls : Type 0 where
  no_more : Calls
  call_then : StoredTraceQueryItem → Calls → Calls → Calls

abbrev pub failed : StoredTraceQueryItem → Bool
failed t = not (t.status == 0)

-- The traces of the calls under a path, from the index `i` on, each with whether a frame above it has
-- failed.
unfoldable pub marked : ℕ → List ℕ → ℕ → Bool → Calls → List (StoredTraceQueryItem × Bool)
marked tx path i above Calls.no_more = []
marked tx path i above (Calls.call_then t inner next) =
    (record t { tx_index = tx; trace_address = path ++ (i ∷ []) }, above)
    ∷ (marked tx (path ++ (i ∷ [])) 0 (above || failed t) inner
        ++ marked tx path (suc i) above next)

-- A transaction: its outermost frame and the calls in it.
abbrev pub marked_tx : ℕ → StoredTraceQueryItem → Calls → List (StoredTraceQueryItem × Bool)
marked_tx tx t inner =
    (record t { tx_index = tx; trace_address = [] }, false) ∷ marked tx [] 0 (failed t) inner

abbrev pub traces_of : List (StoredTraceQueryItem × Bool) → List StoredTraceQueryItem
traces_of [] = []
traces_of ((t, flag) ∷ ts) = t ∷ traces_of ts

traces_of-append :
    (xs ys : List (StoredTraceQueryItem × Bool))
    → traces_of (xs ++ ys) ≡ traces_of xs ++ traces_of ys
traces_of-append [] ys = refl
traces_of-append ((t, flag) ∷ xs) ys = ap (◌∷◌ t) (traces_of-append xs ys)

length-pad : (d : ℕ) (s : List Bool) → length (pad d s) ≡ d
length-pad zero s = refl
length-pad (suc d) [] = ap suc (length-pad d [])
length-pad (suc d) (x ∷ s) = ap suc (length-pad d s)

pad-append : (u v : List Bool) → pad (length u) (u ++ v) ≡ u
pad-append [] v = refl
pad-append (x ∷ u) v = ap (◌∷◌ x) (pad-append u v)

pad-pad : (d : ℕ) (s : List Bool) → pad d (pad (suc d) s) ≡ pad d s
pad-pad zero s = refl
pad-pad (suc d) [] = ap (◌∷◌ false) (pad-pad d [])
pad-pad (suc d) (x ∷ s) = ap (◌∷◌ x) (pad-pad d s)

get_elem?-pad :
    (e : ℕ) (s : List Bool) → ancestor_at (suc e) (pad (suc e) s) ≡ ancestor_at (suc e) s
get_elem?-pad zero [] = refl
get_elem?-pad zero (x ∷ s) = refl
get_elem?-pad (suc e) [] = get_elem?-pad e []
get_elem?-pad (suc e) (x ∷ s) = get_elem?-pad e s

ancestor_at-append : (u : List Bool) (f : Bool) → ancestor_at (suc (length u)) (u ++ (f ∷ [])) ≡ f
ancestor_at-append [] f = refl
ancestor_at-append (x ∷ u) f = ancestor_at-append u f

stack_of-insert :
    (tx : ℕ) (s : List Bool) (stacks : List (ℕ × List Bool)) → stack_of tx (insert tx s stacks) ≡ s
stack_of-insert tx s stacks = ap or_default (lookup-insert_self tx s stacks)

-- One round, at a depth of one at least, above whose flags are `u`.
from_traces_loop-step :
    (tx : ℕ) (t : StoredTraceQueryItem) (path : List ℕ) (i : ℕ) (above : Bool) (u : List Bool)
    (stacks : List (ℕ × List Bool)) (rest : List StoredTraceQueryItem)
    → pad (suc (length path)) (stack_of tx stacks) ≡ u
    → ancestor_at (suc (length path)) u ≡ above
    → from_traces_loop stacks (record t { tx_index = tx; trace_address = path ++ (i ∷ []) } ∷ rest)
      ≡ (record t { tx_index = tx; trace_address = path ++ (i ∷ []) }, above)
        ∷ from_traces_loop (insert tx (u ++ ((above || failed t) ∷ [])) stacks) rest
unfolding from_traces_loop
from_traces_loop-step tx t path i above u stacks rest p a =
    let depth : length (path ++ (i ∷ [])) ≡ suc (length path) =
      omega (arith, length-append path (i ∷ [])) in
    let flag : ancestor_at (suc (length path)) (stack_of tx stacks) ≡ above =
      sym (get_elem?-pad (length path) (stack_of tx stacks))
      ∙ ap (ancestor_at (suc (length path))) p
      ∙ a in
    rw (depth, flag, p)

-- All the calls under a path, in front of other traces: the flags above them are as before.
from_traces_loop-marked :
    (tx : ℕ) (calls : Calls) (path : List ℕ) (i : ℕ) (above : Bool) (u : List Bool)
    (stacks : List (ℕ × List Bool)) (rest : List StoredTraceQueryItem)
    → pad (suc (length path)) (stack_of tx stacks) ≡ u
    → ancestor_at (suc (length path)) u ≡ above
    → (after : List (ℕ × List Bool)) × (from_traces_loop stacks
          (traces_of (marked tx path i above calls) ++ rest)
        ≡ marked tx path i above calls ++ from_traces_loop after rest)
      × (pad (suc (length path)) (stack_of tx after) ≡ u)
unfolding marked
from_traces_loop-marked tx Calls.no_more path i above u stacks rest p a = (stacks, refl, p)
from_traces_loop-marked tx (Calls.call_then t inner next) path i above u stacks rest p a =
    let f = above || failed t in
    let deeper = path ++ (i ∷ []) in
    let grown = u ++ (f ∷ []) in
    let started = insert tx grown stacks in
    let depth : length deeper ≡ suc (length path) = omega (arith, length-append path (i ∷ [])) in
    let wide : length u ≡ suc (length path) =
      ap length (sym p) ∙ length-pad (suc (length path)) (stack_of tx stacks) in
    let long : length grown ≡ suc (length deeper) =
      omega (arith, length-append u (f ∷ []), wide, depth) in
    let at_grown : pad (suc (length deeper)) (stack_of tx started) ≡ grown =
      ap (pad (suc (length deeper))) (stack_of-insert tx grown stacks)
      ∙ ap (λ n. pad n grown) (sym long)
      ∙ ap (pad (length grown)) (sym (append-nil grown))
      ∙ pad-append grown [] in
    let at_flag : ancestor_at (suc (length deeper)) grown ≡ f =
      ap (λ n. ancestor_at (suc n) grown) (depth ∙ sym wide) ∙ ancestor_at-append u f in
    let mine = marked tx deeper 0 f inner in
    let others = marked tx path (suc i) above next in
    let (middle, first, kept) =
      from_traces_loop-marked tx inner deeper 0 f grown started (traces_of others ++ rest) at_grown
        at_flag in
    let back : pad (suc (length path)) (stack_of tx middle) ≡ u =
      sym (pad-pad (suc (length path)) (stack_of tx middle))
      ∙ ap (λ n. pad (suc (length path)) (pad (suc n) (stack_of tx middle))) (sym depth)
      ∙ ap (pad (suc (length path))) kept
      ∙ ap (λ n. pad n grown) (sym wide)
      ∙ pad-append u (f ∷ []) in
    let (after, second, again) =
      from_traces_loop-marked tx next path (suc i) above u middle rest back a in
    let split : traces_of (mine ++ others) ++ rest ≡ traces_of mine ++ (traces_of others ++ rest) =
      ap (λ l. l ++ rest) (traces_of-append mine others)
      ∙ append_assoc (traces_of mine) (traces_of others) rest in
    (
      after,
      from_traces_loop-step tx t path i above u stacks (traces_of (mine ++ others) ++ rest) p a
          ∙ ap (λ l. (record t { tx_index = tx; trace_address = deeper }, above) ∷ l)
              (ap (from_traces_loop started) split
                ∙ first
                ∙ ap (◌++◌ mine) second
                ∙ sym (append_assoc mine others (from_traces_loop after rest))),
      again,
    )

-- The traces of a transaction in the order of its calls, each at its address: `from_traces` returns
-- them in order and marks exactly those with a frame above them that has failed.
pub from_traces-marked_tx :
    (tx : ℕ) (t : StoredTraceQueryItem) (inner : Calls)
    → from_traces (traces_of (marked_tx tx t inner)) ≡ marked_tx tx t inner
unfolding from_traces_loop
from_traces-marked_tx tx t inner =
    let root = failed t ∷ [] in
    let started = insert tx root [] in
    let below = marked tx [] 0 (failed t) inner in
    let (after, e, kept) =
      from_traces_loop-marked tx inner [] 0 (failed t) root started []
        (ap (pad 1) (stack_of-insert tx root [])) refl in
    ap (◌∷◌ (record t { tx_index = tx; trace_address = [] }, false))
      (ap (from_traces_loop started) (sym (append-nil (traces_of below))) ∙ e ∙ append-nil below)
