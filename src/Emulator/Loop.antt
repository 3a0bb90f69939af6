-- ===== src/Emulator/Loop.antt =====
-- BlockEmulator.cpp: the loop of `process_txs` never uses its map from messages to the transactions
-- that send them.
use ton_index_worker.Prelude.{ℕ, ◌≡◌, refl, none, List, [], ◌∷◌, arith, All}
use ton_index_worker.Prelude.Maps.{find, emplace, find-emplace}
use ton_index_worker.Emulator.{
  TransactionInfo, emplace_each, txs_by_out_msg_hash, initial_by_out_msg, initial_of, process_loop,
}

-- The transaction has no trace yet.
abbrev pub IsNew : TransactionInfo → Type 0
IsNew t = t.initial_msg_hash ≡ none

-- No message leads to a trace.
abbrev pub IsBlind : List (ℕ × TransactionInfo) → Type 0
IsBlind m = (h : ℕ) → initial_by_out_msg h m ≡ none

emplace-IsBlind :
    (k : ℕ) (t : TransactionInfo) (m : List (ℕ × TransactionInfo))
    → IsNew t
    → IsBlind m
    → IsBlind (emplace k t m)
unfolding initial_by_out_msg
emplace-IsBlind k t m n b h = ground (arith, n, b h, b k, find-emplace k h t m)

emplace_each-IsBlind :
    (hashes : List ℕ) (t : TransactionInfo) (m : List (ℕ × TransactionInfo))
    → IsNew t
    → IsBlind m
    → IsBlind (emplace_each hashes t m)
unfolding emplace_each
emplace_each-IsBlind [] t m n b = b
emplace_each-IsBlind (h ∷ hashes) t m n b =
    emplace_each-IsBlind hashes t (emplace h t m) n (emplace-IsBlind h t m n b)

txs_by_out_msg_hash-IsBlind :
    (ts : List TransactionInfo) (m : List (ℕ × TransactionInfo))
    → All IsNew ts
    → IsBlind m
    → IsBlind (txs_by_out_msg_hash ts m)
unfolding txs_by_out_msg_hash
txs_by_out_msg_hash-IsBlind [] m n b = b
txs_by_out_msg_hash-IsBlind (t ∷ ts) m n b =
    txs_by_out_msg_hash-IsBlind ts (emplace_each t.out_msgs t m) n.1
      (emplace_each-IsBlind t.out_msgs t m n.0 b)

pub IsBlind-nil : IsBlind []
unfolding initial_by_out_msg find
IsBlind-nil h = refl

initial_of-blind :
    (m : List (ℕ × TransactionInfo)) (interblock : List (ℕ × ℕ)) (t : TransactionInfo)
    → IsBlind m
    → initial_of m interblock t ≡ initial_of [] interblock t
unfolding initial_of
initial_of-blind m interblock t b = rw (b t.in_msg_hash) (rw (IsBlind-nil t.in_msg_hash) refl)

process_loop-blind :
    (m : List (ℕ × TransactionInfo)) (ts : List TransactionInfo)
    (by_in : List (ℕ × TransactionInfo)) (interblock : List (ℕ × ℕ))
    → IsBlind m
    → process_loop m ts by_in interblock ≡ process_loop [] ts by_in interblock
unfolding process_loop
process_loop-blind m [] by_in interblock b = refl
process_loop-blind m (t ∷ ts) by_in interblock b =
    rw (initial_of-blind m interblock t b) (rw (process_loop-blind m ts _ _ b) refl)

-- If no parsed transaction has a trace yet, as the parser makes them, then the loop of `process_txs`
-- does the same with the map from out messages as with an empty one.
pub process_loop-same :
    (ts : List TransactionInfo) (by_in : List (ℕ × TransactionInfo)) (interblock : List (ℕ × ℕ))
    → All IsNew ts
    → process_loop (txs_by_out_msg_hash ts []) ts by_in interblock
      ≡ process_loop [] ts by_in interblock
process_loop-same ts by_in interblock n =
    process_loop-blind (txs_by_out_msg_hash ts []) ts by_in interblock
      (txs_by_out_msg_hash-IsBlind ts [] n IsBlind-nil)
