-- ===== src/Scanner/Loader.antt =====
-- DbScanner.cpp: `GetBlockDataState` waits for the two parts of a block, in either order.
use ton_index_worker.Prelude.{ℕ, ◌≡◌, refl, Option, none, some, List, [], ◌∷◌}
use mathlib.Core.List.{reverse}

-- The parts that have come, and what the promise was given; after that the actor has stopped.
pub record GetBlockDataState : Type 0 where
  pub block_data : Option ℕ
  pub block_state_root : Option ℕ
  pub promise : Option (Option (ℕ × ℕ))

unfoldable pub check_return : GetBlockDataState → GetBlockDataState
check_return a = elim a.block_data [
  | none ↦ a
  | some data' ↦ elim a.block_state_root [
    | none ↦ a
    | some root ↦ record a { promise = some (some (data', root)) }
  ]
]

unfoldable pub got_block_data : Option ℕ → GetBlockDataState → GetBlockDataState
unfolding check_return
got_block_data none a = record a { promise = some none }
got_block_data (some block_data) a = check_return (record a { block_data = some block_data })

unfoldable pub got_block_state : Option ℕ → GetBlockDataState → GetBlockDataState
unfolding check_return
got_block_state none a = record a { promise = some none }
got_block_state (some root) a = check_return (record a { block_state_root = some root })

-- A message to an actor that has stopped is dropped.
unfoldable pub unless_stopped :
    (GetBlockDataState → GetBlockDataState) → GetBlockDataState → GetBlockDataState
unless_stopped f a = elim a.promise [ none ↦ f a | some _ ↦ a ]

-- The constructor.
abbrev pub new_loader : GetBlockDataState
new_loader = record { block_data = none; block_state_root = none; promise = none }

-- A request to the database, and the handler that gets its answer.
pub data Request : Type 0 where
  get_block_data : (Option ℕ → GetBlockDataState → GetBlockDataState) → Request
  get_block_state_root : (Option ℕ → GetBlockDataState → GetBlockDataState) → Request

unfoldable pub start_up : List Request
unfolding got_block_data got_block_state
start_up = get_block_data got_block_data ∷ get_block_state_root got_block_state ∷ []

-- The answers of the database, one for each kind of request, are handled in the order given.
handler : Option ℕ → Option ℕ → Request → GetBlockDataState → GetBlockDataState
handler block_data root (get_block_data answered) = answered block_data
handler block_data root (get_block_state_root answered) = answered root

unfoldable pub answer_all :
    Option ℕ → Option ℕ → List Request → GetBlockDataState → GetBlockDataState
unfolding handler unless_stopped
answer_all block_data root [] a = a
answer_all block_data root (request ∷ requests) a =
    answer_all block_data root requests (unless_stopped (handler block_data root request) a)

-- What the promise should get: both parts, or an error.
unfoldable pub both_parts : Option ℕ → Option ℕ → Option (ℕ × ℕ)
both_parts none root = none
both_parts (some block_data) none = none
both_parts (some block_data) (some root) = some (block_data, root)

-- Answering the requests of `start_up`, in the order sent or in the other order, gives the promise
-- both parts, or an error if one answer is an error; it gets nothing before the last of two good
-- answers.
pub GetBlockDataState-returns :
    (block_data root : Option ℕ)
    → let data_first = unless_stopped (got_block_data block_data) new_loader in
      let root_first = unless_stopped (got_block_state root) new_loader in
      ((answer_all block_data root start_up new_loader).promise ≡ some (both_parts block_data root))
      × ((answer_all block_data root (reverse start_up) new_loader).promise
          ≡ some (both_parts block_data root))
      × (data_first.promise ≡ elim block_data [ none ↦ some none | some _ ↦ none ])
      × (root_first.promise ≡ elim root [ none ↦ some none | some _ ↦ none ])
unfolding start_up answer_all unless_stopped both_parts got_block_data got_block_state
GetBlockDataState-returns none none = (refl, refl, refl, refl)
GetBlockDataState-returns none (some root) = (refl, refl, refl, refl)
GetBlockDataState-returns (some block_data) none = (refl, refl, refl, refl)
GetBlockDataState-returns (some block_data) (some root) = (refl, refl, refl, refl)
