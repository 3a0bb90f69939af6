-- ===== src/Assembler/Sorting.antt =====
-- The order in which TraceAssembler::process_block takes the transactions.
use mathlib.Core.List.{Perm}
use mathlib.Core.List.Perm
use ton_index_worker.Prelude.{
  ◌⊎◌, ltb, ◌≤◌, ◌<◌, ◌≡◌, true, false, List, [], ◌∷◌, arith, Bool-cases, inl, inr,
}
use ton_index_worker.Prelude.Words.{mod32, bias32, slt32}
use ton_index_worker.Schema.{Transaction}
use ton_index_worker.Assembler.Block.{TxRef, tx_before, insert_sorted, sort_txs}

-- A workchain that is a word.
abbrev pub IsWordTx : Transaction → Type 0
IsWordTx tx = tx.account.workchain < mod32

tx_before_trans :
    (a b c : Transaction) → tx_before a b ≡ true → tx_before b c ≡ true → tx_before a c ≡ true
unfolding tx_before
tx_before_trans a b c h k = ground arith

tx_before_asym : (a b : Transaction) → tx_before a b ≡ true → tx_before b a ≡ false
unfolding tx_before
tx_before_asym a b h = ground arith

-- `std::sort` asks for a strict weak order: neither of two that are not ordered differs from the
-- other for a third.
tx_before_cotrans :
    (a b c : Transaction)
    → IsWordTx a
    → IsWordTx b
    → tx_before a b ≡ false
    → tx_before b c ≡ false
    → tx_before a c ≡ false
unfolding tx_before
tx_before_cotrans a b c w x h k = ground arith

-- On workchains that are words, the comparison is a strict weak order, as `std::sort` asks for.
pub tx_before_strict_weak :
    (a b c : Transaction)
    → IsWordTx a
    → IsWordTx b
    → (tx_before a b ≡ true → tx_before b a ≡ false)
      × (tx_before a b ≡ true → tx_before b c ≡ true → tx_before a c ≡ true)
      × (tx_before a b ≡ false → tx_before b c ≡ false → tx_before a c ≡ false)
tx_before_strict_weak a b c w x =
    (tx_before_asym a b, tx_before_trans a b c, tx_before_cotrans a b c w x)

-- No transaction of the list comes before this one.
abbrev pub IsFirst : TxRef → List TxRef → Type 0
IsFirst x [] = Unit
IsFirst x (y ∷ ys) = (tx_before y.1 x.1 ≡ false) × IsFirst x ys

abbrev pub IsSorted : List TxRef → Type 0
IsSorted [] = Unit
IsSorted (x ∷ xs) = IsFirst x xs × IsSorted xs

abbrev pub AreWords : List TxRef → Type 0
AreWords [] = Unit
AreWords (x ∷ xs) = IsWordTx x.1 × AreWords xs

insert_sorted-perm : (x : TxRef) (ys : List TxRef) → Perm (insert_sorted x ys) (x ∷ ys)
unfolding insert_sorted
insert_sorted-perm x [] = Perm.refl (x ∷ [])
insert_sorted-perm x (y ∷ ys) = elim (Bool-cases (tx_before y.1 x.1)) [
  | inl later ↦ rw later (Perm.trans (Perm.cons y (insert_sorted-perm x ys)) (Perm.swap x y ys))
  | inr here ↦ rw here (Perm.refl (x ∷ y ∷ ys))
]

sort_txs-perm : (xs : List TxRef) → Perm (sort_txs xs) xs
unfolding sort_txs
sort_txs-perm [] = Perm.refl []
sort_txs-perm (x ∷ xs) =
    Perm.trans (insert_sorted-perm x (sort_txs xs)) (Perm.cons x (sort_txs-perm xs))

insert_sorted-AreWords :
    (x : TxRef) (ys : List TxRef) → IsWordTx x.1 → AreWords ys → AreWords (insert_sorted x ys)
unfolding insert_sorted
insert_sorted-AreWords x [] w ws = (w, tt)
insert_sorted-AreWords x (y ∷ ys) w ws = elim (Bool-cases (tx_before y.1 x.1)) [
  | inl later ↦ rw later (ws.0, insert_sorted-AreWords x ys w ws.1)
  | inr here ↦ rw here (w, ws)
]

sort_txs-AreWords : (xs : List TxRef) → AreWords xs → AreWords (sort_txs xs)
unfolding sort_txs
sort_txs-AreWords [] ws = tt
sort_txs-AreWords (x ∷ xs) ws =
    insert_sorted-AreWords x (sort_txs xs) ws.0 (sort_txs-AreWords xs ws.1)

IsFirst-insert :
    (y x : TxRef) (ys : List TxRef)
    → tx_before x.1 y.1 ≡ false
    → IsFirst y ys
    → IsFirst y (insert_sorted x ys)
unfolding insert_sorted
IsFirst-insert y x [] e f = (e, tt)
IsFirst-insert y x (z ∷ ys) e f = elim (Bool-cases (tx_before z.1 x.1)) [
  | inl later ↦ rw later (f.0, IsFirst-insert y x ys e f.1)
  | inr here ↦ rw here (e, f)
]

IsFirst-trans :
    (x y : TxRef) (ys : List TxRef)
    → IsWordTx y.1
    → AreWords ys
    → tx_before y.1 x.1 ≡ false
    → IsFirst y ys
    → IsFirst x ys
IsFirst-trans x y [] w ws e f = tt
IsFirst-trans x y (z ∷ ys) w ws e f =
    (tx_before_cotrans z.1 y.1 x.1 ws.0 w f.0 e, IsFirst-trans x y ys w ws.1 e f.1)

insert_sorted-IsSorted :
    (x : TxRef) (ys : List TxRef) → AreWords ys → IsSorted ys → IsSorted (insert_sorted x ys)
unfolding insert_sorted
insert_sorted-IsSorted x [] ws s = (tt, tt)
insert_sorted-IsSorted x (y ∷ ys) ws s = elim (Bool-cases (tx_before y.1 x.1)) [
  | inl later ↦ rw later (
    IsFirst-insert y x ys (tx_before_asym y.1 x.1 later) s.0,
    insert_sorted-IsSorted x ys ws.1 s.1,
  )
  | inr here ↦ rw here ((here, IsFirst-trans x y ys ws.0 ws.1 here s.0), s)
]

sort_txs-IsSorted : (xs : List TxRef) → AreWords xs → IsSorted (sort_txs xs)
unfolding sort_txs
sort_txs-IsSorted [] ws = tt
sort_txs-IsSorted (x ∷ xs) ws =
    insert_sorted-IsSorted x (sort_txs xs) (sort_txs-AreWords xs ws.1) (sort_txs-IsSorted xs ws.1)

-- The order of the chain: by logical time; at one time by account, the workchain as a signed
-- number first, and then the address.
abbrev pub InOrder : Transaction → Transaction → Type 0
InOrder a b =
    (a.lt < b.lt)
    ⊎ ((a.lt ≡ b.lt)
        × ((bias32 a.account.workchain < bias32 b.account.workchain)
            ⊎ ((a.account.workchain ≡ b.account.workchain) × (a.account.addr ≤ b.account.addr))))

-- The first is in order with every one of the list.
abbrev pub IsBeforeAll : TxRef → List TxRef → Type 0
IsBeforeAll x [] = Unit
IsBeforeAll x (y ∷ ys) = InOrder x.1 y.1 × IsBeforeAll x ys

abbrev pub IsInOrder : List TxRef → Type 0
IsInOrder [] = Unit
IsInOrder (x ∷ xs) = IsBeforeAll x xs × IsInOrder xs

tx_before-InOrder :
    (a b : Transaction) → IsWordTx a → IsWordTx b → tx_before b a ≡ false → InOrder a b
unfolding tx_before
tx_before-InOrder a b w x h = elim (Bool-cases (ltb a.lt b.lt)) [
  | inl l ↦ inl (ground (arith, l))
  | inr l ↦ inr (
    ground (arith, l, h),
    elim (Bool-cases (slt32 a.account.workchain b.account.workchain)) [
      | inl e ↦ inl (ground (arith, e))
      | inr e ↦ inr (ground (arith, e, l, h, w, x), ground (arith, e, l, h, w, x))
    ],
  )
]

IsFirst-IsBeforeAll :
    (x : TxRef) (ys : List TxRef) → IsWordTx x.1 → AreWords ys → IsFirst x ys → IsBeforeAll x ys
IsFirst-IsBeforeAll x [] w ws f = tt
IsFirst-IsBeforeAll x (y ∷ ys) w ws f =
    (tx_before-InOrder x.1 y.1 w ws.0 f.0, IsFirst-IsBeforeAll x ys w ws.1 f.1)

IsSorted-IsInOrder : (xs : List TxRef) → AreWords xs → IsSorted xs → IsInOrder xs
IsSorted-IsInOrder [] ws s = tt
IsSorted-IsInOrder (x ∷ xs) ws s =
    (IsFirst-IsBeforeAll x xs ws.0 ws.1 s.0, IsSorted-IsInOrder xs ws.1 s.1)

-- If all workchains are words, the sorted transactions are the given ones, each with its place, and
-- of any two the earlier one has the smaller logical time, or the same time and the smaller
-- workchain as a signed number, or the same time and workchain and an address that is not greater.
pub sort_txs-sorts :
    (xs : List TxRef) → AreWords xs → Perm (sort_txs xs) xs × IsInOrder (sort_txs xs)
sort_txs-sorts xs ws = (
  sort_txs-perm xs,
  IsSorted-IsInOrder (sort_txs xs) (sort_txs-AreWords xs ws) (sort_txs-IsSorted xs ws),
)
