-- ===== src/Prelude/Numerals.antt =====
-- Decimal numerals as lists of bytes: what `std::stoi`, `std::stoul` and `std::to_string` do for the
-- numbers in file names and files.
use ton_index_worker.Prelude.{
  ℕ, zero, suc, ◌+◌, ◌-◌, ◌*◌, ◌/◌, ◌%◌, ◌≤◌, ◌<◌, ◌≡◌, sym, ap, ◌∙◌, Bool, true, false, ◌&&◌, ◌||◌,
  Option, none, some, List, [], ◌∷◌, arith, ltb, leb, ◌==◌, if◌then◌else◌, Bool-cases, inl, inr,
}
use ton_index_worker.Prelude.Words.{mod32, mod64, sub32, sub64}

unfoldable pub is_space : ℕ → Bool
is_space c = c == 32 || (leb 9 c && leb c 13)

unfoldable pub is_digit : ℕ → Bool
is_digit c = leb b'0' c && leb c b'9'

-- The digits of `strtol`, once one was read.
unfoldable pub digits_value : ℕ → List ℕ → ℕ
unfolding is_digit
digits_value n [] = n
digits_value n (c ∷ cs) =
    let rest = digits_value (n * 10 + (c - b'0')) cs in if is_digit c then rest else n

unfoldable pub unsigned_value : List ℕ → Option ℕ
unfolding digits_value
unsigned_value [] = none
unsigned_value (c ∷ cs) = if is_digit c then some (digits_value 0 (c ∷ cs)) else none

-- The range of `int`, with the sign that was read; the result is the pattern.
unfoldable pub in_range : Bool → Option ℕ → Option ℕ
in_range negative none = none
in_range true (some n) = if leb n 2147483648 then some (sub32 0 n) else none
in_range false (some n) = if ltb n 2147483648 then some n else none

unfoldable pub signed_value : List ℕ → Option ℕ
unfolding unsigned_value in_range
signed_value [] = none
signed_value (c ∷ cs) =
    if c == b'-'
    then in_range true (unsigned_value cs)
    else if c == b'+'
    then in_range false (unsigned_value cs)
    else in_range false (unsigned_value (c ∷ cs))

unfoldable pub skip_spaces : List ℕ → List ℕ
unfolding is_space
skip_spaces [] = []
skip_spaces (c ∷ cs) = if is_space c then skip_spaces cs else c ∷ cs

-- `std::stoi`; `none` is `invalid_argument` or `out_of_range`.
unfoldable pub stoi : List ℕ → Option ℕ
unfolding signed_value skip_spaces
stoi s = signed_value (skip_spaces s)

-- The range of `unsigned long`; a number with a minus sign is negated.
unfoldable pub in_range64 : Bool → Option ℕ → Option ℕ
in_range64 negative none = none
in_range64 true (some n) = if ltb n mod64 then some (sub64 0 n) else none
in_range64 false (some n) = if ltb n mod64 then some n else none

unfoldable pub signed_value64 : List ℕ → Option ℕ
unfolding unsigned_value in_range64
signed_value64 [] = none
signed_value64 (c ∷ cs) =
    if c == b'-'
    then in_range64 true (unsigned_value cs)
    else if c == b'+'
    then in_range64 false (unsigned_value cs)
    else in_range64 false (unsigned_value (c ∷ cs))

-- `std::stoul`.
unfoldable pub stoul : List ℕ → Option ℕ
unfolding signed_value64 skip_spaces
stoul s = signed_value64 (skip_spaces s)

-- `std::to_string`: the digits of a number before those of `acc`.
unfoldable pub print_digits : ℕ → ℕ → List ℕ → List ℕ
print_digits zero n acc = acc
print_digits (suc fuel) n acc =
    let more = print_digits fuel (n / 10) ((b'0' + n % 10) ∷ acc) in
    if ltb n 10 then (b'0' + n) ∷ acc else more

unfoldable pub to_string : ℕ → List ℕ
unfolding print_digits
to_string n = print_digits (suc n) n []

digits-print :
    (fuel n : ℕ) (acc : List ℕ)
    → n < fuel
    → digits_value 0 (print_digits fuel n acc) ≡ digits_value n acc
unfolding print_digits digits_value
digits-print zero n acc l = elim l [ ]
digits-print (suc fuel) n acc l = ground (arith, digits-print fuel (n / 10) ((48 + n % 10) ∷ acc))

-- What is printed begins with a digit.
print_first :
    (fuel n : ℕ) (acc : List ℕ)
    → n < fuel
    → (c : ℕ) × (cs : List ℕ) × (print_digits fuel n acc ≡ c ∷ cs) × (48 ≤ c) × (c ≤ 57)
unfolding print_digits
print_first zero n acc l = elim l [ ]
print_first (suc fuel) n acc l = elim (Bool-cases (ltb n 10)) [
  | inl small ↦ (48 + n, acc, rw small, omega arith, ground (arith, small))
  | inr large ↦ rw large (print_first fuel (n / 10) ((48 + n % 10) ∷ acc) (ground (arith, large)))
]

stoi_first :
    (cs : List ℕ) (c n : ℕ)
    → 48 ≤ c
    → c ≤ 57
    → digits_value 0 (c ∷ cs) ≡ n
    → n < 2147483648
    → stoi (c ∷ cs) ≡ some n
unfolding stoi
stoi_first cs c n low high v small = ground arith

-- `std::stoi` reads back what `std::to_string` prints of a number that fits an `int`.
pub stoi-to_string : (n : ℕ) → n < 2147483648 → stoi (to_string n) ≡ some n
unfolding to_string digits_value
stoi-to_string n small =
    let (c, cs, e, low, high) = print_first (suc n) n [] (omega arith) in
    rw e (
      stoi_first cs c n low high
        (ap (digits_value 0) (sym e) ∙ digits-print (suc n) n [] (omega arith)) small)

stoul_first :
    (cs : List ℕ) (c n : ℕ)
    → 48 ≤ c
    → c ≤ 57
    → digits_value 0 (c ∷ cs) ≡ n
    → n < mod64
    → stoul (c ∷ cs) ≡ some n
unfolding stoul
stoul_first cs c n low high v small = ground arith

-- `std::stoul` reads back what `std::to_string` prints of a number that fits an `unsigned long`.
pub stoul-to_string : (n : ℕ) → n < mod64 → stoul (to_string n) ≡ some n
unfolding to_string digits_value
stoul-to_string n small =
    let (c, cs, e, low, high) = print_first (suc n) n [] (omega arith) in
    rw e (
      stoul_first cs c n low high
        (ap (digits_value 0) (sym e) ∙ digits-print (suc n) n [] (omega arith)) small)

in_range_small : (negative : Bool) (o : Option ℕ) (k : ℕ) → in_range negative o ≡ some k → k < mod32
unfolding in_range
in_range_small b none k e = cc
in_range_small true (some n) k e = ground (arith, e)
in_range_small false (some n) k e = ground (arith, e)

signed_value_small : (s : List ℕ) (k : ℕ) → signed_value s ≡ some k → k < mod32
unfolding signed_value
signed_value_small [] k e = cc
signed_value_small (c ∷ cs) k e = ground (
  arith,
  in_range_small true (unsigned_value cs) k,
  in_range_small false (unsigned_value cs) k,
  in_range_small false (unsigned_value (c ∷ cs)) k,
  e,
)

pub stoi_small : (s : List ℕ) (k : ℕ) → stoi s ≡ some k → k < mod32
unfolding stoi
stoi_small s k e = signed_value_small (skip_spaces s) k e
