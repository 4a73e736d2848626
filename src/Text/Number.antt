-- ===== src/Text/Number.antt =====
-- `parseInt(s, 10)`, over integers of any size: a double keeps those below 2^53.
use linbo_docker.Base.{
  ℕ, zero, suc, ◌+◌, ◌-◌, ◌*◌, ◌≤◌, ◌≡◌, true, false, Option, none, some, [], ◌∷◌, arith, leb, ◌==◌,
  if◌then◌else◌,
}
use linbo_docker.Text.{Text, is_digit, trim_start}

-- `negsuc n` is -(n + 1).
pub data ℤ : Type 0 where
  pos : ℕ → ℤ
  negsuc : ℕ → ℤ

negate : ℕ → ℤ
negate zero = pos 0
negate (suc n) = negsuc n

digits_from : ℕ → Text → ℕ
digits_from n [] = n
digits_from n (c ∷ cs) = elim (is_digit c) [
  | true ↦ digits_from (n * 10 + (c - b'0')) cs
  | false ↦ n
]

-- `none` is NaN: no digit stands there.
unsigned : Text → Option ℕ
unfolding digits_from
unsigned [] = none
unsigned (c ∷ cs) = if is_digit c then some (digits_from 0 (c ∷ cs)) else none

signed : Text → Option ℤ
unfolding unsigned negate
signed [] = none
signed (c ∷ cs) =
    if c == b'-'
    then elim (unsigned cs) [ none ↦ none | some n ↦ some (negate n) ]
    else elim (unsigned (if c == b'+' then cs else c ∷ cs)) [ none ↦ none | some n ↦ some (pos n) ]

unfoldable pub parse_int : Text → Option ℤ
unfolding signed trim_start
parse_int s = signed (trim_start s)

-- The test `isNaN(n) || n < 1` of the callers: the number, if it passes.
unfoldable pub at_least_one : Option ℤ → Option ℕ
at_least_one none = none
at_least_one (some (negsuc n)) = none
at_least_one (some (pos n)) = if leb 1 n then some n else none

pub at_least_one-le : (o : Option ℤ) {n : ℕ} → at_least_one o ≡ some n → 1 ≤ n
unfolding at_least_one
at_least_one-le none h = ground arith
at_least_one-le (some (negsuc n)) h = ground arith
at_least_one-le (some (pos n)) h = ground arith
