-- ===== src/Memory/Allocator.antt =====
-- LimitedAllocator of pkg/otel/common/arrow/allocator.go. The allocator below it returns a block of
-- the size asked for, and a block is given by its length. Sizes are non-negative ints, and what is
-- in use is a uint64.
use otel_arrow_adapter.Base.{
  ℕ, zero, suc, ◌+◌, ◌-◌, ◌%◌, ◌≤◌, ◌<◌, ◌≡◌, refl, inl, inr, if◌then◌else◌, ltb, List, [], ◌∷◌,
  get_or, arith, Result, ok, err, true, false, Bool-cases,
}

pub record LimitedAllocator : Type 0 where
  pub inuse : ℕ
  pub limit : ℕ

pub record LimitError : Type 0 where
  pub request : ℕ
  pub error_inuse : ℕ
  pub error_limit : ℕ

unfoldable pub new_limited_allocator : ℕ → LimitedAllocator
new_limited_allocator limit = record { inuse = 0; limit = limit }

-- The panic of Allocate and Reallocate is the error; `change` is a uint64.
unfoldable pub grow : LimitedAllocator → ℕ → Result LimitError LimitedAllocator
grow l change =
    if ltb l.limit ((l.inuse + change) % 18446744073709551616)
    then err (record { request = change; error_inuse = l.inuse; error_limit = l.limit })
    else ok (record l { inuse = (l.inuse + change) % 18446744073709551616 })

unfoldable pub allocate : LimitedAllocator → ℕ → Result LimitError LimitedAllocator
unfolding grow
allocate l size = grow l size

-- `uint64(size - len(b))` wraps around when the block gets smaller.
unfoldable pub reallocate : LimitedAllocator → ℕ → ℕ → Result LimitError LimitedAllocator
unfolding grow
reallocate l size len = grow l ((size + 18446744073709551616 - len) % 18446744073709551616)

unfoldable pub free : LimitedAllocator → ℕ → LimitedAllocator
free l len = record l { inuse = (l.inuse + 18446744073709551616 - len) % 18446744073709551616 }

-- A program's calls, which name blocks by their position: a missing block is an empty slice.
pub data Call : Type 0 where
  allocates : ℕ → Call
  reallocates : ℕ → ℕ → Call
  frees : ℕ → Call

abbrev pub replace_at : List ℕ → ℕ → ℕ → List ℕ
replace_at [] i n = n ∷ []
replace_at (b ∷ bs) zero n = n ∷ bs
replace_at (b ∷ bs) (suc i) n = b ∷ replace_at bs i n

abbrev pub without : List ℕ → ℕ → List ℕ
without [] i = []
without (b ∷ bs) zero = bs
without (b ∷ bs) (suc i) = b ∷ without bs i

-- The blocks after a call that succeeds.
abbrev pub blocks_after : Call → List ℕ → List ℕ
blocks_after (allocates n) bs = n ∷ bs
blocks_after (reallocates i n) bs = replace_at bs i n
blocks_after (frees i) bs = without bs i

unfoldable pub call : Call → LimitedAllocator → List ℕ → Result LimitError LimitedAllocator
unfolding allocate reallocate free
call (allocates n) l bs = allocate l n
call (reallocates i n) l bs = reallocate l n (get_or bs i 0)
call (frees i) l bs = ok (free l (get_or bs i 0))

abbrev pub total : List ℕ → ℕ
total [] = 0
total (b ∷ bs) = b + total bs

total-replace_at :
    (bs : List ℕ) (i n : ℕ) → total (replace_at bs i n) + get_or bs i 0 ≡ total bs + n
total-replace_at [] i n = omega arith
total-replace_at (b ∷ bs) zero n = omega arith
total-replace_at (b ∷ bs) (suc i) n = omega (arith, total-replace_at bs i n)

total-without : (bs : List ℕ) (i : ℕ) → total (without bs i) + get_or bs i 0 ≡ total bs
total-without [] i = omega arith
total-without (b ∷ bs) zero = omega arith
total-without (b ∷ bs) (suc i) = omega (arith, total-without bs i)

-- What is in use is the blocks' total, which is within the limit.
pub record Accounts (l : LimitedAllocator) (bs : List ℕ) : Type 0 where
  pub exact : l.inuse ≡ total bs
  pub within : total bs ≤ l.limit
  pub small : l.limit < 9223372036854775808

-- The sizes that a call asks for are ints.
abbrev pub IsInt : Call → Type 0
IsInt (allocates n) = n < 9223372036854775808
IsInt (reallocates i n) = n < 9223372036854775808
IsInt (frees i) = Unit

-- A call succeeds where the blocks after it are within the limit, and is refused otherwise.
pub data Answered (c : Call) (l : LimitedAllocator) (bs : List ℕ)
    : Result LimitError LimitedAllocator → Type 0 where
  granted :
      {l' : LimitedAllocator}
      → l'.limit ≡ l.limit
      → Accounts l' (blocks_after c bs)
      → Answered c l bs (ok l')
  denied : {e : LimitError} → l.limit < total (blocks_after c bs) → Answered c l bs (err e)

grow-Answered :
    (c : Call) (l : LimitedAllocator) (bs : List ℕ) (change : ℕ)
    → (l.inuse + change) % 18446744073709551616 ≡ total (blocks_after c bs)
    → l.limit < 9223372036854775808
    → Answered c l bs (grow l change)
unfolding grow
grow-Answered c l bs change e small =
    elim (Bool-cases (ltb l.limit ((l.inuse + change) % 18446744073709551616))) [
      | inl above ↦ rw (grow, above) (denied (above_limit above))
      | inr fits ↦
          rw (grow, fits) (granted refl (record { exact = e; within = below fits; small = small }))
    ]
  where
    above_limit :
        ltb l.limit ((l.inuse + change) % 18446744073709551616) ≡ true
        → l.limit < total (blocks_after c bs)
    above_limit h = ground arith

    below :
        ltb l.limit ((l.inuse + change) % 18446744073709551616) ≡ false
        → total (blocks_after c bs) ≤ l.limit
    below h = ground arith

-- With a limit below 2^63 and sizes that are ints, where the account is right before a call it is
-- right after it: Allocate and Reallocate succeed exactly when the blocks then held are within
-- the limit, Free always does, and what is in use stays the total of the blocks.
pub call-Answered :
    (c : Call) (l : LimitedAllocator) (bs : List ℕ)
    → Accounts l bs
    → IsInt c
    → Answered c l bs (call c l bs)
unfolding call grow
call-Answered (allocates n) l bs v h =
    grow-Answered (allocates n) l bs n (omega (arith, v.exact, v.within, v.small)) v.small
call-Answered (reallocates i n) l bs v h =
    grow-Answered (reallocates i n) l bs _
      (omega (arith, v.exact, v.within, v.small, total-replace_at bs i n)) v.small
call-Answered (frees i) l bs v h = granted refl (record {
  exact = omega (arith, v.exact, v.within, v.small, total-without bs i);
  within = omega (arith, v.within, total-without bs i);
  small = v.small;
})
