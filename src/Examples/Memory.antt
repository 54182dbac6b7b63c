-- ===== src/Examples/Memory.antt =====
-- Calls of the limited allocator.
use otel_arrow_adapter.Base.{◌≡◌, refl, [], ◌∷◌, arith, ok, err}
use otel_arrow_adapter.Memory.Allocator.{
  LimitedAllocator, reallocates, allocates, call, Accounts, Answered, call-Answered,
}

-- Ten of sixteen bytes are in use, by two blocks.
abbrev allocator : LimitedAllocator
allocator = record { inuse = 10; limit = 16 }

allocator-Accounts : Accounts allocator (7 ∷ 3 ∷ [])
allocator-Accounts = record { exact = omega arith; within = omega arith; small = omega arith }

shrunk : call (reallocates 0 2) allocator (7 ∷ 3 ∷ []) ≡ ok (record allocator { inuse = 5 })
unfolding call
shrunk = refl

over_limit :
    call (allocates 7) allocator (7 ∷ 3 ∷ [])
    ≡ err (record { request = 7; error_inuse = 10; error_limit = 16 })
unfolding call
over_limit = refl

call-Answered_example :
    Answered
      (reallocates 0 2)
      allocator
      (7 ∷ 3 ∷ [])
      (call (reallocates 0 2) allocator (7 ∷ 3 ∷ []))
call-Answered_example =
    call-Answered (reallocates 0 2) allocator (7 ∷ 3 ∷ []) allocator-Accounts (omega arith)
