-- ===== src/Reduction.antt =====
-- src/reduction_ops.cpp: element sizes, and the reduction of one array into another.
pub mod Elementwise
use comm_workshop_final.Prelude.{ℕ, zero, suc, ◌+◌, Bool, Option, none, some, if◌then◌else◌, ◌==◌}
use comm_workshop_final.Types.{
  Datatype, int32, float32, float64, unknown_datatype, Operation, sum, minimum, maximum,
  unknown_operation, Status, success, err_invalid_argument, err_unsupported_datatype,
  err_unsupported_operation,
}
use comm_workshop_final.Memory.{Buffer, Scalars, store}

-- In bytes; 0 for an unknown datatype.
unfoldable pub datatype_size : Datatype → ℕ
datatype_size int32 = 4
datatype_size float32 = 4
datatype_size float64 = 8
datatype_size (unknown_datatype n) = 0

-- `std::min(a, b)` and `std::max(a, b)` by `<`: the first argument where neither is less.
pub std_min : {E : Type 0} → (E → E → Bool) → E → E → E
std_min less a b = if less b a then b else a

pub std_max : {E : Type 0} → (E → E → Bool) → E → E → E
std_max less a b = if less a b then b else a

-- `for (i = 0; i < count; ++i) destination[i] = f(destination[i], source[i]);` with the rounds left
-- and `i` first. A pointer is a block and an index into it.
reduce_loop : {E : Type 0} → (E → E → E) → ℕ → ℕ → Buffer E → ℕ → Buffer E → ℕ → Buffer E
reduce_loop f zero i destination to source from = destination
reduce_loop f (suc rounds) i destination to source from =
    reduce_loop f rounds (i + 1)
      (store destination (to + i) (f (destination.at (to + i)) (source.at (from + i)))) to source
      from

reduce_cases :
    (s : Scalars)
    → Datatype
    → Operation
    → ℕ
    → Buffer s.Elem
    → ℕ
    → Buffer s.Elem
    → ℕ
    → Status × Buffer s.Elem
unfolding reduce_loop std_min std_max
reduce_cases s datatype sum count destination to source from =
    (success, reduce_loop (s.add datatype) count 0 destination to source from)
reduce_cases s datatype minimum count destination to source from =
    (success, reduce_loop (std_min (s.less datatype)) count 0 destination to source from)
reduce_cases s datatype maximum count destination to source from =
    (success, reduce_loop (std_max (s.less datatype)) count 0 destination to source from)
reduce_cases s datatype (unknown_operation n) count destination to source from =
    (err_unsupported_operation, destination)

-- A null pointer is `none`. The result is the status and the destination's block.
pub reduce_typed :
    (s : Scalars)
    → Datatype
    → Option (Buffer s.Elem × ℕ)
    → Option (Buffer s.Elem × ℕ)
    → ℕ
    → Operation
    → Status × Option (Buffer s.Elem)
unfolding reduce_cases
reduce_typed s datatype none source count operation =
    (if count == 0 then success else err_invalid_argument, none)
reduce_typed s datatype (some (destination, to)) none count operation =
    (if count == 0 then success else err_invalid_argument, some destination)
reduce_typed s datatype (some (destination, to)) (some (source, from)) count operation =
    let (status, result) = reduce_cases s datatype operation count destination to source from in
    (status, some result)

-- The block that a pointer points into.
abbrev pub block_of : {E : Type 0} → Option (Buffer E × ℕ) → Option (Buffer E)
block_of none = none
block_of (some (b, i)) = some b

reduce_switch :
    (s : Scalars)
    → Datatype
    → Option (Buffer s.Elem × ℕ)
    → Option (Buffer s.Elem × ℕ)
    → ℕ
    → Operation
    → Status × Option (Buffer s.Elem)
unfolding reduce_typed
reduce_switch s (unknown_datatype n) destination source count operation =
    (err_unsupported_datatype, block_of destination)
reduce_switch s datatype destination source count operation =
    reduce_typed s datatype destination source count operation

unfoldable pub reduce_in_place :
    (s : Scalars)
    → Option (Buffer s.Elem × ℕ)
    → Option (Buffer s.Elem × ℕ)
    → ℕ
    → Datatype
    → Operation
    → Status × Option (Buffer s.Elem)
unfolding reduce_switch
reduce_in_place s destination source count datatype operation =
    if count == 0
    then (success, block_of destination)
    else reduce_switch s datatype destination source count operation
