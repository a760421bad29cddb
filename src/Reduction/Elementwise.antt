-- ===== src/Reduction/Elementwise.antt =====
-- What `reduce_in_place` computes: the operation at each element, and nothing elsewhere.
use comm_workshop_final.Prelude.{
  ℕ, zero, suc, ◌+◌, ◌-◌, ◌<◌, ◌≡◌, refl, ap, false, Option, none, some, if◌then◌else◌, ◌==◌, ◌≢◌,
  arith,
}
use comm_workshop_final.Types.{
  Datatype, int32, float32, float64, unknown_datatype, Operation, sum, minimum, maximum,
  unknown_operation, Status, success, err_unsupported_datatype, err_invalid_argument,
  err_unsupported_operation,
}
use comm_workshop_final.Memory.{Buffer, Scalars, store, within, splice, Buffer-ext}
use comm_workshop_final.Reduction.{
  block_of, reduce_loop, std_min, std_max, reduce_cases, reduce_typed, reduce_in_place,
}

-- The operation that the code applies to two elements, the local one first.
unfoldable pub combine : (s : Scalars) → Datatype → Operation → s.Elem → s.Elem → s.Elem
combine s datatype sum a b = s.add datatype a b
combine s datatype minimum a b = if s.less datatype b a then b else a
combine s datatype maximum a b = if s.less datatype a b then b else a
combine s datatype (unknown_operation n) a b = a

abbrev pub KnownDatatype : Datatype → Type 0
KnownDatatype (unknown_datatype n) = ⊥
KnownDatatype datatype = Unit {0}

abbrev pub KnownOperation : Operation → Type 0
KnownOperation (unknown_operation n) = ⊥
KnownOperation operation = Unit {0}

-- One round of the loop at one index.
reduce_loop-at :
    {E : Type 0} (f : E → E → E) (rounds i : ℕ) (destination : Buffer E) (to : ℕ)
    (source : Buffer E) (from j : ℕ)
    → (reduce_loop f rounds i destination to source from).at j ≡ (
        if within (to + i) rounds j
        then f (destination.at j) (source.at (from + (j - to)))
        else destination.at j)
unfolding reduce_loop
reduce_loop-at f zero i destination to source from j = ground arith
reduce_loop-at f (suc rounds) i destination to source from j = ground (
  arith,
  reduce_loop-at f rounds (i + 1)
      (store destination (to + i) (f (destination.at (to + i)) (source.at (from + i)))) to source
      from j,
)

reduce_loop-size :
    {E : Type 0} (f : E → E → E) (rounds i : ℕ) (destination : Buffer E) (to : ℕ)
    (source : Buffer E) (from : ℕ)
    → (reduce_loop f rounds i destination to source from).size ≡ destination.size
unfolding reduce_loop
reduce_loop-size f zero i destination to source from = refl
reduce_loop-size f (suc rounds) i destination to source from =
    reduce_loop-size f rounds (i + 1) _ to source from

reduce_loop-splice :
    {E : Type 0} (f : E → E → E) (count : ℕ) (destination : Buffer E) (to : ℕ) (source : Buffer E)
    (from : ℕ)
    → reduce_loop f count 0 destination to source from
      ≡ splice destination to count (λ k. f (destination.at (to + k)) (source.at (from + k)))
reduce_loop-splice f count destination to source from =
    Buffer-ext _ _ (reduce_loop-size f count 0 destination to source from)
      (λ j. ground (arith, reduce_loop-at f count 0 destination to source from j))

-- The block after `count` elements from `to` on were combined with those from `from` on.
abbrev pub reduced :
    (s : Scalars) → Datatype → Operation → ℕ → Buffer s.Elem → ℕ → Buffer s.Elem → ℕ → Buffer s.Elem
reduced s datatype operation count destination to source from =
    splice destination to count
      (λ k. combine s datatype operation (destination.at (to + k)) (source.at (from + k)))

reduce_cases-reduced :
    (s : Scalars) (datatype : Datatype) (operation : Operation) (count : ℕ)
    (destination : Buffer s.Elem) (to : ℕ) (source : Buffer s.Elem) (from : ℕ)
    → KnownOperation operation
    → reduce_cases s datatype operation count destination to source from
      ≡ (success, reduced s datatype operation count destination to source from)
unfolding reduce_cases combine
reduce_cases-reduced s datatype sum count destination to source from k =
    rw (reduce_loop-splice (s.add datatype) count destination to source from)
reduce_cases-reduced s datatype minimum count destination to source from k =
    rw (reduce_loop-splice (std_min (s.less datatype)) count destination to source from)
reduce_cases-reduced s datatype maximum count destination to source from k =
    rw (reduce_loop-splice (std_max (s.less datatype)) count destination to source from)
reduce_cases-reduced s datatype (unknown_operation n) count destination to source from k =
    elim k [ ]

nonzero : (count : ℕ) → (suc count == 0) ≡ false
nonzero count = ground arith

nonzero_status :
    (count : ℕ) → (if suc count == 0 then success else err_invalid_argument) ≡ err_invalid_argument
nonzero_status count = rw (nonzero count)

-- With a known datatype and operation and both pointers set, `reduce_in_place` succeeds: it
-- replaces each of the `count` elements behind the destination pointer by the operation at it and
-- its counterpart, and nothing else.
pub reduce_in_place-reduced :
    (s : Scalars) (datatype : Datatype) (operation : Operation) (count : ℕ)
    (destination : Buffer s.Elem) (to : ℕ) (source : Buffer s.Elem) (from : ℕ)
    → KnownDatatype datatype
    → KnownOperation operation
    → reduce_in_place s (some (destination, to)) (some (source, from)) count datatype operation
      ≡ (success, some (reduced s datatype operation count destination to source from))
unfolding reduce_in_place
reduce_in_place-reduced s datatype operation zero destination to source from d o =
    ap (λ (b : Buffer s.Elem). (success, some b))
      (Buffer-ext destination (reduced s datatype operation 0 destination to source from) refl
        (λ j. ground arith))
reduce_in_place-reduced s int32 operation (suc count) destination to source from d o =
    rw (
      nonzero count,
      reduce_cases-reduced s int32 operation (suc count) destination to source from o,
    )
reduce_in_place-reduced s float32 operation (suc count) destination to source from d o = rw (
  nonzero count,
  reduce_cases-reduced s float32 operation (suc count) destination to source from o,
)
reduce_in_place-reduced s float64 operation (suc count) destination to source from d o = rw (
  nonzero count,
  reduce_cases-reduced s float64 operation (suc count) destination to source from o,
)
reduce_in_place-reduced s (unknown_datatype n) operation (suc count) destination to source from d
      o =
    elim d [ ]

-- What the caller is told: the datatype is looked at first, then the pointers, then the operation.
abbrev pub status_of :
    {E : Type 0} → Datatype → Option (Buffer E × ℕ) → Option (Buffer E × ℕ) → Operation → Status
status_of (unknown_datatype n) destination source operation = err_unsupported_datatype
status_of datatype none source operation = err_invalid_argument
status_of datatype (some d) none operation = err_invalid_argument
status_of datatype (some d) (some s) (unknown_operation n) = err_unsupported_operation
status_of datatype destination source operation = success

-- A call's status, and that the destination is as before when the status is an error.
abbrev Reports : {E : Type 0} → Status → Option (Buffer E) → Status × Option (Buffer E) → Type 0
Reports status before result = (result.0 ≡ status) × (status ≢ success → result.1 ≡ before)

reduce_typed-status :
    (s : Scalars) (datatype : Datatype) (operation : Operation) (count : ℕ)
    (destination source : Option (Buffer s.Elem × ℕ))
    → KnownDatatype datatype
    → Reports
        (status_of datatype destination source operation)
        (block_of destination)
        (reduce_typed s datatype destination source (suc count) operation)
unfolding reduce_typed
reduce_typed-status s (unknown_datatype n) operation count destination source d = elim d [ ]
reduce_typed-status s datatype operation count none source d = (nonzero_status count, λ h. refl)
reduce_typed-status s datatype operation count (some (b, to)) none d =
    (nonzero_status count, λ h. refl)
reduce_typed-status s datatype (unknown_operation n) count (some (b, to)) (some (c, from)) d =
    (refl, λ h. refl)
reduce_typed-status s datatype operation count (some (b, to)) (some (c, from)) d =
    (refl, λ h. absurd (h refl))

-- With elements to reduce, the status reports an unknown datatype first, then a null pointer, then
-- an unknown operation, and success otherwise; with an error nothing is written.
pub reduce_in_place-status :
    (s : Scalars) (datatype : Datatype) (operation : Operation) (count : ℕ)
    (destination source : Option (Buffer s.Elem × ℕ))
    → 0 < count
    → let (status, result) = reduce_in_place s destination source count datatype operation in
      (status ≡ status_of datatype destination source operation)
      × (status_of datatype destination source operation ≢ success → result ≡ block_of destination)
unfolding reduce_in_place
reduce_in_place-status s datatype operation zero destination source h = absurd (omega arith)
reduce_in_place-status s (unknown_datatype n) operation (suc count) destination source h =
    rw (nonzero count) (refl, λ h. refl)
reduce_in_place-status s int32 operation (suc count) destination source h =
    rw (nonzero count) (reduce_typed-status s int32 operation count destination source tt)
reduce_in_place-status s float32 operation (suc count) destination source h =
    rw (nonzero count) (reduce_typed-status s float32 operation count destination source tt)
reduce_in_place-status s float64 operation (suc count) destination source h =
    rw (nonzero count) (reduce_typed-status s float64 operation count destination source tt)
