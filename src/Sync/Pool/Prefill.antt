-- ===== src/Sync/Pool/Prefill.antt =====
-- `prefill` of fq/sync/pool.py, on a pool that is new.
use fq_client_py.Prelude.{
  ℕ, zero, suc, ◌+◌, ◌≡◌, refl, ap, subst, if◌then◌else◌, false, ltb, ap₂, sym, ◌∙◌, append-nil,
  append_assoc, List, [], ◌∷◌, ◌++◌, Option, none, some, map, replicate, length, length-replicate,
  arith,
}
use fq_client_py.Errors.{Exn, Result, ok, raise, value_error}
use fq_client_py.Sync.Pool.{Pool, drop_slot, new_pool, filled, fill, prefill, put_empty}

module _ {C : Type 0} where
  pub length-put_empty : (n : ℕ) (p : Pool C) → length (put_empty n p).slots ≡ n + length p.slots
  length-put_empty zero p = omega arith
  length-put_empty (suc n) p =
      omega (arith, length-put_empty n (record p { slots = none ∷ p.slots }))

  pub size-put_empty : (n : ℕ) (p : Pool C) → (put_empty n p).size ≡ p.size
  size-put_empty zero p = refl
  size-put_empty (suc n) p = size-put_empty n (record p { slots = none ∷ p.slots })

  -- The loop up to the first failure, and the slots that are left.
  fill-raise :
      (n left : ℕ) (cs : List C) (e : Exn) (rest : List (Result C)) (opened : List C) (p : Pool C)
      → p.slots ≡ replicate (suc n) none
      → n ≡ length cs + left
      → fill (map ok cs ++ raise e ∷ rest) opened p
        ≡ ((some e, opened ++ cs), record p { slots = replicate left none })
  unfolding fill
  fill-raise n left [] e rest opened p h k =
      let same : (n ≡ left) = omega (arith, k) in
      ap₂ (λ o q. ((some e, o), record p { slots = q })) (sym (append-nil opened))
        (ap drop_slot h ∙ ap (λ m. replicate m none) same)
  fill-raise zero left (c ∷ cs) e rest opened p h k = absurd (omega (arith, k))
  fill-raise (suc n) left (c ∷ cs) e rest opened p h k =
      fill-raise n left cs e rest (opened ++ c ∷ []) (record p { slots = drop_slot p.slots })
        (ap drop_slot h) (omega (arith, k))
      ∙ ap (λ o. ((some e, o), record p { slots = replicate left none }))
          (append_assoc opened (c ∷ []) cs)

  -- If the factory fails after some connections of a new pool were made, and fewer than its size,
  -- `prefill` raises what the factory raised, and leaves the pool with one slot less than its size.
  pub prefill_loses_slot :
      (left : ℕ) (cs : List C) (e : Exn) (rest : List (Result C)) (p : Pool C)
      → new_pool (suc (length cs + left)) ≡ ok p
      → (q : Pool C) × (prefill (map ok cs ++ raise e ∷ rest) p ≡ (raise e, q))
        × (suc (length q.slots) ≡ q.size)
  unfolding new_pool prefill
  prefill_loses_slot left cs e rest p made =
      let size = suc (length cs + left) in
      let fresh : (p ≡ record { size = size; slots = replicate size none; is_closed = false }) =
        (let small : (ltb size 1 ≡ false) = ground arith in
          let same =
            subst
              (λ b.
                (if b
                  then raise value_error
                  else ok (record { size = size; slots = replicate size none; is_closed = false }))
                ≡ ok p)
              small made in
          cc same) in
      let run = fill-raise (length cs + left) left cs e rest [] p (ap (λ q. q.slots) fresh) refl in
      let end = record p { slots = replicate left none } in
      (
        put_empty (length cs) end,
        ap filled run,
        omega (
          arith,
          length-put_empty (length cs) end,
          length-replicate {A = Option C} left none,
          size-put_empty (length cs) end,
          ap (λ q. q.size) fresh,
        ),
      )
