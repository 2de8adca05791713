-- ===== src/Commands/Values.antt =====
-- The local range check of fq/_commands.py.
use fq_client_py.Prelude.{
  ◌⊎◌, inl, inr, refl, ◌≤◌, ◌≡◌, List, [], ◌∷◌, Option, Str, ℤ, pos, negsuc, All, arith,
}
use fq_client_py.Errors.{Exn, Result, ok, raise, ◌>>=◌, ◌>>◌, value_out_of_range_error}
use fq_client_py.Types.{CappingKey, LimitKey, max_value}
use fq_client_py.Commands.{
  Command, check_values, incrby, rlimit_fixed_window, rlimit_sliding_window, rlimit_token_bucket,
  quota_set, quota_set_n, quota_acquire, quota_acquire_lease,
}

-- A value that the server accepts: 0 to MAX_VALUE.
abbrev pub InRange : ℤ → Type 0
InRange (pos n) = n ≤ max_value
InRange (negsuc n) = ⊥

pub check_values-cases :
    (vs : List ℤ)
    → (check_values vs ≡ ok tt) × All InRange vs
      ⊎ (check_values vs ≡ raise value_out_of_range_error) × ¬ (All InRange vs)
unfolding check_values
check_values-cases [] = inl (refl, tt)
check_values-cases (pos n ∷ vs) = ground (arith, check_values-cases vs)
check_values-cases (negsuc n ∷ vs) = inr (refl, λ h. h.0)

-- A command that is refused for a value out of range, and built only with values in range.
abbrev pub Checked : List ℤ → Result Command → Type 0
Checked vs r =
    (¬ (All InRange vs) → r ≡ raise value_out_of_range_error)
    × ((c : Command) → r ≡ ok c → All InRange vs)

raise-ne-ok : (e : Exn) (c : Command) → ¬ (raise e ≡ ok c)
raise-ne-ok e c h = cc

check_values-Checked : (vs : List ℤ) (m : Result Command) → Checked vs (check_values vs >> m)
check_values-Checked vs m = elim (check_values-cases vs) [
  | inl (e, h) ↦ (λ out. absurd (out h), λ c k. h)
  | inr (e, h) ↦ (λ out. rw e, λ c k. absurd (raise-ne-ok _ c (rw (e, ◌>>=◌) at k)))
]

module _ (key : CappingKey) (limiter : LimitKey) (name client_id : Str) (ttl : Option ℤ) where
  -- Each of the eight commands that take a counter value, a limit, a capacity or an amount refuses
  -- one outside 0 to MAX_VALUE with ValueOutOfRangeError, and gives a command only if all of them lie
  -- inside. The windows, the number of clients and the time to live are not checked.
  pub values-Checked :
      (value amount clients : ℤ)
      → Checked (value ∷ []) (incrby key value)
        × Checked (value ∷ []) (rlimit_fixed_window limiter value)
        × Checked (value ∷ []) (rlimit_sliding_window limiter value)
        × Checked (value ∷ amount ∷ []) (rlimit_token_bucket limiter value amount)
        × Checked (value ∷ []) (quota_set name value)
        × Checked (value ∷ []) (quota_set_n name value clients)
        × Checked (amount ∷ []) (quota_acquire name amount client_id ttl)
        × Checked (value ∷ amount ∷ []) (quota_acquire_lease name value amount client_id ttl)
  unfolding incrby rlimit_fixed_window rlimit_sliding_window rlimit_token_bucket quota_set
      quota_set_n quota_acquire quota_acquire_lease
  values-Checked value amount clients = (
    check_values-Checked _ _,
    check_values-Checked _ _,
    check_values-Checked _ _,
    check_values-Checked _ _,
    check_values-Checked _ _,
    check_values-Checked _ _,
    check_values-Checked _ _,
    check_values-Checked _ _,
  )
