-- ===== src/Reconnect/Due.antt =====
-- A pause that is trimmed to a deadline, of fq/_reconnect.py.
use fq_client_py.Prelude.{
  suc, ◌≡◌, ◌⊎◌, ◌∙◌, refl, subst, Bool-cases, true, false, Option, none, some, inl, inr,
}
use fq_client_py.Errors.{Result, ok}
use fq_client_py.Floats.{Floats, min_float, max_float}
use fq_client_py.World.{World}
use fq_client_py.Reconnect.{Deadline, remaining, clamp, clock}

-- What the bounds need of the comparisons of floats. It holds where no operand is a NaN.
pub record Ordered (fl : Floats) : Type 0 where
  pub reflexive : (a : fl.F) → fl.less_eq a a ≡ true
  pub strict : (a b : fl.F) → fl.less a b ≡ true → fl.less_eq a b ≡ true
  pub total : (a b : fl.F) → fl.less a b ≡ false → fl.less_eq b a ≡ true

module _ (fl : Floats) (o : Ordered fl) where
  min_float-le_left : (a b : fl.F) → fl.less_eq (min_float fl a b) a ≡ true
  min_float-le_left a b = elim (Bool-cases (fl.less b a)) [
    | inl h ↦ rw h (o.strict b a h)
    | inr h ↦ rw h (o.reflexive a)
  ]

  min_float-le_right : (a b : fl.F) → fl.less_eq (min_float fl a b) b ≡ true
  min_float-le_right a b = elim (Bool-cases (fl.less b a)) [
    | inl h ↦ rw h (o.reflexive b)
    | inr h ↦ rw h (o.total b a h)
  ]

  max_float-nonnegative :
      (a : fl.F) → fl.less_eq fl.zero_float (max_float fl a fl.zero_float) ≡ true
  max_float-nonnegative a = elim (Bool-cases (fl.less a fl.zero_float)) [
    | inl h ↦ rw h (o.reflexive fl.zero_float)
    | inr h ↦ rw h (o.total a fl.zero_float h)
  ]

  min_float-ge :
      (c a b : fl.F)
      → fl.less_eq c a ≡ true
      → fl.less_eq c b ≡ true
      → fl.less_eq c (min_float fl a b) ≡ true
  min_float-ge c a b ha hb = elim (Bool-cases (fl.less b a)) [ inl h ↦ rw h hb | inr h ↦ rw h ha ]

  min_float-tight : (a b : fl.F) → (min_float fl a b ≡ a) ⊎ (min_float fl a b ≡ b)
  min_float-tight a b = elim (Bool-cases (fl.less b a)) [
    | inl h ↦ inr (rw h refl)
    | inr h ↦ inl (rw h refl)
  ]

  -- With time left or none: what is left of it, or zero.
  left_or_zero :
      (left : fl.F)
      → ((fl.less left fl.zero_float ≡ false) × (max_float fl left fl.zero_float ≡ left))
        ⊎ ((fl.less left fl.zero_float ≡ true) × (max_float fl left fl.zero_float ≡ fl.zero_float))
  left_or_zero left = elim (Bool-cases (fl.less left fl.zero_float)) [
    | inl h ↦ inr (h, rw h refl)
    | inr h ↦ inl (h, rw h refl)
  ]

  -- The pause of `seconds`, trimmed to the time that is left: not negative, not longer than `seconds`;
  -- not longer than the time left, or than zero where the deadline is over; and not shorter than both.
  pub record Trimmed (seconds left pause : fl.F) : Type 0 where
    pub nonnegative : fl.less_eq fl.zero_float pause ≡ true
    pub wanted : fl.less_eq pause seconds ≡ true
    pub in_time :
        ((fl.less left fl.zero_float ≡ false) × (fl.less_eq pause left ≡ true))
        ⊎ ((fl.less left fl.zero_float ≡ true) × (fl.less_eq pause fl.zero_float ≡ true))
    pub tight : (pause ≡ seconds) ⊎ ((pause ≡ left) ⊎ (pause ≡ fl.zero_float))

  -- Without a deadline the pause is `seconds` and the clock is not read.
  abbrev pub Clamped : Option fl.F → fl.F → World fl → Result fl.F × World fl → Type 0
  Clamped none seconds w r = r ≡ (ok seconds, w)
  Clamped (some at) seconds w r =
      (pause : fl.F) × (r ≡ (ok pause, record w { reads = suc w.reads }))
      × Trimmed seconds (fl.sub at (w.time w.reads)) pause

  trim-Trimmed :
      (seconds left : fl.F)
      → fl.less_eq fl.zero_float seconds ≡ true
      → Trimmed seconds left (min_float fl seconds (max_float fl left fl.zero_float))
  trim-Trimmed seconds left h =
      let most = max_float fl left fl.zero_float in
      let pause = min_float fl seconds most in
      record {
        nonnegative = min_float-ge fl.zero_float seconds most h (max_float-nonnegative left);
        wanted = min_float-le_left seconds most;
        in_time = elim (left_or_zero left) [
          | inl (sign, same) ↦
              inl (
                sign,
                subst (λ m. fl.less_eq pause m ≡ true) same (min_float-le_right seconds most),
              )
          | inr (sign, same) ↦
              inr (
                sign,
                subst (λ m. fl.less_eq pause m ≡ true) same (min_float-le_right seconds most),
              )
        ];
        tight = elim (min_float-tight seconds most) [
          | inl e ↦ inl e
          | inr e ↦ inr (elim (left_or_zero left) [
            | inl (sign, same) ↦ inl (e ∙ same)
            | inr (sign, same) ↦ inr (e ∙ same)
          ])
        ];
      }

  clamped :
      (at : Option fl.F) (seconds : fl.F) (w : World fl)
      → fl.less_eq fl.zero_float seconds ≡ true
      → Clamped at seconds w (clamp fl (record { deadline = at }) seconds w)
  unfolding clamp remaining clock
  clamped none seconds w h = refl
  clamped (some at) seconds w h = (
    min_float fl seconds (max_float fl (fl.sub at (w.time w.reads)) fl.zero_float),
    refl,
    trim-Trimmed seconds (fl.sub at (w.time w.reads)) h,
  )

  -- On ordered floats, `clamp` of a pause that is not negative: without a deadline it returns the pause
  -- and reads no clock. With one it reads the clock once, and returns a pause that is not negative, not
  -- longer than the one asked for, and not longer than the time left, or than zero if the deadline is
  -- over; and that is the one asked for, the time left, or zero.
  pub clamp-Clamped :
      (d : Deadline fl) (seconds : fl.F) (w : World fl)
      → fl.less_eq fl.zero_float seconds ≡ true
      → Clamped d.deadline seconds w (clamp fl d seconds w)
  clamp-Clamped d seconds w h = clamped d.deadline seconds w h
