-- ===== src/Python/Utf8/Scalars.antt =====
-- The decoder of UTF-8 and the surrogates, which are no characters.
use fq_client_py.Prelude.{
  ℕ, zero, suc, ◌+◌, ◌-◌, ◌*◌, ◌≤◌, ◌<◌, ◌≡◌, [], ◌∷◌, Bytes, arith, All, IsScalar, ◌⊎◌, All-append,
}
use fq_client_py.Python.Utf8.{
  decode, decode_from, Decoder, start, inside, step, first, accept, low_three, high_three, low_four,
  high_four,
}

-- What the decoder has seen never completes to a surrogate or to a number that is too large.
abbrev Sound : Decoder → Type 0
Sound start = Unit {0}
Sound (inside zero acc low high) =
    (0x80 ≤ low) × (high ≤ 0xbf) × ((acc < 864) ⊎ ((896 ≤ acc) × (acc < 17408)))
Sound (inside (suc zero) acc low high) =
    (0x80 ≤ low)
    × (high ≤ 0xbf)
    × ((acc < 13) ⊎ ((acc ≡ 13) × (high ≤ 0x9f)) ⊎ ((14 ≤ acc) × (acc < 272)))
Sound (inside (suc (suc zero)) acc low high) =
    (0x80 ≤ low)
    × (high ≤ 0xbf)
    × (((acc ≡ 0) × (0x90 ≤ low)) ⊎ ((1 ≤ acc) × (acc < 4)) ⊎ ((acc ≡ 4) × (high ≤ 0x8f)))
Sound (inside (suc (suc (suc more))) acc low high) = ⊥

first-Sound : (b : ℕ) → All IsScalar (first b).0 × Sound (first b).1
unfolding first low_three high_three low_four high_four
first-Sound b = ground arith

accept-Sound :
    (more acc low high b : ℕ)
    → Sound (inside more acc low high)
    → low ≤ b
    → b ≤ high
    → let (out, d) = accept more (acc * 64 + (b - 0x80)) in All IsScalar out × Sound d
accept-Sound zero acc low high b s h k = ground arith
accept-Sound (suc zero) acc low high b s h k = ground arith
accept-Sound (suc (suc zero)) acc low high b s h k = ground arith
accept-Sound (suc (suc (suc more))) acc low high b s h k = absurd s

step-Sound : (d : Decoder) (b : ℕ) → Sound d → All IsScalar (step d b).0 × Sound (step d b).1
step-Sound start b s = unfold step in first-Sound b
step-Sound (inside more acc low high) b s =
    unfold step in ground (arith, first-Sound b, accept-Sound more acc low high b s)

decode_from-IsScalar : (bs : Bytes) (d : Decoder) → Sound d → All IsScalar (decode_from d bs)
unfolding decode_from
decode_from-IsScalar [] start s = tt
decode_from-IsScalar [] (inside more acc low high) s = (omega arith, tt)
decode_from-IsScalar (b ∷ bs) start s =
    let (out, next) = step-Sound start b s in
    All-append IsScalar _ _ out (decode_from-IsScalar bs _ next)
decode_from-IsScalar (b ∷ bs) (inside more acc low high) s =
    let (out, next) = step-Sound (inside more acc low high) b s in
    All-append IsScalar _ _ out (decode_from-IsScalar bs _ next)

-- Whatever the bytes, the decoded text has no surrogates.
pub decode-IsScalar : (bs : Bytes) → All IsScalar (decode bs)
unfolding decode
decode-IsScalar bs = decode_from-IsScalar bs start tt
