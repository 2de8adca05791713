-- ===== src/Python/Utf8/Laws.antt =====
-- Laws of UTF-8: what is encoded is decoded to itself, and what is decoded can be encoded.
use fq_client_py.Prelude.{
  subst, ℕ, zero, suc, ◌+◌, ◌-◌, ◌*◌, ◌/◌, ◌%◌, ◌≤◌, ◌<◌, ◌≡◌, refl, ap, ◌∙◌, [], ◌∷◌, ◌++◌, Str,
  Bytes, arith, All, IsScalar, IsAscii, ◌≢◌, inl, inr, append_assoc, append-nil, All-append,
}
use fq_client_py.Errors.{Exn, Result, ok, raise, bind-eq-ok, Result-cases}
use fq_client_py.Python.Split.Laws.{Lacks}
use fq_client_py.Python.Utf8.{
  encode_char, encode, decode, decode_from, start, inside, low_three, high_three, low_four,
  high_four,
}

-- The numbers that a Python text is made of.
abbrev pub IsCodePoint : ℕ → Type 0
IsCodePoint c = c < 0x110000

decode_one :
    (b : ℕ) (rest : Bytes) → b < 0x80 → decode_from start (b ∷ rest) ≡ b ∷ decode_from start rest
unfolding decode_from
decode_one b rest h = ground arith

decode_two :
    (c : ℕ) (rest : Bytes)
    → 0x80 ≤ c
    → c < 0x800
    → decode_from start ((0xc0 + c / 64) ∷ (0x80 + c % 64) ∷ rest) ≡ c ∷ decode_from start rest
unfolding decode_from
decode_two c rest h k = ground arith

-- A byte within the bounds goes on, or completes the character.
decode_next :
    (more acc low high b : ℕ) (bs : Bytes)
    → low ≤ b
    → b ≤ high
    → decode_from (inside (suc more) acc low high) (b ∷ bs)
      ≡ decode_from (inside more (acc * 64 + (b - 0x80)) 0x80 0xbf) bs
unfolding decode_from
decode_next more acc low high b bs h k = ground arith

decode_last :
    (acc low high b : ℕ) (bs : Bytes)
    → low ≤ b
    → b ≤ high
    → decode_from (inside zero acc low high) (b ∷ bs)
      ≡ (acc * 64 + (b - 0x80)) ∷ decode_from start bs
unfolding decode_from
decode_last acc low high b bs h k = ground arith

lead_three :
    (b : ℕ) (bs : Bytes)
    → 0xe0 ≤ b
    → b < 0xf0
    → decode_from start (b ∷ bs) ≡ decode_from (inside 1 (b - 0xe0) (low_three b) (high_three b)) bs
unfolding decode_from
lead_three b bs h k = ground arith

lead_four :
    (b : ℕ) (bs : Bytes)
    → 0xf0 ≤ b
    → b < 0xf5
    → decode_from start (b ∷ bs) ≡ decode_from (inside 2 (b - 0xf0) (low_four b) (high_four b)) bs
unfolding decode_from
lead_four b bs h k = ground arith

bounds_three :
    (c : ℕ)
    → 0x800 ≤ c
    → IsScalar c
    → c < 0x10000
    → (low_three (0xe0 + c / 4096) ≤ 0x80 + c / 64 % 64)
      × (0x80 + c / 64 % 64 ≤ high_three (0xe0 + c / 4096))
unfolding low_three high_three
bounds_three c h k l = ground arith

bounds_four :
    (c : ℕ)
    → 0x10000 ≤ c
    → c < 0x110000
    → (low_four (0xf0 + c / 262144) ≤ 0x80 + c / 4096 % 64)
      × (0x80 + c / 4096 % 64 ≤ high_four (0xf0 + c / 262144))
unfolding low_four high_four
bounds_four c h k = ground arith

decode_three :
    (c : ℕ) (rest : Bytes)
    → 0x800 ≤ c
    → IsScalar c
    → c < 0x10000
    → decode_from start ((0xe0 + c / 4096) ∷ (0x80 + c / 64 % 64) ∷ (0x80 + c % 64) ∷ rest)
      ≡ c ∷ decode_from start rest
decode_three c rest h k l =
    let (lo, hi) = bounds_three c h k l in
    lead_three _ _ (omega arith) (omega arith)
    ∙ decode_next 0 _ _ _ _ _ lo hi
    ∙ decode_last _ 0x80 0xbf _ _ (omega arith) (omega arith)
    ∙ ap (λ d. d ∷ decode_from start rest) (omega arith)

decode_four :
    (c : ℕ) (rest : Bytes)
    → 0x10000 ≤ c
    → c < 0x110000
    → decode_from start (
        (0xf0 + c / 262144)
        ∷ (0x80 + c / 4096 % 64)
        ∷ (0x80 + c / 64 % 64)
        ∷ (0x80 + c % 64)
        ∷ rest)
      ≡ c ∷ decode_from start rest
decode_four c rest h k =
    let (lo, hi) = bounds_four c h k in
    lead_four _ _ (omega arith) (omega arith)
    ∙ decode_next 1 _ _ _ _ _ lo hi
    ∙ decode_next 0 _ 0x80 0xbf _ _ (omega arith) (omega arith)
    ∙ decode_last _ 0x80 0xbf _ _ (omega arith) (omega arith)
    ∙ ap (λ d. d ∷ decode_from start rest) (omega arith)

decode-encode_char :
    (c : ℕ) (b rest : Bytes)
    → IsCodePoint c
    → encode_char c ≡ ok b
    → decode_from start (b ++ rest) ≡ c ∷ decode_from start rest
unfolding encode_char
decode-encode_char c b rest h e =
    ground (arith, decode_one c rest, decode_two c rest, decode_three c rest, decode_four c rest)

encode-cons :
    (c : ℕ) (s : Str) {r : Bytes}
    → encode (c ∷ s) ≡ ok r
    → (b : Bytes) × (bs : Bytes) × (encode_char c ≡ ok b) × (encode s ≡ ok bs) × (b ++ bs ≡ r)
unfolding encode
encode-cons c s e =
    let (b, eb, rest) = bind-eq-ok (encode_char c) _ e in
    let (bs, ebs, e') = bind-eq-ok (encode s) _ rest in (b, bs, eb, ebs, cc)

pub decode_from-encode :
    (s : Str) (b rest : Bytes)
    → All IsCodePoint s
    → encode s ≡ ok b
    → decode_from start (b ++ rest) ≡ s ++ decode_from start rest
decode_from-encode [] b rest h e = unfold encode in ground arith
decode_from-encode (c ∷ s) b rest h e =
    let (b1, bs, e1, es, eb) = encode-cons c s e in
    rw (← eb, append_assoc b1 bs rest, decode-encode_char c b1 (bs ++ rest) h.0 e1)
      (ap (λ r. c ∷ r) (decode_from-encode s bs rest h.1 es))

pub decode-encode : (s : Str) (b : Bytes) → All IsCodePoint s → encode s ≡ ok b → decode b ≡ s
unfolding decode decode_from
decode-encode s b h e = rw (append-nil b) at (rw (append-nil s) at (decode_from-encode s b [] h e))

encode_char-ne-raise : (c : ℕ) (e : Exn) → IsScalar c → encode_char c ≢ raise e
unfolding encode_char
encode_char-ne-raise c e h = ground arith

encode_char-scalar : (c : ℕ) → IsScalar c → (b : Bytes) × (encode_char c ≡ ok b)
encode_char-scalar c h = elim (Result-cases (encode_char c)) [
  | inl found ↦ found
  | inr (e, r) ↦ absurd (encode_char-ne-raise c e h r)
]

encode_cons :
    (c : ℕ) (s : Str) {b bs : Bytes}
    → encode_char c ≡ ok b
    → encode s ≡ ok bs
    → encode (c ∷ s) ≡ ok (b ++ bs)
unfolding encode
encode_cons c s eb es = rw (eb, es)

encode-nil : encode [] ≡ ok []
unfolding encode
encode-nil = refl

-- A text without surrogates is encoded.
pub encode-scalar : (s : Str) → All IsScalar s → (b : Bytes) × (encode s ≡ ok b)
encode-scalar [] h = ([], encode-nil)
encode-scalar (c ∷ s) h =
    let (b, eb) = encode_char-scalar c h.0 in
    let (bs, es) = encode-scalar s h.1 in (b ++ bs, encode_cons c s eb es)

scalar_code_points : (s : Str) → All IsScalar s → All IsCodePoint s
scalar_code_points [] h = tt
scalar_code_points (c ∷ s) h = (omega (arith, h.0), scalar_code_points s h.1)

-- The encoding of a text without surrogates.
abbrev or_empty : Result Bytes → Bytes
or_empty (ok b) = b
or_empty (raise e) = []

unfoldable pub utf8 : Str → Bytes
utf8 s = or_empty (encode s)

pub encode-utf8 : (s : Str) → All IsScalar s → encode s ≡ ok (utf8 s)
unfolding utf8
encode-utf8 s h = let (b, e) = encode-scalar s h in rw e

pub decode-utf8 : (s : Str) → All IsScalar s → decode (utf8 s) ≡ s
decode-utf8 s h = decode-encode s (utf8 s) (scalar_code_points s h) (encode-utf8 s h)

-- An ASCII symbol stands in the encoding only where it stands in the text.
encode_char-Lacks :
    (sep c : ℕ) (b : Bytes) → IsAscii sep → c ≢ sep → encode_char c ≡ ok b → Lacks sep b
unfolding encode_char
encode_char-Lacks sep c b h k e = ground arith

pub encode-Lacks :
    (sep : ℕ) (s : Str) (b : Bytes) → IsAscii sep → Lacks sep s → encode s ≡ ok b → Lacks sep b
encode-Lacks sep [] b h k e = unfold encode in ground arith
encode-Lacks sep (c ∷ s) b h k e =
    let (b1, bs, e1, es, eb) = encode-cons c s e in
    subst (Lacks sep) eb (
      All-append (λ c. c ≢ sep) b1 bs (encode_char-Lacks sep c b1 h k.0 e1)
        (encode-Lacks sep s bs h k.1 es))
