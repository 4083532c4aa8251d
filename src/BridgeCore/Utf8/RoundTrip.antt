-- ===== src/BridgeCore/Utf8/RoundTrip.antt =====
-- `decode_utf8` accepts the encoding of every scalar value, and nothing else.
use picobridge.Prelude.{
  ℕ, ◌+◌, ◌*◌, ◌/◌, ◌%◌, ◌≤◌, ◌<◌, ◌≡◌, arith, List, [], ◌∷◌, ◌++◌, ltb, All, length, ◌⊎◌, inl, inr,
  Bool-cases,
}
use picobridge.BridgeCore.Types.{ok}
use picobridge.BridgeCore.Utf8.{Decoded, decoded, check_range, decode_tail, decode_utf8}
use picobridge.BridgeCore.Utf8.Encode.{IsScalarValue, IsByte, lead_byte, trail_bytes}
use picobridge.BridgeCore.Utf8.Steps.{
  continue_one, continue_two, continue_three, low_three, low_four, low_five, continue_utf8-suc,
  continue_utf8-zero,
}

-- The decoder on bytes of each length whose payload is in range.
module _ (lead a b c : ℕ) (rest : List ℕ) (ha : a < 256) (pa : a / 64 ≡ 2) where
  decode_two :
      0xc2 ≤ lead
      → lead ≤ 0xdf
      → decode_utf8 lead (a ∷ rest) ≡ decoded ok (lead % 32 * 64 + a % 64) rest
  unfolding decode_utf8 decode_tail check_range
  decode_two lo hi = ground (arith, low_five lead, continue_one (lead % 32) a b c rest)

  module _ (hb : b < 256) (pb : b / 64 ≡ 2) where
    decode_three :
        (cp : ℕ)
        → 0xe0 ≤ lead
        → lead ≤ 0xef
        → cp ≡ (lead % 16 * 64 + a % 64) * 64 + b % 64
        → 0x800 ≤ cp
        → IsScalarValue cp
        → decode_utf8 lead (a ∷ b ∷ rest) ≡ decoded ok cp rest
    unfolding decode_utf8 decode_tail check_range
    decode_three cp lo hi e min s =
        ground (arith, low_four lead, continue_two (lead % 16) a b c rest)

    decode_four :
        (cp : ℕ)
        → c < 256
        → c / 64 ≡ 2
        → 0xf0 ≤ lead
        → lead ≤ 0xf4
        → cp ≡ ((lead % 8 * 64 + a % 64) * 64 + b % 64) * 64 + c % 64
        → 0x10000 ≤ cp
        → IsScalarValue cp
        → decode_utf8 lead (a ∷ b ∷ c ∷ rest) ≡ decoded ok cp rest
    unfolding decode_utf8 decode_tail check_range
    decode_four cp hc pc lo hi e min s =
        ground (arith, low_three lead, continue_three (lead % 8) a b c rest)

-- The encoding of a scalar value decodes to it, whatever follows.
pub decode-encode :
    (cp : ℕ) (rest : List ℕ)
    → IsScalarValue cp
    → decode_utf8 (lead_byte cp) (trail_bytes cp ++ rest) ≡ decoded ok cp rest
unfolding lead_byte trail_bytes
decode-encode cp rest s = elim (Bool-cases (ltb cp 0x80)) [
  | inl one ↦ rw one (unfold decode_utf8 in rw one)
  | inr more ↦ elim (Bool-cases (ltb cp 0x800)) [
    | inl two ↦
        rw (more, two) (ground (arith, decode_two (0xc0 + cp / 64) (0x80 + cp % 64) 0 0 rest))
    | inr more' ↦ elim (Bool-cases (ltb cp 0x10000)) [
      | inl three ↦
          rw (more, more', three)
            (ground (
              arith,
              decode_three (0xe0 + cp / 4096) (0x80 + cp / 64 % 64) (0x80 + cp % 64) 0 rest
                  (omega arith) (omega arith) (omega arith) (omega arith) cp,
            ))
      | inr four ↦
          rw (more, more', four)
            (ground (
              arith,
              decode_four (0xf0 + cp / 262144) (0x80 + cp / 4096 % 64) (0x80 + cp / 64 % 64)
                  (0x80 + cp % 64) rest (omega arith) (omega arith) (omega arith) (omega arith) cp,
            ))
    ]
  ]
]

-- What a decoder's good result says of the bytes that it read.
pub record IsEncoding (lead : ℕ) (bytes : List ℕ) (d : Decoded) : Type 0 where
  pub scalar : IsScalarValue d.cp
  pub first : lead ≡ lead_byte d.cp
  pub others : bytes ≡ trail_bytes d.cp ++ d.rest

module _ (lead a b c : ℕ) (rest : List ℕ) (ha : a < 256) where
  sound_two :
      0xc2 ≤ lead
      → lead ≤ 0xdf
      → (decode_utf8 lead (a ∷ rest)).status ≡ ok
      → IsEncoding lead (a ∷ rest) (decode_utf8 lead (a ∷ rest))
  unfolding decode_utf8 decode_tail check_range lead_byte trail_bytes
  sound_two lo hi h = ground (
    arith,
    low_five lead,
    continue_utf8-suc 0 (lead % 32) a rest,
    continue_utf8-zero (lead % 32 * 64 + a % 64) rest,
  )

  sound_three :
      b < 256
      → 0xe0 ≤ lead
      → lead ≤ 0xef
      → (decode_utf8 lead (a ∷ b ∷ rest)).status ≡ ok
      → IsEncoding lead (a ∷ b ∷ rest) (decode_utf8 lead (a ∷ b ∷ rest))
  unfolding decode_utf8 decode_tail check_range lead_byte trail_bytes
  sound_three hb lo hi h = ground (
    arith,
    low_four lead,
    continue_utf8-suc 1 (lead % 16) a (b ∷ rest),
    continue_utf8-suc 0 (lead % 16 * 64 + a % 64) b rest,
    continue_utf8-zero ((lead % 16 * 64 + a % 64) * 64 + b % 64) rest,
  )

  sound_four :
      b < 256
      → c < 256
      → 0xf0 ≤ lead
      → lead ≤ 0xf4
      → (decode_utf8 lead (a ∷ b ∷ c ∷ rest)).status ≡ ok
      → IsEncoding lead (a ∷ b ∷ c ∷ rest) (decode_utf8 lead (a ∷ b ∷ c ∷ rest))
  unfolding decode_utf8 decode_tail check_range lead_byte trail_bytes
  sound_four hb hc lo hi h = ground (
    arith,
    low_three lead,
    continue_utf8-suc 2 (lead % 8) a (b ∷ c ∷ rest),
    continue_utf8-suc 1 (lead % 8 * 64 + a % 64) b (c ∷ rest),
    continue_utf8-suc 0 ((lead % 8 * 64 + a % 64) * 64 + b % 64) c rest,
    continue_utf8-zero (((lead % 8 * 64 + a % 64) * 64 + b % 64) * 64 + c % 64) rest,
  )

module _ (lead : ℕ) (bytes : List ℕ) where
  sound_one : lead < 0x80 → IsEncoding lead bytes (decode_utf8 lead bytes)
  unfolding decode_utf8 lead_byte trail_bytes
  sound_one h = ground arith

  -- A first byte of 0x80 or more that decodes well announces as many bytes as there are.
  announced :
      0x80 ≤ lead
      → (decode_utf8 lead bytes).status ≡ ok
      → ((0xc2 ≤ lead) × (lead ≤ 0xdf) × (1 ≤ length bytes))
        ⊎ ((0xe0 ≤ lead) × (lead ≤ 0xef) × (2 ≤ length bytes))
        ⊎ ((0xf0 ≤ lead) × (lead ≤ 0xf4) × (3 ≤ length bytes))
  unfolding decode_utf8 decode_tail
  announced high h = ground arith

-- Bytes that decode well are the encoding of the scalar value that comes out: no overlong form, no
-- surrogate, nothing past 0x10ffff and no stray byte is accepted.
pub decode-IsEncoding :
    (lead : ℕ) (bytes : List ℕ)
    → IsByte lead
    → All IsByte bytes
    → (decode_utf8 lead bytes).status ≡ ok
    → IsEncoding lead bytes (decode_utf8 lead bytes)
decode-IsEncoding lead [] hl hb h = ground (arith, sound_one lead [], announced lead [])
decode-IsEncoding lead (a ∷ []) hl hb h =
    ground (arith, sound_one lead (a ∷ []), announced lead (a ∷ []), sound_two lead a 0 0 [])
decode-IsEncoding lead (a ∷ b ∷ []) hl hb h = ground (
  arith,
  sound_one lead (a ∷ b ∷ []),
  announced lead (a ∷ b ∷ []),
  sound_two lead a 0 0 (b ∷ []),
  sound_three lead a b 0 [],
)
decode-IsEncoding lead (a ∷ b ∷ c ∷ rest) hl hb h = ground (
  arith,
  sound_one lead (a ∷ b ∷ c ∷ rest),
  announced lead (a ∷ b ∷ c ∷ rest),
  sound_two lead a 0 0 (b ∷ c ∷ rest),
  sound_three lead a b 0 (c ∷ rest),
  sound_four lead a b c rest,
)
