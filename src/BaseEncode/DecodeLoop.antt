-- ===== src/BaseEncode/DecodeLoop.antt =====
-- The loop of `decode` over letters, from its invariant.
use libkit.Common.{
  ℕ, suc, ◌+◌, ◌-◌, ◌*◌, ◌%◌, ◌^◌, ◌≤◌, ◌<◌, true, false, List, [], ◌∷◌, ◌++◌, map, ◌≡◌, refl, ap,
  ◌∙◌, u8, ◌>>>◌, bit_and, bit_and_mask, inl, inr, get_or, length, All, length-append, append_assoc,
  append-nil, ltb, ltb→lt, Bool-cases, arith,
}
use libkit.BaseEncode.Config.{BaseCfg}
use libkit.BaseEncode.Decode.{Decoder, Flags, ok, decode_value, decode_char, decode_chars}
use libkit.BaseEncode.Decodes.{
  IsCodec, Reads, Reads-total, next_buf, next_byte, kept, stored, kept-Reads, stored-Reads,
}
use native.Mathlib.Nat.{pow-le-pow_right, mul-le-mul_left}

module _ (cfg : BaseCfg) (shval maxolen : ℕ) (c : IsCodec cfg shval) (flags : Flags) where
  abbrev letter_of : ℕ → ℕ
  letter_of v = get_or cfg.binmap v 0

  value_small : (v : ℕ) → v < 2 ^ shval → v < 64
  value_small v h = omega (arith, pow-le-pow_right {n = 2} (omega arith) c.six)

  -- A letter goes to the default case, with its value.
  decode_letter :
      (v : ℕ) (d : Decoder)
      → v < 2 ^ shval
      → decode_char cfg shval maxolen flags (letter_of v) d ≡ decode_value cfg shval maxolen v d
  unfolding decode_char
  decode_letter v d h = rw (c.inverse v h) (ground (arith, value_small v h))

  low_byte : (x : ℕ) → u8 (bit_and x 255) ≡ x % 2 ^ 8
  low_byte x = omega (arith, bit_and_mask 8 x)

  value_stored :
      (v : ℕ) (d : Decoder)
      → d.padding ≡ 0
      → 8 ≤ d.bits + shval
      → d.olen < maxolen
      → decode_value cfg shval maxolen v d ≡ ok (stored cfg shval maxolen c v d)
  unfolding decode_value next_byte
  value_stored v d unpadded many room =
      ground (arith, low_byte (next_buf cfg shval maxolen c v d >>> (d.bits + shval - 8)))

  -- One value more: it is kept, or completes a byte, for which there is room.
  value-Reads :
      (v : ℕ) {vs bytes : List ℕ} {d : Decoder}
      → v < 2 ^ shval
      → shval * (length vs + 1) < 8 * (maxolen + 1)
      → Reads cfg shval maxolen vs bytes d
      → (d' : Decoder) × (bytes' : List ℕ) × (decode_value cfg shval maxolen v d ≡ ok d')
        × Reads cfg shval maxolen (vs ++ v ∷ []) bytes' d'
  unfolding decode_value
  value-Reads v {vs} {bytes} {d} small fits r = elim (Bool-cases (ltb (d.bits + shval) 8)) [
    | inl h ↦ (
      kept cfg shval maxolen c v d,
      bytes,
      ground (arith, r.unpadded),
      kept-Reads cfg shval maxolen c v small r (ltb→lt _ _ h),
    )
    | inr h ↦
        let room : d.olen < maxolen = omega (arith, Reads-total cfg shval maxolen r, many h) in
        (
          stored cfg shval maxolen c v d,
          bytes ++ next_byte cfg shval maxolen c v d ∷ [],
          value_stored v d r.unpadded (many h) room,
          stored-Reads cfg shval maxolen c v small r (many h) room,
        )
  ]
    where
      many : ltb (d.bits + shval) 8 ≡ false → 8 ≤ d.bits + shval
      many h = ground arith

  char-Reads :
      (v : ℕ) {vs bytes : List ℕ} {d : Decoder}
      → v < 2 ^ shval
      → shval * (length vs + 1) < 8 * (maxolen + 1)
      → Reads cfg shval maxolen vs bytes d
      → (d' : Decoder) × (bytes' : List ℕ) × (decode_char cfg shval maxolen flags (letter_of v) d
          ≡ ok d')
        × Reads cfg shval maxolen (vs ++ v ∷ []) bytes' d'
  char-Reads v {d = d} small fits r =
      let (d', bytes', e, r') = value-Reads v small fits r in
      (d', bytes', decode_letter v d small ∙ e, r')

  -- One round of the loop that goes on, and one that is the last.
  pub chars_step :
      (char : ℕ) (rest : List ℕ) (d d₁ : Decoder)
      → decode_char cfg shval maxolen flags char d ≡ ok d₁
      → d₁.done ≡ false
      → decode_chars cfg shval maxolen flags (char ∷ rest) d
        ≡ decode_chars cfg shval maxolen flags rest d₁
  unfolding decode_chars
  chars_step char rest d d₁ e running = ground arith

  pub chars_last :
      (char : ℕ) (rest : List ℕ) (d d₁ : Decoder)
      → decode_char cfg shval maxolen flags char d ≡ ok d₁
      → d₁.done ≡ true
      → decode_chars cfg shval maxolen flags (char ∷ rest) d ≡ ok d₁
  unfolding decode_chars
  chars_last char rest d d₁ e last = ground arith

  -- The loop reads letters, as far as there is room for their bytes, and goes on with what follows.
  pub chars-Reads :
      (us rest : List ℕ) {vs bytes : List ℕ} {d : Decoder}
      → All (λ v. v < 2 ^ shval) us
      → shval * (length vs + length us) < 8 * (maxolen + 1)
      → Reads cfg shval maxolen vs bytes d
      → (d' : Decoder) × (bytes' : List ℕ) × (decode_chars cfg shval maxolen flags
            (map letter_of us ++ rest)
            d
          ≡ decode_chars cfg shval maxolen flags rest d')
        × Reads cfg shval maxolen (vs ++ us) bytes' d'
  chars-Reads [] rest {vs} {bytes} {d} small fits r = (d, bytes, refl, rw append-nil r)
  chars-Reads (u ∷ us) rest {vs} {bytes} {d} small fits r =
      let one =
        mul-le-mul_left {m = length vs + 1} {n = length vs + suc (length us)} shval (omega arith) in
      let (d₁, bytes₁, e₁, r₁) = char-Reads u small.0 (omega (arith, one)) r in
      let (d₂, bytes₂, e₂, r₂) =
        chars-Reads us rest small.1
          (omega (arith, ap (λ (n : ℕ). shval * n) (length-append vs (u ∷ [])))) r₁ in
      (
        d₂,
        bytes₂,
        chars_step (letter_of u) (map letter_of us ++ rest) d d₁ e₁ r₁.running ∙ e₂,
        rw append_assoc at r₂,
      )
