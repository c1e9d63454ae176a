-- ===== src/BaseEncode/DecodeEnd.antt =====
-- The equals signs after the letters, the end of `decode`, and what its bytes are.
use libkit.Common.{
  ℕ, zero, suc, ◌+◌, ◌*◌, ◌%◌, ◌^◌, ◌<◌, Bool, true, false, List, [], ◌∷◌, ◌++◌, ◌≡◌, ◌≢◌, refl,
  sym, ap, ◌∙◌, inl, inr, ◌⊎◌, length, replicate, All, length-append, append_inj, length-replicate,
  ◌==◌, arith,
}
use libkit.Common.Digits.{bits_of, flat, flat_inj, length-flat, length-bits_of}
use libkit.BaseEncode.Config.{BaseCfg}
use libkit.BaseEncode.Decode.{
  Decoder, Decoded, Flags, ok, overflow, padding_missing, decode_eq, decode_char, decode_chars,
  decode_end,
}
use libkit.BaseEncode.Decodes.{IsCodec, Reads}
use libkit.BaseEncode.DecodeLoop.{chars_step, chars_last}

-- The run ends without an error, in a state that satisfies `P`.
abbrev pub Ensures : Decoded → (Decoder → Type 0) → Type 0
Ensures (ok d) P = P d
Ensures (overflow d) P = ⊥
Ensures (padding_missing d) P = ⊥

module _ (cfg : BaseCfg) (shval maxolen : ℕ) (c : IsCodec cfg shval) (flags : Flags) where
  decode_equals :
      (d : Decoder)
      → decode_char cfg shval maxolen flags b'=' d ≡ ok (decode_eq cfg shval maxolen d)
  unfolding decode_char
  decode_equals d = rw c.equals

  abbrev signed : Bool → Decoder → Decoder
  signed last d = record d { ilen = d.ilen + 1; padding = d.padding + shval; done = last }

  -- An equals sign where padding is wanted and allowed.
  equals_read :
      (last : Bool) (d : Decoder)
      → cfg.want_padding ≡ true
      → d.done ≡ false
      → (d.bits + d.padding) % 8 ≢ 0
      → (d.padding ≢ 0) ⊎ (d.bits < shval)
      → ((d.bits + (d.padding + shval)) % 8 == 0) ≡ last
      → decode_eq cfg shval maxolen d ≡ signed last d
  unfolding decode_eq
  equals_read last d want running more allowed e = ground arith

  -- The equals signs after the last letter are all read, and complete a whole number of bytes.
  pub record Closed (pads : ℕ) (d d' : Decoder) : Type 0 where
    pub out : d'.out ≡ d.out
    pub olen : d'.olen ≡ d.olen
    pub ilen : d'.ilen ≡ d.ilen + pads
    pub whole : (d'.bits + d'.padding) % 8 ≡ 0

  module _ (want : cfg.want_padding ≡ true) (six : shval ≡ 6) where
    first_pad :
        (d : Decoder) (last : Bool)
        → d.done ≡ false
        → d.padding ≡ 0
        → 0 < d.bits
        → d.bits < 6
        → ((d.bits + 6) % 8 == 0) ≡ last
        → decode_eq cfg shval maxolen d ≡ signed last d
    first_pad d last running none pos few e =
        equals_read last d want running (λ h. omega arith) (inr (omega arith)) (rw (none, six) e)

    pub tail_read :
        (pads : ℕ) (d : Decoder)
        → d.done ≡ false
        → d.padding ≡ 0
        → d.bits < 6
        → pads < 4
        → (d.bits + 6 * pads) % 8 ≡ 0
        → (d' : Decoder) × (decode_chars cfg shval maxolen flags (replicate pads b'=') d ≡ ok d')
          × Closed pads d d'
    unfolding decode_chars
    tail_read zero d running none few some_pads whole =
        (d, refl, record { out = refl; olen = refl; ilen = omega arith; whole = omega arith })
    tail_read (suc zero) d running none few some_pads whole =
        let two : d.bits ≡ 2 = omega arith in
        let d₁ = signed true d in
        let s : decode_eq cfg shval maxolen d ≡ d₁ =
          first_pad d true running none (omega arith) few (rw two) in
        (
          d₁,
          chars_last cfg shval maxolen c flags b'=' [] d d₁ (decode_equals d ∙ ap ok s) refl,
          record { out = refl; olen = refl; ilen = omega arith; whole = omega arith },
        )
    tail_read (suc (suc zero)) d running none few some_pads whole =
        let four : d.bits ≡ 4 = omega arith in
        let d₁ = signed false d in
        let d₂ = signed true d₁ in
        let s₁ : decode_eq cfg shval maxolen d ≡ d₁ =
          first_pad d false running none (omega arith) few (rw four) in
        let s₂ : decode_eq cfg shval maxolen d₁ ≡ d₂ =
          equals_read true d₁ want refl (omega arith) (inl (omega arith)) (rw (four, none, six)) in
        (
          d₂,
          chars_step cfg shval maxolen c flags b'=' (b'=' ∷ []) d d₁ (decode_equals d ∙ ap ok s₁)
                refl
              ∙ chars_last cfg shval maxolen c flags b'=' [] d₁ d₂ (decode_equals d₁ ∙ ap ok s₂)
                  refl,
          record { out = refl; olen = refl; ilen = omega arith; whole = omega arith },
        )
    tail_read (suc (suc (suc pads))) d running none few some_pads whole = absurd (omega arith)

  -- What follows the loop leaves such a state alone.
  pub end_whole :
      (d : Decoder) → (d.bits + d.padding) % 8 ≡ 0 → decode_end cfg shval maxolen d ≡ ok d
  unfolding decode_end
  end_whole d h = ground arith

  pub end_part :
      (d : Decoder)
      → cfg.want_padding ≡ false
      → d.bits < shval
      → decode_end cfg shval maxolen d ≡ ok d
  unfolding decode_end
  end_part d no_pads few = ground arith

  -- The bytes read are those written, and the bits left over are the zeros added.
  pub recovered :
      (xs values bytes : List ℕ) (zeros : ℕ) (d : Decoder)
      → All (λ b. b < 2 ^ 8) xs
      → zeros < shval
      → flat shval values ≡ flat 8 xs ++ replicate zeros 0
      → Reads cfg shval maxolen values bytes d
      → (bytes ≡ xs) × (d.bits ≡ zeros)
  recovered xs values bytes zeros d small few digits r =
      let e = r.digits ∙ digits in
      let total = omega_total (ap length e) in
      (
        flat_inj 8 bytes xs r.small small total.0
            (append_inj (flat 8 bytes) (flat 8 xs)
              (length-flat 8 bytes ∙ ap (λ (n : ℕ). 8 * n) total.0 ∙ sym (length-flat 8 xs)) e).0,
        total.1,
      )
    where
      omega_total :
          length (flat 8 bytes ++ bits_of d.bits d.buf) ≡ length (flat 8 xs ++ replicate zeros 0)
          → (length bytes ≡ length xs) × (d.bits ≡ zeros)
      omega_total h = omega (
        arith,
        r.few,
        c.six,
        length-append (flat 8 bytes) (bits_of d.bits d.buf),
        length-append (flat 8 xs) (replicate zeros 0),
        length-flat 8 bytes,
        length-flat 8 xs,
        length-bits_of d.bits d.buf,
        length-replicate {A = ℕ} zeros 0,
      )
