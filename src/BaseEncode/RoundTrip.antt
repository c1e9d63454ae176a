-- ===== src/BaseEncode/RoundTrip.antt =====
-- `decode` after `encode`: the round trip, for every alphabet.
use libkit.Common.{
  ℕ, ◌+◌, ◌*◌, ◌^◌, ◌≤◌, ◌<◌, true, false, List, [], ◌++◌, map, ◌≡◌, refl, ap, ◌∙◌, inl, inr,
  get_or, take, length, replicate, All, length-append, length-replicate, Bool-cases, arith,
}
use libkit.Common.Digits.{bits_of, flat, length-flat}
use libkit.BaseEncode.Config.{BaseCfg, find_shval}
use libkit.BaseEncode.Encode.{Encoder}
use libkit.BaseEncode.EncodePads.{Encodes}
use libkit.BaseEncode.Decode.{Decoder, Flags, ok, decode_chars, decode_end, decode}
use libkit.BaseEncode.Decodes.{IsCodec, Reads}
use libkit.BaseEncode.DecodeEnd.{Ensures, Closed, tail_read, end_whole, end_part, recovered}
use libkit.BaseEncode.DecodeLoop.{chars-Reads}

-- The state in which `decode` enters its loop.
abbrev pub start : List ℕ → Decoder
start out = record { out = out; olen = 0; ilen = 0; bits = 0; padding = 0; buf = 0; done = false }

-- The buffer holds `xs`, and the whole of an input of `n` characters is consumed.
pub record Decodes (xs : List ℕ) (n : ℕ) (d : Decoder) : Type 0 where
  pub bytes : take d.olen d.out ≡ xs
  pub olen : d.olen ≡ length xs
  pub ilen : d.ilen ≡ n

module _ (cfg : BaseCfg) (shval maxolen : ℕ) (c : IsCodec cfg shval) (flags : Flags) where
  decode_run :
      (out text : List ℕ) (d : Decoder)
      → find_shval cfg ≡ shval
      → decode_chars cfg shval maxolen flags text (start out) ≡ ok d
      → decode cfg out maxolen text flags ≡ decode_end cfg shval maxolen d
  unfolding decode
  decode_run out text d found run = rw (found, decode, run, found)

  module _ {xs : List ℕ} {e : Encoder} (w : Encodes cfg shval xs e)
      (small : All (λ b. b < 2 ^ 8) xs) where
    Closed-Decodes :
        (bytes : List ℕ) (d d' : Decoder)
        → Reads cfg shval maxolen w.values bytes d
        → bytes ≡ xs
        → Closed cfg shval maxolen c flags w.pads d d'
        → Decodes xs e.olen d'
    Closed-Decodes bytes d d' r same k = record {
      bytes = rw (k.out, k.olen) (r.text ∙ same);
      olen = omega (arith, k.olen, r.count, ap length same);
      ilen = omega (arith, k.ilen, r.consumed, w.count);
    }

    -- The equals signs and the end, after the letters.
    tail-Decodes :
        (bytes : List ℕ) (d : Decoder)
        → (cfg.want_padding ≡ true → shval ≡ 6)
        → Reads cfg shval maxolen w.values bytes d
        → (d' : Decoder) × (decode_chars cfg shval maxolen flags (replicate w.pads b'=') d ≡ ok d')
          × (decode_end cfg shval maxolen d' ≡ ok d')
          × Decodes xs e.olen d'
    unfolding decode_chars
    tail-Decodes bytes d six r =
        let (same, left) =
          recovered cfg shval maxolen c flags xs w.values bytes w.zeros d small w.few_zeros w.digits
            r in
        elim (Bool-cases cfg.want_padding) [
          | inl yes_pads ↦
              let s = six yes_pads in
              let (d', run, k) =
                tail_read cfg shval maxolen c flags yes_pads s w.pads d r.running r.unpadded
                  (omega (arith, w.few_zeros)) w.few_pads
                  (omega (arith, w.padded yes_pads, ap (λ (t : ℕ). t * w.pads) s)) in
              (
                d',
                run,
                end_whole cfg shval maxolen c flags d' k.whole,
                Closed-Decodes bytes d d' r same k,
              )
          | inr no_pads ↦
              let none = w.unpadded no_pads in
              (
                d,
                rw none,
                end_part cfg shval maxolen c flags d no_pads (omega (arith, w.few_zeros)),
                record {
                  bytes = r.text ∙ same;
                  olen = omega (arith, r.count, ap length same);
                  ilen = omega (arith, r.consumed, w.count);
                },
              )
        ]

    start-Reads : (out : List ℕ) → maxolen ≤ length out → Reads cfg shval maxolen [] [] (start out)
    unfolding bits_of flat
    start-Reads out room = record {
      text = refl;
      count = refl;
      consumed = refl;
      digits = refl;
      small = tt;
      few = omega arith;
      unpadded = refl;
      running = refl;
      room = room;
    }

    -- On a text that `Encodes` the bytes `xs`, with room for them, `decode` reports no error, leaves
    -- exactly these bytes and consumes the whole text.
    pub decode-Decodes :
        (out : List ℕ)
        → find_shval cfg ≡ shval
        → (cfg.want_padding ≡ true → shval ≡ 6)
        → length xs ≤ maxolen
        → maxolen ≤ length out
        → Ensures (decode cfg out maxolen (take e.olen e.out) flags) (Decodes xs e.olen)
    decode-Decodes out found six fits room =
        let total : shval * length w.values ≡ 8 * length xs + w.zeros = values_total in
        let (d, bytes, run, r) =
          chars-Reads cfg shval maxolen c flags w.values (replicate w.pads b'=') w.small
            (omega (arith, w.few_zeros, c.six)) (start-Reads out room) in
        let (d', ended, last, p) = tail-Decodes bytes d six r in
        rw
          (
            w.text,
            decode_run out (map (λ v. get_or cfg.binmap v 0) w.values ++ replicate w.pads b'=') d'
                found (run ∙ ended),
            last,
          )
          p
      where
        values_total : shval * length w.values ≡ 8 * length xs + w.zeros
        values_total = omega (
          arith,
          ap length w.digits,
          length-append (flat 8 xs) (replicate w.zeros 0),
          length-flat shval w.values,
          length-flat 8 xs,
          length-replicate {A = ℕ} w.zeros 0,
        )
