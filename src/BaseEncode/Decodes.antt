-- ===== src/BaseEncode/Decodes.antt =====
-- What `decode` reads of a text of letters: the loop's invariant.
use libkit.Common.{
  ℕ, ◌+◌, ◌-◌, ◌*◌, ◌/◌, ◌%◌, ◌^◌, ◌≤◌, ◌<◌, false, List, [], ◌∷◌, ◌++◌, ◌≡◌, sym, ap, ◌∙◌, u8, u32,
  ◌<<<◌, bit_or, add-one, set, get_or, take, length, All, All-append, length-append, append_assoc,
  take-set_end, length-set, arith,
}
use libkit.Common.Digits.{
  bits_of, bits_of_split, bits_of_low, flat, flat_end, length-flat, length-bits_of,
}
use libkit.BaseEncode.Tables.{eq}
use libkit.BaseEncode.Config.{BaseCfg}
use libkit.BaseEncode.Decode.{Decoder}
use libkit.BaseEncode.Encodes.{IsAlphabet}
use libkit.BaseEncode.Shift.{shift_in}

-- The two maps of a configuration agree: each letter's code leads back to its value.
pub record IsCodec (cfg : BaseCfg) (shval : ℕ) : Type 0 where
  pub alphabet : IsAlphabet cfg shval
  pub six : shval ≤ 6
  pub inverse : (v : ℕ) → v < 2 ^ shval → get_or cfg.txtmap (u8 (get_or cfg.binmap v 0)) 0 ≡ v
  pub equals : get_or cfg.txtmap b'=' 0 ≡ eq

module _ (cfg : BaseCfg) (shval maxolen : ℕ) where
  -- The state after the letters of the values `vs`: `bytes` is what stands in the buffer.
  pub record Reads (vs bytes : List ℕ) (d : Decoder) : Type 0 where
    pub text : take d.olen d.out ≡ bytes
    pub count : d.olen ≡ length bytes
    pub consumed : d.ilen ≡ length vs
    pub digits : flat 8 bytes ++ bits_of d.bits d.buf ≡ flat shval vs
    pub small : All (λ b. b < 2 ^ 8) bytes
    pub few : d.bits < 8
    pub unpadded : d.padding ≡ 0
    pub running : d.done ≡ false
    pub room : maxolen ≤ length d.out

  pub Reads-total :
      {vs bytes : List ℕ} {d : Decoder} → Reads vs bytes d → 8 * d.olen + d.bits ≡ shval * length vs
  Reads-total {vs} {bytes} {d} r = omega (
    arith,
    r.count,
    ap length r.digits,
    length-append (flat 8 bytes) (bits_of d.bits d.buf),
    length-flat 8 bytes,
    length-flat shval vs,
    length-bits_of d.bits d.buf,
  )

  module _ (c : IsCodec cfg shval) where
    abbrev pub next_buf : ℕ → Decoder → ℕ
    next_buf v d = bit_or (u32 (d.buf <<< shval)) v

    -- A value with which fewer than eight bits are pending.
    abbrev pub kept : ℕ → Decoder → Decoder
    kept v d = record d { bits = d.bits + shval; buf = next_buf v d; ilen = d.ilen + 1 }

    unfoldable pub next_byte : ℕ → Decoder → ℕ
    next_byte v d = next_buf v d / 2 ^ (d.bits + shval - 8) % 2 ^ 8

    -- A value that completes a byte.
    abbrev pub stored : ℕ → Decoder → Decoder
    stored v d = record d {
      bits = d.bits + shval - 8;
      buf = next_buf v d;
      ilen = d.ilen + 1;
      out = set d.out d.olen (next_byte v d);
      olen = d.olen + 1;
    }

    -- The digits pending after a value are those before it and the value's.
    next_digits :
        (v : ℕ) {vs bytes : List ℕ} {d : Decoder}
        → v < 2 ^ shval
        → Reads vs bytes d
        → flat 8 bytes ++ bits_of (d.bits + shval) (next_buf v d) ≡ flat shval (vs ++ v ∷ [])
    next_digits v {vs} {bytes} {d} small r =
        rw
          (
            shift_in shval d.bits d.buf v (omega (arith, c.six)) (omega (arith, r.few)) small,
            flat_end shval v vs,
            ← r.digits,
          )
          (sym (append_assoc (flat 8 bytes) (bits_of d.bits d.buf) (bits_of shval v)))

    pub kept-Reads :
        (v : ℕ) {vs bytes : List ℕ} {d : Decoder}
        → v < 2 ^ shval
        → Reads vs bytes d
        → d.bits + shval < 8
        → Reads (vs ++ v ∷ []) bytes (kept v d)
    kept-Reads v {vs} {bytes} {d} small r few = record {
      text = r.text;
      count = r.count;
      consumed = omega (arith, r.consumed, length-append vs (v ∷ []));
      digits = next_digits v small r;
      small = r.small;
      few = few;
      unpadded = r.unpadded;
      running = r.running;
      room = r.room;
    }

    byte_split :
        (v : ℕ) (d : Decoder)
        → 8 ≤ d.bits + shval
        → bits_of (d.bits + shval) (next_buf v d)
          ≡ bits_of 8 (next_byte v d) ++ bits_of (d.bits + shval - 8) (next_buf v d)
    unfolding next_byte
    byte_split v d h =
        let left = d.bits + shval - 8 in
        let s : d.bits + shval ≡ 8 + left = omega arith in
        ap (λ n. bits_of n (next_buf v d)) s
        ∙ bits_of_split 8 left (next_buf v d)
        ∙ ap (λ t. t ++ bits_of left (next_buf v d))
            (sym (bits_of_low 8 8 (next_buf v d / 2 ^ left) (omega arith)))

    byte_small : (v : ℕ) (d : Decoder) → next_byte v d < 2 ^ 8
    unfolding next_byte
    byte_small v d = omega arith

    pub stored-Reads :
        (v : ℕ) {vs bytes : List ℕ} {d : Decoder}
        → v < 2 ^ shval
        → Reads vs bytes d
        → 8 ≤ d.bits + shval
        → d.olen < maxolen
        → Reads (vs ++ v ∷ []) (bytes ++ next_byte v d ∷ []) (stored v d)
    stored-Reads v {vs} {bytes} {d} small r many fit = record {
      text =
          rw add-one (take-set_end d.out d.olen (next_byte v d) (omega (arith, r.room)))
          ∙ ap (λ t. t ++ next_byte v d ∷ []) r.text;
      count = omega (arith, r.count, length-append bytes (next_byte v d ∷ []));
      consumed = omega (arith, r.consumed, length-append vs (v ∷ []));
      digits = rw (flat_end 8 (next_byte v d) bytes) (
          append_assoc (flat 8 bytes) (bits_of 8 (next_byte v d))
            (bits_of (d.bits + shval - 8) (next_buf v d))
          ∙ ap (λ t. flat 8 bytes ++ t) (sym (byte_split v d many))
          ∙ next_digits v small r);
      small = All-append _ bytes (next_byte v d ∷ []) r.small (byte_small v d, tt);
      few = omega (arith, r.few, c.six);
      unpadded = r.unpadded;
      running = r.running;
      room = omega (arith, r.room, length-set d.out d.olen (next_byte v d));
    }
