-- ===== src/BaseEncode/Decode.antt =====
-- `decode` of lib-kit/kit-base-encode.c, with its output buffer and its counters.
use libkit.Common.{
  ℕ, ◌+◌, ◌-◌, ◌%◌, Bool, true, false, not, ◌&&◌, List, [], ◌∷◌, u8, u32, ◌<<<◌, ◌>>>◌, bit_and,
  bit_or, set, get_or, ltb, leb, ◌==◌, if◌then◌else◌,
}
use libkit.BaseEncode.Tables.{ws, eq, inv}
use libkit.BaseEncode.Config.{BaseCfg, find_shval}

-- The caller's buffer `out` and the variables of the function; `olen` and `ilen` stand for `*olen`
-- and `*ilen`.
pub record Decoder : Type 0 where
  pub out : List ℕ
  pub olen : ℕ
  pub ilen : ℕ
  pub bits : ℕ
  pub padding : ℕ
  pub buf : ℕ
  pub done : Bool

-- The result: no error string, "Output overflow" or "Padding characters missing".
pub data Decoded : Type 0 where
  ok : Decoder → Decoded
  overflow : Decoder → Decoded
  padding_missing : Decoder → Decoded

-- `KIT_BASE_DECODE_DEFAULT` and `KIT_BASE_DECODE_SKIP_WHITESPACE`
pub data Flags : Type 0 where
  decode_default : Flags
  skip_whitespace : Flags

abbrev pub skips : Flags → Bool
skips decode_default = false
skips skip_whitespace = true

module _ (cfg : BaseCfg) (shval maxolen : ℕ) where
  abbrev finish : Decoder → Decoder
  finish d = record d { done = true }

  -- `case EQ`
  unfoldable pub decode_eq : Decoder → Decoder
  decode_eq d =
      if not cfg.want_padding
      then finish d
      else if (d.bits + d.padding) % 8 == 0
      then finish d
      else if (d.padding == 0) && leb shval d.bits && ltb d.bits 8
      then finish d
      else (let d' = record d { ilen = d.ilen + 1; padding = d.padding + shval } in
          if (d'.bits + d'.padding) % 8 == 0 then finish d' else d')

  -- `default`
  unfoldable pub decode_value : ℕ → Decoder → Decoded
  decode_value c d =
      if not (d.padding == 0)
      then ok (finish d)
      else (let bits = d.bits + shval in
          let buf = bit_or (u32 (d.buf <<< shval)) c in
          if ltb bits 8
          then ok (record d { bits = bits; buf = buf; ilen = d.ilen + 1 })
          else if leb maxolen d.olen
          then overflow (record d { bits = bits; buf = buf; ilen = d.ilen + 1 })
          else ok (record d {
            bits = bits - 8;
            buf = buf;
            ilen = d.ilen + 1;
            out = set d.out d.olen (u8 (bit_and (buf >>> (bits - 8)) 255));
            olen = d.olen + 1;
          }))

  -- The `switch` on `cfg->txtmap[(uint8_t)in[*ilen]]`.
  unfoldable pub decode_char : Flags → ℕ → Decoder → Decoded
  decode_char flags char d =
      let c = get_or cfg.txtmap (u8 char) 0 in
      if c == ws
      then ok (if skips flags then record d { ilen = d.ilen + 1 } else finish d)
      else if c == inv
      then ok (finish d)
      else if c == eq
      then ok (decode_eq d)
      else decode_value c d

  -- `while (!done && *ilen < maxilen)`: the list is `in[*ilen]`, …, `in[maxilen - 1]`.
  unfoldable pub decode_chars : Flags → List ℕ → Decoder → Decoded
  decode_chars flags [] d = ok d
  decode_chars flags (char ∷ rest) d = elim (decode_char flags char d) [
    | ok d' ↦ elim (d'.done) [ true ↦ ok d' | false ↦ decode_chars flags rest d' ]
    | overflow d' ↦ overflow d'
    | padding_missing d' ↦ padding_missing d'
  ]

  -- What follows the loop.
  unfoldable pub decode_end : Decoder → Decoded
  decode_end d =
      if (d.bits + d.padding) % 8 == 0
      then ok d
      else if cfg.want_padding
      then padding_missing d
      else if (d.padding == 0) && leb shval d.bits && ltb d.bits 8
      then ok (record d { ilen = d.ilen - 1 })
      else ok d

-- `*olen` is `olen` on entry; `input` is `in[0]`, …, `in[*ilen - 1]`.
unfoldable pub decode : BaseCfg → List ℕ → ℕ → List ℕ → Flags → Decoded
decode cfg out olen input flags =
    let shval = find_shval cfg in
    elim (decode_chars cfg shval olen flags input
      (record { out = out; olen = 0; ilen = 0; bits = 0; padding = 0; buf = 0; done = false })) [
        | ok d ↦ decode_end cfg shval olen d
        | overflow d ↦ overflow d
        | padding_missing d ↦ padding_missing d
      ]
