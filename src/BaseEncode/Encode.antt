-- ===== src/BaseEncode/Encode.antt =====
-- `encode` of lib-kit/kit-base-encode.c, with its output buffer and its counters.
use libkit.Common.{
  ℕ, zero, suc, ◌+◌, ◌-◌, ◌%◌, true, false, List, [], ◌∷◌, u32, ◌<<<◌, ◌>>>◌, bit_and, bit_or, set,
  get_or, leb, ◌==◌, if◌then◌else◌,
}
use libkit.BaseEncode.Config.{BaseCfg, find_shval}

-- The caller's buffer `out` and the variables of the function; `olen` and `ilen` stand for `*olen`
-- and `*ilen`.
pub record Encoder : Type 0 where
  pub out : List ℕ
  pub olen : ℕ
  pub ilen : ℕ
  pub bits : ℕ
  pub buf : ℕ

-- The result: no error string, or "Output overflow". Both leave the counters and the buffer as they
-- then are.
pub data Encoded : Type 0 where
  ok : Encoder → Encoded
  overflow : Encoder → Encoded

infixl 5 ◌>>=◌
abbrev pub ◌>>=◌ : Encoded → (Encoder → Encoded) → Encoded
ok e >>= f = f e
overflow e >>= f = overflow e

-- `if (*olen >= maxolen - 1) return "Output overflow"; out[(*olen)++] = c; out[*olen] = '\0';`
unfoldable pub put : ℕ → ℕ → Encoder → Encoded
put maxolen c e =
    if leb (maxolen - 1) e.olen
    then overflow e
    else ok (record e { out = set (set e.out e.olen c) (e.olen + 1) 0; olen = e.olen + 1 })

module _ (cfg : BaseCfg) (shval maxolen : ℕ) where
  -- `cfg->binmap[v & (cfg->bits - 1)]`
  abbrev pub letter : ℕ → ℕ
  letter v = get_or cfg.binmap (bit_and v (cfg.bits - 1)) 0

  -- `while (bits >= shval)`: a round takes `shval` bits off, so as many rounds as bits are enough.
  unfoldable pub drain : ℕ → Encoder → Encoded
  drain zero e = ok e
  drain (suc rounds) e = elim (leb shval e.bits) [
    | false ↦ ok e
    | true ↦ put maxolen (letter (e.buf >>> (e.bits - shval))) e >>= λ e'.
        drain rounds (record e' { bits = e'.bits - shval })
  ]

  -- The body of `while (*ilen < maxilen)`.
  unfoldable pub encode_byte : ℕ → Encoder → Encoded
  encode_byte byte e =
      drain (e.bits + 8)
        (record e { buf = bit_or (u32 (e.buf <<< 8)) byte; ilen = e.ilen + 1; bits = e.bits + 8 })

  -- The list is `in[*ilen]`, …, `in[maxilen - 1]`.
  unfoldable pub encode_bytes : List ℕ → Encoder → Encoded
  encode_bytes [] e = ok e
  encode_bytes (byte ∷ rest) e = encode_byte byte e >>= encode_bytes rest

  -- `if (bits)`: the remaining bits are the high bits of an output character.
  unfoldable pub flush : Encoder → Encoded
  flush e =
      if e.bits == 0
      then ok e
      else put maxolen (letter (u32 (e.buf <<< (shval - e.bits)))) e >>= λ e'.
          ok (record e' { bits = e'.bits + (8 - shval) })

  -- `while ((bits % 8) != 0)`: the number of bits modulo 8 goes through at most eight values.
  unfoldable pub pad : ℕ → Encoder → Encoded
  pad zero e = ok e
  pad (suc rounds) e = elim (e.bits % 8 == 0) [
    | true ↦ ok e
    | false ↦ put maxolen b'=' e >>= λ e'. pad rounds (record e' { bits = e'.bits + (8 - shval) })
  ]

-- `*olen` is `olen` on entry; `input` is `in[0]`, …, `in[*ilen - 1]`.
unfoldable pub encode : BaseCfg → List ℕ → ℕ → List ℕ → ℕ → Encoded
encode cfg out olen input ilen =
    let shval = find_shval cfg in
    if olen == 0
    then overflow (record { out = out; olen = olen; ilen = ilen; bits = 0; buf = 0 })
    else if ilen == 0
    then ok (record { out = set out 0 0; olen = 0; ilen = 0; bits = 0; buf = 0 })
    else encode_bytes cfg shval olen input
        (record { out = out; olen = 0; ilen = 0; bits = 0; buf = 0 })
      >>= flush cfg shval olen
      >>= λ e. if cfg.want_padding then pad cfg shval olen 8 e else ok e
