-- ===== src/BaseEncode/Bounds.antt =====
-- Neither `encode` nor `decode` writes at or past the end of the buffer that it is told of.
use libkit.Common.{
  ℕ, zero, suc, ◌+◌, ◌-◌, ◌%◌, true, false, List, [], ◌∷◌, ◌≡◌, refl, ap, ◌∙◌, drop, set, drop-set,
  u32, u8, ◌<<<◌, ◌>>>◌, bit_or, bit_and, leb, ◌==◌, if◌then◌else◌, Bool-cases, inl, inr, arith,
  get_or,
}
use libkit.BaseEncode.Config.{BaseCfg, find_shval}
use libkit.BaseEncode.Encode.{
  Encoder, Encoded, ◌>>=◌, put, letter, drain, encode_byte, encode_bytes, flush, pad, encode,
}
use libkit.BaseEncode.Decode.{
  Decoder, Decoded, Flags, decode_eq, decode_value, decode_char, decode_chars, decode_end, decode,
}

-- The buffer in which a run ends, with or without an error.
abbrev pub encoded_buffer : Encoded → List ℕ
encoded_buffer (Encoded.ok e) = e.out
encoded_buffer (Encoded.overflow e) = e.out

abbrev pub decoded_buffer : Decoded → List ℕ
decoded_buffer (Decoded.ok d) = d.out
decoded_buffer (Decoded.overflow d) = d.out
decoded_buffer (Decoded.padding_missing d) = d.out

module _ (cfg : BaseCfg) (shval maxolen : ℕ) (beyond : List ℕ) where
  abbrev Kept : Encoded → Type 0
  Kept r = drop maxolen (encoded_buffer r) ≡ beyond

  >>=-Kept :
      (r : Encoded) (f : Encoder → Encoded)
      → Kept r
      → ((e : Encoder) → drop maxolen e.out ≡ beyond → Kept (f e))
      → Kept (r >>= f)
  >>=-Kept (Encoded.ok e) f h k = k e h
  >>=-Kept (Encoded.overflow e) f h k = h

  put-Kept : (c : ℕ) (e : Encoder) → drop maxolen e.out ≡ beyond → Kept (put maxolen c e)
  unfolding put
  put-Kept c e h =
      ground (
        arith,
        drop-set (set e.out e.olen c) maxolen (e.olen + 1) 0,
        drop-set e.out maxolen e.olen c,
      )

  drain-Kept :
      (rounds : ℕ) (e : Encoder)
      → drop maxolen e.out ≡ beyond
      → Kept (drain cfg shval maxolen rounds e)
  unfolding drain
  drain-Kept zero e h = h
  drain-Kept (suc rounds) e h = elim (Bool-cases (leb shval e.bits)) [
    | inr t ↦ rw (t, drain) h
    | inl t ↦
        rw (t, drain)
          (>>=-Kept (put maxolen (letter cfg shval maxolen (e.buf >>> (e.bits - shval))) e)
            (λ e'. drain cfg shval maxolen rounds (record e' { bits = e'.bits - shval }))
            (put-Kept (letter cfg shval maxolen (e.buf >>> (e.bits - shval))) e h)
            (λ e' h'. drain-Kept rounds (record e' { bits = e'.bits - shval }) h'))
  ]

  bytes-Kept :
      (input : List ℕ) (e : Encoder)
      → drop maxolen e.out ≡ beyond
      → Kept (encode_bytes cfg shval maxolen input e)
  unfolding encode_bytes encode_byte
  bytes-Kept [] e h = h
  bytes-Kept (byte ∷ rest) e h =
      >>=-Kept (encode_byte cfg shval maxolen byte e) (encode_bytes cfg shval maxolen rest)
        (drain-Kept (e.bits + 8) _ h) (bytes-Kept rest)

  flush-Kept : (e : Encoder) → drop maxolen e.out ≡ beyond → Kept (flush cfg shval maxolen e)
  unfolding flush
  flush-Kept e h = elim (Bool-cases (e.bits == 0)) [
    | inl t ↦ rw (t, flush) h
    | inr t ↦
        rw (t, flush)
          (>>=-Kept (put maxolen (letter cfg shval maxolen (u32 (e.buf <<< (shval - e.bits)))) e)
            (λ e'. Encoded.ok (record e' { bits = e'.bits + (8 - shval) }))
            (put-Kept (letter cfg shval maxolen (u32 (e.buf <<< (shval - e.bits)))) e h)
            (λ e' h'. h'))
  ]

  pad-Kept :
      (rounds : ℕ) (e : Encoder)
      → drop maxolen e.out ≡ beyond
      → Kept (pad cfg shval maxolen rounds e)
  unfolding pad
  pad-Kept zero e h = h
  pad-Kept (suc rounds) e h = elim (Bool-cases (e.bits % 8 == 0)) [
    | inl t ↦ rw (t, pad) h
    | inr t ↦
        rw (t, pad)
          (>>=-Kept (put maxolen b'=' e)
            (λ e'. pad cfg shval maxolen rounds (record e' { bits = e'.bits + (8 - shval) }))
            (put-Kept b'=' e h)
            (λ e' h'. pad-Kept rounds (record e' { bits = e'.bits + (8 - shval) }) h'))
  ]

  finish-Kept :
      (e : Encoder)
      → drop maxolen e.out ≡ beyond
      → Kept (if cfg.want_padding then pad cfg shval maxolen 8 e else Encoded.ok e)
  finish-Kept e h = elim (Bool-cases cfg.want_padding) [
    | inl t ↦ simp t (pad-Kept 8 e h)
    | inr t ↦ simp t h
  ]

-- Whatever the configuration, the input and the buffer, with or without an overflow, `encode` leaves
-- every cell from `*olen` on as it was.
pub drop-encode :
    (cfg : BaseCfg) (out : List ℕ) (olen : ℕ) (input : List ℕ) (ilen : ℕ)
    → drop olen (encoded_buffer (encode cfg out olen input ilen)) ≡ drop olen out
unfolding encode
drop-encode cfg out olen input ilen = elim (Bool-cases (olen == 0)) [
  | inl t ↦ rw (t, encode)
  | inr t ↦ elim (Bool-cases (ilen == 0)) [
    | inl u ↦ rw (t, u, encode) (drop-set out olen 0 0 (ground arith))
    | inr u ↦
        let shval = find_shval cfg in
        let s : Encoder = record { out = out; olen = 0; ilen = 0; bits = 0; buf = 0 } in
        rw (t, u, encode)
          (>>=-Kept cfg shval olen (drop olen out)
            (encode_bytes cfg shval olen input s >>= flush cfg shval olen)
            (λ e. if cfg.want_padding then pad cfg shval olen 8 e else Encoded.ok e)
            (>>=-Kept cfg shval olen (drop olen out) (encode_bytes cfg shval olen input s)
              (flush cfg shval olen) (bytes-Kept cfg shval olen (drop olen out) input s refl)
              (flush-Kept cfg shval olen (drop olen out)))
            (finish-Kept cfg shval olen (drop olen out)))
  ]
]

module _ (cfg : BaseCfg) (shval maxolen : ℕ) (flags : Flags) where
  value-buffer :
      (c : ℕ) (d : Decoder)
      → drop maxolen (decoded_buffer (decode_value cfg shval maxolen c d)) ≡ drop maxolen d.out
  unfolding decode_value
  value-buffer c d = ground (
    arith,
    drop-set d.out maxolen d.olen
        (u8 (bit_and (bit_or (u32 (d.buf <<< shval)) c >>> (d.bits + shval - 8)) 255)),
  )

  eq-buffer : (d : Decoder) → (decode_eq cfg shval maxolen d).out ≡ d.out
  unfolding decode_eq
  eq-buffer d = ground arith

  char-buffer :
      (char : ℕ) (d : Decoder)
      → drop maxolen (decoded_buffer (decode_char cfg shval maxolen flags char d))
        ≡ drop maxolen d.out
  unfolding decode_char
  char-buffer char d = ground (arith, value-buffer (get_or cfg.txtmap (u8 char) 0) d, eq-buffer d)

  chars-buffer :
      (text : List ℕ) (d : Decoder)
      → drop maxolen (decoded_buffer (decode_chars cfg shval maxolen flags text d))
        ≡ drop maxolen d.out
  unfolding decode_chars
  chars-buffer [] d = refl
  chars-buffer (char ∷ rest) d =
      go (decode_char cfg shval maxolen flags char d) (char-buffer char d) (chars-buffer rest)
    where
      go :
          (r : Decoded)
          → drop maxolen (decoded_buffer r) ≡ drop maxolen d.out
          → ((d' : Decoder)
              → drop maxolen (decoded_buffer (decode_chars cfg shval maxolen flags rest d'))
                ≡ drop maxolen d'.out)
          → drop maxolen (
              decoded_buffer (elim r [
                | Decoded.ok d' ↦ elim (d'.done) [
                  | true ↦ Decoded.ok d'
                  | false ↦ decode_chars cfg shval maxolen flags rest d'
                ]
                | Decoded.overflow d' ↦ Decoded.overflow d'
                | Decoded.padding_missing d' ↦ Decoded.padding_missing d'
              ]))
            ≡ drop maxolen d.out
      go (Decoded.ok d') h ih = elim (Bool-cases d'.done) [
        | inl t ↦ simp t h
        | inr t ↦ simp t (ih d' ∙ h)
      ]
      go (Decoded.overflow d') h ih = h
      go (Decoded.padding_missing d') h ih = h

  end-buffer : (d : Decoder) → decoded_buffer (decode_end cfg shval maxolen d) ≡ d.out
  unfolding decode_end
  end-buffer d = ground arith

-- Whatever the configuration, the input and the buffer, with or without an error, `decode` leaves
-- every cell from `*olen` on as it was.
pub drop-decode :
    (cfg : BaseCfg) (out : List ℕ) (olen : ℕ) (input : List ℕ) (flags : Flags)
    → drop olen (decoded_buffer (decode cfg out olen input flags)) ≡ drop olen out
unfolding decode
drop-decode cfg out olen input flags =
    go
      (decode_chars cfg (find_shval cfg) olen flags input
        (record { out = out; olen = 0; ilen = 0; bits = 0; padding = 0; buf = 0; done = false }))
      (chars-buffer cfg (find_shval cfg) olen flags input _)
  where
    go :
        (r : Decoded)
        → drop olen (decoded_buffer r) ≡ drop olen out
        → drop olen (
            decoded_buffer (elim r [
              | Decoded.ok d ↦ decode_end cfg (find_shval cfg) olen d
              | Decoded.overflow d ↦ Decoded.overflow d
              | Decoded.padding_missing d ↦ Decoded.padding_missing d
            ]))
          ≡ drop olen out
    go (Decoded.ok d) h = ap (drop olen) (end-buffer cfg (find_shval cfg) olen flags d) ∙ h
    go (Decoded.overflow d) h = h
    go (Decoded.padding_missing d) h = h
