-- ===== src/BaseEncode/EncodeLoops.antt =====
-- The loops of `encode`, each from its invariant.
use libkit.Common.{
  ℕ, zero, suc, ◌+◌, ◌-◌, ◌*◌, ◌/◌, ◌%◌, ◌^◌, ◌≤◌, ◌<◌, List, [], ◌∷◌, ◌++◌, ◌≡◌, sym, ap, ◌∙◌, u32,
  ◌<<<◌, bit_or, inl, inr, get_or, length, All, length-append, append_assoc, append-nil, leb,
  leb→le, Bool-cases, arith,
}
use libkit.Common.Digits.{bits_of, bits_of_split, bits_of_low, flat, flat_end}
use libkit.BaseEncode.Shift.{shift_in}
use libkit.BaseEncode.Config.{BaseCfg}
use libkit.BaseEncode.Encode.{Encoder, drain, encode_byte, encode_bytes}
use libkit.BaseEncode.Encodes.{
  Ensures, >>=-Ensures, IsAlphabet, Writes, room_left, put_room, letter_mask, put-Writes,
}
use native.Mathlib.Nat.{mod-lt, one-le-pow}

module _ (cfg : BaseCfg) (shval maxolen : ℕ) (a : IsAlphabet cfg shval) where
  -- The bytes `xs` are read, and fewer bits than make a letter are pending.
  abbrev pub Drained : List ℕ → Encoder → Type 0
  Drained xs e = (vs : List ℕ) × Writes cfg shval maxolen xs vs e × (e.bits < shval)

  -- The pending bits split into those of the next letter and the rest.
  next_bits :
      (e : Encoder)
      → shval ≤ e.bits
      → bits_of e.bits e.buf
        ≡ bits_of shval ((e.buf / 2 ^ (e.bits - shval)) % 2 ^ shval)
          ++ bits_of (e.bits - shval) e.buf
  next_bits e h =
      let s : e.bits ≡ shval + (e.bits - shval) = omega arith in
      ap (λ n. bits_of n e.buf) s
      ∙ bits_of_split shval (e.bits - shval) e.buf
      ∙ ap (λ t. t ++ bits_of (e.bits - shval) e.buf)
          (sym (bits_of_low shval shval (e.buf / 2 ^ (e.bits - shval)) (omega arith)))

  module _ (n : ℕ) (fits : 8 * n ≤ shval * (maxolen - 1)) where
    -- `while (bits >= shval)` ends, and overflows nothing.
    pub drain-Drained :
        (rounds : ℕ) (xs vs : List ℕ) (e : Encoder)
        → length xs ≤ n
        → e.bits ≤ rounds
        → Writes cfg shval maxolen xs vs e
        → Ensures (drain cfg shval maxolen rounds e) (Drained xs)
    unfolding drain
    drain-Drained zero xs vs e within enough w = (vs, w, omega (arith, a.least))
    drain-Drained (suc rounds) xs vs e within enough w = elim (Bool-cases (leb shval e.bits)) [
      | inr h ↦ rw (h, drain) (vs, w, ground arith)
      | inl h ↦
          let v = (e.buf / 2 ^ (e.bits - shval)) % 2 ^ shval in
          let fit = room_left cfg shval maxolen n w a.least fits within (leb→le _ _ h) in
          rw
            (
              h,
              drain,
              letter_mask cfg shval maxolen (e.buf / 2 ^ (e.bits - shval)) a,
              put_room cfg shval maxolen (get_or cfg.binmap v 0) e fit,
            )
            (drain-Drained rounds xs (vs ++ v ∷ []) _ within (omega (arith, a.least, leb→le _ _ h))
              (put-Writes cfg shval maxolen xs vs e v (e.bits - shval) w fit
                (mod-lt (e.buf / 2 ^ (e.bits - shval)) (one-le-pow shval 2 (omega arith)))
                (next_bits e (leb→le _ _ h))))
    ]

module _ (cfg : BaseCfg) (shval maxolen : ℕ) (a : IsAlphabet cfg shval) where
  read-Writes :
      (byte : ℕ) {xs vs : List ℕ} {e : Encoder}
      → byte < 2 ^ 8
      → Writes cfg shval maxolen xs vs e
      → e.bits ≤ 24
      → Writes cfg shval maxolen
          (xs ++ byte ∷ [])
          vs
          (record e { buf = bit_or (u32 (e.buf <<< 8)) byte; ilen = e.ilen + 1; bits = e.bits + 8 })
  read-Writes byte {xs} {vs} {e} small w h = record {
    text = w.text;
    count = w.count;
    consumed = omega (arith, w.consumed, length-append xs (byte ∷ []));
    digits =
        rw (shift_in 8 e.bits e.buf byte (omega arith) h small, flat_end 8 byte xs, ← w.digits)
          (sym (append_assoc (flat shval vs) (bits_of e.bits e.buf) (bits_of 8 byte)));
    small = w.small;
    room = w.room;
    ended = w.ended;
  }

  module _ (n : ℕ) (fits : 8 * n ≤ shval * (maxolen - 1)) where
    pub encode_byte-Drained :
        (byte : ℕ) (xs : List ℕ) (e : Encoder)
        → byte < 2 ^ 8
        → length xs + 1 ≤ n
        → Drained cfg shval maxolen a xs e
        → Ensures
            (encode_byte cfg shval maxolen byte e)
            (Drained cfg shval maxolen a (xs ++ byte ∷ []))
    unfolding encode_byte
    encode_byte-Drained byte xs e small within (vs, w, few) =
        drain-Drained cfg shval maxolen a n fits (e.bits + 8) (xs ++ byte ∷ []) vs _
          (omega (arith, length-append xs (byte ∷ []))) (omega arith)
          (read-Writes byte small w (omega (arith, a.most)))

    -- `while (*ilen < maxilen)` reads every byte, and overflows nothing.
    pub encode_bytes-Drained :
        (bytes xs : List ℕ) (e : Encoder)
        → All (λ b. b < 2 ^ 8) bytes
        → length xs + length bytes ≤ n
        → Drained cfg shval maxolen a xs e
        → Ensures
            (encode_bytes cfg shval maxolen bytes e)
            (Drained cfg shval maxolen a (xs ++ bytes))
    unfolding encode_bytes
    encode_bytes-Drained [] xs e small within d = rw append-nil d
    encode_bytes-Drained (byte ∷ rest) xs e small within d =
        rw (← append_assoc xs (byte ∷ []) rest) (
          >>=-Ensures (Drained cfg shval maxolen a (xs ++ byte ∷ []))
            (Drained cfg shval maxolen a ((xs ++ byte ∷ []) ++ rest))
            (encode_byte cfg shval maxolen byte e) (encode_bytes cfg shval maxolen rest)
            (encode_byte-Drained byte xs e small.0 (omega arith) d)
            (λ e' d'.
              encode_bytes-Drained rest (xs ++ byte ∷ []) e' small.1
                (omega (arith, length-append xs (byte ∷ []))) d'))
