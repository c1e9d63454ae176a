-- ===== src/BaseEncode/EncodeEnd.antt =====
-- `encode` of lib-kit/kit-base-encode.c as a whole.
use libkit.Common.{
  ℕ, ◌+◌, ◌*◌, ◌/◌, ◌^◌, ◌≤◌, ◌<◌, true, false, List, [], ◌∷◌, ◌++◌, ◌≡◌, ◌≢◌, refl, ap, ◌∙◌, inl,
  inr, set, append-nil, get_elem?-set_self, length, replicate, All, length-replicate, length-append,
  ◌==◌, if◌then◌else◌, Bool-cases, arith,
}
use libkit.Common.Digits.{bits_of, flat, length-flat}
use libkit.BaseEncode.Config.{BaseCfg, find_shval}
use libkit.BaseEncode.Encode.{Encoder, ok, ◌>>=◌, flush, pad, encode, encode_bytes}
use libkit.BaseEncode.Encodes.{Ensures, Ensures_mono, >>=-Ensures, IsAlphabet}
use libkit.BaseEncode.EncodeLoops.{Drained, encode_bytes-Drained}
use libkit.BaseEncode.EncodePads.{Flushed, Padded, pad_run, Encodes, Fits, flush-Flushed}

-- The states in which `encode` begins its work and ends at once.
abbrev start : List ℕ → Encoder
start out = record { out = out; olen = 0; ilen = 0; bits = 0; buf = 0 }

module _ (cfg : BaseCfg) (shval maxolen : ℕ) (a : IsAlphabet cfg shval) where
  -- Without padding the flushed text is the result.
  unpadded-Encodes :
      (xs : List ℕ) (e : Encoder)
      → cfg.want_padding ≡ false
      → e.olen ≢ 0
      → Flushed cfg shval maxolen xs e
      → Encodes cfg shval xs e
  unpadded-Encodes xs e no_pads written f = record {
    values = f.values;
    zeros = f.zeros;
    pads = 0;
    text = rw append-nil f.text;
    digits = f.digits;
    small = f.small;
    few_zeros = f.few_zeros;
    unpadded = λ _. refl;
    padded = λ h. cc;
    few_pads = omega arith;
    count = omega (arith, f.count);
    consumed = f.consumed;
    ended = f.ended written;
  }

  Flushed-total :
      (xs : List ℕ) (e : Encoder)
      → (f : Flushed cfg shval maxolen xs e) → shval * e.olen ≡ 8 * length xs + f.zeros
  Flushed-total xs e f = omega (
    arith,
    ap (λ (t : ℕ). shval * t) f.count,
    ap length f.digits,
    length-append (flat 8 xs) (replicate f.zeros 0),
    length-flat shval f.values,
    length-flat 8 xs,
    length-replicate {A = ℕ} f.zeros 0,
  )

  six_total :
      (xs : List ℕ) (e : Encoder)
      → shval ≡ 6
      → (f : Flushed cfg shval maxolen xs e) → 6 * e.olen ≡ 8 * length xs + f.zeros
  six_total xs e six f = omega (arith, Flushed-total xs e f, ap (λ (w : ℕ). w * e.olen) six)

  even_zeros :
      (xs : List ℕ) (e : Encoder)
      → shval ≡ 6
      → (f : Flushed cfg shval maxolen xs e) → f.zeros ≡ 2 * (f.zeros / 2)
  even_zeros xs e six f = omega (arith, six_total xs e six f)

  -- Half as many equals signs as zeros are wanted.
  Padded-Encodes :
      (xs : List ℕ) (e e' : Encoder)
      → shval ≡ 6
      → cfg.want_padding ≡ true
      → (f : Flushed cfg shval maxolen xs e) → Padded cfg shval maxolen e (f.zeros / 2) e'
      → Encodes cfg shval xs e'
  Padded-Encodes xs e e' six yes_pads f (t, n, c, z) = record {
    values = f.values;
    zeros = f.zeros;
    pads = f.zeros / 2;
    text = t ∙ ap (λ s. s ++ replicate (f.zeros / 2) b'=') f.text;
    digits = f.digits;
    small = f.small;
    few_zeros = f.few_zeros;
    unpadded = λ h. cc;
    padded = λ _.
        omega (arith, even_zeros xs e six f, f.few_zeros, ap (λ (w : ℕ). w * (f.zeros / 2)) six);
    few_pads = omega (arith, f.few_zeros);
    count = omega (arith, f.count);
    consumed = omega (arith, f.consumed);
    ended = z;
  }

  some_text :
      (xs : List ℕ) (e : Encoder) → Flushed cfg shval maxolen xs e → 0 < length xs → e.olen ≢ 0
  some_text xs e f some_bytes h = omega (arith, Flushed-total xs e f, ap (λ (t : ℕ). shval * t) h)

  -- After the last letter: the padding where it is wanted, which fits.
  finish-Encodes :
      (xs : List ℕ) (e : Encoder)
      → Fits cfg shval maxolen (length xs)
      → e.olen ≢ 0
      → Flushed cfg shval maxolen xs e
      → Ensures
          (if cfg.want_padding then pad cfg shval maxolen 8 e else ok e)
          (Encodes cfg shval xs)
  finish-Encodes xs e fits written f = elim (Bool-cases cfg.want_padding) [
    | inr no_pads ↦ simp no_pads (unpadded-Encodes xs e no_pads written f)
    | inl yes_pads ↦
        let six = fits.six yes_pads in
        let room = fits.padding yes_pads in
        simp yes_pads (
          Ensures_mono (Padded cfg shval maxolen e (f.zeros / 2)) (Encodes cfg shval xs)
            (pad cfg shval maxolen 8 e) (λ e' p. Padded-Encodes xs e e' six yes_pads f p)
            (pad_run cfg shval maxolen (f.zeros / 2) 8 e six (omega (arith, f.few_zeros))
              (omega (arith, f.few_zeros)) (omega (arith, f.bits, even_zeros xs e six f))
              (omega (arith, six_total xs e six f, f.few_zeros)) f.room (f.ended written)))
  ]

  start-Drained : (out : List ℕ) → maxolen ≤ length out → Drained cfg shval maxolen a [] (start out)
  unfolding bits_of flat
  start-Drained out room = (
    [],
    record {
      text = refl;
      count = refl;
      consumed = refl;
      digits = refl;
      small = tt;
      room = room;
      ended = λ h. absurd (h refl);
    },
    a.least,
  )

  empty-Encodes :
      (out : List ℕ)
      → 0 < length out
      → Encodes cfg shval [] (record { out = set out 0 0; olen = 0; ilen = 0; bits = 0; buf = 0 })
  unfolding flat
  empty-Encodes out room = record {
    values = [];
    zeros = 0;
    pads = 0;
    text = refl;
    digits = refl;
    small = tt;
    few_zeros = a.least;
    unpadded = λ _. refl;
    padded = λ _. omega arith;
    few_pads = omega arith;
    count = refl;
    consumed = refl;
    ended = get_elem?-set_self out 0 0 room;
  }

  -- Given a buffer that `Fits` the text for the bytes, `encode` reports no error, consumes the whole
  -- input and leaves the NUL-terminated text that `Encodes` the bytes.
  pub encode-Encodes :
      (out xs : List ℕ)
      → find_shval cfg ≡ shval
      → maxolen ≤ length out
      → All (λ b. b < 2 ^ 8) xs
      → Fits cfg shval maxolen (length xs)
      → Ensures (encode cfg out maxolen xs (length xs)) (Encodes cfg shval xs)
  unfolding encode
  encode-Encodes out [] found room small fits =
      let h : (maxolen == 0) ≡ false = ground arith in
      rw h (empty-Encodes out (omega (arith, fits.some_room)))
  encode-Encodes out (x ∷ rest) found room small fits =
      let xs = x ∷ rest in
      let h : (maxolen == 0) ≡ false = ground arith in
      let k : (length xs == 0) ≡ false = ground arith in
      rw (h, k, found)
        (>>=-Ensures (Flushed cfg shval maxolen xs) (Encodes cfg shval xs)
          (encode_bytes cfg shval maxolen xs (start out) >>= flush cfg shval maxolen)
          (λ e. if cfg.want_padding then pad cfg shval maxolen 8 e else ok e)
          (>>=-Ensures (Drained cfg shval maxolen a xs) (Flushed cfg shval maxolen xs)
            (encode_bytes cfg shval maxolen xs (start out)) (flush cfg shval maxolen)
            (encode_bytes-Drained cfg shval maxolen a (length xs) fits.letters xs [] (start out)
              small (omega arith) (start-Drained out room))
            (λ e d.
              flush-Flushed cfg shval maxolen a (length xs) fits.letters xs e (omega arith) d))
          (λ e f. finish-Encodes xs e fits (some_text xs e f (omega arith)) f))
