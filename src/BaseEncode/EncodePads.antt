-- ===== src/BaseEncode/EncodePads.antt =====
-- The last letter and the padding of `encode` in lib-kit/kit-base-encode.c.
use libkit.Common.{
  ℕ, zero, suc, ◌+◌, ◌-◌, ◌*◌, ◌/◌, ◌%◌, ◌^◌, ◌≤◌, ◌<◌, true, false, List, [], ◌∷◌, ◌++◌, map, ◌≡◌,
  ◌≢◌, ◌⊎◌, refl, sym, ap, ◌∙◌, some, u32, ◌<<<◌, inl, inr, set, get_elem?, take, append-nil,
  get_or, length, replicate, All, All-append, map-append, length-append, append_assoc, length-set,
  ◌==◌, ==→eq, Bool-cases, arith,
}
use libkit.Common.Digits.{bits_of, bits_of_low, bits_of_shift, flat, flat_end}
use libkit.BaseEncode.Config.{BaseCfg}
use libkit.BaseEncode.Encode.{Encoder, flush, pad}
use libkit.BaseEncode.Encodes.{
  Ensures, Ensures_mono, IsAlphabet, Writes, Writes-total, after_put, put_room, take-put, get-put,
  letter_mask,
}
use libkit.BaseEncode.EncodeLoops.{Drained}
use native.Mathlib.Nat.{mod-lt, one-le-pow, lt_of_mul-lt-mul_left}

-- The text that stands for the bytes `xs`: letters whose values are the digits of the bytes, filled
-- up by fewer zeros than a letter has bits, and for a padded alphabet the equals signs that bring
-- the digits to whole bytes.
pub record Encodes (cfg : BaseCfg) (shval : ℕ) (xs : List ℕ) (e : Encoder) : Type 0 where
  pub values : List ℕ
  pub zeros : ℕ
  pub pads : ℕ
  pub text : take e.olen e.out ≡ map (λ v. get_or cfg.binmap v 0) values ++ replicate pads b'='
  pub digits : flat shval values ≡ flat 8 xs ++ replicate zeros 0
  pub small : All (λ v. v < 2 ^ shval) values
  pub few_zeros : zeros < shval
  pub unpadded : cfg.want_padding ≡ false → pads ≡ 0
  pub padded : cfg.want_padding ≡ true → (zeros + shval * pads) % 8 ≡ 0
  pub few_pads : pads < 4
  pub count : e.olen ≡ length values + pads
  pub consumed : e.ilen ≡ length xs
  pub ended : get_elem? e.out e.olen ≡ some 0

-- The buffer holds the text for `n` bytes and its NUL.
pub record Fits (cfg : BaseCfg) (shval maxolen n : ℕ) : Type 0 where
  pub some_room : 0 < maxolen
  pub letters : 8 * n ≤ shval * (maxolen - 1)
  pub six : cfg.want_padding ≡ true → shval ≡ 6
  pub padding : cfg.want_padding ≡ true → 4 * ((n + 2) / 3) < maxolen

module _ (cfg : BaseCfg) (shval maxolen : ℕ) where
  -- Whole letters are out, with `zeros` zeros added; `pending` is the count of bits that remains.
  pub record Flushed (xs : List ℕ) (e : Encoder) : Type 0 where
    pub values : List ℕ
    pub zeros : ℕ
    pub text : take e.olen e.out ≡ map (λ v. get_or cfg.binmap v 0) values
    pub digits : flat shval values ≡ flat 8 xs ++ replicate zeros 0
    pub small : All (λ v. v < 2 ^ shval) values
    pub few_zeros : zeros < shval
    pub count : e.olen ≡ length values
    pub consumed : e.ilen ≡ length xs
    pub room : maxolen ≤ length e.out
    pub ended : e.olen ≢ 0 → get_elem? e.out e.olen ≡ some 0
    pub bits : ((e.bits ≡ 0) × (zeros ≡ 0)) ⊎ ((e.bits + zeros ≡ 8) × (0 < zeros))

  module _ (a : IsAlphabet cfg shval) (n : ℕ) (fits : 8 * n ≤ shval * (maxolen - 1)) where
    abbrev last_value : Encoder → ℕ
    last_value e = u32 (e.buf <<< (shval - e.bits)) % 2 ^ shval

    value_small : (e : Encoder) → last_value e < 2 ^ shval
    value_small e = mod-lt (u32 (e.buf <<< (shval - e.bits))) (one-le-pow shval 2 (omega arith))

    nothing_left :
        (vs xs : List ℕ) (e : Encoder)
        → e.bits ≡ 0
        → flat shval vs ++ bits_of e.bits e.buf ≡ flat 8 xs
        → flat shval vs ≡ flat 8 xs ++ []
    unfolding bits_of
    nothing_left vs xs e h d =
        rw append-nil (
          sym (append-nil (flat shval vs)) ∙ ap (λ k. flat shval vs ++ bits_of k e.buf) (sym h) ∙ d)

    last_bits :
        (e : Encoder)
        → e.bits < shval
        → bits_of shval (last_value e) ≡ bits_of e.bits e.buf ++ replicate (shval - e.bits) 0
    last_bits e h =
        let s : shval ≡ e.bits + (shval - e.bits) = omega arith in
        bits_of_low shval shval (u32 (e.buf <<< (shval - e.bits))) (omega arith)
        ∙ bits_of_low shval 32 (e.buf <<< (shval - e.bits)) (omega (arith, a.most))
        ∙ ap (λ m. bits_of m (e.buf * 2 ^ (shval - e.bits))) s
        ∙ bits_of_shift e.bits (shval - e.bits) e.buf

    last_room :
        {xs vs : List ℕ} {e : Encoder}
        → Writes cfg shval maxolen xs vs e
        → length xs ≤ n
        → e.bits ≢ 0
        → e.olen + 1 < maxolen
    last_room {e = e} w within more =
        let h : shval * e.olen < shval * (maxolen - 1) =
          omega (arith, Writes-total cfg shval maxolen w) in
        omega (arith, lt_of_mul-lt-mul_left shval h)

    last_letter :
        (xs vs : List ℕ) (e : Encoder)
        → Writes cfg shval maxolen xs vs e
        → e.bits < shval
        → e.bits ≢ 0
        → e.olen + 1 < maxolen
        → Flushed xs (record (after_put cfg shval maxolen (get_or cfg.binmap (last_value e) 0) e) {
          bits = e.bits + (8 - shval);
        })
    last_letter xs vs e w few more fit =
        let v = last_value e in
        let c = get_or cfg.binmap v 0 in
        record {
          values = vs ++ v ∷ [];
          zeros = shval - e.bits;
          text =
              take-put cfg shval maxolen e.out e.olen c (omega (arith, w.room))
              ∙ ap (λ t. t ++ c ∷ []) w.text
              ∙ sym (map-append (λ u. get_or cfg.binmap u 0) vs (v ∷ []));
          digits =
              rw (flat_end shval v vs, last_bits e few, ← w.digits)
                (sym (
                  append_assoc (flat shval vs) (bits_of e.bits e.buf)
                    (replicate (shval - e.bits) 0)));
          small = All-append _ vs (v ∷ []) w.small (value_small e, tt);
          few_zeros = omega arith;
          count = omega (arith, w.count, length-append vs (v ∷ []));
          consumed = w.consumed;
          room = omega (
            arith,
            w.room,
            length-set (set e.out e.olen c) (e.olen + 1) 0,
            length-set e.out e.olen c,
          );
          ended = λ _. get-put cfg shval maxolen e.out e.olen c (omega (arith, w.room));
          bits = inr (omega (arith, a.most), omega arith);
        }

    -- `if (bits)`: the pending bits, filled up with zeros, make one more letter.
    pub flush-Flushed :
        (xs : List ℕ) (e : Encoder)
        → length xs ≤ n
        → Drained cfg shval maxolen a xs e
        → Ensures (flush cfg shval maxolen e) (Flushed xs)
    unfolding flush
    flush-Flushed xs e within (vs, w, few) = elim (Bool-cases (e.bits == 0)) [
      | inl h ↦ rw h (record {
        values = vs;
        zeros = 0;
        text = w.text;
        digits = nothing_left vs xs e (==→eq _ _ h) w.digits;
        small = w.small;
        few_zeros = a.least;
        count = w.count;
        consumed = w.consumed;
        room = w.room;
        ended = w.ended;
        bits = inl (==→eq _ _ h, refl);
      })
      | inr h ↦
          let fit = last_room w within (ground arith) in
          rw
            (
              h,
              letter_mask cfg shval maxolen (u32 (e.buf <<< (shval - e.bits))) a,
              put_room cfg shval maxolen (get_or cfg.binmap (last_value e) 0) e fit,
            )
            (last_letter xs vs e w few (ground arith) fit)
    ]

  -- `k` equals signs are written after the text of `e`.
  abbrev pub Padded : Encoder → ℕ → Encoder → Type 0
  Padded e k e' =
      (take e'.olen e'.out ≡ take e.olen e.out ++ replicate k b'=')
      × (e'.olen ≡ e.olen + k)
      × (e'.ilen ≡ e.ilen)
      × (get_elem? e'.out e'.olen ≡ some 0)

  Padded-none : (e : Encoder) → get_elem? e.out e.olen ≡ some 0 → Padded e 0 e
  Padded-none e ended = (sym (append-nil (take e.olen e.out)), omega arith, refl, ended)

  abbrev signed : Encoder → Encoder
  signed e = record (after_put cfg shval maxolen b'=' e) { bits = e.bits + (8 - shval) }

  Padded-more :
      (e : Encoder) (k : ℕ) (e' : Encoder)
      → e.olen + 1 < length e.out
      → Padded (signed e) k e'
      → Padded e (suc k) e'
  Padded-more e k e' room (t, n, c, z) = (
    t
        ∙ ap (λ s. s ++ replicate k b'=') (take-put cfg shval maxolen e.out e.olen b'=' room)
        ∙ append_assoc (take e.olen e.out) (b'=' ∷ []) (replicate k b'='),
    omega arith,
    c,
    z,
  )

  -- `while ((bits % 8) != 0)` writes the equals signs that are wanted, and stops.
  pub pad_run :
      (k rounds : ℕ) (e : Encoder)
      → shval ≡ 6
      → k < 4
      → k ≤ rounds
      → (e.bits + 2 * k) % 8 ≡ 0
      → e.olen + k < maxolen
      → maxolen ≤ length e.out
      → get_elem? e.out e.olen ≡ some 0
      → Ensures (pad cfg shval maxolen rounds e) (Padded e k)
  unfolding pad
  pad_run zero zero e six few enough whole fit room ended = Padded-none e ended
  pad_run zero (suc rounds) e six few enough whole fit room ended =
      let h : (e.bits % 8 == 0) ≡ true = ground arith in rw (h, pad) (Padded-none e ended)
  pad_run (suc k) zero e six few enough whole fit room ended = absurd (omega arith)
  pad_run (suc k) (suc rounds) e six few enough whole fit room ended =
      let h : (e.bits % 8 == 0) ≡ false = ground arith in
      rw (h, pad, put_room cfg shval maxolen b'=' e (omega arith))
        (Ensures_mono (Padded (signed e) k) (Padded e (suc k))
          (pad cfg shval maxolen rounds (signed e)) (λ e' p. Padded-more e k e' (omega arith) p)
          (pad_run k rounds (signed e) six (omega arith) (omega arith) (omega arith) (omega arith)
            (omega (
              arith,
              length-set (set e.out e.olen b'=') (e.olen + 1) 0,
              length-set e.out e.olen b'=',
            ))
            (get-put cfg shval maxolen e.out e.olen b'=' (omega arith))))
