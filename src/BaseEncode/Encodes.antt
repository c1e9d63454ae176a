-- ===== src/BaseEncode/Encodes.antt =====
-- What `encode` writes, and that it writes it: the loops' invariants.
use libkit.Common.{
  ℕ, ◌+◌, ◌-◌, ◌*◌, ◌%◌, ◌^◌, ◌≤◌, ◌<◌, List, [], ◌∷◌, ◌++◌, map, ◌≡◌, ◌≢◌, sym, ap, ◌∙◌, some,
  bit_and_mask, add-one, map-append, set, get_or, get_elem?, take, length, All, All-append,
  length-append, append_assoc, take-set_end, take-set_past, length-set, get_elem?-set_self, arith,
}
use libkit.Common.Digits.{bits_of, flat, flat_end, length-flat, length-bits_of}
use native.Mathlib.Nat.{le_of_mul-le-mul_left}
use libkit.BaseEncode.Config.{BaseCfg}
use libkit.BaseEncode.Encode.{Encoder, Encoded, ok, overflow, ◌>>=◌, put, letter}

-- The run ends without an error, in a state that satisfies `P`.
abbrev pub Ensures : Encoded → (Encoder → Type 0) → Type 0
Ensures (ok e) P = P e
Ensures (overflow e) P = ⊥

pub >>=-Ensures :
    (P Q : Encoder → Type 0) (r : Encoded) (f : Encoder → Encoded)
    → Ensures r P
    → ((e : Encoder) → P e → Ensures (f e) Q)
    → Ensures (r >>= f) Q
>>=-Ensures P Q (ok e) f h k = k e h
>>=-Ensures P Q (overflow e) f h k = absurd h

pub Ensures_mono :
    (P Q : Encoder → Type 0) (r : Encoded) → ((e : Encoder) → P e → Q e) → Ensures r P → Ensures r Q
Ensures_mono P Q (ok e) f h = f e h
Ensures_mono P Q (overflow e) f h = h

-- A configuration's alphabet has 2^shval letters.
pub record IsAlphabet (cfg : BaseCfg) (shval : ℕ) : Type 0 where
  pub base : cfg.bits ≡ 2 ^ shval
  pub least : 1 ≤ shval
  pub most : shval ≤ 7

module _ (cfg : BaseCfg) (shval maxolen : ℕ) where
  -- The state after the bytes `xs` of input: `vs` are the values of the letters written.
  pub record Writes (xs vs : List ℕ) (e : Encoder) : Type 0 where
    pub text : take e.olen e.out ≡ map (λ v. get_or cfg.binmap v 0) vs
    pub count : e.olen ≡ length vs
    pub consumed : e.ilen ≡ length xs
    pub digits : flat shval vs ++ bits_of e.bits e.buf ≡ flat 8 xs
    pub small : All (λ v. v < 2 ^ shval) vs
    pub room : maxolen ≤ length e.out
    pub ended : e.olen ≢ 0 → get_elem? e.out e.olen ≡ some 0

  -- The bits written and the bits pending are those read.
  pub Writes-total :
      {xs vs : List ℕ} {e : Encoder} → Writes xs vs e → shval * e.olen + e.bits ≡ 8 * length xs
  Writes-total {xs} {vs} {e} w = omega (
    arith,
    w.count,
    ap (λ (t : ℕ). shval * t) w.count,
    ap length w.digits,
    length-append (flat shval vs) (bits_of e.bits e.buf),
    length-flat shval vs,
    length-flat 8 xs,
    length-bits_of e.bits e.buf,
  )

  -- Where the room for the bits of `n` bytes is there, a letter's worth of pending bits fits.
  pub room_left :
      (n : ℕ) {xs vs : List ℕ} {e : Encoder}
      → Writes xs vs e
      → 1 ≤ shval
      → 8 * n ≤ shval * (maxolen - 1)
      → length xs ≤ n
      → shval ≤ e.bits
      → e.olen + 1 < maxolen
  room_left n {e = e} w pos fits within enough =
      let h : shval * (e.olen + 1) ≤ shval * (maxolen - 1) = omega (arith, Writes-total w) in
      omega (arith, le_of_mul-le-mul_left {k = shval} h pos)

  abbrev pub after_put : ℕ → Encoder → Encoder
  after_put c e = record e { out = set (set e.out e.olen c) (e.olen + 1) 0; olen = e.olen + 1 }

  pub put_room : (c : ℕ) (e : Encoder) → e.olen + 1 < maxolen → put maxolen c e ≡ ok (after_put c e)
  unfolding put
  put_room c e h = ground arith

  pub take-put :
      (out : List ℕ) (n c : ℕ)
      → n + 1 < length out
      → take (n + 1) (set (set out n c) (n + 1) 0) ≡ take n out ++ c ∷ []
  take-put out n c h =
      take-set_past (set out n c) (n + 1) (n + 1) 0 (omega arith)
      ∙ rw add-one (take-set_end out n c (omega arith))

  pub get-put :
      (out : List ℕ) (n c : ℕ)
      → n + 1 < length out
      → get_elem? (set (set out n c) (n + 1) 0) (n + 1) ≡ some 0
  get-put out n c h = get_elem?-set_self (set out n c) (n + 1) 0 (omega (arith, length-set out n c))

  pub letter_mask :
      (v : ℕ)
      → IsAlphabet cfg shval
      → letter cfg shval maxolen v ≡ get_or cfg.binmap (v % 2 ^ shval) 0
  letter_mask v a = rw (a.base, bit_and_mask shval v)

  -- Writing the letter of a value extends the text, and takes the value's bits off the pending ones.
  pub put-Writes :
      (xs vs : List ℕ) (e : Encoder) (v left : ℕ)
      → Writes xs vs e
      → e.olen + 1 < maxolen
      → v < 2 ^ shval
      → bits_of e.bits e.buf ≡ bits_of shval v ++ bits_of left e.buf
      → Writes xs (vs ++ v ∷ []) (record (after_put (get_or cfg.binmap v 0) e) { bits = left })
  put-Writes xs vs e v left w r h d = record {
    text =
        take-put e.out e.olen (get_or cfg.binmap v 0) (omega (arith, w.room))
        ∙ ap (λ t. t ++ get_or cfg.binmap v 0 ∷ []) w.text
        ∙ sym (map-append (λ u. get_or cfg.binmap u 0) vs (v ∷ []));
    count = omega (arith, w.count, length-append vs (v ∷ []));
    consumed = w.consumed;
    digits =
        rw
          (
            flat_end shval v vs,
            append_assoc (flat shval vs) (bits_of shval v) (bits_of left e.buf),
            ← d,
          )
          (w.digits);
    small = All-append _ vs (v ∷ []) w.small (h, tt);
    room = omega (
      arith,
      w.room,
      length-set (set e.out e.olen (get_or cfg.binmap v 0)) (e.olen + 1) 0,
      length-set e.out e.olen (get_or cfg.binmap v 0),
    );
    ended = λ _. get-put e.out e.olen (get_or cfg.binmap v 0) (omega (arith, w.room));
  }
