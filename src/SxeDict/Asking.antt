-- ===== src/SxeDict/Asking.antt =====
-- The keys that `sxe_dict_add` and `sxe_dict_find` of lib-sxe-dict/sxe-dict.c ask for.
use libkit.Common.{
  c_string, length-append, length-take_within, ℕ, zero, suc, ◌≤◌, ◌<◌, ◌==◌, ◌&&◌, Bool, true,
  false, if◌then◌else◌, List, [], ◌∷◌, ◌++◌, take, length, ◌≡◌, refl, sym, ◌∙◌, ap, arith,
  Bool-cases, inl, inr, ==→eq,
}
use libkit.SxeDict.Defs.{strlen, same_bytes, Dict, node_with, compare_keys, sxe_hash_64, key_length}
use libkit.SxeDict.Keys.{HasNul, Asks, same_bytes_cases}

true_or_false : (b : Bool) → b ≡ (if b then true else false)
true_or_false true = refl
true_or_false false = refl

c_string-ended : (s past : List ℕ) → c_string (c_string s ++ 0 ∷ past) ≡ c_string s
c_string-ended [] past = refl
c_string-ended (c ∷ cs) past = elim (Bool-cases (c == 0)) [
  | inl e ↦ rw e refl
  | inr e ↦ rw (e, e, c_string-ended cs past) refl
]

take_copied : (n : ℕ) (s past : List ℕ) → n ≤ length s → take n (take n s ++ past) ≡ take n s
take_copied zero s past h = refl
take_copied (suc n) [] past h = absurd (omega (arith, h))
take_copied (suc n) (c ∷ cs) past h = ap (λ t. c ∷ t) (take_copied n cs past (omega (arith, h)))

c_string_within : (s : List ℕ) → strlen s ≤ length s
c_string_within [] = omega arith
c_string_within (c ∷ cs) = elim (Bool-cases (c == 0)) [
  | inl e ↦ rw e (omega arith)
  | inr e ↦ rw e (omega (arith, c_string_within cs))
]

none_long : (s : List ℕ) → length s ≡ 0 → s ≡ []
none_long [] h = refl
none_long (c ∷ cs) h = absurd (omega (arith, h))

-- No bytes are asked for only where there are none.
key_length_zero : (key : List ℕ) (len : ℕ) → key_length key len ≡ 0 → c_string key ≡ []
key_length_zero key len h = elim (Bool-cases (len == 0)) [
  | inl e ↦ none_long (c_string key) (sym (ap (λ b. if b then strlen key else len) e) ∙ h)
  | inr e ↦ absurd (ground (arith, e, sym (ap (λ b. if b then strlen key else len) e) ∙ h))
]

key_length_within : (key : List ℕ) (len : ℕ) → len ≤ length key → key_length key len ≤ length key
key_length_within key len h = elim (Bool-cases (len == 0)) [
  | inl e ↦ rw e (c_string_within key)
  | inr e ↦ rw e h
]

module _ (hash_64 : List ℕ → ℕ) where
  -- The key that a pointer and a length stand for.
  abbrev pub key_asked : Bool → Bool → List ℕ → ℕ → List ℕ
  key_asked hashed string key len =
      if hashed
      then sxe_hash_64 hash_64 key (key_length key len) ∷ []
      else if string
      then c_string key
      else take (key_length key len) key

  -- The bytes that are asked for are there: as many as the length, and a NUL where that is 0. The length
  -- of a string is that up to its NUL; a binary key that is copied is not empty.
  abbrev pub KeyValid : Bool → Bool → Bool → List ℕ → ℕ → Type 0
  KeyValid hashed string nocopy key len =
      (len ≤ length key)
      × (len ≡ 0 → HasNul key)
      × (if hashed
          then Unit
          else if string
          then (HasNul key × (take (key_length key len) key ≡ c_string key))
          else (nocopy ≡ false → 0 < key_length key len))

  module _ (key : List ℕ) (len : ℕ) where
    abbrev size : ℕ
    size = key_length key len

    abbrev Meant : Bool → Bool → Dict → Type 0
    Meant hashed string dic =
        Asks hash_64 dic (sxe_hash_64 hash_64 key size) key size (key_asked hashed string key len)

    abbrev mode : Dict → Bool → Bool → Dict
    mode dic hashed string = record dic { keys_hashed = hashed; keys_string = string }

    hashed-Meant : (dic : Dict) (string : Bool) → Meant true string (mode dic true string)
    unfolding compare_keys node_with sxe_hash_64
    hashed-Meant dic string = record {
      summed = refl;
      compared = λ node v. true_or_false _;
      made = λ past. refl;
      made_valid = λ past. tt;
    }

    string-Meant :
        (dic : Dict)
        → HasNul key
        → take size key ≡ c_string key
        → Meant false true (mode dic false true)
    unfolding compare_keys node_with sxe_hash_64
    string-Meant dic nul e = record {
      summed = elim (Bool-cases (size == 0)) [
        | inl z ↦ rw z refl
        | inr z ↦ rw z (ap hash_64 (sym e))
      ];
      compared = λ node v. refl;
      made = λ past. elim (Bool-cases (dic.keys_nocopy)) [
        | inl n ↦ rw n refl
        | inr n ↦ rw n (copy past)
      ];
      made_valid = λ past. elim (Bool-cases (dic.keys_nocopy)) [
        | inl n ↦ rw n nul
        | inr n ↦ rw n (copy_nul past)
      ];
    }
      where
        copy : (past : List ℕ) → c_string (take size key ++ 0 ∷ past) ≡ c_string key
        copy past = ap (λ t. c_string (t ++ 0 ∷ past)) e ∙ c_string-ended key past

        copy_nul : (past : List ℕ) → HasNul (take size key ++ 0 ∷ past)
        copy_nul past =
            omega
              (arith, ap length (copy past), ap length e, length-append (take size key) (0 ∷ past))

    same_bytes_taken :
        (n m : ℕ) (s t : List ℕ)
        → n ≤ length s
        → m ≤ length t
        → ((n == m) && same_bytes (take m s) (take m t)) ≡ same_bytes (take n s) (take m t)
    same_bytes_taken n m s t h g = elim (Bool-cases (n == m)) [
      | inl e ↦ rw e (ap (λ i. same_bytes (take i s) (take m t)) (sym (==→eq n m e)))
      | inr e ↦ elim (same_bytes_cases (take n s) (take m t)) [
        | inl (f, same) ↦ absurd (
            ground (
              arith,
              e,
              sym (length-take_within n s h) ∙ ap length same ∙ length-take_within m t g,
            ))
        | inr (f, other) ↦ rw (e, f) refl
      ]
    ]

    binary-Meant :
        (dic : Dict)
        → len ≤ length key
        → (len ≡ 0 → HasNul key)
        → (dic.keys_nocopy ≡ false → 0 < size)
        → Meant false false (mode dic false false)
    unfolding compare_keys node_with sxe_hash_64
    binary-Meant dic h nul some_bytes = record {
      summed = elim (Bool-cases (size == 0)) [
        | inl z ↦
            let e = ==→eq size 0 z in
            ap (λ n. hash_64 (take n key)) e
            ∙ ap hash_64 (sym (key_length_zero key len e))
            ∙ ap (λ b. hash_64 (if b then c_string key else take size key)) (sym z)
        | inr z ↦ ap (λ b. hash_64 (if b then c_string key else take size key)) (sym z)
      ];
      compared =
          λ node v. same_bytes_taken node.len size node.key key v.0 (key_length_within key len h);
      made = λ past. elim (Bool-cases (dic.keys_nocopy)) [
        | inl n ↦ rw n refl
        | inr n ↦ rw n (take_copied size key past (key_length_within key len h))
      ];
      made_valid = λ past. elim (Bool-cases (dic.keys_nocopy)) [
        | inl n ↦
            rw n (
              key_length_within key len h,
              λ z. (refl, key_length_zero key len z, nul (len_zero z)),
            )
        | inr n ↦
            rw n (
              taken past (key_length_within key len h),
              λ z. absurd (omega (arith, z, some_bytes n)),
            )
      ];
    }
      where
        taken : (past : List ℕ) → size ≤ length key → size ≤ length (take size key ++ past)
        taken past g =
            omega (arith, length-take_within size key g, length-append (take size key) past)

        len_zero : size ≡ 0 → len ≡ 0
        len_zero z = elim (Bool-cases (len == 0)) [
          | inl e ↦ ==→eq len 0 e
          | inr e ↦ sym (ap (λ b. if b then strlen key else len) e) ∙ z
        ]

    -- A call with a valid pointer and length asks for this key.
    pub key_asked-Asks :
        (dic : Dict)
        → KeyValid dic.keys_hashed dic.keys_string dic.keys_nocopy key len
        → Meant dic.keys_hashed dic.keys_string dic
    key_asked-Asks dic v = by_mode dic.keys_hashed dic.keys_string v
      where
        by_mode :
            (hashed string : Bool)
            → KeyValid hashed string dic.keys_nocopy key len
            → Meant hashed string (mode dic hashed string)
        by_mode true string h = hashed-Meant dic string
        by_mode false true (within, nul, (ended, e)) = string-Meant dic ended e
        by_mode false false (within, nul, some_bytes) = binary-Meant dic within nul some_bytes
