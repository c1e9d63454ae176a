-- ===== src/BaseEncode/Config.antt =====
-- `struct basecfg` of lib-kit/kit-base-encode.c, its six values, and the search for the shift.
use libkit.Common.{
  ℕ, zero, suc, ◌+◌, ◌^◌, Bool, true, false, not, ◌&&◌, List, [], ◌∷◌, ◌++◌, ltb, ◌==◌,
}
use libkit.BaseEncode.Tables.{
  base16txtmap, base32txtmap, base32hextxtmap, base64txtmap, base64urltxtmap,
}

pub record BaseCfg : Type 0 where
  pub bits : ℕ
  pub want_padding : Bool
  pub txtmap : List ℕ
  pub binmap : List ℕ

-- `n` characters with consecutive codes, the first of them `c`: a stretch of a `binmap` string.
abbrev pub char_run : ℕ → ℕ → List ℕ
char_run zero c = []
char_run (suc n) c = c ∷ char_run n (c + 1)

unfoldable pub base16_lower : BaseCfg
unfolding base16txtmap
base16_lower = record {
  bits = 16;
  want_padding = false;
  txtmap = base16txtmap;
  binmap = char_run 10 b'0' ++ char_run 6 b'a';
}

unfoldable pub base16_upper : BaseCfg
unfolding base16txtmap
base16_upper = record {
  bits = 16;
  want_padding = false;
  txtmap = base16txtmap;
  binmap = char_run 10 b'0' ++ char_run 6 b'A';
}

-- RFC 4648
unfoldable pub base32cfg : BaseCfg
unfolding base32txtmap
base32cfg = record {
  bits = 32;
  want_padding = false;
  txtmap = base32txtmap;
  binmap = char_run 26 b'A' ++ char_run 6 b'2';
}

-- RFC 2938
unfoldable pub base32hexcfg : BaseCfg
unfolding base32hextxtmap
base32hexcfg = record {
  bits = 32;
  want_padding = false;
  txtmap = base32hextxtmap;
  binmap = char_run 10 b'0' ++ char_run 22 b'A';
}

-- RFC 3548 section 3
unfoldable pub base64cfg : BaseCfg
unfolding base64txtmap
base64cfg = record {
  bits = 64;
  want_padding = true;
  txtmap = base64txtmap;
  binmap = char_run 26 b'A' ++ char_run 26 b'a' ++ char_run 10 b'0' ++ (b'+' ∷ b'/' ∷ []);
}

-- RFC 3548 section 4
unfoldable pub base64urlcfg : BaseCfg
unfolding base64urltxtmap
base64urlcfg = record {
  bits = 64;
  want_padding = false;
  txtmap = base64urltxtmap;
  binmap = char_run 26 b'A' ++ char_run 26 b'a' ++ char_run 10 b'0' ++ (b'-' ∷ b'_' ∷ []);
}

-- `for (shval = 1; shval < 8U && 1U << shval != cfg->bits; shval++);` with the rounds left as fuel:
-- the loop ends at 8, so seven rounds from 1 are enough.
unfoldable pub find_shval_from : ℕ → ℕ → ℕ → ℕ
find_shval_from zero bits shval = shval
find_shval_from (suc rounds) bits shval = elim (ltb shval 8 && not (2 ^ shval == bits)) [
  | true ↦ find_shval_from rounds bits (shval + 1)
  | false ↦ shval
]

unfoldable pub find_shval : BaseCfg → ℕ
find_shval cfg = find_shval_from 7 cfg.bits 1
