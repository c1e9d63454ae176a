-- ===== src/BaseEncode/Tables.antt =====
-- The translation tables of lib-kit/kit-base-encode.c, one row of sixteen entries after another.
use libkit.Common.{ℕ, List, [], ◌∷◌, ◌++◌, replicate}

-- Whitespace character
abbrev pub ws : ℕ
ws = 64

-- Equals sign (padding indicator)
abbrev pub eq : ℕ
eq = 65

-- Invalid in the encoding
abbrev pub inv : ℕ
inv = 66

abbrev inv_row : List ℕ
inv_row = replicate 16 inv

unfoldable pub base16txtmap : List ℕ
base16txtmap =
    (inv ∷ inv ∷ inv ∷ inv ∷ inv ∷ inv ∷ inv ∷ inv ∷ inv ∷ ws ∷ ws ∷ inv ∷ inv ∷ inv ∷ inv ∷ inv
      ∷ [])
    ++ inv_row
    ++ (ws ∷ inv ∷ inv ∷ inv ∷ inv ∷ inv ∷ inv ∷ inv ∷ inv ∷ inv ∷ inv ∷ inv ∷ inv ∷ inv ∷ inv ∷ inv
        ∷ [])
    ++ (0 ∷ 1 ∷ 2 ∷ 3 ∷ 4 ∷ 5 ∷ 6 ∷ 7 ∷ 8 ∷ 9 ∷ inv ∷ inv ∷ inv ∷ eq ∷ inv ∷ inv ∷ [])
    ++ (inv ∷ 10 ∷ 11 ∷ 12 ∷ 13 ∷ 14 ∷ 15 ∷ inv ∷ inv ∷ inv ∷ inv ∷ inv ∷ inv ∷ inv ∷ inv ∷ inv
        ∷ [])
    ++ (15 ∷ inv ∷ inv ∷ inv ∷ inv ∷ inv ∷ inv ∷ inv ∷ inv ∷ inv ∷ inv ∷ inv ∷ inv ∷ inv ∷ inv ∷ inv
        ∷ [])
    ++ (inv ∷ 10 ∷ 11 ∷ 12 ∷ 13 ∷ 14 ∷ 15 ∷ inv ∷ inv ∷ inv ∷ inv ∷ inv ∷ inv ∷ inv ∷ inv ∷ inv
        ∷ [])
    ++ inv_row
    ++ inv_row
    ++ inv_row
    ++ inv_row
    ++ inv_row
    ++ inv_row
    ++ inv_row
    ++ inv_row
    ++ inv_row

unfoldable pub base32txtmap : List ℕ
base32txtmap =
    (inv ∷ inv ∷ inv ∷ inv ∷ inv ∷ inv ∷ inv ∷ inv ∷ inv ∷ ws ∷ ws ∷ inv ∷ inv ∷ inv ∷ inv ∷ inv
      ∷ [])
    ++ inv_row
    ++ (ws ∷ inv ∷ inv ∷ inv ∷ inv ∷ inv ∷ inv ∷ inv ∷ inv ∷ inv ∷ inv ∷ inv ∷ inv ∷ inv ∷ inv ∷ inv
        ∷ [])
    ++ (inv ∷ inv ∷ 26 ∷ 27 ∷ 28 ∷ 29 ∷ 30 ∷ 31 ∷ inv ∷ inv ∷ inv ∷ inv ∷ inv ∷ eq ∷ inv ∷ inv ∷ [])
    ++ (inv ∷ 0 ∷ 1 ∷ 2 ∷ 3 ∷ 4 ∷ 5 ∷ 6 ∷ 7 ∷ 8 ∷ 9 ∷ 10 ∷ 11 ∷ 12 ∷ 13 ∷ 14 ∷ [])
    ++ (15 ∷ 16 ∷ 17 ∷ 18 ∷ 19 ∷ 20 ∷ 21 ∷ 22 ∷ 23 ∷ 24 ∷ 25 ∷ inv ∷ inv ∷ inv ∷ inv ∷ inv ∷ [])
    ++ inv_row
    ++ inv_row
    ++ inv_row
    ++ inv_row
    ++ inv_row
    ++ inv_row
    ++ inv_row
    ++ inv_row
    ++ inv_row
    ++ inv_row

unfoldable pub base32hextxtmap : List ℕ
base32hextxtmap =
    (inv ∷ inv ∷ inv ∷ inv ∷ inv ∷ inv ∷ inv ∷ inv ∷ inv ∷ ws ∷ ws ∷ inv ∷ inv ∷ inv ∷ inv ∷ inv
      ∷ [])
    ++ inv_row
    ++ (ws ∷ inv ∷ inv ∷ inv ∷ inv ∷ inv ∷ inv ∷ inv ∷ inv ∷ inv ∷ inv ∷ inv ∷ inv ∷ inv ∷ inv ∷ inv
        ∷ [])
    ++ (0 ∷ 1 ∷ 2 ∷ 3 ∷ 4 ∷ 5 ∷ 6 ∷ 7 ∷ 8 ∷ 9 ∷ inv ∷ inv ∷ inv ∷ eq ∷ inv ∷ inv ∷ [])
    ++ (inv ∷ 10 ∷ 11 ∷ 12 ∷ 13 ∷ 14 ∷ 15 ∷ 16 ∷ 17 ∷ 18 ∷ 19 ∷ 20 ∷ 21 ∷ 22 ∷ 23 ∷ 24 ∷ [])
    ++ (25 ∷ 26 ∷ 27 ∷ 28 ∷ 29 ∷ 30 ∷ 31 ∷ inv ∷ inv ∷ inv ∷ inv ∷ inv ∷ inv ∷ inv ∷ inv ∷ inv ∷ [])
    ++ (inv ∷ 10 ∷ 11 ∷ 12 ∷ 13 ∷ 14 ∷ 15 ∷ 16 ∷ 17 ∷ 18 ∷ 19 ∷ 20 ∷ 21 ∷ 22 ∷ 23 ∷ 24 ∷ [])
    ++ (25 ∷ 26 ∷ 27 ∷ 28 ∷ 29 ∷ 30 ∷ 31 ∷ inv ∷ inv ∷ inv ∷ inv ∷ inv ∷ inv ∷ inv ∷ inv ∷ inv ∷ [])
    ++ inv_row
    ++ inv_row
    ++ inv_row
    ++ inv_row
    ++ inv_row
    ++ inv_row
    ++ inv_row
    ++ inv_row

unfoldable pub base64txtmap : List ℕ
base64txtmap =
    (inv ∷ inv ∷ inv ∷ inv ∷ inv ∷ inv ∷ inv ∷ inv ∷ inv ∷ ws ∷ ws ∷ inv ∷ inv ∷ inv ∷ inv ∷ inv
      ∷ [])
    ++ inv_row
    ++ (ws ∷ inv ∷ inv ∷ inv ∷ inv ∷ inv ∷ inv ∷ inv ∷ inv ∷ inv ∷ inv ∷ 62 ∷ inv ∷ inv ∷ inv ∷ 63
        ∷ [])
    ++ (52 ∷ 53 ∷ 54 ∷ 55 ∷ 56 ∷ 57 ∷ 58 ∷ 59 ∷ 60 ∷ 61 ∷ inv ∷ inv ∷ inv ∷ eq ∷ inv ∷ inv ∷ [])
    ++ (inv ∷ 0 ∷ 1 ∷ 2 ∷ 3 ∷ 4 ∷ 5 ∷ 6 ∷ 7 ∷ 8 ∷ 9 ∷ 10 ∷ 11 ∷ 12 ∷ 13 ∷ 14 ∷ [])
    ++ (15 ∷ 16 ∷ 17 ∷ 18 ∷ 19 ∷ 20 ∷ 21 ∷ 22 ∷ 23 ∷ 24 ∷ 25 ∷ inv ∷ inv ∷ inv ∷ inv ∷ inv ∷ [])
    ++ (inv ∷ 26 ∷ 27 ∷ 28 ∷ 29 ∷ 30 ∷ 31 ∷ 32 ∷ 33 ∷ 34 ∷ 35 ∷ 36 ∷ 37 ∷ 38 ∷ 39 ∷ 40 ∷ [])
    ++ (41 ∷ 42 ∷ 43 ∷ 44 ∷ 45 ∷ 46 ∷ 47 ∷ 48 ∷ 49 ∷ 50 ∷ 51 ∷ inv ∷ inv ∷ inv ∷ inv ∷ inv ∷ [])
    ++ inv_row
    ++ inv_row
    ++ inv_row
    ++ inv_row
    ++ inv_row
    ++ inv_row
    ++ inv_row
    ++ inv_row

unfoldable pub base64urltxtmap : List ℕ
base64urltxtmap =
    (inv ∷ inv ∷ inv ∷ inv ∷ inv ∷ inv ∷ inv ∷ inv ∷ inv ∷ ws ∷ ws ∷ inv ∷ inv ∷ inv ∷ inv ∷ inv
      ∷ [])
    ++ inv_row
    ++ (ws ∷ inv ∷ inv ∷ inv ∷ inv ∷ inv ∷ inv ∷ inv ∷ inv ∷ inv ∷ inv ∷ inv ∷ inv ∷ 62 ∷ inv ∷ inv
        ∷ [])
    ++ (52 ∷ 53 ∷ 54 ∷ 55 ∷ 56 ∷ 57 ∷ 58 ∷ 59 ∷ 60 ∷ 61 ∷ inv ∷ inv ∷ inv ∷ eq ∷ inv ∷ inv ∷ [])
    ++ (inv ∷ 0 ∷ 1 ∷ 2 ∷ 3 ∷ 4 ∷ 5 ∷ 6 ∷ 7 ∷ 8 ∷ 9 ∷ 10 ∷ 11 ∷ 12 ∷ 13 ∷ 14 ∷ [])
    ++ (15 ∷ 16 ∷ 17 ∷ 18 ∷ 19 ∷ 20 ∷ 21 ∷ 22 ∷ 23 ∷ 24 ∷ 25 ∷ inv ∷ inv ∷ inv ∷ inv ∷ 63 ∷ [])
    ++ (inv ∷ 26 ∷ 27 ∷ 28 ∷ 29 ∷ 30 ∷ 31 ∷ 32 ∷ 33 ∷ 34 ∷ 35 ∷ 36 ∷ 37 ∷ 38 ∷ 39 ∷ 40 ∷ [])
    ++ (41 ∷ 42 ∷ 43 ∷ 44 ∷ 45 ∷ 46 ∷ 47 ∷ 48 ∷ 49 ∷ 50 ∷ 51 ∷ inv ∷ inv ∷ inv ∷ inv ∷ inv ∷ [])
    ++ inv_row
    ++ inv_row
    ++ inv_row
    ++ inv_row
    ++ inv_row
    ++ inv_row
    ++ inv_row
    ++ inv_row
