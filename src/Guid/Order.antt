-- ===== src/Guid/Order.antt =====
-- The order of identifiers, by `kit_guid_cmp` of lib-kit/kit-guid.c.
use libkit.Common.{
  ℕ, List, [], ◌∷◌, length, Option, none, some, ◌≡◌, refl, sym, ap, ◌∙◌, ◌↔◌, arith,
}
use libkit.Guid.Defs.{Guid, Sign, negative, null, positive, kit_guid_size, memcmp, kit_guid_cmp}

abbrev pub opposite : Sign → Sign
opposite negative = positive
opposite null = null
opposite positive = negative

memcmp_swap : (xs ys : List ℕ) → length xs ≡ length ys → memcmp ys xs ≡ opposite (memcmp xs ys)
unfolding memcmp
memcmp_swap [] [] h = refl
memcmp_swap [] (y ∷ ys) h = absurd (omega arith)
memcmp_swap (x ∷ xs) [] h = absurd (omega arith)
memcmp_swap (x ∷ xs) (y ∷ ys) h = ground (arith, memcmp_swap xs ys (omega arith))

pub memcmp_self : (xs : List ℕ) → memcmp xs xs ≡ null
unfolding memcmp
memcmp_self [] = refl
memcmp_self (x ∷ xs) = ground (arith, memcmp_self xs)

pub memcmp_null : (xs ys : List ℕ) → length xs ≡ length ys → memcmp xs ys ≡ null → xs ≡ ys
unfolding memcmp
memcmp_null [] [] h e = refl
memcmp_null [] (y ∷ ys) h e = absurd (omega arith)
memcmp_null (x ∷ xs) [] h e = absurd (omega arith)
memcmp_null (x ∷ xs) (y ∷ ys) h e = ground (arith, memcmp_null xs ys (omega arith))

memcmp_trans :
    (xs ys zs : List ℕ)
    → length xs ≡ length ys
    → length ys ≡ length zs
    → memcmp xs ys ≡ negative
    → memcmp ys zs ≡ negative
    → memcmp xs zs ≡ negative
unfolding memcmp
memcmp_trans [] ys zs h k e f = absurd (cc e)
memcmp_trans (x ∷ xs) [] zs h k e f = absurd (omega arith)
memcmp_trans (x ∷ xs) (y ∷ ys) [] h k e f = absurd (omega arith)
memcmp_trans (x ∷ xs) (y ∷ ys) (z ∷ zs) h k e f =
    ground (arith, memcmp_trans xs ys zs (omega arith) (omega arith))

abbrev pub IsPointer : Option Guid → Type 0
IsPointer none = Unit
IsPointer (some guid) = length guid.bytes ≡ kit_guid_size

cmp_swap :
    (a b : Option Guid) → IsPointer a → IsPointer b → kit_guid_cmp b a ≡ opposite (kit_guid_cmp a b)
unfolding kit_guid_cmp
cmp_swap none none p q = refl
cmp_swap none (some b) p q = refl
cmp_swap (some a) none p q = refl
cmp_swap (some a) (some b) p q = memcmp_swap a.bytes b.bytes (p ∙ sym q)

cmp_null : (a b : Option Guid) → IsPointer a → IsPointer b → (kit_guid_cmp a b ≡ null) ↔ (a ≡ b)
unfolding kit_guid_cmp
cmp_null a b p q = (same a b p q, λ e. ap (kit_guid_cmp a) (sym e) ∙ self a)
  where
    self : (a : Option Guid) → kit_guid_cmp a a ≡ null
    self none = refl
    self (some a) = memcmp_self a.bytes

    same : (a b : Option Guid) → IsPointer a → IsPointer b → kit_guid_cmp a b ≡ null → a ≡ b
    same none none p q e = refl
    same none (some b) p q e = absurd (cc e)
    same (some a) none p q e = absurd (cc e)
    same (some a) (some b) p q e =
        ap (λ t. some (record { bytes = t })) (memcmp_null a.bytes b.bytes (p ∙ sym q) e)

-- On pointers that are null or to identifiers of sixteen bytes, less is transitive.
pub kit_guid_cmp_trans :
    (a b c : Option Guid)
    → IsPointer a
    → IsPointer b
    → IsPointer c
    → kit_guid_cmp a b ≡ negative
    → kit_guid_cmp b c ≡ negative
    → kit_guid_cmp a c ≡ negative
unfolding kit_guid_cmp
kit_guid_cmp_trans none none c p q r e f = absurd (cc e)
kit_guid_cmp_trans none (some b) none p q r e f = absurd (cc f)
kit_guid_cmp_trans none (some b) (some c) p q r e f = refl
kit_guid_cmp_trans (some a) none c p q r e f = absurd (cc e)
kit_guid_cmp_trans (some a) (some b) none p q r e f = absurd (cc f)
kit_guid_cmp_trans (some a) (some b) (some c) p q r e f =
    memcmp_trans a.bytes b.bytes c.bytes (p ∙ sym q) (q ∙ sym r) e f

-- On pointers that are null or to identifiers of sixteen bytes, `kit_guid_cmp` returns zero exactly for
-- equal arguments, and its sign turns when they are swapped.
pub kit_guid_cmp-opposite :
    (a b : Option Guid)
    → IsPointer a
    → IsPointer b
    → (kit_guid_cmp b a ≡ opposite (kit_guid_cmp a b)) × ((kit_guid_cmp a b ≡ null) ↔ (a ≡ b))
kit_guid_cmp-opposite a b p q = (cmp_swap a b p q, cmp_null a b p q)
