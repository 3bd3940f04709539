-- ===== src/Names/Order.antt =====
-- The order of names behind `strncmp` and `cmp_entry` of libevdev/libevdev-names.c: the comparison
-- of a stretch of bytes with the name of an entry, by the first byte in which they differ.
use Prim.Native.Nat.{Ordering, compare}
use android_external_libevde.Base.{
  ℕ, zero, suc, Bool, true, not, ◌==◌, ◌&&◌, if◌then◌else◌, ℤ, pos, minus_one, eq_ℤ, [], ◌∷◌,
  get_or, take, length, ◌≡◌, refl, ◌≤◌, arith,
}
use android_external_libevde.Event.{Text}
use android_external_libevde.Names.{NameEntry, NameLookup, strncmp, cmp_entry}

-- The order of texts, as `strcmp` tells it.
unfoldable pub text_order : Text → Text → Ordering
text_order [] [] = Ordering.eq
text_order [] (y ∷ b) = Ordering.lt
text_order (x ∷ a) [] = Ordering.gt
text_order (x ∷ a) (y ∷ b) =
    let rest = text_order a b in elim (compare x y) [ Ordering.eq ↦ rest | r ↦ r ]

abbrev pub sign : Ordering → ℤ
sign Ordering.lt = minus_one
sign Ordering.eq = pos 0
sign Ordering.gt = pos 1

-- A C string has no byte 0 before its end.
abbrev pub has_no_zero : Text → Bool
has_no_zero [] = true
has_no_zero (x ∷ xs) = let rest = has_no_zero xs in not (x == 0) && rest

pub text_order-eq : (a b : Text) → text_order a b ≡ Ordering.eq → a ≡ b
unfolding text_order
text_order-eq [] [] h = refl
text_order-eq [] (y ∷ b) h = ground arith
text_order-eq (x ∷ a) [] h = ground arith
text_order-eq (x ∷ a) (y ∷ b) h = ground (arith, text_order-eq a b)

pub text_order_self : (a : Text) → text_order a a ≡ Ordering.eq
unfolding text_order
text_order_self [] = refl
text_order_self (x ∷ a) = ground (arith, text_order_self a)

pub text_order_trans :
    (a b c : Text)
    → text_order a b ≡ Ordering.lt
    → text_order b c ≡ Ordering.lt
    → text_order a c ≡ Ordering.lt
unfolding text_order
text_order_trans [] [] c h k = ground arith
text_order_trans [] (y ∷ b) [] h k = ground arith
text_order_trans [] (y ∷ b) (z ∷ c) h k = refl
text_order_trans (x ∷ a) [] c h k = ground arith
text_order_trans (x ∷ a) (y ∷ b) [] h k = ground arith
text_order_trans (x ∷ a) (y ∷ b) (z ∷ c) h k = ground (arith, text_order_trans a b c)

-- The first `n` bytes of `a` against the whole of `b`.
cmp_bytes : Text → Text → ℕ → ℤ
cmp_bytes a b n =
    let r = strncmp a b n in
    if eq_ℤ r (pos 0) then (if get_or b n 0 == 0 then pos 0 else minus_one) else r

cmp_bytes_lem :
    (a b : Text) (n : ℕ)
    → n ≤ length a
    → has_no_zero b ≡ true
    → cmp_bytes a b n ≡ sign (text_order (take n a) b)
unfolding strncmp text_order cmp_bytes
cmp_bytes_lem a [] zero h z = refl
cmp_bytes_lem a (y ∷ b) zero h z = ground arith
cmp_bytes_lem [] b (suc n) h z = ground arith
cmp_bytes_lem (x ∷ a) [] (suc n) h z = refl
cmp_bytes_lem (x ∷ a) (y ∷ b) (suc n) h z = ground (arith, cmp_bytes_lem a b n)

-- The comparison of a lookup is the order of its `len` bytes and the entry's name.
pub cmp_entry_lem :
    (lookup : NameLookup) (entry : NameEntry)
    → lookup.len ≤ length lookup.name
    → has_no_zero entry.name ≡ true
    → cmp_entry lookup entry ≡ sign (text_order (take lookup.len lookup.name) entry.name)
unfolding cmp_entry cmp_bytes
cmp_entry_lem lookup entry h z = cmp_bytes_lem lookup.name entry.name lookup.len h z
