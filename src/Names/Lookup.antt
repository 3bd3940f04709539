-- ===== src/Names/Lookup.antt =====
-- `lookup_name` of libevdev/libevdev-names.c: the binary search over a table, against a search that
-- goes through the table in order.
use Prim.Native.Nat.{Ordering}
use mathlib.Core.List.{Memᴰ}
use android_external_libevde.Base.{
  Bool, true, false, not, ◌&&◌, ◌||◌, if◌then◌else◌, ℤ, pos, eq_ℤ, is_neg, Option, none, some,
  Option-cases, List, [], ◌∷◌, take, length, ◌≡◌, ◌≢◌, refl, sym, ap, ◌∙◌, ◌≤◌, arith, Bool-cases,
  inl, inr,
}
use android_external_libevde.Event.{Text}
use android_external_libevde.Names.{NameEntry, NameLookup, Bsearch, lookup_name, cmp_entry}
use android_external_libevde.Names.Order.{
  text_order, sign, has_no_zero, text_order-eq, text_order_self, text_order_trans, cmp_entry_lem,
}

-- The elements that compare less than the key (where `bsearch` has to go up), then those that
-- compare equal, then the rest: what the C library asks of the array.
abbrev pub goes_down : ℤ → ℤ → Bool
goes_down x y = (not (is_neg x) || is_neg y) && (not (eq_ℤ x (pos 0)) || is_neg y || eq_ℤ y (pos 0))

abbrev pub is_split_from : (NameEntry → ℤ) → NameEntry → List NameEntry → Bool
is_split_from c e [] = true
is_split_from c e (f ∷ es) = let rest = is_split_from c f es in goes_down (c e) (c f) && rest

abbrev pub is_split : (NameEntry → ℤ) → List NameEntry → Bool
is_split c [] = true
is_split c (e ∷ es) = is_split_from c e es

-- What the C library documents of `bsearch`.
pub record BsearchLaws (bsearch : Bsearch) : Type 0 where
  pub found :
      (c : NameEntry → ℤ) (es : List NameEntry) {e : NameEntry}
      → is_split c es ≡ true
      → bsearch c es ≡ some e
      → Memᴰ e es × (c e ≡ pos 0)
  pub missed :
      (c : NameEntry → ℤ) (es : List NameEntry)
      → is_split c es ≡ true
      → bsearch c es ≡ none
      → (e : NameEntry) → Memᴰ e es
      → c e ≢ pos 0

abbrev is_less : Ordering → Bool
is_less Ordering.lt = true
is_less _ = false

abbrev is_equal : Ordering → Bool
is_equal Ordering.eq = true
is_equal _ = false

abbrev ascends_from : NameEntry → List NameEntry → Bool
ascends_from e [] = has_no_zero e.name
ascends_from e (f ∷ es) =
    let rest = ascends_from f es in has_no_zero e.name && is_less (text_order e.name f.name) && rest

-- A table of C strings in ascending order.
abbrev pub ascends : List NameEntry → Bool
ascends [] = true
ascends (e ∷ es) = ascends_from e es

-- The first entry of that name, going through the table in order.
unfoldable pub find_named : List NameEntry → Text → Option NameEntry
find_named [] name = none
find_named (e ∷ es) name =
    let rest = find_named es name in if is_equal (text_order name e.name) then some e else rest

abbrev IsNamed : Text → NameEntry → Type 0
IsNamed k e = text_order k e.name ≡ Ordering.eq

sign-zero : (o : Ordering) → sign o ≡ pos 0 → o ≡ Ordering.eq
sign-zero Ordering.lt h = ground arith
sign-zero Ordering.eq h = refl
sign-zero Ordering.gt h = ground arith

-- A key that is not above a name is below every later one.
order-goes_down :
    (k : Text) (e f : NameEntry)
    → text_order e.name f.name ≡ Ordering.lt
    → goes_down (sign (text_order k e.name)) (sign (text_order k f.name)) ≡ true
order-goes_down k e f h = ground (arith, text_order_trans k e.name f.name, text_order-eq k e.name)

ascends_from-no_zero :
    (h : NameEntry) (es : List NameEntry) → ascends_from h es ≡ true → has_no_zero h.name ≡ true
ascends_from-no_zero h [] a = a
ascends_from-no_zero h (f ∷ es) a = ground arith

ascends-no_zero :
    {e : NameEntry} (h : NameEntry) (es : List NameEntry)
    → ascends_from h es ≡ true
    → Memᴰ e (h ∷ es)
    → has_no_zero e.name ≡ true
ascends-no_zero h es a (Memᴰ.head q) = rw q (ascends_from-no_zero h es a)
ascends-no_zero h [] a (Memᴰ.tail m) = elim m [ ]
ascends-no_zero h (f ∷ es) a (Memᴰ.tail m) = ascends-no_zero f es (ground arith) m

ascends-less :
    {e : NameEntry} (h : NameEntry) (es : List NameEntry)
    → ascends_from h es ≡ true
    → Memᴰ e es
    → text_order h.name e.name ≡ Ordering.lt
ascends-less h [] a m = elim m [ ]
ascends-less h (f ∷ es) a (Memᴰ.head q) = rw q (ground arith)
ascends-less {e} h (f ∷ es) a (Memᴰ.tail m) =
    text_order_trans h.name f.name e.name (ground arith) (ascends-less f es (ground arith) m)

not_above : (a b : Text) → text_order b a ≡ Ordering.lt → text_order a b ≡ Ordering.eq → ⊥
not_above a b less same = ground (arith, text_order_self b, text_order-eq a b same)

find_named-Mem :
    {e : NameEntry} (h : NameEntry) (es : List NameEntry)
    → ascends_from h es ≡ true
    → Memᴰ e (h ∷ es)
    → find_named (h ∷ es) e.name ≡ some e
unfolding find_named
find_named-Mem {e} h es a (Memᴰ.head q) = rw (q, text_order_self h.name) refl
find_named-Mem h [] a (Memᴰ.tail m) = elim m [ ]
find_named-Mem {e} h (f ∷ es) a (Memᴰ.tail m) =
    let less = ascends-less h (f ∷ es) a m in
    elim (Bool-cases (is_equal (text_order e.name h.name))) [
      | inl same ↦ absurd (not_above e.name h.name less (ground arith))
      | inr other ↦ rw other (find_named-Mem f es (ground arith) m)
    ]

find_named_sound :
    (es : List NameEntry) (k : Text) {e : NameEntry}
    → find_named es k ≡ some e
    → Memᴰ e es × IsNamed k e
unfolding find_named
find_named_sound [] k h = ground arith
find_named_sound (f ∷ es) k {e} h = elim (Bool-cases (is_equal (text_order k f.name))) [
  | inl same ↦
      let here : f ≡ e = ground arith in
      (Memᴰ.head (sym here), ap (λ x. text_order k x.name) (sym here) ∙ ground arith)
  | inr other ↦ let rest = find_named_sound es k (ground arith) in (Memᴰ.tail rest.0, rest.1)
]

-- A table in ascending order is as a binary search wants it, for every key of the lookup's length.
ascends-is_split :
    (lookup : NameLookup) (h : NameEntry) (es : List NameEntry)
    → lookup.len ≤ length lookup.name
    → ascends_from h es ≡ true
    → is_split_from (cmp_entry lookup) h es ≡ true
ascends-is_split lookup h [] l a = refl
ascends-is_split lookup h (f ∷ es) l a =
    let k = take lookup.len lookup.name in
    rw (cmp_entry_lem lookup h l (ascends_from-no_zero h (f ∷ es) a)) (
      rw (cmp_entry_lem lookup f l (ascends-no_zero h (f ∷ es) a (Memᴰ.tail (Memᴰ.head refl))))
        (ground (arith, order-goes_down k h f, ascends-is_split lookup f es l)))

module _ (bsearch : Bsearch) (laws : BsearchLaws bsearch) where
  -- In a table of C strings in ascending order, lookup_name finds the entry that a search through
  -- the table in order finds for the first `len` bytes of the name, and none if there is none, for
  -- every `bsearch` that keeps what the C library documents, if `len` is within the name.
  pub lookup_name_lem :
      (table : List NameEntry) (lookup : NameLookup)
      → lookup.len ≤ length lookup.name
      → ascends table ≡ true
      → lookup_name bsearch table lookup ≡ find_named table (take lookup.len lookup.name)
  unfolding lookup_name find_named
  lookup_name_lem [] lookup l a = elim (Option-cases (bsearch (cmp_entry lookup) [])) [
    | inl none_found ↦ none_found
    | inr (e, found) ↦ elim (laws.found (cmp_entry lookup) [] refl found).0 [ ]
  ]
  lookup_name_lem (h ∷ es) lookup l a =
      let k = take lookup.len lookup.name in
      let c = cmp_entry lookup in
      let table = h ∷ es in
      let ready = ascends-is_split lookup h es l a in
      elim (Option-cases (bsearch c table)) [
        | inl none_found ↦ elim (Option-cases (find_named table k)) [
          | inl absent ↦ none_found ∙ sym absent
          | inr (e, there) ↦
              let (m, q) = find_named_sound table k there in
              absurd (
                laws.missed c table ready none_found e m
                  (cmp_entry_lem lookup e l (ascends-no_zero h es a m) ∙ ap sign q))
        ]
        | inr (e, found) ↦
            let (m, z) = laws.found c table ready found in
            let same = text_order-eq k e.name (
              sign-zero (text_order k e.name)
                (sym (cmp_entry_lem lookup e l (ascends-no_zero h es a m)) ∙ z)) in
            found ∙ sym (ap (find_named table) same ∙ find_named-Mem h es a m)
      ]
