-- ===== src/Tools/Listing.antt =====
-- The loops `for (i = 0; i <= max; i++)` of the programs that print what an index has, or nothing.
use mathlib.Core.List.{Memᴰ}
use android_external_libevde.Base.{
  ℕ, zero, suc, ◌+◌, ◌≤◌, ◌<◌, ◌≡◌, refl, sym, ap, ◌∙◌, inl, inr, Option, Option-cases, Bool-cases,
  ◌==◌, ==→eq, none, some, List, [], ◌∷◌, arith,
}

-- What `line` gives for the `n` indices from `i` on.
unfoldable pub collect {ℓ} : {A : Type ℓ} → (ℕ → Option A) → ℕ → ℕ → List A
collect line zero i = []
collect line (suc n) i =
    let rest = collect line n (i + 1) in elim (line i) [ none ↦ rest | some a ↦ a ∷ rest ]

module _ {ℓ} {A : Type ℓ} (line : ℕ → Option A) where
  -- `a` stands at an index from `i` on, `n` of them.
  abbrev IsThere : ℕ → ℕ → A → Type ℓ
  IsThere n i a = (j : ℕ) × (i ≤ j) × (j < i + n) × (line j ≡ some a)

  one_more : (n i : ℕ) (a : A) → IsThere n (i + 1) a → IsThere (suc n) i a
  one_more n i a (j, low, high, there) = (j, omega arith, omega arith, there)

  first_or_later :
      (n i : ℕ) (a b : A) (rest : List A)
      → line i ≡ some b
      → (Memᴰ a rest → IsThere n (i + 1) a)
      → Memᴰ a (b ∷ rest)
      → IsThere (suc n) i a
  first_or_later n i a b rest here later (Memᴰ.head q) =
      (i, omega arith, omega arith, here ∙ ap some (sym q))
  first_or_later n i a b rest here later (Memᴰ.tail m) = one_more n i a (later m)

  pub collect_sound : (n i : ℕ) (a : A) → Memᴰ a (collect line n i) → IsThere n i a
  unfolding collect
  collect_sound zero i a m = elim m [ ]
  collect_sound (suc n) i a m = elim (Option-cases (line i)) [
    | inl skipped ↦ one_more n i a (collect_sound n (i + 1) a (rw (skipped, collect) at m))
    | inr (b, here) ↦
        first_or_later n i a b (collect line n (i + 1)) here (collect_sound n (i + 1) a)
          (rw (here, collect) at m)
  ]

  pub collect_complete :
      (n i j : ℕ) (a : A) → i ≤ j → j < i + n → line j ≡ some a → Memᴰ a (collect line n i)
  unfolding collect
  collect_complete zero i j a low high there = absurd (omega arith)
  collect_complete (suc n) i j a low high there = elim (Bool-cases (i == j)) [
    | inl now ↦
        let here : line i ≡ some a = ap line (==→eq i j now) ∙ there in
        rw (here, collect) (Memᴰ.head refl)
    | inr later ↦
        let rest = collect_complete n (i + 1) j a (ground arith) (omega arith) there in
        elim (Option-cases (line i)) [
          | inl skipped ↦ rw (skipped, collect) rest
          | inr (b, here) ↦ rw (here, collect) (Memᴰ.tail rest)
        ]
  ]
