-- ===== src/Queue/Fifo.antt =====
-- The queue as a bounded sequence of events, oldest first.
use android_external_libevde.Base.{
  ℕ, suc, ◌+◌, ◌-◌, ◌≤◌, ◌<◌, ◌≡◌, refl, Bool, true, false, ltb, ◌==◌, if◌then◌else◌, none, some,
  List, [], ◌∷◌, ◌++◌, length, take, drop, arith, ==→eq, leb, leb→le, take_all, drop_all, take-add,
  ◌⊎◌, Bool-cases, Option-cases, inl, inr, get_or, length-set, length-take, length-drop,
  length-append, length-replicate, take-set, take-suc, take-append_self, drop-take, take-take_le,
  get_elem?-eq-get_or, ap, ◌∙◌, sym, pos, neg, set,
}
use Prim.Native.Nat.{min}
use android_external_libevde.Event.{Event, enomem}
use android_external_libevde.Queue.{
  Queue, array, blank, push, pop, shift_multiple, shift, alloc, set_num_elements,
}

-- An allocated queue: the array has its announced size and the count fits.
pub record IsValid (q : Queue) : Type 0 where
  pub allocated : length (array q) ≡ q.queue_size
  pub fits : q.queue_next ≤ q.queue_size

-- The queued events, oldest first.
abbrev pub contents : Queue → List Event
contents q = take q.queue_next (array q)

pub length-contents : (q : Queue) → IsValid q → length (contents q) ≡ q.queue_next
length-contents q v = omega (arith, length-take q.queue_next (array q))

pub push-IsValid : (q : Queue) (e : Event) → IsValid q → IsValid (push q e).0
unfolding push
push-IsValid q e v = elim (Option-cases q.queue) [
  | inl no_array ↦ ground arith
  | inr (a, is_array) ↦ ground (arith, length-set a q.queue_next e)
]

-- On a well-formed queue a push puts the event at the end if there is room; a full queue drops it
-- and says so.
pub push_refines :
    (q : Queue) (e : Event)
    → IsValid q
    → (contents (push q e).0
        ≡ (if ltb (length (contents q)) q.queue_size then contents q ++ (e ∷ []) else contents q))
      × ((push q e).1 ≡ ltb (length (contents q)) q.queue_size)
unfolding push
push_refines q e v = rw (length-contents q v) (elim (Option-cases q.queue) [
  | inl no_array ↦ ground arith
  | inr (a, is_array) ↦ ground (
    arith,
    take-set q.queue_next a e,
    ap (λ n. take n (set a q.queue_next e)) (n_eq q.queue_next),
  )
])
  where
    n_eq : (n : ℕ) → n + 1 ≡ suc n
    n_eq n = omega arith

pub pop-IsValid : (q : Queue) → IsValid q → IsValid (pop q).0
unfolding pop
pop-IsValid q v = ground arith

-- On a well-formed queue a pop takes the newest event; an empty queue gives none and stays as it
-- is.
pub pop_refines :
    (q : Queue)
    → IsValid q
    → ((contents q ≡ []) × ((pop q).1 ≡ none) × ((pop q).0 ≡ q))
      ⊎ ((e : Event) × ((pop q).1 ≡ some e) × (contents q ≡ contents (pop q).0 ++ (e ∷ [])))
unfolding pop
pop_refines q v = elim (Bool-cases (q.queue_next == 0)) [
  | inl empty ↦ inl (rw (==→eq _ _ empty), ground arith, ground arith)
  | inr some_left ↦ inr (
    get_or (array q) (q.queue_next - 1) blank,
    ground (arith, get_elem?-eq-get_or (array q) (q.queue_next - 1) blank),
    last (ground arith),
  )
]
  where
    last :
        0 < q.queue_next
        → contents q ≡ contents (pop q).0 ++ (get_or (array q) (q.queue_next - 1) blank ∷ [])
    last h =
        let e : q.queue_next ≡ suc (q.queue_next - 1) = omega arith in
        ground (arith, ap (λ n. take n (array q)) e, take-suc (q.queue_next - 1) (array q) blank)

-- What is left after the first `n` events have been moved out of the first `next` places.
moved :
    (a : List Event) (k rem : ℕ)
    → k + rem ≤ length a
    → take rem (take rem (drop k a) ++ drop rem a) ≡ drop k (take (k + rem) a)
moved a k rem h =
    take-append_self (take rem (drop k a)) (drop rem a) rem
      (omega (arith, length-take rem (drop k a), length-drop k a))
    ∙ sym (drop-take k rem a)

pub shift_multiple-IsValid : (q : Queue) (n : ℕ) → IsValid q → IsValid (shift_multiple q n).0
unfolding shift_multiple
shift_multiple-IsValid q n v = elim (Option-cases q.queue) [
  | inl no_array ↦ ground arith
  | inr (a, is_array) ↦
      let k = min n q.queue_next in
      let rem = q.queue_next - k in
      ground (
        arith,
        length-append (take rem (drop k a)) (drop rem a),
        length-take rem (drop k a),
        length-drop k a,
        length-drop rem a,
      )
]

take-min :
    (a : List Event) (n next : ℕ) → next ≤ length a → take (min n next) a ≡ take n (take next a)
take-min a n next h = elim (Bool-cases (leb n next)) [
  | inl within ↦
      let e : min n next ≡ n = ground arith in
      rw e (sym (take-take_le n next a (leb→le _ _ within)))
  | inr beyond ↦
      let e : min n next ≡ next = ground arith in
      rw e (sym (take_all n (take next a) (ground (arith, length-take next a))))
]

drop-min :
    (a : List Event) (n next : ℕ)
    → next ≤ length a
    → drop (min n next) (take next a) ≡ drop n (take next a)
drop-min a n next h = elim (Bool-cases (leb n next)) [
  | inl within ↦ let e : min n next ≡ n = ground arith in rw e
  | inr beyond ↦
      let e : min n next ≡ next = ground arith in
      rw e (
        drop_all next (take next a) (ground (arith, length-take next a))
        ∙ sym (drop_all n (take next a) (ground (arith, length-take next a))))
]

-- On a well-formed queue a shift of n gives the n oldest events, or all if there are fewer, and
-- leaves the others in order.
pub shift_multiple_refines :
    (q : Queue) (n : ℕ)
    → IsValid q
    → ((shift_multiple q n).1 ≡ take n (contents q))
      × (contents (shift_multiple q n).0 ≡ drop n (contents q))
unfolding shift_multiple
shift_multiple_refines q n v = elim (Bool-cases (q.queue_next == 0)) [
  | inl empty ↦
      rw empty (
        rw (==→eq _ _ empty) (sym (take_all n [] (omega arith)), sym (drop_all n [] (omega arith))))
  | inr some_left ↦ rw some_left (elim (Option-cases q.queue) [
    | inl no_array ↦ ground arith
    | inr (a, is_array) ↦
        let fits : q.queue_next ≤ length a = ground arith in
        let k = min n q.queue_next in
        let rem = q.queue_next - k in
        ground (
          arith,
          take-min a n q.queue_next fits,
          drop-min a n q.queue_next fits,
          moved a k rem (omega arith),
          ap (λ t. drop k (take t a)) (total n q.queue_next),
        )
  ])
]
  where
    total : (n next : ℕ) → min n next + (next - min n next) ≡ next
    total n next = omega arith

pub shift-IsValid : (q : Queue) → IsValid q → IsValid (shift q).0
unfolding shift
shift-IsValid q v = shift_multiple-IsValid q 1 v

-- On a well-formed queue a shift takes the oldest event and keeps the others in order; an empty
-- queue gives none and stays empty.
pub shift_refines :
    (q : Queue)
    → IsValid q
    → ((contents q ≡ []) × ((shift q).1 ≡ none) × (contents (shift q).0 ≡ []))
      ⊎ ((e : Event) × ((shift q).1 ≡ some e) × (contents q ≡ e ∷ contents (shift q).0))
unfolding shift
shift_refines q v =
    cases (contents q) (shift_multiple_refines q 1 v).0 (shift_multiple_refines q 1 v).1 refl
  where
    cases :
        (l : List Event)
        → (shift_multiple q 1).1 ≡ take 1 l
        → contents (shift_multiple q 1).0 ≡ drop 1 l
        → contents q ≡ l
        → ((contents q ≡ []) × ((shift q).1 ≡ none) × (contents (shift q).0 ≡ []))
          ⊎ ((e : Event) × ((shift q).1 ≡ some e) × (contents q ≡ e ∷ contents (shift q).0))
    cases [] p r c = inl (c, rw (p, shift), r)
    cases (e ∷ l) p r c = inr (e, rw (p, shift), c ∙ ap (λ t. e ∷ t) (sym r))

-- A fresh queue of positive size is empty, well formed and of that size; size 0 or no memory is
-- refused with -ENOMEM.
pub alloc_lem :
    (can : ℕ → Bool) (q : Queue) (n : ℕ)
    → (((alloc can q n).1 ≡ pos 0)
        × IsValid (alloc can q n).0
        × (contents (alloc can q n).0 ≡ [])
        × ((alloc can q n).0.queue_size ≡ n)
        × (0 < n))
      ⊎ (((alloc can q n).1 ≡ neg enomem) × (((n == 0) ≡ true) ⊎ (can n ≡ false)))
unfolding alloc
alloc_lem can q n = ground (arith, length-replicate n blank)

-- Announcing more elements than are queued, up to the size, keeps the queue well formed and takes
-- over what stands behind the queued events in the array.
pub set_num_elements_lem :
    (q : Queue) (n : ℕ)
    → IsValid q
    → q.queue_next ≤ n
    → n ≤ q.queue_size
    → IsValid (set_num_elements q n).0
      × (contents (set_num_elements q n).0
          ≡ contents q ++ take (n - q.queue_next) (drop q.queue_next (array q)))
unfolding set_num_elements
set_num_elements_lem q n v lo hi = (ground arith, ground (arith, more))
  where
    more : take n (array q) ≡ contents q ++ take (n - q.queue_next) (drop q.queue_next (array q))
    more =
        let e : n ≡ q.queue_next + (n - q.queue_next) = omega arith in
        ap (λ k. take k (array q)) e ∙ take-add q.queue_next (n - q.queue_next) (array q)
