-- ===== src/Sync/Replay.antt =====
-- The events of a key, switch or LED sync: one for each bit that changed, and applying them to the
-- old state gives the new one.
use native.Mathlib.Nat.{mod-eq_of_lt}
use android_external_libevde.Base.{
  ℕ, zero, suc, ◌+◌, ◌*◌, ◌≤◌, ◌<◌, ◌≡◌, refl, Bool, true, bool_eq, ◌==◌, if◌then◌else◌, List, [],
  ◌∷◌, ◌++◌, length, append-nil, append_assoc, arith, Bool-cases, inl, inr, ==→eq, ap, ◌∙◌, sym,
}
use android_external_libevde.Event.{Event, TimeVal, u16}
use android_external_libevde.Bitfield.{Words, bit_is_set, set_bit_state}
use android_external_libevde.Bitfield.Laws.{bit_is_set-set_bit_state, length-set_bit_state}
use android_external_libevde.Queue
use android_external_libevde.Queue.Fifo
use android_external_libevde.Queue.Fifo.{contents}
use android_external_libevde.Queue.{Queue}
use android_external_libevde.Device.{Libevdev}
use android_external_libevde.State.{bit_value, is_on}
use android_external_libevde.Sync.{queue_push_event, push_changes}

-- The event that reports a bit.
abbrev pub report : TimeVal → ℕ → ℕ → Bool → Event
report t type code on = record {
  sec = t.tv_sec;
  usec = t.tv_usec;
  type = u16 type;
  code = u16 code;
  value = bit_value on;
}

-- One report for each code from `code` on, over `n` codes, in which the two states differ.
unfoldable pub changes : TimeVal → ℕ → Words → Words → ℕ → ℕ → List Event
changes t type old new zero code = []
changes t type old new (suc n) code =
    let rest = changes t type old new n (code + 1) in
    if bool_eq (bit_is_set old code) (bit_is_set new code)
    then rest
    else report t type code (bit_is_set new code) ∷ rest

-- The state that a client keeps which applies each event.
unfoldable pub replay : List Event → Words → Words
replay [] w = w
replay (e ∷ evs) w = replay evs (set_bit_state w e.code (is_on e))

bool_eq→eq : (a b : Bool) → bool_eq a b ≡ true → a ≡ b
bool_eq→eq a b h = ground arith

is_on-report : (t : TimeVal) (type code : ℕ) (on : Bool) → is_on (report t type code on) ≡ on
is_on-report t type code on = ground arith

module _ (t : TimeVal) (type : ℕ) (old new : Words) where
  -- Codes before the range keep their bit.
  replay-changes_below :
      (n code i : ℕ) (w : Words)
      → code + n ≤ 64 * length w
      → code + n ≤ 65536
      → i < code
      → bit_is_set (replay (changes t type old new n code) w) i ≡ bit_is_set w i
  unfolding changes replay
  replay-changes_below zero code i w fits small below = refl
  replay-changes_below (suc n) code i w fits small below =
      elim (Bool-cases (bool_eq (bit_is_set old code) (bit_is_set new code))) [
        | inl same ↦
            rw same
              (replay-changes_below n (code + 1) i w (omega arith) (omega arith) (omega arith))
        | inr differ ↦
            let e = report t type code (bit_is_set new code) in
            let w' = set_bit_state w e.code (is_on e) in
            let len = length-set_bit_state w e.code (is_on e) in
            let is_code : e.code ≡ code = mod-eq_of_lt (omega arith) in
            rw differ (
              replay-changes_below n (code + 1) i w' (omega arith) (omega arith) (omega arith)
              ∙ bit_is_set-set_bit_state w e.code i (is_on e) (omega arith)
              ∙ ground (arith, is_code))
      ]

  -- Codes in the range get their new bit, if the client's state agreed with the old one there.
  replay-changes_in :
      (n code i : ℕ) (w : Words)
      → code + n ≤ 64 * length w
      → code + n ≤ 65536
      → ((j : ℕ) → code ≤ j → bit_is_set w j ≡ bit_is_set old j)
      → code ≤ i
      → i < code + n
      → bit_is_set (replay (changes t type old new n code) w) i ≡ bit_is_set new i
  unfolding changes replay
  replay-changes_in zero code i w fits small agree lo hi = absurd (omega arith)
  replay-changes_in (suc n) code i w fits small agree lo hi =
      elim (Bool-cases (bool_eq (bit_is_set old code) (bit_is_set new code))) [
        | inl same ↦ rw same (elim (Bool-cases (i == code)) [
          | inl here ↦
              replay-changes_below n (code + 1) i w (omega arith) (omega arith) (ground arith)
              ∙ agree i lo
              ∙ ground (
                arith,
                ap (bit_is_set old) (==→eq i code here),
                ap (bit_is_set new) (==→eq i code here),
                bool_eq→eq (bit_is_set old code) (bit_is_set new code) same,
              )
          | inr later ↦
              replay-changes_in n (code + 1) i w (omega arith) (omega arith)
                (λ j from. agree j (omega arith)) (ground arith) (omega arith)
        ])
        | inr differ ↦
            let e = report t type code (bit_is_set new code) in
            let w' = set_bit_state w e.code (is_on e) in
            let len = length-set_bit_state w e.code (is_on e) in
            let is_code : e.code ≡ code = mod-eq_of_lt (omega arith) in
            let bit = λ (j : ℕ). bit_is_set-set_bit_state w e.code j (is_on e) (omega arith) in
            rw differ (elim (Bool-cases (i == code)) [
              | inl here ↦
                  replay-changes_below n (code + 1) i w' (omega arith) (omega arith) (ground arith)
                  ∙ bit i
                  ∙ ground (
                    arith,
                    is_code,
                    is_on-report t type code (bit_is_set new code),
                    ap (bit_is_set new) (==→eq i code here),
                  )
              | inr later ↦
                  replay-changes_in n (code + 1) i w' (omega arith) (omega arith)
                    (λ j from. bit j ∙ ground (arith, is_code, agree j (omega arith)))
                    (ground arith) (omega arith)
            ])
      ]

-- A client that applies the reports of the changed bits to the state that it had has the new
-- state, at every code of the range, if the range is within the array and below 65536.
pub replay-changes :
    (t : TimeVal) (type : ℕ) (old new : Words) (n i : ℕ)
    → n ≤ 64 * length old
    → n ≤ 65536
    → i < n
    → bit_is_set (replay (changes t type old new n 0) old) i ≡ bit_is_set new i
replay-changes t type old new n i fits small below =
    replay-changes_in t type old new n 0 i old (omega arith) (omega arith) (λ j from. refl)
      (omega arith) (omega arith)

-- With room left, an event is appended.
push_room :
    (q : Queue) (e : Event)
    → Fifo.IsValid q
    → q.queue_next < q.queue_size
    → (contents (Queue.push q e).0 ≡ contents q ++ (e ∷ []))
      × ((Queue.push q e).0.queue_next ≡ q.queue_next + 1)
      × ((Queue.push q e).0.queue_size ≡ q.queue_size)
unfolding Queue.push
push_room q e v room = (
  (Fifo.push_refines q e v).0 ∙ ground (arith, Fifo.length-contents q v),
  ground arith,
  ground arith,
)

-- Pushing changes the queue alone, and appends the reports in order while there is room.
pub push_changes_lem :
    (type : ℕ) (old new : Words) (n code : ℕ) (d : Libevdev)
    → Fifo.IsValid d.queue
    → d.queue.queue_next + n ≤ d.queue.queue_size
    → (q : Queue) × (push_changes type old new n code d ≡ record d { queue = q })
      × Fifo.IsValid q
      × (contents q ≡ contents d.queue ++ changes d.last_event_time type old new n code)
unfolding push_changes changes queue_push_event
push_changes_lem type old new zero code d v room =
    (d.queue, refl, v, sym (append-nil (contents d.queue)))
push_changes_lem type old new (suc n) code d v room =
    elim (Bool-cases (bool_eq (bit_is_set old code) (bit_is_set new code))) [
      | inl same ↦ rw same (push_changes_lem type old new n (code + 1) d v (omega arith))
      | inr differ ↦
          let e = report d.last_event_time type code (bit_is_set new code) in
          let rest = changes d.last_event_time type old new n (code + 1) in
          let (added, next, total) = push_room d.queue e v (omega arith) in
          let (q, pushed, well, kept) =
            push_changes_lem type old new n (code + 1)
              (record d { queue = (Queue.push d.queue e).0 }) (Fifo.push-IsValid d.queue e v)
              (omega arith) in
          (
            q,
            rw differ pushed,
            well,
            rw differ
                (kept ∙ ap (λ l. l ++ rest) added ∙ append_assoc (contents d.queue) (e ∷ []) rest),
          )
    ]
