-- ===== src/Sync/Slot.antt =====
-- slot.rs: what the two halves share, and their operations as atomic steps. What the sender does
-- between two steps of the receiver is a list of its actions; the waker is left out.
use bolt_load.Prelude.{
  ℕ, Bool, true, false, not, Option, none, some, List, [], ◌∷◌, ◌==◌, if◌then◌else◌, ◌-◌, u64_mod,
}

-- `u64::MAX` marks the empty slot.
abbrev pub empty : ℕ
empty = u64_mod - 1

pub record Shared : Type 0 where
  pub value : ℕ
  pub closed : Bool

abbrev pub channel : Shared
channel = record { value = empty; closed = false }

-- A value that was read, if it is one.
abbrev pub present : ℕ → Option ℕ
present v = if v == empty then none else some v

abbrev pub unread : Shared → Option ℕ
unread s = present s.value

-- `send`: `none` is the panic; the flag says whether the receiver is there.
unfoldable pub send : Shared → Bool → ℕ → Option (Shared × Bool)
send s receiver v =
    if v == empty
    then none
    else if not receiver
    then some (s, false)
    else some (record s { value = v }, true)

-- `Drop for Sender`.
abbrev pub close : Shared → Shared
close s = record s { closed = true }

-- What the sender does while the receiver is there: it sends, or it is dropped. A send of the value that
-- marks the empty slot panics, and stores nothing.
pub data Act : Type 0 where
  sends : ℕ → Act
  drops : Act

abbrev pub sent : Shared → Option (Shared × Bool) → Shared
sent s none = s
sent s (some (s', there)) = s'

-- After it is dropped, the sender does nothing.
unfoldable pub act : Shared → Act → Shared
unfolding send
act s (sends v) = if s.closed then s else sent s (send s true v)
act s drops = close s

unfoldable pub acts : Shared → List Act → Shared
unfolding act
acts s [] = s
acts s (a ∷ rest) = acts (act s a) rest

-- `try_recv`: a load, the sender's actions, and a swap if the load found a value.
unfoldable pub try_recv : Shared → List Act → Shared × Option ℕ
unfolding acts
try_recv s between =
    if s.value == empty
    then (s, none)
    else (record (acts s between) { value = empty }, present (acts s between).value)

-- `Poll<Option<u64>>`.
pub data Poll : Type 0 where
  ready : Option ℕ → Poll
  pending : Poll

-- The sender's actions between the steps of a poll: within the first `try_recv`, before the closed flag
-- is read, after it, and within the second `try_recv`.
pub record Gaps : Type 0 where
  pub first : List Act
  pub before : List Act
  pub behind : List Act
  pub second : List Act

-- The end of a poll: what the second `try_recv` found, and the closed flag.
abbrev pub finish : Bool → Shared × Option ℕ → Shared × Poll
finish closed (s, some v) = (s, ready (some v))
finish closed (s, none) = (s, if closed then ready none else pending)

-- The closed flag is read before the slot.
unfoldable pub poll_again : Shared → Gaps → Shared × Poll
unfolding try_recv acts
poll_again s g =
    let flagged = acts s g.before in
    finish flagged.closed (try_recv (acts flagged g.behind) g.second)

abbrev pub poll_found : Shared × Option ℕ → Gaps → Shared × Poll
poll_found (s, some v) g = (s, ready (some v))
poll_found (s, none) g = poll_again s g

unfoldable pub poll_recv : Shared → Gaps → Shared × Poll
unfolding poll_again try_recv
poll_recv s g = poll_found (try_recv s g.first) g
