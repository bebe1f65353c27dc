-- ===== src/Manager/Resize.antt =====
-- runner_manager.rs: `resize_runner` on a consistent manager.
use bolt_load.Prelude.{
  ℕ, ◌+◌, ◌-◌, ◌≤◌, ◌<◌, ◌≡◌, ◌≢◌, refl, sym, ◌∙◌, ◌⊎◌, inl, inr, true, false, Option, some, Result,
  ok, err, arith, ◌==◌, value_of, Bool-cases,
}
use bolt_load.OrdMap.{get, insert, get-insert}
use bolt_load.Planner.Chunk.{range, ChunkState, Error, Resize, unchanged, shrunk}
use bolt_load.Planner.State.{ChunkPlanner, get_runner_state, resize_runner_state}
use bolt_load.Planner.Guard.{new_guard, drop, commit}
use bolt_load.Planner.Valid.{IsValid, locate_cases}
use bolt_load.Planner.Valid.Steps.{resize_runner_state-IsValid}
use bolt_load.Planner.Runners.{at_runner}
use bolt_load.Planner.Resize.{resize_runner_state_lem}
use bolt_load.Manager.Types.{RunnerManager, LimitSender, ResizeError}
use bolt_load.Manager.State.{resize_runner, resized, sent_limit}
use bolt_load.Manager.Consistent.{is_used, IsConsistent}
use bolt_load.Sync.Slot.{send, unread, empty}

-- A chunk that a resize cuts short.
abbrev pub IsCut : ChunkPlanner → ℕ → ℕ → ChunkState → Type 0
IsCut p id size c =
    (get_runner_state p id ≡ some c)
    × (c.allocated.start < c.downloaded.end + size)
    × (c.downloaded.end + size < c.allocated.end)
    × (c.allocated.end ≤ p.total)

shrunk-IsCut :
    (p : ChunkPlanner) (id size n : ℕ)
    → IsValid p
    → (resize_runner_state p id size).1 ≡ ok (shrunk n)
    → (c : ChunkState) × IsCut p id size c
unfolding resize_runner_state
shrunk-IsCut p id size n v e =
    locate_cases p id v (λ q _. absurd (ground (arith, e, q)))
      (λ start c q l.
        (c, (at_runner p id start c l.0 l.1, ground (arith, e, q), ground (arith, e, q), l.5)))

-- What a resize that was not refused did.
abbrev pub IsShortened : RunnerManager → ℕ → ℕ → RunnerManager → Type 0
IsShortened m id size m' =
    (c : ChunkState) × IsCut m.chunk_planner id size c
    × (get_runner_state m'.chunk_planner id
        ≡ some (record c { allocated = range c.allocated.start (c.downloaded.end + size) }))
    × ((j : ℕ) → id ≢ j → get_runner_state m'.chunk_planner j ≡ get_runner_state m.chunk_planner j)
    × ((sender : LimitSender) × (get id m'.limit_senders ≡ some sender)
        × (sender.receiver ≡ true)
        × (unread sender.slot ≡ some (c.downloaded.end + size - c.allocated.start)))
    × ((j : ℕ) → id ≢ j → get j m'.limit_senders ≡ get j m.limit_senders)

abbrev pub IsResized :
    RunnerManager → ℕ → ℕ → RunnerManager → Result (Unit {0}) ResizeError → Type 0
IsResized m id size m' (err e) = m' ≡ m
IsResized m id size m' (ok done) =
    ((m' ≡ m) × ((resize_runner_state m.chunk_planner id size).1 ≡ ok unchanged))
    ⊎ IsShortened m id size m'

abbrev Resizes :
    RunnerManager → ℕ → ℕ → Option (RunnerManager × Result (Unit {0}) ResizeError) → Type 0
Resizes m id size r =
    (m' : RunnerManager) × (result : Result (Unit {0}) ResizeError) × (r ≡ some (m', result))
    × IsConsistent m'
    × IsResized m id size m' result

shortened-IsConsistent :
    (m : RunnerManager) (id size : ℕ) (c : ChunkState) (sender sender' : LimitSender)
    → IsConsistent m
    → IsCut m.chunk_planner id size c
    → get id m.limit_senders ≡ some sender
    → IsConsistent (record m {
      chunk_planner = (resize_runner_state m.chunk_planner id size).0;
      limit_senders = insert id sender' m.limit_senders;
    })
shortened-IsConsistent m id size c sender sender' v cut e =
    let l = resize_runner_state_lem m.chunk_planner id size c v.planner cut.0 cut.1 cut.2 in
    record {
      ids = v.ids;
      planner = resize_runner_state-IsValid m.chunk_planner id size v.planner;
      assigned = λ j. ground (arith, v.assigned j, l.1, l.4 j, cut.0);
      limited = λ j. ground (arith, v.limited j, get-insert j id sender' m.limit_senders, e);
      listening = v.listening;
      receiving = v.receiving;
      connecting = λ j h k. v.connecting j h (ground (arith, l.1, l.4 j, cut.0, k));
      rejected = v.rejected;
      distinct = v.distinct;
    }

-- The end of the resize, once the planner has cut the chunk.
sent_limit_lem :
    (m : RunnerManager) (id size : ℕ) (c : ChunkState) (sender : LimitSender)
    → IsConsistent m
    → IsCut m.chunk_planner id size c
    → get id m.limit_senders ≡ some sender
    → Resizes m id size (
        sent_limit m
          (record (new_guard m.chunk_planner) {
            planner = (resize_runner_state m.chunk_planner id size).0;
          })
          id
          sender
          (send sender.slot sender.receiver (c.downloaded.end + size - c.allocated.start)))
unfolding new_guard drop commit send
sent_limit_lem m id size c sender v cut e =
    let new_limit = c.downloaded.end + size - c.allocated.start in
    let no_marker : (new_limit == empty) ≡ false = ground (arith, cut, v.planner.fits) in
    let l = resize_runner_state_lem m.chunk_planner id size c v.planner cut.0 cut.1 cut.2 in
    let sender' : LimitSender = record {
      slot = record sender.slot { value = new_limit };
      receiver = true;
    } in
    elim (Bool-cases sender.receiver) [
      | inr gone ↦ rw (send, no_marker, gone) (m, _, refl, v, refl)
      | inl there ↦
          rw (send, no_marker, there)
            (
              _,
              ok tt,
              refl,
              shortened-IsConsistent m id size c sender sender' v cut e,
              inr (
                c,
                cut,
                l.1,
                l.4,
                (
                  sender',
                  ground (arith, get-insert id id sender' m.limit_senders),
                  refl,
                  rw no_marker refl,
                ),
                λ j n. ground (arith, get-insert j id sender' m.limit_senders),
              ),
            )
    ]

-- On a consistent manager, `resize_runner` never panics, and leaves the manager consistent. An error
-- changes nothing, also where the planner had cut the chunk and the runner no longer receives limits.
-- A success changes nothing where the planner leaves the chunk as it is; else the runner's chunk ends
-- `size` bytes after its downloaded part, which lies before its old end, its mailbox holds the chunk's
-- new length as the limit not yet read, and its receiver is there; the other runners' chunks and
-- mailboxes are as before.
pub resize_runner_lem :
    (m : RunnerManager) (id size : ℕ)
    → IsConsistent m
    → (m' : RunnerManager) × (result : Result (Unit {0}) ResizeError) × (resize_runner m id size
        ≡ some (m', result))
      × IsConsistent m'
      × IsResized m id size m' result
unfolding resize_runner
resize_runner_lem m id size v = answered (resize_runner_state m.chunk_planner id size).1 refl
  where
    answered :
        (answer : Result Resize Error)
        → (resize_runner_state m.chunk_planner id size).1 ≡ answer
        → Resizes m id size (
            resized m
              (record (new_guard m.chunk_planner) {
                planner = (resize_runner_state m.chunk_planner id size).0;
              })
              id
              answer)
    answered (err e) q = (m, _, refl, v, refl)
    answered (ok unchanged) q = (m, _, refl, v, inl (refl, q))
    answered (ok (shrunk n)) q =
        let (c, cut) = shrunk-IsCut m.chunk_planner id size n v.planner q in
        let l = resize_runner_state_lem m.chunk_planner id size c v.planner cut.0 cut.1 cut.2 in
        let same : n ≡ c.downloaded.end + size - c.allocated.start = ground (arith, q, l.0) in
        let used : is_used m id ≡ true = ground (arith, v.assigned id, cut.0) in
        let (sender, e) = value_of _ (sym (v.limited id) ∙ used) in
        rw (same, e) (sent_limit_lem m id size c sender v cut e)
