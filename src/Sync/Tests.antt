-- ===== src/Sync/Tests.antt =====
-- A poll of an empty slot, between whose steps the sender sends a value and is dropped.
use bolt_load.Prelude.{◌≡◌, refl, true, none, some, [], ◌∷◌}
use bolt_load.Sync.Slot.{
  channel, unread, sends, drops, send, act, acts, try_recv, ready, Gaps, poll_again, poll_recv,
}
use bolt_load.Sync.Poll.{poll_recv_lem}

abbrev gaps : Gaps
gaps = record { first = []; before = []; behind = sends 7 ∷ drops ∷ []; second = [] }

-- The value is found although the sender is gone.
poll_recv-gaps : (poll_recv channel gaps).1 ≡ ready (some 7)
unfolding poll_recv poll_again try_recv acts act send
poll_recv-gaps = refl

-- The sender is dropped without a value.
abbrev dropped : Gaps
dropped = record { first = []; before = drops ∷ []; behind = []; second = [] }

poll_recv-dropped : (poll_recv channel dropped).1 ≡ ready none
unfolding poll_recv poll_again try_recv acts act send
poll_recv-dropped = refl

poll_recv_example :
    ((poll_recv channel dropped).0.closed ≡ true) × (unread (poll_recv channel dropped).0 ≡ none)
poll_recv_example = poll_recv_lem channel dropped poll_recv-dropped
