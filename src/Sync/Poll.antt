-- ===== src/Sync/Poll.antt =====
-- Polls of the receiver, whatever the sender does meanwhile.
use bolt_load.Prelude.{
  ℕ, ◌≡◌, refl, ap, sym, ◌∙◌, Bool, true, false, Option, none, some, List, [], ◌∷◌, ◌==◌, arith,
  if_true, if_false,
}
use bolt_load.Sync.Slot.{
  unread, empty, Shared, send, Act, sends, drops, act, acts, try_recv, ready, Gaps, finish,
  poll_again, poll_found, poll_recv, close, sent,
}

-- A dropped sender does nothing.
acts-closed : (s : Shared) (rest : List Act) → s.closed ≡ true → acts s rest ≡ s
unfolding acts act send
acts-closed s [] e = refl
acts-closed s (sends v ∷ rest) e =
    rw (if_true s.closed s (sent s (send s true v)) e, acts) (acts-closed s rest e)
acts-closed s (drops ∷ rest) e =
    acts-closed (close s) rest refl ∙ ap (λ b. record s { closed = b }) (sym e)

-- A `try_recv` leaves an empty slot, and one that is closed if it was.
try_recv-empty : (s : Shared) (between : List Act) → (try_recv s between).0.value ≡ empty
unfolding try_recv
try_recv-empty s between = go (s.value == empty) refl
  where
    go : (b : Bool) → (s.value == empty) ≡ b → (try_recv s between).0.value ≡ empty
    go true e =
        ap (λ (x : Shared × Option ℕ). x.0.value) (if_true (s.value == empty) _ _ e)
        ∙ ground (arith, e)
    go false e = ap (λ (x : Shared × Option ℕ). x.0.value) (if_false (s.value == empty) _ _ e)

try_recv-closed :
    (s : Shared) (between : List Act) → s.closed ≡ true → (try_recv s between).0.closed ≡ true
unfolding try_recv
try_recv-closed s between c = go (s.value == empty) refl
  where
    go : (b : Bool) → (s.value == empty) ≡ b → (try_recv s between).0.closed ≡ true
    go true e = ap (λ (x : Shared × Option ℕ). x.0.closed) (if_true (s.value == empty) _ _ e) ∙ c
    go false e =
        ap (λ (x : Shared × Option ℕ). x.0.closed) (if_false (s.value == empty) _ _ e)
        ∙ ap (λ (x : Shared). x.closed) (acts-closed s between c)
        ∙ c

finish-empty :
    (closed : Bool) (x : Shared × Option ℕ)
    → x.0.value ≡ empty
    → (closed ≡ true → x.0.closed ≡ true)
    → ((finish closed x).0.value ≡ empty)
      × ((finish closed x).1 ≡ ready none → (finish closed x).0.closed ≡ true)
finish-empty closed (s, some v) e c = (e, λ k. absurd (ground arith))
finish-empty true (s, none) e c = (e, λ k. c refl)
finish-empty false (s, none) e c = (e, λ k. absurd (ground arith))

poll_again-empty :
    (s : Shared) (g : Gaps)
    → ((poll_again s g).0.value ≡ empty)
      × ((poll_again s g).1 ≡ ready none → (poll_again s g).0.closed ≡ true)
unfolding poll_again
poll_again-empty s g =
    let flagged = acts s g.before in
    finish-empty flagged.closed (try_recv (acts flagged g.behind) g.second)
      (try_recv-empty (acts flagged g.behind) g.second)
      (λ c.
        try_recv-closed (acts flagged g.behind) g.second
          (ap (λ (x : Shared). x.closed) (acts-closed flagged g.behind c) ∙ c))

poll_recv-empty :
    (s : Shared) (g : Gaps)
    → ((poll_recv s g).0.value ≡ empty)
      × ((poll_recv s g).1 ≡ ready none → (poll_recv s g).0.closed ≡ true)
unfolding poll_recv
poll_recv-empty s g = go (try_recv s g.first) (try_recv-empty s g.first)
  where
    go :
        (x : Shared × Option ℕ)
        → x.0.value ≡ empty
        → ((poll_found x g).0.value ≡ empty)
          × ((poll_found x g).1 ≡ ready none → (poll_found x g).0.closed ≡ true)
    go (t, some v) e = (e, λ k. absurd (ground arith))
    go (t, none) e = poll_again-empty t g

-- Whatever the sender does between the steps of a poll: if the poll says that the values have ended,
-- the sender is gone and no unread value is left.
pub poll_recv_lem :
    (s : Shared) (g : Gaps)
    → (poll_recv s g).1 ≡ ready none
    → ((poll_recv s g).0.closed ≡ true) × (unread (poll_recv s g).0 ≡ none)
poll_recv_lem s g e =
    let (nothing, closed) = poll_recv-empty s g in (closed e, ground (arith, nothing))
