-- ===== src/Planner/Valid/Steps.antt =====
-- Validity under progress, the changes of status, and the release of a failed runner.
use bolt_load.Prelude.{
  ℕ, ◌+◌, ◌-◌, ◌≤◌, ◌<◌, ◌≡◌, refl, sym, false, inl, inr, ok, arith, min, ◌==◌, u64_mod, add64,
  sub64, Bool-cases,
}
use bolt_load.OrdMap.{insert, get-insert, get-remove}
use bolt_load.Planner.Chunk.{ChunkState, range, running, finished}
use bolt_load.Planner.State.{
  ChunkPlanner, accept, update_progress, mark_running, mark_finished, mark_failed, keep_downloaded,
  resize_runner_state,
}
use bolt_load.Planner.Chain.{
  IsSound, downloaded_bytes-insert, downloaded_bytes-remove, insert-Chain_same, remove-Chain,
  insert-remove,
}
use bolt_load.Planner.Valid.{IsValid, Located, locate_cases, resize_cases}
use bolt_load.Planner.Valid.Update.{
  replace-IsValid, replace-le-total, forget-IsValid, release-IsMapped,
}

-- The downloaded end moves by the smaller of what arrived and what is missing.
pub accept_end :
    (c : ChunkState) (bytes : ℕ)
    → IsSound c
    → c.allocated.end < u64_mod
    → (accept c bytes).downloaded.end
      ≡ c.downloaded.end + min bytes (c.allocated.end - c.downloaded.end)
unfolding add64 sub64
accept_end c bytes s h = omega arith

-- The new chunk after progress is sound.
pub accept-IsSound :
    (c : ChunkState) (bytes : ℕ) → IsSound c → c.allocated.end < u64_mod → IsSound (accept c bytes)
accept-IsSound c bytes s h = omega (arith, accept_end c bytes s h)

-- The count of accepted bytes does not wrap.
add64-sub64 :
    (accepted before after total : ℕ)
    → before ≤ after
    → after ≤ total
    → total < u64_mod
    → accepted + after ≤ total + before
    → add64 accepted (sub64 after before) ≡ accepted + (after - before)
unfolding add64 sub64
add64-sub64 accepted before after total a b h n = omega arith

-- What is counted for a chunk's progress.
pub counted_progress :
    (p : ChunkPlanner) (id bytes start : ℕ) (c : ChunkState)
    → IsValid p
    → Located p id (ok (start, c))
    → add64 p.accepted_bytes (sub64 (accept c bytes).downloaded.end c.downloaded.end)
      ≡ p.accepted_bytes + ((accept c bytes).downloaded.end - c.downloaded.end)
counted_progress p id bytes start c v (m, g, r, k, s, t) =
    let fits : c.allocated.end < u64_mod = omega (arith, v.fits) in
    add64-sub64 p.accepted_bytes c.downloaded.end (accept c bytes).downloaded.end p.total
      (omega (arith, accept_end c bytes s fits)) (omega (arith, accept_end c bytes s fits)) v.fits
      (omega (
        arith,
        replace-le-total p start c (accept c bytes) v g (accept-IsSound c bytes s fits) (sym k)
            (omega arith),
        accept_end c bytes s fits,
      ))

pub update_progress-IsValid :
    (p : ChunkPlanner) (id bytes : ℕ) → IsValid p → IsValid (update_progress p id bytes).0
unfolding update_progress
update_progress-IsValid p id bytes v =
    locate_cases p id v (λ q e. rw (q, update_progress) v)
      (λ start c q l.
        let fits : c.allocated.end < u64_mod = omega (arith, v.fits) in
        rw (q, update_progress)
          (replace-IsValid p start _ c (accept c bytes) v l.1 (accept-IsSound c bytes l.4 fits)
            (sym l.3) (omega arith) refl
            (omega (arith, counted_progress p id bytes start c v l, accept_end c bytes l.4 fits))))

pub mark_running-IsValid : (p : ChunkPlanner) (id : ℕ) → IsValid p → IsValid (mark_running p id).0
unfolding mark_running
mark_running-IsValid p id v =
    locate_cases p id v (λ q e. rw (q, mark_running) v)
      (λ start c q l.
        rw (q, mark_running)
          (replace-IsValid p start p.accepted_bytes c (record c { status = running }) v l.1 l.4
            (sym l.3) (omega arith) refl refl))

pub mark_finished-IsValid : (p : ChunkPlanner) (id : ℕ) → IsValid p → IsValid (mark_finished p id).0
unfolding mark_finished
mark_finished-IsValid p id v =
    locate_cases p id v (λ q e. rw (q, mark_finished) (forget-IsValid p id v))
      (λ start c q l.
        rw (q, mark_finished)
          (forget-IsValid _ id (
            replace-IsValid p start p.accepted_bytes c (record c { status = finished }) v l.1 l.4
              (sym l.3) (omega arith) refl refl)))

-- Cutting a chunk short, not below what it has downloaded.
cut-IsValid :
    (p : ChunkPlanner) (id start new_end : ℕ) (c : ChunkState)
    → IsValid p
    → Located p id (ok (start, c))
    → c.downloaded.end ≤ new_end
    → c.allocated.start < new_end
    → new_end < c.allocated.end
    → IsValid (record p {
      chunks = insert start (record c { allocated = range c.allocated.start new_end }) p.chunks;
    })
cut-IsValid p id start new_end c v l a b d =
    replace-IsValid p start p.accepted_bytes c _ v l.1 (l.4.0, l.4.1, a, b) (sym l.3) (omega arith)
      refl refl

pub resize_runner_state-IsValid :
    (p : ChunkPlanner) (id new_size : ℕ) → IsValid p → IsValid (resize_runner_state p id new_size).0
resize_runner_state-IsValid p id new_size v =
    resize_cases IsValid p id new_size v v
      λ start c l a b. cut-IsValid p id start _ c v l (omega arith) a b

-- What `mark_failed` keeps of a chunk that has downloaded something.
keep_downloaded-IsSound :
    (c : ChunkState)
    → IsSound c
    → (c.downloaded.start == c.downloaded.end) ≡ false
    → IsSound (keep_downloaded c)
keep_downloaded-IsSound c s h = ground arith

pub mark_failed-IsValid : (p : ChunkPlanner) (id : ℕ) → IsValid p → IsValid (mark_failed p id).0
unfolding mark_failed
mark_failed-IsValid p id v =
    locate_cases p id v (λ q e. rw (q, mark_failed) (forget-IsValid p id v))
      (λ start c q l.
        rw (q, mark_failed)
          (elim (Bool-cases (c.downloaded.start == c.downloaded.end)) [
            | inl none_yet ↦ rw none_yet (record {
              fits = v.fits;
              chain = remove-Chain 0 p.total start p.chunks v.chain;
              counted =
                  ground
                    (arith, v.counted, downloaded_bytes-remove 0 p.total start p.chunks v.chain);
              mapped =
                  release-IsMapped p.runner_to_chunk p.chunks v.mapped id start c _ l.1 l.2
                    (λ k n. ground (arith, get-remove k start p.chunks));
            })
            | inr some_yet ↦
                rw (some_yet, insert-remove 0 p.total start (keep_downloaded c) p.chunks v.chain)
                  (record {
                    fits = v.fits;
                    chain =
                        insert-Chain_same 0 p.total start c (keep_downloaded c) p.chunks v.chain l.1
                          (keep_downloaded-IsSound c l.4 some_yet) (sym l.3) l.4.2;
                    counted = ground (
                      arith,
                      v.counted,
                      downloaded_bytes-insert 0 p.total start (keep_downloaded c) p.chunks v.chain,
                    );
                    mapped =
                        release-IsMapped p.runner_to_chunk p.chunks v.mapped id start c _ l.1 l.2
                          (λ k n. ground (arith, get-insert k start (keep_downloaded c) p.chunks));
                  })
          ]))
