-- ===== src/Web/Broadcaster/Resize.antt =====
-- What `SetMaxHistory` does to a ring that already holds events.
use ctop.Prelude.{ℕ, ◌<◌, ◌≡◌, ap, ◌∙◌, none, some, length, take, arith, length-take, append-nil}
use ctop.Prelude.Int.{pos}
use ctop.Prelude.Texts.{Text}
use ctop.Web.Broadcaster.{TelemetryEvent, Broadcaster, broadcast, get_history, set_max_history}
use ctop.Web.Broadcaster.Ring.{WellFormed, contents}
use ctop.Web.Broadcaster.History.{get_history-contents}

module _ {P : Type 0} where
  -- Where a ring that is not full yet is given the number of its events as its limit, the next
  -- `Broadcast` writes behind the ring's end, which is a panic.
  pub set_max_history-panics :
      (now : Text) (event : TelemetryEvent P) (b : Broadcaster P)
      → WellFormed b
      → 0 < length b.ring
      → length b.ring < b.max_history
      → broadcast now event (set_max_history (pos (length b.ring)) b) ≡ none
  unfolding broadcast set_max_history
  set_max_history-panics now event b w p h = ground (arith, w.head_at_end h)

  shrink-WellFormed :
      (limit : ℕ) (b : Broadcaster P)
      → WellFormed b
      → 0 < limit
      → limit < length b.ring
      → length b.ring < b.max_history
      → WellFormed (set_max_history (pos limit) b)
  unfolding set_max_history
  shrink-WellFormed limit b w p l h =
      ground (arith, w.head_at_end h, length-take limit b.ring, w.counts)

  shrink-contents :
      (limit : ℕ) (b : Broadcaster P)
      → WellFormed b
      → 0 < limit
      → limit < length b.ring
      → length b.ring < b.max_history
      → contents (set_max_history (pos limit) b) ≡ take limit (contents b)
  unfolding set_max_history
  shrink-contents limit b w p l h =
      ground (arith, w.head_at_end h, length-take limit b.ring, append-nil (take limit b.ring))

  -- Where a ring that is not full is given a limit below the number of its events, the ring stays
  -- well-formed, and what is kept of its history is the oldest events: the newest ones are dropped.
  pub set_max_history-keeps_oldest :
      (limit : ℕ) (blank : TelemetryEvent P) (b : Broadcaster P)
      → WellFormed b
      → 0 < limit
      → limit < length b.ring
      → length b.ring < b.max_history
      → WellFormed (set_max_history (pos limit) b)
        × (get_history blank (set_max_history (pos limit) b) ≡ some (take limit (contents b)))
  set_max_history-keeps_oldest limit blank b w p l h =
      let w' = shrink-WellFormed limit b w p l h in
      (
        w',
        get_history-contents blank (set_max_history (pos limit) b) w'
            ∙ ap some (shrink-contents limit b w p l h),
      )
