-- ===== src/Web/Tests/History.antt =====
-- The broadcaster on concrete events.
use ctop.Prelude.{ℕ, ◌≡◌, refl, List, [], ◌∷◌, none, some, arith, take}
use ctop.Prelude.Int.{pos}
use ctop.Prelude.Texts.{Text, codes}
use ctop.Web.Broadcaster.{
  TelemetryEvent, Broadcaster, new_broadcaster, set_max_history, broadcast, get_history,
}
use ctop.Web.Broadcaster.Ring.{WellFormed, contents}
use ctop.Web.Broadcaster.History.{last, stamp_all, broadcast_all, broadcast_all-history}
use ctop.Web.Broadcaster.Resize.{set_max_history-panics, set_max_history-keeps_oldest}

abbrev event : ℕ → TelemetryEvent ℕ
event n = record { timestamp = codes "t"; payload = n }

abbrev blank : TelemetryEvent ℕ
blank = record { timestamp = []; payload = 0 }

abbrev three : List (Text × TelemetryEvent ℕ)
three = (codes "t", event 1) ∷ (codes "t", event 2) ∷ (codes "t", event 3) ∷ []

broadcast_all-history_example :
    (b : Broadcaster ℕ) × (broadcast_all three (set_max_history (pos 2) new_broadcaster) ≡ some b)
    × (get_history blank b ≡ some (last 2 (stamp_all three)))
broadcast_all-history_example = broadcast_all-history 2 blank three (omega arith)

-- The ring holds two events of at most five.
abbrev half_full : Broadcaster ℕ
half_full = record {
  subscribers = (7, []) ∷ [];
  ring = event 1 ∷ event 2 ∷ [];
  head = 2;
  count = 2;
  max_history = 5;
  max_subscribers = 256;
}

half_full-WellFormed : WellFormed half_full
half_full-WellFormed = record {
  has_capacity = omega arith;
  within_capacity = omega arith;
  counts = refl;
  head_in_range = omega arith;
  head_at_end = λ h. refl;
}

set_max_history-panics_example :
    broadcast (codes "t") (event 3) (set_max_history (pos 2) half_full) ≡ none
set_max_history-panics_example =
    set_max_history-panics (codes "t") (event 3) half_full half_full-WellFormed (omega arith)
      (omega arith)

set_max_history-keeps_oldest_example :
    WellFormed (set_max_history (pos 1) half_full)
    × (get_history blank (set_max_history (pos 1) half_full) ≡ some (take 1 (contents half_full)))
set_max_history-keeps_oldest_example =
    set_max_history-keeps_oldest 1 blank half_full half_full-WellFormed (omega arith) (omega arith)
      (omega arith)
