-- ===== src/Web/Broadcaster.antt =====
-- `Broadcaster` of pkg/web/broadcaster.go: the ring of past events and the subscribers' channels.
-- A slice expression out of range is a panic, here `none`. The mutex makes each method one step, so
-- a method is a function of the state. A channel is a number and the queue of what it holds.
pub mod Ring
pub mod History
pub mod Resize
pub mod Subscribers
use ctop.Prelude.{
  ℕ, zero, suc, ◌+◌, ◌-◌, ◌%◌, Bool, true, false, not, ◌&&◌, ◌||◌, List, [], ◌∷◌, ◌++◌, Option,
  none, some, if◌then◌else◌, ltb, leb, ◌==◌, length, get_elem?, set, take, drop, replicate, min,
  copy_onto,
}
use mathlib.Core.Option
use ctop.Prelude.Int.{ℤ, pos, negsuc}
use ctop.Prelude.Texts.{Text}

-- `TelemetryEvent`: its timestamp, and the rest of it.
pub record TelemetryEvent (P : Type 0) : Type 0 where
  pub timestamp : Text
  pub payload : P

pub record Broadcaster (P : Type 0) : Type 0 where
  pub subscribers : List (ℕ × List (TelemetryEvent P))
  pub ring : List (TelemetryEvent P)
  pub head : ℕ
  pub count : ℕ
  pub max_history : ℕ
  pub max_subscribers : ℕ

abbrev positive_or : ℕ → ℤ → ℕ
positive_or d (pos n) = if ltb 0 n then n else d
positive_or d (negsuc n) = d

module _ {P : Type 0} where
  unfoldable pub new_broadcaster : Broadcaster P
  new_broadcaster = record {
    subscribers = [];
    ring = [];
    head = 0;
    count = 0;
    max_history = 5000;
    max_subscribers = 256;
  }

  unfoldable pub set_max_subscribers : ℤ → Broadcaster P → Broadcaster P
  set_max_subscribers limit b = record b { max_subscribers = positive_or 256 limit }

  unfoldable pub set_max_history : ℤ → Broadcaster P → Broadcaster P
  set_max_history limit b =
      let max = positive_or 1000 limit in
      if ltb max (length b.ring)
      then record b {
        max_history = max;
        ring = take max b.ring;
        count = if ltb max b.count then max else b.count;
        head = if leb max b.head then 0 else b.head;
      }
      else record b { max_history = max }

  -- `fresh` is the channel that `make` returns.
  unfoldable pub subscribe : ℕ → Broadcaster P → Broadcaster P × Option ℕ
  subscribe fresh b =
      if ltb 0 b.max_subscribers && leb b.max_subscribers (length b.subscribers)
      then (b, none)
      else (record b { subscribers = (fresh, []) ∷ b.subscribers }, some fresh)

  without : ℕ → List (ℕ × List (TelemetryEvent P)) → List (ℕ × List (TelemetryEvent P))
  without ch [] = []
  without ch ((c, queue) ∷ rest) =
      let others = without ch rest in if c == ch then others else (c, queue) ∷ others

  unfoldable pub unsubscribe : ℕ → Broadcaster P → Broadcaster P
  unfolding without
  unsubscribe ch b = record b { subscribers = without ch b.subscribers }

  -- `select { case ch <- event: default: }` on a channel for 64 events.
  abbrev pub offer : TelemetryEvent P → List (TelemetryEvent P) → List (TelemetryEvent P)
  offer event queue = if ltb (length queue) 64 then queue ++ event ∷ [] else queue

  unfoldable pub offer_all :
      TelemetryEvent P → List (ℕ × List (TelemetryEvent P)) → List (ℕ × List (TelemetryEvent P))
  offer_all event [] = []
  offer_all event ((c, queue) ∷ rest) = (c, offer event queue) ∷ offer_all event rest

  abbrev pub stamped : Text → TelemetryEvent P → TelemetryEvent P
  stamped now event = elim event.timestamp [
    | [] ↦ record event { timestamp = now }
    | c ∷ cs ↦ event
  ]

  -- `b.ring[b.head] = event`, a panic out of range.
  abbrev write_ring : TelemetryEvent P → Broadcaster P → Option (Broadcaster P)
  write_ring event b =
      if ltb b.head (length b.ring)
      then some (record b { ring = set b.ring b.head event; head = (b.head + 1) % b.max_history })
      else none

  -- The ring's part of `Broadcast`.
  unfoldable pub store_event : TelemetryEvent P → Broadcaster P → Option (Broadcaster P)
  store_event event b =
      if ltb (length b.ring) b.max_history
      then some (record b {
        ring = b.ring ++ event ∷ [];
        count = b.count + 1;
        head = (b.head + 1) % b.max_history;
      })
      else write_ring event b

  abbrev pub deliver : TelemetryEvent P → Option (Broadcaster P) → Option (Broadcaster P)
  deliver event none = none
  deliver event (some b) = some (record b { subscribers = offer_all event b.subscribers })

  -- `now` is the time as RFC 3339 text.
  unfoldable pub broadcast : Text → TelemetryEvent P → Broadcaster P → Option (Broadcaster P)
  unfolding store_event
  broadcast now event b = deliver (stamped now event) (store_event (stamped now event) b)

  -- `blank` is `TelemetryEvent{}`.
  unfoldable pub get_latest_event : TelemetryEvent P → Broadcaster P → Option (TelemetryEvent P)
  get_latest_event blank b =
      if b.count == 0
      then some blank
      else get_elem? b.ring ((b.head + length b.ring - 1) % length b.ring)

  unfoldable pub get_history : TelemetryEvent P → Broadcaster P → Option (List (TelemetryEvent P))
  get_history blank b =
      let out = replicate b.count blank in
      let n = min b.count (length b.ring - b.head) in
      let first = copy_onto out (drop b.head b.ring) in
      if b.count == 0
      then some []
      else if ltb (length b.ring) b.max_history
      then some (copy_onto out b.ring)
      else if ltb (length b.ring) b.head
      then none
      else some (take n first ++ copy_onto (drop n first) (take b.head b.ring))

  unfoldable pub subscriber_count : Broadcaster P → ℕ
  subscriber_count b = length b.subscribers
