-- ===== src/Web/Broadcaster/Subscribers.antt =====
-- The subscribers' channels: how many there are, and how much each holds.
use ctop.Prelude.{
  ℕ, ◌≤◌, ◌<◌, ◌≡◌, refl, ap, List, [], ◌∷◌, ◌++◌, some, if◌then◌else◌, ltb, leb, length, arith,
  All, inl, inr, map, Option-cases,
}
use ctop.Prelude.Int.{ℤ}
use ctop.Prelude.Texts.{Text}
use ctop.Web.Broadcaster.{
  TelemetryEvent, Broadcaster, new_broadcaster, set_max_subscribers, subscribe, unsubscribe,
  broadcast, store_event, offer, offer_all, stamped,
}

abbrev larger : ℕ → ℕ → ℕ
larger m n = if leb m n then n else m

module _ {P : Type 0} where
  abbrev HasRoom : ℕ × List (TelemetryEvent P) → Type 0
  HasRoom ch = length ch.1 ≤ 64

  -- No more channels than the bound, nor a higher limit, and no channel holds more than it was made for.
  pub record Bounded (highest : ℕ) (b : Broadcaster P) : Type 0 where
    pub some_allowed : 0 < b.max_subscribers
    pub within_highest : b.max_subscribers ≤ highest
    pub within_limit : length b.subscribers ≤ highest
    pub within_buffers : All HasRoom b.subscribers

  offer_all-map :
      (e : TelemetryEvent P) (subs : List (ℕ × List (TelemetryEvent P)))
      → offer_all e subs
        ≡ map
            (λ (ch : ℕ × List (TelemetryEvent P)).
              (ch.0, if ltb (length ch.1) 64 then ch.1 ++ e ∷ [] else ch.1))
            subs
  unfolding offer_all
  offer_all-map e [] = refl
  offer_all-map e ((c, queue) ∷ rest) = ap (◌∷◌ (c, offer e queue)) (offer_all-map e rest)

  store_event-subscribers :
      (e : TelemetryEvent P) (b : Broadcaster P) {b' : Broadcaster P}
      → store_event e b ≡ some b'
      → (b'.subscribers ≡ b.subscribers) × (b'.max_subscribers ≡ b.max_subscribers)
  unfolding store_event
  store_event-subscribers e b h = ground arith

  -- A call that changes the channels.
  pub data Step (b : Broadcaster P) : Broadcaster P → Type 0 where
    subscribes : (fresh : ℕ) → Step b (subscribe fresh b).0
    unsubscribes : (ch : ℕ) → Step b (unsubscribe ch b)
    broadcasts :
        (now : Text) (e : TelemetryEvent P) (b' : Broadcaster P)
        → broadcast now e b ≡ some b'
        → Step b b'

  -- What calls make of a new broadcaster, with the highest limit that it has had.
  pub data Reach : ℕ → Broadcaster P → Type 0 where
    fresh_one : Reach 256 new_broadcaster
    next : {highest : ℕ} {b c : Broadcaster P} → Reach highest b → Step b c → Reach highest c
    limits :
        {highest : ℕ} {b : Broadcaster P} (n : ℤ)
        → Reach highest b
        → Reach (larger highest (set_max_subscribers n b).max_subscribers) (set_max_subscribers n b)

  -- A broadcast adds the event to the end of every channel that has room, and leaves a channel
  -- that is full as it was; no channel is added or taken away, and the order stays.
  pub broadcast-subscribers :
      (now : Text) (e : TelemetryEvent P) (b : Broadcaster P) {b' : Broadcaster P}
      → broadcast now e b ≡ some b'
      → b'.subscribers
        ≡ map
            (λ (ch : ℕ × List (TelemetryEvent P)).
              (ch.0, if ltb (length ch.1) 64 then ch.1 ++ stamped now e ∷ [] else ch.1))
            b.subscribers
  unfolding broadcast
  broadcast-subscribers now e b {b'} h = elim (Option-cases (store_event (stamped now e) b)) [
    | inl lost ↦ absurd (ground arith)
    | inr (b₁, s) ↦
        let same = (store_event-subscribers (stamped now e) b s).0 in
        ground (arith, same, offer_all-map (stamped now e) b.subscribers)
  ]
