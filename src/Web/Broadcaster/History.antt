-- ===== src/Web/Broadcaster/History.antt =====
-- What the readers of the ring of pkg/web/broadcaster.go are given.
use mathlib.Core.Path.{subst}
use native.Mathlib.Decide.{dec_lt}
use native.Mathlib.Nat.{mod-eq_of_lt}
use ctop.Prelude.{
  ℕ, ◌+◌, ◌-◌, ◌%◌, ◌≤◌, ◌<◌, ◌≡◌, refl, sym, ap, ◌∙◌, false, List, [], ◌∷◌, ◌++◌, Option, none,
  some, ltb, ◌==◌, length, get_elem?, set, take, drop, replicate, arith, length-append, length-set,
  length-drop, length-take, append-nil, append_assoc, Bool-cases, inl, inr, min, length-replicate,
  drop-drop, drop-append,
}
use ctop.Prelude.Int.{pos}
use ctop.Prelude.Texts.{Text}
use ctop.Web.Broadcaster.{
  TelemetryEvent, Broadcaster, new_broadcaster, store_event, broadcast, stamped, get_latest_event,
  get_history, copy_onto, offer_all, set_max_history,
}
use ctop.Web.Broadcaster.Ring.{
  push, WellFormed, contents, append_event, overwrite_event, store_event-filling, store_event-full,
  append_event-WellFormed, overwrite_event-WellFormed, contents-append_event,
  contents-overwrite_event, length-contents-full, drop_of_ge, get_elem?-append_last, get_elem?-set,
  copy_onto-all, next_index, take-copy_onto, length-drop-copy_onto,
}

-- The last `max` elements.
abbrev pub last {ℓ} : {A : Type ℓ} → ℕ → List A → List A
last max xs = drop (length xs - max) xs

push-last {ℓ} :
    {A : Type ℓ} (max : ℕ) (xs : List A) (x : A)
    → 0 < max
    → push max (last max xs) x ≡ last max (xs ++ x ∷ [])
push-last max xs x h =
    let grown : length (xs ++ x ∷ []) ≡ length xs + 1 = length-append xs (x ∷ []) ∙ omega arith in
    let size = length-drop (length xs - max) xs in
    elim (dec_lt (length xs) max) [
      | yes p ↦
          let none_gone : length xs - max ≡ 0 = omega arith in
          let none_gone' : length (xs ++ x ∷ []) - max ≡ 0 = omega arith in
          rw (none_gone, none_gone') (ground arith)
      | no p ↦
          let one_more : length (xs ++ x ∷ []) - max ≡ length xs - max + 1 = omega arith in
          let full : ltb (length (last max xs)) max ≡ false = ground (arith, size) in
          rw (full, one_more)
            (ap (λ l. l ++ x ∷ []) (drop-drop 1 (length xs - max) xs)
              ∙ sym (drop-append (length xs - max + 1) xs (x ∷ []) (omega arith)))
    ]

-- The index of the newest event: `(head - 1 + len) % len`.
newest_index : (i m len : ℕ) → i < m → len ≡ m → ((i + 1) % m + len - 1) % len ≡ i
newest_index i m len h e = elim (next_index i m h) [
  | inl (n, l) ↦
      let f : (i + 1) % m + len - 1 ≡ i + len = omega (arith, n) in rw (f, e) (grind arith)
  | inr (n, l) ↦
      let f : (i + 1) % m + len - 1 ≡ i = omega (arith, n, l) in rw f (mod-eq_of_lt (omega arith))
]

-- The same where the ring has just grown to `i + 1`.
newest_index_grown : (i m : ℕ) → i < m → ((i + 1) % m + (i + 1) - 1) % (i + 1) ≡ i
newest_index_grown i m h = elim (next_index i m h) [
  | inl (n, l) ↦
      let f : (i + 1) % m + (i + 1) - 1 ≡ i + (i + 1) = omega (arith, n) in rw f (grind arith)
  | inr (n, l) ↦
      let f : (i + 1) % m + (i + 1) - 1 ≡ i = omega (arith, n) in rw f (mod-eq_of_lt (omega arith))
]

module _ {P : Type 0} where
  latest_at :
      (e blank : TelemetryEvent P) (b : Broadcaster P) (i : ℕ)
      → 0 < b.count
      → (b.head + length b.ring - 1) % length b.ring ≡ i
      → get_elem? b.ring i ≡ some e
      → get_latest_event blank b ≡ some e
  unfolding get_latest_event
  latest_at e blank b i c h g = elim (Bool-cases (b.count == 0)) [
    | inl z ↦ absurd (ground arith)
    | inr nz ↦ rw (nz, h) g
  ]

  latest-append_event :
      (e blank : TelemetryEvent P) (b : Broadcaster P)
      → WellFormed b
      → length b.ring < b.max_history
      → get_latest_event blank (append_event e b) ≡ some e
  unfolding append_event
  latest-append_event e blank b w h =
      let grown : length (b.ring ++ e ∷ []) ≡ length b.ring + 1 =
        length-append b.ring (e ∷ []) ∙ omega arith in
      latest_at e blank (append_event e b) (length b.ring) (omega arith)
        (rw (w.head_at_end h, grown) (newest_index_grown (length b.ring) b.max_history h))
        (get_elem?-append_last b.ring e)

  latest-overwrite_event :
      (e blank : TelemetryEvent P) (b : Broadcaster P)
      → WellFormed b
      → b.max_history ≤ length b.ring
      → get_latest_event blank (overwrite_event e b) ≡ some e
  unfolding overwrite_event
  latest-overwrite_event e blank b w h =
      latest_at e blank (overwrite_event e b) b.head (omega (arith, w.counts, w.has_capacity))
        (newest_index b.head b.max_history (length (set b.ring b.head e)) w.head_in_range
          (omega (arith, length-set b.ring b.head e, w.within_capacity)))
        (get_elem?-set b.ring b.head e (omega (arith, w.head_in_range)))

  -- What `Broadcast` does to a well-formed ring.
  pub record Pushed (event : TelemetryEvent P) (b b' : Broadcaster P) : Type 0 where
    pub well_formed : WellFormed b'
    pub same_max : b'.max_history ≡ b.max_history
    pub pushed : contents b' ≡ push b.max_history (contents b) event
    pub newest : (blank : TelemetryEvent P) → get_latest_event blank b' ≡ some event

  store_event-Pushed :
      (e : TelemetryEvent P) (b : Broadcaster P)
      → WellFormed b
      → (b' : Broadcaster P) × (store_event e b ≡ some b') × Pushed e b b'
  store_event-Pushed e b w = elim (dec_lt (length b.ring) b.max_history) [
    | yes p ↦ (
      append_event e b,
      store_event-filling e b p,
      record {
        well_formed = append_event-WellFormed e b w p;
        same_max = unfold append_event in refl;
        pushed = contents-append_event e b w p ∙ ground arith;
        newest = λ blank. latest-append_event e blank b w p;
      },
    )
    | no p ↦
        let full : b.max_history ≤ length b.ring = omega arith in
        (
          overwrite_event e b,
          store_event-full e b w full,
          record {
            well_formed = overwrite_event-WellFormed e b w full;
            same_max = unfold overwrite_event in refl;
            pushed =
                contents-overwrite_event e b w full ∙ ground (arith, length-contents-full b w full);
            newest = λ blank. latest-overwrite_event e blank b w full;
          },
        )
  ]

  pub broadcast-Pushed :
      (now : Text) (event : TelemetryEvent P) (b : Broadcaster P)
      → WellFormed b
      → (b' : Broadcaster P) × (broadcast now event b ≡ some b') × Pushed (stamped now event) b b'
  unfolding broadcast get_latest_event
  broadcast-Pushed now event b w =
      let (b', e, p) = store_event-Pushed (stamped now event) b w in
      (
        record b' { subscribers = offer_all (stamped now event) b'.subscribers },
        rw e,
        record {
          well_formed = record {
            has_capacity = p.well_formed.has_capacity;
            within_capacity = p.well_formed.within_capacity;
            counts = p.well_formed.counts;
            head_in_range = p.well_formed.head_in_range;
            head_at_end = p.well_formed.head_at_end;
          };
          same_max = p.same_max;
          pushed = p.pushed;
          newest = p.newest;
        },
      )

  -- Events in turn, each with the time at which it is sent.
  unfoldable pub broadcast_all :
      List (Text × TelemetryEvent P) → Broadcaster P → Option (Broadcaster P)
  broadcast_all [] b = some b
  broadcast_all ((now, event) ∷ rest) b = elim (broadcast now event b) [
    | none ↦ none
    | some b' ↦ broadcast_all rest b'
  ]

  abbrev pub stamp_all : List (Text × TelemetryEvent P) → List (TelemetryEvent P)
  stamp_all [] = []
  stamp_all ((now, event) ∷ rest) = stamped now event ∷ stamp_all rest

  broadcast_all-step :
      (now : Text) (event : TelemetryEvent P) (rest : List (Text × TelemetryEvent P))
      (b : Broadcaster P) {b' : Broadcaster P}
      → broadcast now event b ≡ some b'
      → broadcast_all ((now, event) ∷ rest) b ≡ broadcast_all rest b'
  unfolding broadcast_all
  broadcast_all-step now event rest b e = rw (e, broadcast_all)

  broadcast_all-contents :
      (es : List (Text × TelemetryEvent P)) (b : Broadcaster P) (seen : List (TelemetryEvent P))
      → WellFormed b
      → contents b ≡ last b.max_history seen
      → (b' : Broadcaster P) × (broadcast_all es b ≡ some b')
        × WellFormed b'
        × (contents b' ≡ last b.max_history (seen ++ stamp_all es))
  unfolding broadcast_all
  broadcast_all-contents [] b seen w c = (b, refl, w, c ∙ rw append-nil)
  broadcast_all-contents ((now, event) ∷ rest) b seen w c =
      let (b₁, e, p) = broadcast-Pushed now event b w in
      let seen' = seen ++ stamped now event ∷ [] in
      let c₀ : contents b₁ ≡ last b.max_history seen' =
        p.pushed ∙ rw c (push-last b.max_history seen (stamped now event) w.has_capacity) in
      let c₁ : contents b₁ ≡ last b₁.max_history seen' =
        subst (λ m. contents b₁ ≡ last m seen') (sym p.same_max) c₀ in
      let (b₂, e₂, w₂, c₂) = broadcast_all-contents rest b₁ seen' p.well_formed c₁ in
      (
        b₂,
        broadcast_all-step now event rest b e ∙ e₂,
        w₂,
        subst (λ m. contents b₂ ≡ last m (seen' ++ stamp_all rest)) p.same_max c₂
            ∙ ap (last b.max_history) (append_assoc seen (stamped now event ∷ []) (stamp_all rest)),
      )

  -- The history that a well-formed ring gives out is its contents.
  pub get_history-contents :
      (blank : TelemetryEvent P) (b : Broadcaster P)
      → WellFormed b
      → get_history blank b ≡ some (contents b)
  unfolding get_history
  get_history-contents blank b w = elim (dec_lt (length b.ring) b.max_history) [
    | yes p ↦
        let whole =
          copy_onto-all (replicate b.count blank) b.ring
            (length-replicate b.count blank ∙ w.counts) in
        filling (length b.ring) b.ring refl refl p whole
    | no p ↦
        let front = drop b.head b.ring in
        let out = replicate b.count blank in
        let size : length out ≡ b.count = length-replicate b.count blank in
        let front_size : length front ≡ length b.ring - b.head = length-drop b.head b.ring in
        let n = min b.count (length b.ring - b.head) in
        let n_is : n ≡ length front = omega (arith, front_size, w.counts) in
        let head_part = take-copy_onto out front n n_is (omega (arith, size)) in
        let tail_part = copy_onto-all (drop n (copy_onto out front)) (take b.head b.ring) (
          omega (
            arith,
            length-drop-copy_onto out front n,
            size,
            length-take b.head b.ring,
            w.counts,
            w.within_capacity,
            w.head_in_range,
          )) in
        ground (
          arith, head_part, tail_part, w.counts, w.has_capacity, w.within_capacity, w.head_in_range,
        )
  ]
    where
      filling :
          (n : ℕ) (ring : List (TelemetryEvent P))
          → length b.ring ≡ n
          → b.ring ≡ ring
          → length b.ring < b.max_history
          → copy_onto (replicate b.count blank) b.ring ≡ b.ring
          → get_history blank b ≡ some (contents b)
      filling n [] e f p whole = ground (arith, w.counts)
      filling n (x ∷ ring) e f p whole = ground (arith, w.counts)

  started :
      (limit : ℕ)
      → 0 < limit
      → let b = set_max_history (pos limit) (new_broadcaster {P = P}) in
        WellFormed b × (b.max_history ≡ limit) × (contents b ≡ [])
  unfolding set_max_history new_broadcaster
  started limit h = ground arith

  -- A new broadcaster, given a limit for its history at once and then any events one after the other,
  -- takes them all without a panic. The history that it then gives out is the last `limit` of these
  -- events, in order, each with the time at which it was sent if it had none.
  pub broadcast_all-history :
      (limit : ℕ) (blank : TelemetryEvent P) (es : List (Text × TelemetryEvent P))
      → 0 < limit
      → (b : Broadcaster P) × (broadcast_all es (set_max_history (pos limit) new_broadcaster)
          ≡ some b)
        × (get_history blank b ≡ some (last limit (stamp_all es)))
  broadcast_all-history limit blank es h =
      let b₀ = set_max_history (pos limit) (new_broadcaster {P = P}) in
      let (w₀, max_is, empty) = started limit h in
      let (b, e, w, c) =
        broadcast_all-contents es b₀ [] w₀ (empty ∙ sym (drop_of_ge _ [] (omega arith))) in
      (b, e, get_history-contents blank b w ∙ ap some (c ∙ ap (λ m. last m (stamp_all es)) max_is))
