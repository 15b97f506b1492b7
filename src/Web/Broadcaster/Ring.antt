-- ===== src/Web/Broadcaster/Ring.antt =====
-- The ring of pkg/web/broadcaster.go and the bounded queue that it stands for.
use ctop.Prelude.{
  copy_onto, ◌⊎◌, ℕ, zero, suc, ◌+◌, ◌-◌, ◌%◌, ◌≤◌, ◌<◌, ◌≡◌, refl, sym, ap, ◌∙◌, List, [], ◌∷◌,
  ◌++◌, some, if◌then◌else◌, ltb, length, get_elem?, set, take, drop, arith, length-append,
  length-set, length-drop, length-take, append-nil, append_assoc, inl, inr, take-append-drop,
}
use native.Mathlib.Decide.{dec_lt}
use native.Mathlib.Nat.{mod-eq_of_lt, mod-lt, mod_self}
use ctop.Web.Broadcaster.{TelemetryEvent, Broadcaster, new_broadcaster, store_event}

module _ {ℓ} {A : Type ℓ} where
  -- The specification: a queue that drops its oldest element to hold no more than `max`.
  abbrev pub push : ℕ → List A → A → List A
  push max queue x = (if ltb (length queue) max then queue else drop 1 queue) ++ x ∷ []

  drop-set : (xs : List A) (i : ℕ) (v : A) → drop (suc i) (set xs i v) ≡ drop (suc i) xs
  drop-set [] i v = refl
  drop-set (x ∷ xs) zero v = refl
  drop-set (x ∷ xs) (suc i) v = drop-set xs i v

  take-set :
      (xs : List A) (i : ℕ) (v : A)
      → i < length xs
      → take (suc i) (set xs i v) ≡ take i xs ++ v ∷ []
  take-set [] i v h = elim h [ ]
  take-set (x ∷ xs) zero v h = refl
  take-set (x ∷ xs) (suc i) v h = ap (◌∷◌ x) (take-set xs i v (omega arith))

  drop_tail :
      (xs ys : List A) (i : ℕ) → i < length xs → drop 1 (drop i xs ++ ys) ≡ drop (suc i) xs ++ ys
  drop_tail [] ys i h = elim h [ ]
  drop_tail (x ∷ xs) ys zero h = refl
  drop_tail (x ∷ xs) ys (suc i) h = drop_tail xs ys i (omega arith)

  pub drop_of_ge : (n : ℕ) (xs : List A) → length xs ≤ n → drop n xs ≡ []
  drop_of_ge zero [] h = refl
  drop_of_ge zero (x ∷ xs) h = absurd (omega arith)
  drop_of_ge (suc n) [] h = refl
  drop_of_ge (suc n) (x ∷ xs) h = drop_of_ge n xs (omega arith)

  pub get_elem?-append_last : (xs : List A) (v : A) → get_elem? (xs ++ v ∷ []) (length xs) ≡ some v
  get_elem?-append_last [] v = refl
  get_elem?-append_last (x ∷ xs) v = get_elem?-append_last xs v

  pub get_elem?-set :
      (xs : List A) (i : ℕ) (v : A) → i < length xs → get_elem? (set xs i v) i ≡ some v
  get_elem?-set [] i v h = elim h [ ]
  get_elem?-set (x ∷ xs) zero v h = refl
  get_elem?-set (x ∷ xs) (suc i) v h = get_elem?-set xs i v (omega arith)

  pub copy_onto-all : (dst src : List A) → length dst ≡ length src → copy_onto dst src ≡ src
  copy_onto-all [] [] h = refl
  copy_onto-all [] (y ∷ src) h = absurd (omega arith)
  copy_onto-all (x ∷ dst) [] h = absurd (omega arith)
  copy_onto-all (x ∷ dst) (y ∷ src) h = ap (◌∷◌ y) (copy_onto-all dst src (omega arith))

module _ {ℓ} {A : Type ℓ} where
  pub take-copy_onto :
      (dst src : List A) (n : ℕ)
      → n ≡ length src
      → n ≤ length dst
      → take n (copy_onto dst src) ≡ src
  take-copy_onto dst [] zero e h = refl
  take-copy_onto dst [] (suc n) e h = absurd (omega arith)
  take-copy_onto dst (y ∷ src) zero e h = absurd (omega arith)
  take-copy_onto [] (y ∷ src) (suc n) e h = absurd (omega arith)
  take-copy_onto (x ∷ dst) (y ∷ src) (suc n) e h =
      ap (◌∷◌ y) (take-copy_onto dst src n (omega arith) (omega arith))

  length-copy_onto : (dst src : List A) → length (copy_onto dst src) ≡ length dst
  length-copy_onto [] src = refl
  length-copy_onto (x ∷ dst) [] = refl
  length-copy_onto (x ∷ dst) (y ∷ src) = ap suc (length-copy_onto dst src)

  pub length-drop-copy_onto :
      (dst src : List A) (n : ℕ) → length (drop n (copy_onto dst src)) ≡ length dst - n
  length-drop-copy_onto dst src n =
      omega (arith, length-drop n (copy_onto dst src), length-copy_onto dst src)

-- The position behind `i` in a ring of `m`.
pub next_index :
    (i m : ℕ) → i < m → (((i + 1) % m ≡ i + 1) × (i + 1 < m)) ⊎ (((i + 1) % m ≡ 0) × (i + 1 ≡ m))
next_index i m h = elim (dec_lt (i + 1) m) [
  | yes p ↦ inl (mod-eq_of_lt p, p)
  | no p ↦ let e : i + 1 ≡ m = omega arith in inr (rw e (mod_self m), e)
]

-- What holds of the ring between two events.
pub record WellFormed {P : Type 0} (b : Broadcaster P) : Type 0 where
  pub has_capacity : 0 < b.max_history
  pub within_capacity : length b.ring ≤ b.max_history
  pub counts : b.count ≡ length b.ring
  pub head_in_range : b.head < b.max_history
  pub head_at_end : length b.ring < b.max_history → b.head ≡ length b.ring

-- The events that the ring holds, oldest first.
abbrev pub contents : {P : Type 0} → Broadcaster P → List (TelemetryEvent P)
contents b =
    if ltb (length b.ring) b.max_history then b.ring else drop b.head b.ring ++ take b.head b.ring

module _ {P : Type 0} where
  pub new_broadcaster-WellFormed : WellFormed (new_broadcaster {P = P})
  unfolding new_broadcaster
  new_broadcaster-WellFormed = omega arith

  -- One event more: where the ring is filling up, and where it is full.
  unfoldable pub append_event : TelemetryEvent P → Broadcaster P → Broadcaster P
  append_event e b = record b {
    ring = b.ring ++ e ∷ [];
    count = b.count + 1;
    head = (b.head + 1) % b.max_history;
  }

  unfoldable pub overwrite_event : TelemetryEvent P → Broadcaster P → Broadcaster P
  overwrite_event e b = record b { ring = set b.ring b.head e; head = (b.head + 1) % b.max_history }

  pub store_event-filling :
      (e : TelemetryEvent P) (b : Broadcaster P)
      → length b.ring < b.max_history
      → store_event e b ≡ some (append_event e b)
  unfolding store_event append_event
  store_event-filling e b h = ground arith

  pub store_event-full :
      (e : TelemetryEvent P) (b : Broadcaster P)
      → WellFormed b
      → b.max_history ≤ length b.ring
      → store_event e b ≡ some (overwrite_event e b)
  unfolding store_event overwrite_event
  store_event-full e b w h = ground arith

  pub append_event-WellFormed :
      (e : TelemetryEvent P) (b : Broadcaster P)
      → WellFormed b
      → length b.ring < b.max_history
      → WellFormed (append_event e b)
  unfolding append_event
  append_event-WellFormed e b w h = elim (next_index b.head b.max_history w.head_in_range) [
    | inl (n, l) ↦ record {
      has_capacity = w.has_capacity;
      within_capacity = omega (arith, length-append b.ring (e ∷ []));
      counts = omega (arith, length-append b.ring (e ∷ []), w.counts);
      head_in_range = omega (arith, n, l);
      head_at_end = λ k. omega (arith, n, w.head_at_end h, length-append b.ring (e ∷ []));
    }
    | inr (n, l) ↦ record {
      has_capacity = w.has_capacity;
      within_capacity = omega (arith, length-append b.ring (e ∷ []));
      counts = omega (arith, length-append b.ring (e ∷ []), w.counts);
      head_in_range = omega (arith, n, w.has_capacity);
      head_at_end =
          λ k. absurd (omega (arith, l, k, w.head_at_end h, length-append b.ring (e ∷ [])));
    }
  ]

  pub overwrite_event-WellFormed :
      (e : TelemetryEvent P) (b : Broadcaster P)
      → WellFormed b
      → b.max_history ≤ length b.ring
      → WellFormed (overwrite_event e b)
  unfolding overwrite_event
  overwrite_event-WellFormed e b w h = record {
    has_capacity = w.has_capacity;
    within_capacity = omega (arith, length-set b.ring b.head e, w.within_capacity);
    counts = w.counts ∙ sym (length-set b.ring b.head e);
    head_in_range = mod-lt (b.head + 1) w.has_capacity;
    head_at_end = λ k. absurd (omega (arith, k, h, length-set b.ring b.head e));
  }

  pub contents-filling : (b : Broadcaster P) → length b.ring < b.max_history → contents b ≡ b.ring
  contents-filling b h = ground arith

  pub contents-full :
      (b : Broadcaster P)
      → b.max_history ≤ length b.ring
      → contents b ≡ drop b.head b.ring ++ take b.head b.ring
  contents-full b h = ground arith

  -- A ring that has just become full, or gone round, starts at 0.
  contents-at_zero :
      (b : Broadcaster P) → b.max_history ≤ length b.ring → b.head ≡ 0 → contents b ≡ b.ring
  contents-at_zero b h e = contents-full b h ∙ rw e (append-nil b.ring)

  pub contents-append_event :
      (e : TelemetryEvent P) (b : Broadcaster P)
      → WellFormed b
      → length b.ring < b.max_history
      → contents (append_event e b) ≡ b.ring ++ e ∷ []
  unfolding append_event
  contents-append_event e b w h = elim (next_index b.head b.max_history w.head_in_range) [
    | inl (n, l) ↦
        contents-filling (append_event e b)
          (omega (arith, l, w.head_at_end h, length-append b.ring (e ∷ [])))
    | inr (n, l) ↦
        contents-at_zero (append_event e b)
          (omega (arith, l, w.head_at_end h, length-append b.ring (e ∷ []))) n
  ]

  pub length-contents-full :
      (b : Broadcaster P)
      → WellFormed b
      → b.max_history ≤ length b.ring
      → length (contents b) ≡ b.max_history
  length-contents-full b w h = rw (contents-full b h) (
      omega (
        arith,
        length-append (drop b.head b.ring) (take b.head b.ring),
        length-drop b.head b.ring,
        length-take b.head b.ring,
        w.within_capacity,
        w.head_in_range,
      ))

  -- The written ring, split behind the written event.
  overwrite_split :
      (e : TelemetryEvent P) (b : Broadcaster P)
      → b.head < length b.ring
      → drop (suc b.head) (set b.ring b.head e) ++ take (suc b.head) (set b.ring b.head e)
        ≡ drop 1 (drop b.head b.ring ++ take b.head b.ring) ++ e ∷ []
  overwrite_split e b h =
      rw
        (
          drop-set b.ring b.head e,
          take-set b.ring b.head e h,
          drop_tail b.ring (take b.head b.ring) b.head h,
        )
        (sym (append_assoc (drop (suc b.head) b.ring) (take b.head b.ring) (e ∷ [])))

  -- Where the written event is the last of the ring, the split changes nothing.
  split_at_end :
      (xs : List (TelemetryEvent P)) (n : ℕ) → length xs ≤ n → drop n xs ++ take n xs ≡ xs
  split_at_end xs n h =
      let e = take-append-drop n xs in
      let gone = drop_of_ge n xs h in rw gone (sym (append-nil (take n xs)) ∙ rw gone at e)

  pub contents-overwrite_event :
      (e : TelemetryEvent P) (b : Broadcaster P)
      → WellFormed b
      → b.max_history ≤ length b.ring
      → contents (overwrite_event e b) ≡ drop 1 (contents b) ++ e ∷ []
  unfolding overwrite_event
  contents-overwrite_event e b w h =
      let ring' = set b.ring b.head e in
      let inside : b.head < length b.ring = omega (arith, w.head_in_range) in
      let full : b.max_history ≤ length ring' = omega (arith, length-set b.ring b.head e) in
      rw (contents-full b h) (elim (next_index b.head b.max_history w.head_in_range) [
        | inl (n, l) ↦
            let n' : (b.head + 1) % b.max_history ≡ suc b.head = omega (arith, n) in
            contents-full (overwrite_event e b) full ∙ rw n' (overwrite_split e b inside)
        | inr (n, l) ↦
            contents-at_zero (overwrite_event e b) full n
            ∙ sym (
                split_at_end ring' (suc b.head)
                  (omega (arith, l, w.within_capacity, length-set b.ring b.head e)))
            ∙ overwrite_split e b inside
      ])
