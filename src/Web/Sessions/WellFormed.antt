-- ===== src/Web/Sessions/WellFormed.antt =====
-- The invariant of `SessionStore` of pkg/web/server.go: the map and the order hold the same
-- identifiers, each once, and no more than the capacity.
use ctop.Prelude.{
  ℕ, ◌≤◌, ◌<◌, ◌≡◌, refl, ◌∙◌, false, List, [], ◌∷◌, Option, none, some, arith, leb, length,
  Bool-cases, inl, inr,
}
use ctop.Prelude.Int.{ℤ, pos, negsuc}
use ctop.Prelude.Texts.{Text, text_eq_iff, text_eq_self}
use ctop.Prelude.Assoc.{
  mem, Distinct, lookup, keys, mem-append, mem-remove_first, Distinct-remove_first, Distinct-concat,
  mem-insert, mem-delete, Distinct-insert, Distinct-delete, length-insert, length-delete_le,
  length-delete_lt, lookup-some,
}
use ctop.Web.Sessions.{
  Session, SessionStore, new_session_store, remove_locked, touch_order_locked, cleanup_entries,
  evict_oldest, evict_head, add_session, create_session, validate_found, validate_session,
  revoke_session, is_expired,
}

pub record WellFormed (s : SessionStore) : Type 0 where
  pub keys_distinct : Distinct (keys s.sessions)
  pub order_distinct : Distinct s.order
  pub same_ids : (id : Text) → mem id s.order ≡ mem id (keys s.sessions)
  pub has_capacity : 0 < s.max_sessions
  pub within_capacity : length s.sessions ≤ s.max_sessions

pub new-WellFormed : (m : ℤ) (a i : ℤ) → WellFormed (new_session_store m a i)
unfolding new_session_store mem
new-WellFormed (pos n) a i = record {
  keys_distinct = tt;
  order_distinct = tt;
  same_ids = λ id. refl;
  has_capacity = ground arith;
  within_capacity = ground arith;
}
new-WellFormed (negsuc n) a i = record {
  keys_distinct = tt;
  order_distinct = tt;
  same_ids = λ id. refl;
  has_capacity = omega arith;
  within_capacity = omega arith;
}

pub remove_locked-WellFormed :
    (id : Text) (s : SessionStore) → WellFormed s → WellFormed (remove_locked id s)
unfolding remove_locked
remove_locked-WellFormed id s w = record {
  keys_distinct = Distinct-delete id s.sessions w.keys_distinct;
  order_distinct = Distinct-remove_first id s.order w.order_distinct;
  same_ids = λ j. ground (
    arith,
    mem-remove_first id j s.order w.order_distinct,
    mem-delete id j s.sessions,
    w.same_ids j,
  );
  has_capacity = w.has_capacity;
  within_capacity = omega (arith, length-delete_le id s.sessions, w.within_capacity);
}

pub cleanup_entries-WellFormed :
    (now : ℕ) (entries : List (Text × Session)) (s : SessionStore)
    → WellFormed s
    → WellFormed (cleanup_entries now entries s)
unfolding cleanup_entries
cleanup_entries-WellFormed now [] s w = w
cleanup_entries-WellFormed now ((id, sess) ∷ rest) s w = elim (Bool-cases (is_expired s now sess)) [
  | inl e ↦
      rw e
        (cleanup_entries-WellFormed now rest (remove_locked id s) (remove_locked-WellFormed id s w))
  | inr e ↦ rw e (cleanup_entries-WellFormed now rest s w)
]

pub evict_oldest-WellFormed : (s : SessionStore) → WellFormed s → WellFormed (evict_oldest s)
unfolding evict_oldest mem
evict_oldest-WellFormed s w = elim (Bool-cases (leb s.max_sessions (length s.sessions))) [
  | inl e ↦ rw e (go s.order refl)
  | inr e ↦ rw e w
]
  where
    go : (order : List Text) → s.order ≡ order → WellFormed (evict_head order s)
    go [] e = w
    go (id ∷ rest) e = record {
      keys_distinct = Distinct-delete id s.sessions w.keys_distinct;
      order_distinct = (rw e at w.order_distinct).1;
      same_ids = λ j. ground (
        arith,
        (rw e at w.order_distinct).0,
        mem-delete id j s.sessions,
        w.same_ids j,
        text_eq_iff id j,
        e,
      );
      has_capacity = w.has_capacity;
      within_capacity = omega (arith, length-delete_le id s.sessions, w.within_capacity);
    }

-- After the eviction there is room for one more.
evict_oldest-has_room :
    (s : SessionStore) → WellFormed s → length (evict_oldest s).sessions < s.max_sessions
unfolding evict_oldest mem
evict_oldest-has_room s w = elim (Bool-cases (leb s.max_sessions (length s.sessions))) [
  | inl e ↦ rw e (go s.order s.sessions refl refl)
  | inr e ↦ rw e (ground arith)
]
  where
    go :
        (order : List Text) (m : List (Text × Session))
        → s.order ≡ order
        → s.sessions ≡ m
        → length (evict_head order s).sessions < s.max_sessions
    go [] [] e f = ground (arith, w.has_capacity)
    go [] ((id, sess) ∷ m) e f = ground (arith, w.same_ids id, text_eq_self id)
    go (id ∷ rest) m e f =
        ground
          (arith, length-delete_lt id s.sessions, w.same_ids id, text_eq_self id, w.within_capacity)

-- Cleaning up and evicting keep the limits, and add no identifier.
pub record Shrinks (s t : SessionStore) : Type 0 where
  pub same_max : t.max_sessions ≡ s.max_sessions
  pub no_new : (id : Text) → mem id (keys s.sessions) ≡ false → mem id (keys t.sessions) ≡ false

Shrinks-trans : {s t u : SessionStore} → Shrinks s t → Shrinks t u → Shrinks s u
Shrinks-trans p q = record {
  same_max = q.same_max ∙ p.same_max;
  no_new = λ id h. q.no_new id (p.no_new id h);
}

remove_locked-Shrinks : (id : Text) (s : SessionStore) → Shrinks s (remove_locked id s)
unfolding remove_locked
remove_locked-Shrinks id s = record {
  same_max = refl;
  no_new = λ j h. ground (arith, mem-delete id j s.sessions);
}

pub cleanup_entries-Shrinks :
    (now : ℕ) (entries : List (Text × Session)) (s : SessionStore)
    → Shrinks s (cleanup_entries now entries s)
unfolding cleanup_entries
cleanup_entries-Shrinks now [] s = record { same_max = refl; no_new = λ id h. h }
cleanup_entries-Shrinks now ((id, sess) ∷ rest) s = elim (Bool-cases (is_expired s now sess)) [
  | inl e ↦ rw e (
      Shrinks-trans (remove_locked-Shrinks id s)
        (cleanup_entries-Shrinks now rest (remove_locked id s)))
  | inr e ↦ rw e (cleanup_entries-Shrinks now rest s)
]

evict_head-Shrinks : (order : List Text) (s : SessionStore) → Shrinks s (evict_head order s)
unfolding evict_head
evict_head-Shrinks [] s = record { same_max = refl; no_new = λ id h. h }
evict_head-Shrinks (oldest ∷ rest) s = record {
  same_max = refl;
  no_new = λ j h. ground (arith, mem-delete oldest j s.sessions);
}

pub evict_oldest-Shrinks : (s : SessionStore) → Shrinks s (evict_oldest s)
unfolding evict_oldest
evict_oldest-Shrinks s = elim (Bool-cases (leb s.max_sessions (length s.sessions))) [
  | inl e ↦ rw e (evict_head-Shrinks s.order s)
  | inr e ↦ rw e (record { same_max = refl; no_new = λ id h. h })
]

add_session-WellFormed :
    (id : Text) (now : ℕ) (s : SessionStore)
    → WellFormed s
    → mem id (keys s.sessions) ≡ false
    → length s.sessions < s.max_sessions
    → WellFormed (add_session id now s)
unfolding mem
add_session-WellFormed id now s w fresh room = record {
  keys_distinct = Distinct-insert id _ s.sessions w.keys_distinct;
  order_distinct = Distinct-concat id s.order w.order_distinct (w.same_ids id ∙ fresh);
  same_ids = λ j. ground (
    arith,
    mem-append j s.order (id ∷ []),
    mem-insert id j (record { id = id; created_at = now; last_seen = now }) s.sessions,
    w.same_ids j,
  );
  has_capacity = w.has_capacity;
  within_capacity =
      ground (
        arith,
        length-insert id (record { id = id; created_at = now; last_seen = now }) s.sessions,
      );
}

pub create_session-WellFormed :
    (id : Text) (now : ℕ) (s : SessionStore)
    → WellFormed s
    → mem id (keys s.sessions) ≡ false
    → WellFormed (create_session (some id) now s).0
unfolding create_session
create_session-WellFormed id now s w fresh =
    let cleaned = cleanup_entries-WellFormed now s.sessions s w in
    let shrunk = cleanup_entries-Shrinks now s.sessions s in
    let t = cleanup_entries now s.sessions s in
    let gone = evict_oldest-Shrinks t in
    add_session-WellFormed id now (evict_oldest t) (evict_oldest-WellFormed t cleaned)
      (gone.no_new id (shrunk.no_new id fresh)) (rw gone.same_max (evict_oldest-has_room t cleaned))

mem-touch : (id j : Text) (xs : List Text) → mem j (touch_order_locked id xs) ≡ mem j xs
unfolding mem touch_order_locked
mem-touch id j [] = refl
mem-touch id j (x ∷ xs) = ground (
  arith,
  mem-touch id j xs,
  mem-append j xs (id ∷ []),
  text_eq_iff x id,
  text_eq_iff x j,
  text_eq_iff id j,
)

Distinct-touch : (id : Text) (xs : List Text) → Distinct xs → Distinct (touch_order_locked id xs)
unfolding mem touch_order_locked
Distinct-touch id [] d = tt
Distinct-touch id (x ∷ xs) d = ground (
  arith,
  Distinct-touch id xs d.1,
  mem-touch id x xs,
  Distinct-concat id xs d.1,
  text_eq_iff x id,
)

validate_found-WellFormed :
    (id : Text) (now : ℕ) (s : SessionStore) (found : Option Session)
    → lookup id s.sessions ≡ found
    → WellFormed s
    → WellFormed (validate_found id now s found).0
unfolding validate_found
validate_found-WellFormed id now s none e w = w
validate_found-WellFormed id now s (some sess) e w = elim (Bool-cases (is_expired s now sess)) [
  | inl old ↦ rw old (remove_locked-WellFormed id s w)
  | inr new ↦ rw new (record {
    keys_distinct = Distinct-insert id _ s.sessions w.keys_distinct;
    order_distinct = Distinct-touch id s.order w.order_distinct;
    same_ids = λ j. ground (
      arith,
      mem-touch id j s.order,
      mem-insert id j (record sess { last_seen = now }) s.sessions,
      w.same_ids j,
      lookup-some id s.sessions e,
      text_eq_iff id j,
    );
    has_capacity = w.has_capacity;
    within_capacity = ground (
      arith,
      length-insert id (record sess { last_seen = now }) s.sessions,
      lookup-some id s.sessions e,
      w.within_capacity,
    );
  })
]

pub validate_session-WellFormed :
    (id : Text) (now : ℕ) (s : SessionStore)
    → WellFormed s
    → WellFormed (validate_session id now s).0
unfolding validate_session
validate_session-WellFormed [] now s w = w
validate_session-WellFormed (c ∷ cs) now s w =
    validate_found-WellFormed (c ∷ cs) now s (lookup (c ∷ cs) s.sessions) refl w

pub revoke_session-WellFormed :
    (id : Text) (s : SessionStore) → WellFormed s → WellFormed (revoke_session id s)
unfolding revoke_session
revoke_session-WellFormed [] s w = w
revoke_session-WellFormed (c ∷ cs) s w = remove_locked-WellFormed (c ∷ cs) s w
