-- ===== src/Web/Sessions/Eviction.antt =====
-- Calls on `SessionStore` of pkg/web/server.go at a running clock, and what a full store evicts.
use ctop.Prelude.{
  ℕ, ◌≤◌, ◌≡◌, refl, ◌∙◌, true, false, List, [], ◌∷◌, Option, none, some, arith, leb, if◌then◌else◌,
  length, Bool-cases, inl, inr,
}
use ctop.Prelude.Int.{ℤ}
use ctop.Prelude.Texts.{Text, text_eq, text_eq_iff, text_eq_self}
use ctop.Prelude.Assoc.{mem, Distinct, lookup, insert, delete, keys, remove_first, lookup-some}
use ctop.Web.Sessions.{
  Session, SessionStore, new_session_store, remove_locked, cleanup_entries, evict_oldest,
  evict_head, add_session, create_session, validate_found, validate_session, revoke_session,
  set_idle_ttl, is_expired,
}
use ctop.Web.Sessions.WellFormed.{
  WellFormed, remove_locked-WellFormed, cleanup_entries-WellFormed, evict_oldest-WellFormed,
  cleanup_entries-Shrinks, evict_oldest-Shrinks, new-WellFormed,
}
use ctop.Web.Sessions.Steps.{create, validate, revoke, set_idle, Step-WellFormed}
use ctop.Web.Sessions.Recency.{
  seen, seen-insert, seen-delete, Recent, Recent-weaken, Recent-agree, agree_off, Recent-remove,
  Recent-concat, touch-remove, IsRecent,
}

seen-delete_off :
    (id j : Text) (m : List (Text × Session))
    → text_eq id j ≡ false
    → seen (delete id m) j ≡ seen m j
seen-delete_off id j m h = ground (arith, seen-delete id j m)

remove_locked-IsRecent :
    (id : Text) (now : ℕ) (s : SessionStore)
    → WellFormed s
    → IsRecent now s
    → IsRecent now (remove_locked id s)
unfolding remove_locked
remove_locked-IsRecent id now s w r =
    Recent-remove s.sessions (delete id s.sessions) id 0 now s.order
      (λ j. seen-delete_off id j s.sessions) w.order_distinct r

cleanup_entries-IsRecent :
    (now : ℕ) (entries : List (Text × Session)) (s : SessionStore)
    → WellFormed s
    → IsRecent now s
    → IsRecent now (cleanup_entries now entries s)
unfolding cleanup_entries
cleanup_entries-IsRecent now [] s w r = r
cleanup_entries-IsRecent now ((id, sess) ∷ rest) s w r =
    elim (is_expired s now sess)
      as (λ b. IsRecent now (cleanup_entries now rest (if b then remove_locked id s else s))) [
        | true ↦
            cleanup_entries-IsRecent now rest (remove_locked id s) (remove_locked-WellFormed id s w)
              (remove_locked-IsRecent id now s w r)
        | false ↦ cleanup_entries-IsRecent now rest s w r
      ]

evict_head-IsRecent :
    (now : ℕ) (s : SessionStore) (order : List Text)
    → Distinct order
    → Recent s.sessions 0 now order
    → IsRecent now s
    → IsRecent now (evict_head order s)
unfolding evict_head
evict_head-IsRecent now s [] d r whole = whole
evict_head-IsRecent now s (oldest ∷ rest) d r whole =
    Recent-agree s.sessions (delete oldest s.sessions) 0 now rest
      (agree_off s.sessions _ oldest rest (λ j. seen-delete_off oldest j s.sessions) d.0)
      (Recent-weaken s.sessions (seen s.sessions oldest) 0 now now rest (omega arith) (omega arith)
        r.1)

evict_oldest-IsRecent :
    (now : ℕ) (s : SessionStore) → WellFormed s → IsRecent now s → IsRecent now (evict_oldest s)
unfolding evict_oldest
evict_oldest-IsRecent now s w r = elim (Bool-cases (leb s.max_sessions (length s.sessions))) [
  | inl e ↦ rw e (evict_head-IsRecent now s s.order w.order_distinct r r)
  | inr e ↦ rw e r
]

seen-insert_off :
    (id j : Text) (sess : Session) (m : List (Text × Session))
    → text_eq id j ≡ false
    → seen (insert id sess m) j ≡ seen m j
seen-insert_off id j sess m h = ground (arith, seen-insert id j sess m)

seen-insert_self :
    (id : Text) (sess : Session) (m : List (Text × Session))
    → seen (insert id sess m) id ≡ sess.last_seen
seen-insert_self id sess m = ground (arith, seen-insert id id sess m, text_eq_self id)

add_session-IsRecent :
    (id : Text) (now : ℕ) (s : SessionStore)
    → mem id s.order ≡ false
    → IsRecent now s
    → IsRecent now (add_session id now s)
add_session-IsRecent id now s fresh r =
    let sess : Session = record { id = id; created_at = now; last_seen = now } in
    let m' = insert id sess s.sessions in
    Recent-concat m' id 0 now s.order (seen-insert_self id sess s.sessions) (
      Recent-agree s.sessions m' 0 now s.order
        (agree_off s.sessions m' id s.order (λ j. seen-insert_off id j sess s.sessions) fresh) r)

create_session-IsRecent :
    (id : Text) (now : ℕ) (s : SessionStore)
    → WellFormed s
    → mem id (keys s.sessions) ≡ false
    → IsRecent now s
    → IsRecent now (create_session (some id) now s).0
unfolding create_session
create_session-IsRecent id now s w fresh r =
    let t = cleanup_entries now s.sessions s in
    let tw = cleanup_entries-WellFormed now s.sessions s w in
    let u = evict_oldest t in
    let uw = evict_oldest-WellFormed t tw in
    let absent =
      (evict_oldest-Shrinks t).no_new id
        ((cleanup_entries-Shrinks now s.sessions s).no_new id fresh) in
    add_session-IsRecent id now u (uw.same_ids id ∙ absent)
      (evict_oldest-IsRecent now t tw (cleanup_entries-IsRecent now s.sessions s w r))

validate_found-IsRecent :
    (id : Text) (now : ℕ) (s : SessionStore) (found : Option Session)
    → lookup id s.sessions ≡ found
    → WellFormed s
    → IsRecent now s
    → IsRecent now (validate_found id now s found).0
unfolding validate_found
validate_found-IsRecent id now s none e w r = r
validate_found-IsRecent id now s (some sess) e w r = elim (Bool-cases (is_expired s now sess)) [
  | inl old ↦ rw old (remove_locked-IsRecent id now s w r)
  | inr new ↦ rw new (
      let fresh = record sess { last_seen = now } in
      let m' = insert id fresh s.sessions in
      rw (touch-remove id s.order (w.same_ids id ∙ lookup-some id s.sessions e)) (
        Recent-concat m' id 0 now (remove_first id s.order) (seen-insert_self id fresh s.sessions) (
          Recent-remove s.sessions m' id 0 now s.order (λ j. seen-insert_off id j fresh s.sessions)
            w.order_distinct r)))
]

validate_session-IsRecent :
    (id : Text) (now : ℕ) (s : SessionStore)
    → WellFormed s
    → IsRecent now s
    → IsRecent now (validate_session id now s).0
unfolding validate_session
validate_session-IsRecent [] now s w r = r
validate_session-IsRecent (c ∷ cs) now s w r =
    validate_found-IsRecent (c ∷ cs) now s (lookup (c ∷ cs) s.sessions) refl w r

revoke_session-IsRecent :
    (id : Text) (now : ℕ) (s : SessionStore)
    → WellFormed s
    → IsRecent now s
    → IsRecent now (revoke_session id s)
unfolding revoke_session
revoke_session-IsRecent [] now s w r = r
revoke_session-IsRecent (c ∷ cs) now s w r = remove_locked-IsRecent (c ∷ cs) now s w r

-- Calls on a store, each at a reading of the clock that is not before the last.
pub data Timed (s : SessionStore) : ℕ → SessionStore → Type 0 where
  start : {now : ℕ} → Timed s now s
  wait : {now later : ℕ} {t : SessionStore} → Timed s now t → now ≤ later → Timed s later t
  creates :
      {now : ℕ} {t : SessionStore} (id : Text)
      → Timed s now t
      → mem id (keys t.sessions) ≡ false
      → Timed s now (create_session (some id) now t).0
  validates :
      {now : ℕ} {t : SessionStore} (id : Text)
      → Timed s now t
      → Timed s now (validate_session id now t).0
  revokes :
      {now : ℕ} {t : SessionStore} (id : Text) → Timed s now t → Timed s now (revoke_session id t)
  sets_idle : {now : ℕ} {t : SessionStore} (d : ℤ) → Timed s now t → Timed s now (set_idle_ttl d t)

Timed-WellFormed : {s t : SessionStore} {now : ℕ} → WellFormed s → Timed s now t → WellFormed t
Timed-WellFormed w start = w
Timed-WellFormed w (wait r h) = Timed-WellFormed w r
Timed-WellFormed w (creates {now} id r f) = Step-WellFormed (create id now f) (Timed-WellFormed w r)
Timed-WellFormed w (validates {now} id r) = Step-WellFormed (validate id now) (Timed-WellFormed w r)
Timed-WellFormed w (revokes id r) = Step-WellFormed (revoke id) (Timed-WellFormed w r)
Timed-WellFormed w (sets_idle d r) = Step-WellFormed (set_idle d) (Timed-WellFormed w r)

Timed_IsRecent :
    {s t : SessionStore} {now : ℕ} → WellFormed s → s.order ≡ [] → Timed s now t → IsRecent now t
unfolding set_idle_ttl
Timed_IsRecent w e start = rw e (omega arith)
Timed_IsRecent w e (wait {now} {later} {t} r h) =
    Recent-weaken t.sessions 0 0 now later t.order (omega arith) h (Timed_IsRecent w e r)
Timed_IsRecent w e (creates {now} {t} id r f) =
    create_session-IsRecent id now t (Timed-WellFormed w r) f (Timed_IsRecent w e r)
Timed_IsRecent w e (validates {now} {t} id r) =
    validate_session-IsRecent id now t (Timed-WellFormed w r) (Timed_IsRecent w e r)
Timed_IsRecent w e (revokes {now} {t} id r) =
    revoke_session-IsRecent id now t (Timed-WellFormed w r) (Timed_IsRecent w e r)
Timed_IsRecent w e (sets_idle d r) = Timed_IsRecent w e r

Recent-first-le :
    (m : List (Text × Session)) (b now : ℕ) (xs : List Text) (j : Text)
    → mem j xs ≡ true
    → Recent m b now xs
    → b ≤ seen m j
unfolding mem
Recent-first-le m b now [] j h r = ground arith
Recent-first-le m b now (x ∷ xs) j h r =
    ground (arith, text_eq_iff x j, Recent-first-le m (seen m x) now xs j)

evict_oldest-first :
    (s : SessionStore) (oldest : Text) (rest : List Text)
    → s.order ≡ oldest ∷ rest
    → s.max_sessions ≤ length s.sessions
    → (evict_oldest s).sessions ≡ delete oldest s.sessions
unfolding evict_oldest
evict_oldest-first s oldest rest e full = ground arith

-- Take any store reached from a new one by calls at a clock that does not go back. Where it is full
-- it takes out, to make room, the session whose identifier stands first in its order, and no
-- session in the store was last used before that one.
pub evict_oldest-least_recent :
    (max_capacity absolute idle : ℤ) {now : ℕ} {s : SessionStore} (oldest : Text) (rest : List Text)
    → Timed (new_session_store max_capacity absolute idle) now s
    → s.order ≡ oldest ∷ rest
    → s.max_sessions ≤ length s.sessions
    → ((evict_oldest s).sessions ≡ delete oldest s.sessions)
      × ((j : Text) → mem j (keys s.sessions) ≡ true → seen s.sessions oldest ≤ seen s.sessions j)
unfolding mem
evict_oldest-least_recent m a i {now} {s} oldest rest run e full =
    let w0 = new-WellFormed m a i in
    let w = Timed-WellFormed w0 run in
    let r : Recent s.sessions 0 now (oldest ∷ rest) =
      rw e at (Timed_IsRecent w0 (unfold new_session_store in refl) run) in
    (
      evict_oldest-first s oldest rest e full,
      λ j h. ground (
        arith,
        w.same_ids j,
        e,
        text_eq_iff oldest j,
        Recent-first-le s.sessions (seen s.sessions oldest) now rest j,
        r.1,
      ),
    )
