-- ===== src/Web/Sessions/Steps.antt =====
-- The calls on `SessionStore` of pkg/web/server.go as steps.
use ctop.Prelude.{ℕ, ◌≡◌, false, none, some}
use ctop.Prelude.Int.{ℤ}
use ctop.Prelude.Texts.{Text}
use ctop.Prelude.Assoc.{mem, keys}
use ctop.Web.Sessions.{
  SessionStore, new_session_store, create_session, validate_session, revoke_session, set_idle_ttl,
}
use ctop.Web.Sessions.WellFormed.{
  WellFormed, new-WellFormed, create_session-WellFormed, validate_session-WellFormed,
  revoke_session-WellFormed,
}

-- One call on the store. The identifiers of new sessions are fresh: they are 256 random bits.
pub data Step (s : SessionStore) : SessionStore → Type 0 where
  create :
      (id : Text) (now : ℕ)
      → mem id (keys s.sessions) ≡ false
      → Step s (create_session (some id) now s).0
  create_fails : (now : ℕ) → Step s (create_session none now s).0
  validate : (id : Text) (now : ℕ) → Step s (validate_session id now s).0
  revoke : (id : Text) → Step s (revoke_session id s)
  set_idle : (d : ℤ) → Step s (set_idle_ttl d s)

pub data Reach (s : SessionStore) : SessionStore → Type 0 where
  here : Reach s s
  next : {t u : SessionStore} → Reach s t → Step t u → Reach s u

pub Step-WellFormed : {s t : SessionStore} → Step s t → WellFormed s → WellFormed t
unfolding create_session set_idle_ttl
Step-WellFormed {s = s} (create id now fresh) w = create_session-WellFormed id now s w fresh
Step-WellFormed (create_fails now) w = w
Step-WellFormed {s = s} (validate id now) w = validate_session-WellFormed id now s w
Step-WellFormed {s = s} (revoke id) w = revoke_session-WellFormed id s w
Step-WellFormed (set_idle d) w = record {
  keys_distinct = w.keys_distinct;
  order_distinct = w.order_distinct;
  same_ids = w.same_ids;
  has_capacity = w.has_capacity;
  within_capacity = w.within_capacity;
}

Reach-WellFormed' : {s t : SessionStore} → WellFormed s → Reach s t → WellFormed t
Reach-WellFormed' w here = w
Reach-WellFormed' w (next r st) = Step-WellFormed st (Reach-WellFormed' w r)

-- Whatever calls are made on a new store, with fresh identifiers for new sessions, its map and its
-- order hold the same identifiers, each once, and it never holds more sessions than its capacity.
pub Reach-WellFormed :
    (max_capacity absolute idle : ℤ) {t : SessionStore}
    → Reach (new_session_store max_capacity absolute idle) t
    → WellFormed t
Reach-WellFormed m a i r = Reach-WellFormed' (new-WellFormed m a i) r
