-- ===== src/Web/Sessions/Validity.antt =====
-- Which sessions `SessionStore` of pkg/web/server.go accepts.
use ctop.Prelude.{ℕ, ◌<◌, ◌≡◌, ◌≢◌, refl, ◌∙◌, true, false, [], ◌∷◌, Option, none, some, arith}
use ctop.Prelude.Int.{pos, ◌<ℤ◌}
use ctop.Prelude.Texts.{Text, text_eq_self}
use ctop.Prelude.Assoc.{lookup, lookup-insert, lookup-delete}
use ctop.Web.Sessions.{
  Session, SessionStore, remove_locked, create_session, validate_found, validate_session,
  revoke_session, is_expired, is_session_valid, older_than, is_valid_found,
}

validate_found-is_valid_found :
    (id : Text) (now : ℕ) (s : SessionStore) (found : Option Session)
    → pos 0 <ℤ s.idle_ttl
    → (validate_found id now s found).1 ≡ is_valid_found now s found
unfolding validate_found
validate_found-is_valid_found id now s none h = refl
validate_found-is_valid_found id now s (some sess) h = ground arith

-- With a positive idle timeout, `ValidateSession` accepts an identifier exactly if `IsSessionValid`
-- does.
pub validate_session-is_session_valid :
    (id : Text) (now : ℕ) (s : SessionStore)
    → pos 0 <ℤ s.idle_ttl
    → (validate_session id now s).1 ≡ is_session_valid id now s
unfolding validate_session is_session_valid
validate_session-is_session_valid [] now s h = refl
validate_session-is_session_valid (c ∷ cs) now s h =
    validate_found-is_valid_found (c ∷ cs) now s (lookup (c ∷ cs) s.sessions) h

-- With the idle timeout set to 0, which is to disable it, `IsSessionValid` accepts every session
-- that is not past the absolute limit, and `ValidateSession` refuses every session as soon as the
-- clock has moved on from its last use, and takes it out of the store.
pub idle_disabled-refuses :
    (id : Text) (now : ℕ) (s : SessionStore) {sess : Session}
    → id ≢ []
    → lookup id s.sessions ≡ some sess
    → s.idle_ttl ≡ pos 0
    → older_than now sess.created_at s.absolute_ttl ≡ false
    → sess.last_seen < now
    → (is_session_valid id now s ≡ true)
      × ((validate_session id now s).1 ≡ false)
      × (lookup id (validate_session id now s).0.sessions ≡ none)
unfolding validate_session is_session_valid remove_locked
idle_disabled-refuses [] now s ne e i o l = absurd (ne refl)
idle_disabled-refuses (c ∷ cs) now s ne e i o l = (
  ground arith,
  ground arith,
  ground (arith, lookup-delete (c ∷ cs) (c ∷ cs) s.sessions, text_eq_self (c ∷ cs)),
)

validate_found-false :
    (id : Text) (now : ℕ) (s : SessionStore) (found : Option Session)
    → lookup id s.sessions ≡ found
    → (validate_found id now s found).1 ≡ false
    → lookup id (validate_found id now s found).0.sessions ≡ none
unfolding validate_found
validate_found-false id now s none e h = e
validate_found-false id now s (some sess) e h =
    ground (arith, lookup-delete id id s.sessions, text_eq_self id)

is_session_valid-absent :
    (id : Text) (now : ℕ) (s : SessionStore)
    → lookup id s.sessions ≡ none
    → is_session_valid id now s ≡ false
unfolding is_session_valid
is_session_valid-absent [] now s e = refl
is_session_valid-absent (c ∷ cs) now s e = rw e

-- An identifier that `ValidateSession` has refused once is not in the store afterwards, so both
-- checks refuse it at every later time, until a session of that name is created.
pub validate_session-refused_for_good :
    (id : Text) (now later : ℕ) (s : SessionStore)
    → (validate_session id now s).1 ≡ false
    → let t = (validate_session id now s).0 in
      (is_session_valid id later t ≡ false) × ((validate_session id later t).1 ≡ false)
unfolding validate_session
validate_session-refused_for_good [] now later s h = (unfold is_session_valid in refl, refl)
validate_session-refused_for_good (c ∷ cs) now later s h =
    let t = (validate_found (c ∷ cs) now s (lookup (c ∷ cs) s.sessions)).0 in
    let gone = validate_found-false (c ∷ cs) now s (lookup (c ∷ cs) s.sessions) refl h in
    (is_session_valid-absent (c ∷ cs) later t gone, rw gone (unfold validate_found in refl))

-- A revoked session is refused by both checks at every time.
pub revoke_session-refused :
    (id : Text) (now : ℕ) (s : SessionStore)
    → (is_session_valid id now (revoke_session id s) ≡ false)
      × ((validate_session id now (revoke_session id s)).1 ≡ false)
unfolding is_session_valid validate_session revoke_session
revoke_session-refused [] now s = (refl, refl)
revoke_session-refused (c ∷ cs) now s = (
  ground (arith, lookup-delete (c ∷ cs) (c ∷ cs) s.sessions, text_eq_self (c ∷ cs)),
  ground (arith, lookup-delete (c ∷ cs) (c ∷ cs) s.sessions, text_eq_self (c ∷ cs)),
)

-- What `ValidateSession` accepts is in the store and has not expired.
pub validate_session-true :
    (id : Text) (now : ℕ) (s : SessionStore)
    → (validate_session id now s).1 ≡ true
    → (sess : Session) × (lookup id s.sessions ≡ some sess) × (is_expired s now sess ≡ false)
unfolding validate_session
validate_session-true [] now s h = ground arith
validate_session-true (c ∷ cs) now s h = go (lookup (c ∷ cs) s.sessions) refl h
  where
    go :
        (found : Option Session)
        → lookup (c ∷ cs) s.sessions ≡ found
        → (validate_found (c ∷ cs) now s found).1 ≡ true
        → (sess : Session) × (lookup (c ∷ cs) s.sessions ≡ some sess)
          × (is_expired s now sess ≡ false)
    go none e k = ground arith
    go (some sess) e k = (sess, e, ground arith)

-- A session that is in the store and has not expired is accepted.
pub validate_session-accepts :
    (id : Text) (now : ℕ) (s : SessionStore) (sess : Session)
    → id ≢ []
    → lookup id s.sessions ≡ some sess
    → is_expired s now sess ≡ false
    → (validate_session id now s).1 ≡ true
unfolding validate_session
validate_session-accepts [] now s sess ne e h = absurd (ne refl)
validate_session-accepts (c ∷ cs) now s sess ne e h = ground arith

-- A session is in the store as soon as it is created.
pub lookup-create_session :
    (id : Text) (now : ℕ) (s : SessionStore)
    → lookup id (create_session (some id) now s).0.sessions
      ≡ some (record { id = id; created_at = now; last_seen = now })
unfolding create_session
lookup-create_session id now s = lookup-insert id id _ _ ∙ rw (text_eq_self id)
