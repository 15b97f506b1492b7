-- ===== src/Web/Sessions.antt =====
-- `SessionStore` of pkg/web/server.go. Times and durations are nanoseconds: a time is a reading of
-- the clock, a duration may be negative. The identifier that `GenerateSessionID` draws from
-- crypto/rand is an argument of `create_session`, `none` where the random source fails.
pub mod WellFormed
pub mod Steps
pub mod Validity
pub mod Recency
pub mod Eviction
use ctop.Prelude.{
  ℕ, suc, ◌+◌, ◌*◌, Bool, true, false, ◌||◌, ◌&&◌, List, [], ◌∷◌, ◌++◌, Option, none, some, ltb,
  leb, if◌then◌else◌, length,
}
use ctop.Prelude.Int.{ℤ, pos, negsuc, int_le, int_lt}
use ctop.Prelude.Texts.{Text, text_eq}
use ctop.Prelude.Assoc.{lookup, insert, delete, remove_first}

pub record Session : Type 0 where
  pub id : Text
  pub created_at : ℕ
  pub last_seen : ℕ

pub record SessionStore : Type 0 where
  pub sessions : List (Text × Session)
  pub order : List Text
  pub max_sessions : ℕ
  pub absolute_ttl : ℤ
  pub idle_ttl : ℤ

-- `max` is the capacity where that is positive, and 100 elsewhere.
abbrev capacity_or : ℤ → ℕ
capacity_or (pos n) = if ltb 0 n then n else 100
capacity_or (negsuc n) = 100

-- 24 hours and 30 minutes.
abbrev pub default_absolute_ttl : ℕ
default_absolute_ttl = 86400000000000

abbrev pub default_idle_ttl : ℕ
default_idle_ttl = 1800000000000

unfoldable pub new_session_store : ℤ → ℤ → ℤ → SessionStore
new_session_store max_capacity absolute_ttl idle_ttl = record {
  sessions = [];
  order = [];
  max_sessions = capacity_or max_capacity;
  absolute_ttl = if int_le absolute_ttl (pos 0) then pos default_absolute_ttl else absolute_ttl;
  idle_ttl = if int_le idle_ttl (pos 0) then pos default_idle_ttl else idle_ttl;
}

-- `now.Sub(t) > ttl`
abbrev pub older_than : ℕ → ℕ → ℤ → Bool
older_than now t (pos d) = ltb (t + d) now
older_than now t (negsuc d) = leb t (now + d)

abbrev pub is_expired : SessionStore → ℕ → Session → Bool
is_expired s now sess =
    older_than now sess.created_at s.absolute_ttl || older_than now sess.last_seen s.idle_ttl

unfoldable pub remove_locked : Text → SessionStore → SessionStore
remove_locked id s = record s { sessions = delete id s.sessions; order = remove_first id s.order }

-- Moves an identifier that is in the order to its end.
unfoldable pub touch_order_locked : Text → List Text → List Text
touch_order_locked id [] = []
touch_order_locked id (sid ∷ rest) =
    let touched = touch_order_locked id rest in
    if text_eq sid id then rest ++ id ∷ [] else sid ∷ touched

-- The loop over the map's entries, which the body may delete.
unfoldable pub cleanup_entries : ℕ → List (Text × Session) → SessionStore → SessionStore
unfolding remove_locked
cleanup_entries now [] s = s
cleanup_entries now ((id, sess) ∷ rest) s =
    cleanup_entries now rest (if is_expired s now sess then remove_locked id s else s)

unfoldable pub cleanup_expired_locked : ℕ → SessionStore → SessionStore
unfolding cleanup_entries
cleanup_expired_locked now s = cleanup_entries now s.sessions s

-- `s.order[0]` leaves the store if the store is full.
evict_head : List Text → SessionStore → SessionStore
evict_head [] s = s
evict_head (oldest ∷ rest) s = record s { sessions = delete oldest s.sessions; order = rest }

unfoldable pub evict_oldest : SessionStore → SessionStore
unfolding evict_head
evict_oldest s = if leb s.max_sessions (length s.sessions) then evict_head s.order s else s

abbrev pub add_session : Text → ℕ → SessionStore → SessionStore
add_session id now s = record s {
  sessions = insert id (record { id = id; created_at = now; last_seen = now }) s.sessions;
  order = s.order ++ id ∷ [];
}

unfoldable pub create_session : Option Text → ℕ → SessionStore → SessionStore × Option Text
unfolding cleanup_expired_locked evict_oldest
create_session none now s = (s, none)
create_session (some id) now s =
    (add_session id now (evict_oldest (cleanup_expired_locked now s)), some id)

validate_found : Text → ℕ → SessionStore → Option Session → SessionStore × Bool
unfolding remove_locked touch_order_locked
validate_found id now s none = (s, false)
validate_found id now s (some sess) =
    if is_expired s now sess then (remove_locked id s, false) else (
      record s {
        sessions = insert id (record sess { last_seen = now }) s.sessions;
        order = touch_order_locked id s.order;
      },
      true,
    )

unfoldable pub validate_session : Text → ℕ → SessionStore → SessionStore × Bool
unfolding validate_found
validate_session [] now s = (s, false)
validate_session (c ∷ cs) now s = validate_found (c ∷ cs) now s (lookup (c ∷ cs) s.sessions)

unfoldable pub revoke_session : Text → SessionStore → SessionStore
unfolding remove_locked
revoke_session [] s = s
revoke_session (c ∷ cs) s = remove_locked (c ∷ cs) s

unfoldable pub set_idle_ttl : ℤ → SessionStore → SessionStore
set_idle_ttl d s = record s { idle_ttl = d }

unfoldable pub count : SessionStore → ℕ
count s = length s.sessions

abbrev is_valid_found : ℕ → SessionStore → Option Session → Bool
is_valid_found now s none = false
is_valid_found now s (some sess) =
    if older_than now sess.created_at s.absolute_ttl
      || (int_lt (pos 0) s.idle_ttl && older_than now sess.last_seen s.idle_ttl)
    then false
    else true

unfoldable pub is_session_valid : Text → ℕ → SessionStore → Bool
is_session_valid [] now s = false
is_session_valid (c ∷ cs) now s = is_valid_found now s (lookup (c ∷ cs) s.sessions)
