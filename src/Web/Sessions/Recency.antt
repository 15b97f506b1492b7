-- ===== src/Web/Sessions/Recency.antt =====
-- What it means for the order of `SessionStore` of pkg/web/server.go to be that of last use.
use ctop.Prelude.{
  ℕ, ◌≤◌, ◌≡◌, true, false, List, [], ◌∷◌, ◌++◌, Option, none, some, arith, if◌then◌else◌,
  Bool-cases, inl, inr, All,
}
use ctop.Prelude.Texts.{Text, text_eq, text_eq_iff}
use ctop.Prelude.Assoc.{
  mem, Distinct, lookup, insert, delete, remove_first, lookup-insert, lookup-delete,
}
use ctop.Web.Sessions.{Session, SessionStore, touch_order_locked}

abbrev seen_in : Option Session → ℕ
seen_in none = 0
seen_in (some sess) = sess.last_seen

-- When the session of this identifier was last used.
unfoldable pub seen : List (Text × Session) → Text → ℕ
seen m id = seen_in (lookup id m)

pub seen-insert :
    (id j : Text) (sess : Session) (m : List (Text × Session))
    → seen (insert id sess m) j ≡ (if text_eq id j then sess.last_seen else seen m j)
unfolding seen
seen-insert id j sess m = ground (arith, lookup-insert id j sess m)

pub seen-delete :
    (id j : Text) (m : List (Text × Session))
    → seen (delete id m) j ≡ (if text_eq id j then 0 else seen m j)
unfolding seen
seen-delete id j m = ground (arith, lookup-delete id j m)

-- From `bound` on, in order of last use, and none later than `now`.
abbrev pub Recent : List (Text × Session) → ℕ → ℕ → List Text → Type 0
Recent m bound now [] = bound ≤ now
Recent m bound now (x ∷ xs) = (bound ≤ seen m x) × Recent m (seen m x) now xs

pub Recent-weaken :
    (m : List (Text × Session)) (b b' now now' : ℕ) (xs : List Text)
    → b' ≤ b
    → now ≤ now'
    → Recent m b now xs
    → Recent m b' now' xs
Recent-weaken m b b' now now' [] h k r = omega arith
Recent-weaken m b b' now now' (x ∷ xs) h k r =
    (omega arith, Recent-weaken m (seen m x) (seen m x) now now' xs (omega arith) k r.1)

-- It depends only on the listed identifiers.
pub Recent-agree :
    (m m' : List (Text × Session)) (b now : ℕ) (xs : List Text)
    → All (λ x. seen m' x ≡ seen m x) xs
    → Recent m b now xs
    → Recent m' b now xs
Recent-agree m m' b now [] a r = r
Recent-agree m m' b now (x ∷ xs) a r =
    (rw a.0 r.0, rw a.0 (Recent-agree m m' (seen m x) now xs a.1 r.1))

pub agree_off :
    (m m' : List (Text × Session)) (id : Text) (xs : List Text)
    → ((j : Text) → text_eq id j ≡ false → seen m' j ≡ seen m j)
    → mem id xs ≡ false
    → All (λ x. seen m' x ≡ seen m x) xs
unfolding mem
agree_off m m' id [] h n = tt
agree_off m m' id (x ∷ xs) h n = (
  h x (ground (arith, text_eq_iff id x, text_eq_iff x id)),
  agree_off m m' id xs h (ground arith),
)

-- Taking out one identifier keeps the order.
pub Recent-remove :
    (m m' : List (Text × Session)) (id : Text) (b now : ℕ) (xs : List Text)
    → ((j : Text) → text_eq id j ≡ false → seen m' j ≡ seen m j)
    → Distinct xs
    → Recent m b now xs
    → Recent m' b now (remove_first id xs)
unfolding remove_first
Recent-remove m m' id b now [] h d r = r
Recent-remove m m' id b now (x ∷ xs) h d r = elim (Bool-cases (text_eq x id)) [
  | inl e ↦ rw e (
      Recent-agree m m' b now xs (agree_off m m' id xs h (rw ((text_eq_iff x id).0 e) at d.0))
        (Recent-weaken m (seen m x) b now now xs r.0 (omega arith) r.1))
  | inr e ↦ rw e (
      let same : seen m' x ≡ seen m x = h x (ground (arith, text_eq_iff x id, text_eq_iff id x)) in
      (rw same r.0, rw same (Recent-remove m m' id (seen m x) now xs h d.1 r.1)))
]

-- Putting one that was used just now behind the others keeps it too.
pub Recent-concat :
    (m : List (Text × Session)) (id : Text) (b now : ℕ) (xs : List Text)
    → seen m id ≡ now
    → Recent m b now xs
    → Recent m b now (xs ++ id ∷ [])
Recent-concat m id b now [] e r = omega arith
Recent-concat m id b now (x ∷ xs) e r = (r.0, Recent-concat m id (seen m x) now xs e r.1)

pub touch-remove :
    (id : Text) (xs : List Text)
    → mem id xs ≡ true
    → touch_order_locked id xs ≡ remove_first id xs ++ id ∷ []
unfolding touch_order_locked remove_first mem
touch-remove id [] h = ground arith
touch-remove id (x ∷ xs) h = ground (arith, touch-remove id xs)

abbrev pub IsRecent : ℕ → SessionStore → Type 0
IsRecent now s = Recent s.sessions 0 now s.order
