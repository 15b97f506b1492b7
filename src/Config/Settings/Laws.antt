-- ===== src/Config/Settings/Laws.antt =====
-- Reading a setting of pkg/config after it has been written.
use ctop.Prelude.{◌≡◌, refl, List, [], ◌∷◌, Bool, not, ◌&&◌, if◌then◌else◌, arith}
use ctop.Prelude.Texts.{Text, text_eq, text_eq_iff}
use ctop.Prelude.Assoc.{mem}
use ctop.Config.Settings.{Param, Switch, get_val, update, get_switch_val, write_switch, toggle}

-- After `Update(k, v)` the key `k` has the value `v`, also where it was not there before; every
-- other key has the value that it had.
pub get_val-update :
    (k j v : Text) (ps : List Param)
    → get_val j (update k v ps) ≡ (if text_eq k j then v else get_val j ps)
unfolding get_val update
get_val-update k j v [] = ground arith
get_val-update k j v (p ∷ ps) =
    ground
      (arith, text_eq_iff p.key k, text_eq_iff p.key j, text_eq_iff k j, get_val-update k j v ps)

abbrev pub switch_keys : List Switch → List Text
switch_keys [] = []
switch_keys (s ∷ ss) = s.key ∷ switch_keys ss

get_switch_val-write_switch :
    (k j : Text) (f : Bool → Bool) (ss : List Switch)
    → get_switch_val j (write_switch k f ss) ≡ (
        if text_eq k j && mem k (switch_keys ss)
        then f (get_switch_val k ss)
        else get_switch_val j ss)
unfolding get_switch_val write_switch mem
get_switch_val-write_switch k j f [] = ground arith
get_switch_val-write_switch k j f (s ∷ ss) = ground (
  arith,
  text_eq_iff s.key k,
  text_eq_iff s.key j,
  text_eq_iff k j,
  get_switch_val-write_switch k j f ss,
)

-- After `Toggle(k)` the switch `k`, if there is one, has the other value; a key that names no switch
-- changes nothing, and every other switch has the value that it had.
pub get_switch_val-toggle :
    (k j : Text) (ss : List Switch)
    → get_switch_val j (toggle k ss) ≡ (
        if text_eq k j && mem k (switch_keys ss)
        then not (get_switch_val k ss)
        else get_switch_val j ss)
unfolding toggle
get_switch_val-toggle k j ss = get_switch_val-write_switch k j not ss

-- Two toggles of one switch leave every switch as it was.
pub toggle-toggle : (k : Text) (ss : List Switch) → toggle k (toggle k ss) ≡ ss
unfolding toggle write_switch
toggle-toggle k [] = refl
toggle-toggle k (s ∷ ss) = ground (arith, toggle-toggle k ss)
