-- ===== src/Connector/Supervision.antt =====
-- The loop of `ConnectorSuper` in pkg/connector/main.go.
use ctop.Prelude.{◌≡◌, refl, ap, ◌∙◌, List, [], ◌∷◌, ◌++◌, append-nil, some, ◌⊎◌, inl, inr}
use ctop.Prelude.Texts.{Text, codes}
use ctop.Connector.{
  ConnectorSuper, dialing, Event, dial_fails, dial_gives, conn_ends, new_connector_super, get,
  set_error, refused, connected, lost, loop, dial, at_phase, then_loop,
}

module _ {C : Type 0} where
  -- Attempts that each fail, or give a connection that is lost after a time.
  abbrev pub attempts : List (C ⊎ Text) → List (Event C)
  attempts [] = []
  attempts (inl c ∷ rest) = dial_gives c ∷ conn_ends ∷ attempts rest
  attempts (inr e ∷ rest) = dial_fails e ∷ attempts rest

  -- The error after attempts: that of the last one, or the first error if there was none.
  abbrev pub last_error : Text → List (C ⊎ Text) → Text
  last_error e [] = e
  last_error e (inl c ∷ rest) = last_error (codes "attempting to reconnect") rest
  last_error e (inr f ∷ rest) = last_error f rest

  dialled :
      (e : Event C) (es : List (Event C)) (cs : ConnectorSuper C)
      → cs.phase ≡ dialing
      → loop (e ∷ es) cs ≡ then_loop (loop es) (dial e cs)
  unfolding loop
  dialled e es cs p = ap (λ ph. then_loop (loop es) (at_phase ph e cs)) p

  -- After attempts that start where `connFn` is called the loop is there again, with the last error.
  loop-attempts :
      (e : Text) (tries : List (C ⊎ Text)) (es : List (Event C)) (cs : ConnectorSuper C)
      → cs.phase ≡ dialing
      → get cs ≡ inr e
      → (t : ConnectorSuper C) × (t.phase ≡ dialing)
        × (get t ≡ inr (last_error e tries))
        × (loop (attempts tries ++ es) cs ≡ loop es t)
  unfolding loop get refused connected lost set_error
  loop-attempts e [] es cs p g = (cs, p, g, refl)
  loop-attempts e (inl c ∷ tries) es cs p g =
      let (t, q, k, same) =
        loop-attempts (codes "attempting to reconnect") tries es (lost (connected c cs)) refl
          refl in
      (t, q, k, dialled (dial_gives c) (conn_ends ∷ attempts tries ++ es) cs p ∙ same)
  loop-attempts e (inr f ∷ tries) es cs p g =
      let (t, q, k, same) = loop-attempts f tries es (refused f cs) p refl in
      (t, q, k, dialled (dial_fails f) (attempts tries ++ es) cs p ∙ same)

  -- However many attempts have failed or given connections that were lost, the loop of a new supervisor
  -- has taken them all, calls `connFn` again, and Get gives the last error, at first "connecting"; and when
  -- `connFn` then returns a connection, Get gives that one.
  pub loop-reconnects :
      (tries : List (C ⊎ Text)) (c : C)
      → (t : ConnectorSuper C) × (u : ConnectorSuper C) × (loop (attempts tries) new_connector_super
          ≡ some t)
        × (get t ≡ inr (last_error (codes "connecting") tries))
        × (loop (attempts tries ++ dial_gives c ∷ []) new_connector_super ≡ some u)
        × (get u ≡ inl (some c))
  unfolding loop get connected set_error new_connector_super
  loop-reconnects tries c =
      let cs = new_connector_super in
      let (t, p, g, same) = loop-attempts (codes "connecting") tries [] cs refl refl in
      let (u, q, k, again) =
        loop-attempts (codes "connecting") tries (dial_gives c ∷ []) cs refl refl in
      (
        t,
        connected c u,
        rw (append-nil (attempts tries)) at same,
        g,
        again ∙ dialled (dial_gives c) [] u q,
        refl,
      )
