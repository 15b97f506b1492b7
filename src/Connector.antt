-- ===== src/Connector.antt =====
-- pkg/connector: the supervisor of a connection of main.go, and in Multi the aggregator of several hosts
-- of multi.go. `C` is the type of the connections. The waits between attempts and the log are left out.
pub mod Supervision
pub mod Multi
mod Tests
use ctop.Prelude.{List, [], ◌∷◌, ◌⊎◌, inl, inr, Option, none, some}
use ctop.Prelude.Texts.{Text, codes}

-- Where the loop is: it calls `connFn`, or it waits for the connection to be lost.
pub data Phase : Type 0 where
  dialing waiting : Phase

-- `err` is none for nil.
pub record ConnectorSuper (C : Type 0) : Type 0 where
  pub conn : Option C
  pub err : Option Text
  pub phase : Phase

module _ {C : Type 0} where
  unfoldable pub new_connector_super : ConnectorSuper C
  new_connector_super = record { conn = none; err = some (codes "connecting"); phase = dialing }

  -- The connector, none for nil, or the error.
  unfoldable pub get : ConnectorSuper C → Option C ⊎ Text
  get cs = elim cs.err [ none ↦ inl cs.conn | some e ↦ inr e ]

  unfoldable pub set_error : Option Text → ConnectorSuper C → ConnectorSuper C
  set_error err cs = record cs { err = err }

  -- `cs.connFn()` returns an error.
  unfoldable pub refused : Text → ConnectorSuper C → ConnectorSuper C
  unfolding set_error
  refused e cs = set_error (some e) cs

  -- `cs.connFn()` returns a connection.
  unfoldable pub connected : C → ConnectorSuper C → ConnectorSuper C
  unfolding set_error
  connected c cs = record (set_error none (record cs { conn = some c })) { phase = waiting }

  -- `cs.conn.Wait()` returns.
  unfoldable pub lost : ConnectorSuper C → ConnectorSuper C
  unfolding set_error
  lost cs = record (set_error (some (codes "attempting to reconnect")) cs) { phase = dialing }

-- What the loop meets: an answer of `connFn`, or that `Wait` returns.
pub data Event (C : Type 0) : Type 0 where
  dial_fails : Text → Event C
  dial_gives : C → Event C
  conn_ends : Event C

module _ {C : Type 0} where
  abbrev pub dial : Event C → ConnectorSuper C → Option (ConnectorSuper C)
  dial (dial_fails e) cs = some (refused e cs)
  dial (dial_gives c) cs = some (connected c cs)
  dial conn_ends cs = none

  abbrev pub wait : Event C → ConnectorSuper C → Option (ConnectorSuper C)
  wait conn_ends cs = some (lost cs)
  wait (dial_fails e) cs = none
  wait (dial_gives c) cs = none

  abbrev pub at_phase : Phase → Event C → ConnectorSuper C → Option (ConnectorSuper C)
  at_phase dialing e cs = dial e cs
  at_phase waiting e cs = wait e cs

  abbrev pub then_loop :
      (ConnectorSuper C → Option (ConnectorSuper C))
      → Option (ConnectorSuper C)
      → Option (ConnectorSuper C)
  then_loop rest none = none
  then_loop rest (some cs) = rest cs

  -- The loop over what it meets; none if it is not there where it would meet that: `connFn` answers only
  -- a call, and `Wait` returns only where it was called.
  unfoldable pub loop : List (Event C) → ConnectorSuper C → Option (ConnectorSuper C)
  unfolding refused connected lost
  loop [] cs = some cs
  loop (e ∷ es) cs = then_loop (loop es) (at_phase cs.phase e cs)
