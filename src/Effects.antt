-- ===== src/Effects.antt =====
-- The state of a running service, and its methods as actions on it: they may raise, and what was written
-- before a raise stays written. An action sees the host; it can only count its interactions with it.
pub mod Spec
use toolbox_mcp.Prelude.{ℕ, suc, String, Bool, true, false, Option, none, some, List, []}
use toolbox_mcp.Models.{Tool, StateDocument, Instant, Exception, Result, ok, err}
use toolbox_mcp.Registry.{load_document, written, append_audit_event, default_audit_retention_limit}
use toolbox_mcp.Host.{Host}

-- toolbox/transport_manager.py: `ManagedToolsetRuntime`, by its tools and whether it still runs.
pub record Runtime : Type 0 where
  pub namespace : String
  pub tools : List Tool
  pub closed : Bool
  -- `self._task.done()`.
  pub finished : Bool

pub record World : Type 0 where
  -- The state file.
  pub document : StateDocument
  -- What a reading of the file raises, as where it cannot be decoded or its secrets cannot be restored, and what a
  -- writing raises, as where they cannot be protected; none where the file can be used.
  pub unreadable : Option Exception
  pub unwritable : Option Exception
  -- `TransportManager._runtimes`.
  pub runtimes : List (String × Runtime)
  -- The runtimes that were closed when they left the table.
  pub retired : List Runtime
  -- `TransportManager._in_flight`.
  pub in_flight : List (String × ℕ)
  -- How often the host was asked.
  pub interactions : ℕ

abbrev pub Exec : Type 0 → Type 0
Exec A = Host → World → Result A × World

module _ {A : Type 0} where
  unfoldable pub pure : A → Exec A
  pure a host w = (ok a, w)

  unfoldable pub raise : Exception → Exec A
  raise e host w = (err e, w)

  unfoldable pub gets : (World → A) → Exec A
  gets f host w = (ok (f w), w)

  -- A question to the host.
  unfoldable pub ask : (Host → ℕ → A) → Exec A
  ask f host w = (ok (f host w.interactions), record w { interactions = suc w.interactions })

  -- A computation by the host's libraries, which does not touch the world.
  unfoldable pub compute : (Host → A) → Exec A
  compute f host w = (ok (f host), w)

  unfoldable pub lift : Result A → Exec A
  lift r host w = (r, w)

  -- The body of a `try`: the exception comes back as a value.
  unfoldable pub attempt : Exec A → Exec (Result A)
  attempt m host w = let (r, w') = m host w in (ok r, w')

unfoldable pub modify : (World → World) → Exec (Unit {0})
modify f host w = (ok tt, f w)

module _ {A B : Type 0} where
  abbrev pub continue : Result A → (A → Exec B) → Exec B
  continue (ok a) f host w = f a host w
  continue (err e) f host w = (err e, w)

  infixl 5 ◌>>=◌ ◌>>◌
  unfoldable pub ◌>>=◌ : Exec A → (A → Exec B) → Exec B
  ◌>>=◌ m f host w = let (r, w') = m host w in continue r f host w'

  abbrev pub ◌>>◌ : Exec A → Exec B → Exec B
  m >> k = m >>= λ _. k

-- What is read, unless the reading raises.
pub read_unless : Option Exception → StateDocument → Result StateDocument
read_unless none document = load_document document
read_unless (some e) document = err e

-- toolbox/registry.py: `load`.
pub load : Exec StateDocument
unfolding read_unless
load host w = (read_unless w.unreadable w.document, w)

-- What a writing leaves, unless it raises.
write_unless : Option Exception → StateDocument → World → Result (Unit {0}) × World
write_unless none document w = (ok tt, record w { document = written document })
write_unless (some e) document w = (err e, w)

pub store_after :
    {A : Type 0}
    → (StateDocument → A × StateDocument)
    → World
    → Result StateDocument
    → Result (Unit {0}) × World
unfolding write_unless
store_after fn w (err e) = (err e, w)
store_after fn w (ok document) = write_unless w.unwritable (fn document).1 w

-- toolbox/registry.py: `_mutate`: load the document, change it, write it. The callers here do not use what
-- `fn` returns beside the document.
pub mutate : {A : Type 0} → (StateDocument → A × StateDocument) → Exec (Unit {0})
unfolding store_after read_unless
mutate fn host w = store_after fn w (read_unless w.unreadable w.document)

-- toolbox/service.py: `utc_now`.
unfoldable pub utc_now : Exec Instant
unfolding ask
utc_now = ask (λ host n. host.clock n)
