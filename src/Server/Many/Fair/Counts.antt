-- ===== src/Server/Many/Fair/Counts.antt =====
-- brain/ws_server.py: sessions and locks, counted
use nubjuk_brain.Prelude.{
  ℕ, ◌+◌, ◌≤◌, ◌≡◌, ◌∙◌, refl, String, true, false, ◌&&◌, not, Option, none, some, arith,
  if◌then◌else◌, if-intro,
}
use nubjuk_brain.Pipeline.{StiPipeline}
use nubjuk_brain.Session.{SessionManager}
use nubjuk_brain.Server.{Server, Connection, is_waiting, caught}

-- 1 for a connection whose handler has started a session and not returned
abbrev pub runs : Connection → ℕ
runs c = if c.started && not c.returned then 1 else 0

-- 1 for a lock that is held
abbrev pub holds : {P : Type 0} → SessionManager P → ℕ
holds m = if m.locked then 1 else 0

-- only a connection with a session waits for its queue
abbrev pub IsWellFormed : Connection → Type 0
IsWellFormed c = (is_waiting c.waiting && not c.started) ≡ false

pub not_waiting : (w : Option (String × ℕ)) → is_waiting w ≡ false → w ≡ none
not_waiting none e = refl
not_waiting (some x) e = absurd (ground arith)

module _ {P : Type 0} (ops : StiPipeline P) (maxsize : ℕ) where
  -- what one step of one connection does to the two counts
  pub record IsFair (s t : Server P) : Type 0 where
    pub balance : runs t.connection + holds s.manager ≤ holds t.manager + runs s.connection
    pub formed : IsWellFormed t.connection

  -- A handler that is at work returns, whatever becomes of the lock.
  pub leaves :
      (s : Server P) (c : Connection) (m : SessionManager P)
      → s.connection.started ≡ true
      → s.connection.returned ≡ false
      → c.started ≡ true
      → c.returned ≡ true
      → IsFair s (record { connection = c; manager = m })
  leaves s c m a r b q = record { balance = ground arith; formed = ground arith }

  -- a step that leaves what the counts read alone
  pub stays :
      (s : Server P) (c : Connection) (m : SessionManager P)
      → IsWellFormed s.connection
      → c.started ≡ s.connection.started
      → c.returned ≡ s.connection.returned
      → c.waiting ≡ s.connection.waiting
      → m.locked ≡ s.manager.locked
      → IsFair s (record { connection = c; manager = m })
  stays s c m f a r w l = record { balance = rw (a, r, l) (omega arith); formed = rw (a, w) f }

  pub caught-IsFair :
      (s : Server P) (c : Connection) (m : SessionManager P)
      → IsWellFormed c
      → s.connection.started ≡ c.started
      → s.connection.returned ≡ false
      → m.locked ≡ s.manager.locked
      → IsFair s (caught ops (record { connection = c; manager = m }))
  unfolding caught
  caught-IsFair s c m f a r l =
      if-intro (IsFair s) c.started (λ b. leaves s _ _ (a ∙ b) r b refl)
        (λ b. record { balance = ground arith; formed = f })

  pub caught_running-IsFair :
      (s : Server P) (c : Connection) (m : SessionManager P)
      → s.connection.started ≡ true
      → s.connection.returned ≡ false
      → c.started ≡ true
      → IsFair s (caught ops (record { connection = c; manager = m }))
  unfolding caught
  caught_running-IsFair s c m a r b =
      if-intro (IsFair s) c.started (λ _. leaves s _ _ a r b refl) (λ d. absurd (ground arith))
