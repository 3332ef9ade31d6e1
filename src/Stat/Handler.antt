-- ===== src/Stat/Handler.antt =====
-- The two goroutines of `StatStream`, as far as their unbuffered channels `errCh` and `done` go.
use torrent_web_seeder.Prelude.{◌≡◌, subst}

-- The handler waits in its `select`, then sends on `done` in its deferred function, then returns.
pub data Handler : Type 0 where
  waiting leaving returned : Handler

-- The poller loops, then is about to send on `errCh`, then has returned.
pub data Poller : Type 0 where
  polling reporting stopped : Poller

pub data Step : Handler → Poller → Handler → Poller → Type 0 where
  -- A failed Stat or Send, or the last reply.
  report : {m : Handler} → Step m polling m reporting
  -- `err := <-errCh`, after which the poller returns.
  receive : Step waiting reporting leaving stopped
  -- Any other case of the handler's `select`.
  leave : {g : Poller} → Step waiting g leaving g
  -- `done <- true` meets `<-done`.
  stop : Step leaving polling returned stopped

pub data Steps : Handler → Poller → Handler → Poller → Type 0 where
  here : {m : Handler} {g : Poller} → Steps m g m g
  then :
      {m m' m'' : Handler} {g g' g'' : Poller}
      → Step m g m' g'
      → Steps m' g' m'' g''
      → Steps m g m'' g''

-- Neither has the handler returned nor is there anyone left to receive from `done`.
abbrev IsStuck : Handler → Poller → Type 0
IsStuck returned g = ⊥
IsStuck waiting polling = ⊥
IsStuck leaving polling = ⊥
IsStuck waiting reporting = Unit {0}
IsStuck waiting stopped = Unit {0}
IsStuck leaving reporting = Unit {0}
IsStuck leaving stopped = Unit {0}

Step-IsStuck : {m m' : Handler} {g g' : Poller} → Step m g m' g' → IsStuck m g → IsStuck m' g'
Step-IsStuck {m = waiting} report h = absurd h
Step-IsStuck {m = leaving} report h = absurd h
Step-IsStuck {m = returned} report h = absurd h
Step-IsStuck receive h = tt
Step-IsStuck {g = polling} leave h = absurd h
Step-IsStuck {g = reporting} leave h = tt
Step-IsStuck {g = stopped} leave h = tt
Step-IsStuck stop h = absurd h

Steps-IsStuck : {m m' : Handler} {g g' : Poller} → Steps m g m' g' → IsStuck m g → IsStuck m' g'
Steps-IsStuck here h = h
Steps-IsStuck (then s ss) h = Steps-IsStuck ss (Step-IsStuck s h)

-- Once the poller is about to send on `errCh`, while the handler still waits, the handler never
-- returns, whatever steps the two take: no one receives from `done`.
pub reported_never_returns :
    (m : Handler) (g : Poller) → Steps waiting reporting m g → ¬ (m ≡ returned)
reported_never_returns m g ss e = subst (λ x. IsStuck x g) e (Steps-IsStuck ss tt)
