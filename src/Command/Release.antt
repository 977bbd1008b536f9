-- ===== src/Command/Release.antt =====
-- What a command line holds at its end.
use mem_sync.Base.{
  ℕ, ◌≡◌, refl, ap, Bool, true, false, Option, none, some, List, [], ◌∷◌, inl, inr, Bool-cases,
}
use mem_sync.Command.{
  CommandCalls, is_init, initialize_with, initialize_cache, operate_on, operate, run_command, main,
}
use mem_sync.Lifecycle.{CacheMapping, Event, unopened, name_or_default}
use mem_sync.Lifecycle.Opening.{Opens, refused, ready, opened-Closes, cache_open_shared-Opens}
use mem_sync.Lifecycle.Resources.{Holdings, nothing_held, after_events}
use mem_sync.Text.{Bytes}

-- No descriptor and no mapping.
pub record IsReleased (events : List Event) : Type 0 where
  pub descriptor : (after_events nothing_held events).descriptor ≡ none
  pub memory : (after_events nothing_held events).memory ≡ none

held-IsReleased :
    (events : List Event) (object : Option Bytes)
    → after_events nothing_held events
      ≡ record { descriptor = none; memory = none; object = object }
    → IsReleased events
held-IsReleased events object h = record {
  descriptor = ap (λ (x : Holdings). x.descriptor) h;
  memory = ap (λ (x : Holdings). x.memory) h;
}

module _ (lock_size : ℕ) (name : Bytes) where
  initialize_with-IsReleased :
      (m : CacheMapping) (done : Bool) (events : List Event)
      → Opens lock_size name nothing_held (m, done, events)
      → IsReleased (initialize_with (some m, done, events)).events
  unfolding initialize_with
  initialize_with-IsReleased _ _ _ (refused events h) = held-IsReleased events none h
  initialize_with-IsReleased _ _ _ (ready fd created r events h valid fresh) =
      held-IsReleased _ _
        (opened-Closes lock_size name _ true events (ready fd created r events h valid fresh))

  operate-IsReleased :
      (command : Bytes) (args : List Bytes) (calls : CommandCalls) (m : CacheMapping) (done : Bool)
      (events : List Event)
      → Opens lock_size name nothing_held (m, done, events)
      → IsReleased (operate command args calls (some m, done, events)).events
  unfolding operate operate_on
  operate-IsReleased command args calls _ _ _ (refused events h) = held-IsReleased events none h
  operate-IsReleased command args calls _ _ _ (ready fd created r events h valid fresh) =
      held-IsReleased _ _
        (opened-Closes lock_size name _ true events (ready fd created r events h valid fresh))

run_command-IsReleased :
    (lock_size : ℕ) (command : Bytes) (args : List Bytes) (calls : CommandCalls)
    → IsReleased (run_command lock_size command args calls).events
unfolding run_command initialize_cache
run_command-IsReleased lock_size command args calls = elim (Bool-cases (is_init command)) [
  | inl e ↦
      let (m, done, events, run, opens) =
        cache_open_shared-Opens lock_size unopened true none calls.open_calls in
      rw (e, run) (initialize_with-IsReleased lock_size (name_or_default none) m done events opens)
  | inr e ↦
      let (m, done, events, run, opens) =
        cache_open_shared-Opens lock_size unopened false none calls.open_calls in
      rw (e, run)
        (operate-IsReleased lock_size (name_or_default none) command args calls m done events opens)
]

-- Whatever its arguments are and whatever the environment answers, a command line ends with no
-- descriptor open and nothing mapped.
pub main-IsReleased :
    (lock_size : ℕ) (args : List Bytes) (calls : CommandCalls)
    → IsReleased (main lock_size args calls).events
unfolding main
main-IsReleased lock_size [] calls = held-IsReleased [] none (unfold after_events in refl)
main-IsReleased lock_size (command ∷ args) calls =
    run_command-IsReleased lock_size command args calls
