-- ===== src/Engine/Refining.antt =====
-- The engine of internal/engine/engine.go against its contract: a machine that is idle or active, and
-- what each command may answer in each phase.
use siteboost_core.Config.Types.{Config as AppConfig}
use siteboost_core.Engine.Modes.{with_up}
use siteboost_core.Engine.Lifecycle.{
  IsStopped, IsUp, IsStarted, start-IsStarted, start_running, stop_idle, stop-IsStopped,
}
use siteboost_core.Engine.Reporting.{fresh}
use siteboost_core.Engine.Stopping.{stop}
use siteboost_core.Engine.Types.{no_servers, World, EngineError, already_running, Calls, Engine}
use siteboost_core.Engine.Running.{Reply, start}
use siteboost_core.Common.{
  ◌≡◌, refl, sym, ap, ◌∙◌, subst, inl, inr, false, Option, none, some, List, [], ◌∷◌,
}
use siteboost_core.External.{Externals}

pub data Phase : Type 0 where
  idle active : Phase

-- A call of Start or Stop, with what the calls under it report.
pub data Command (S : Type 0) : Type 0 where
  start_with stop_with : Calls S → Command S

module _ {S : Type 0} where
  -- The contract: the command, the error that it returns, and the phases before and after.
  pub data Step : Command S → Option EngineError → Phase → Phase → Type 0 where
    starts : {calls : Calls S} → Step (start_with calls) none idle active
    fails : {calls : Calls S} (cause : EngineError) → Step (start_with calls) (some cause) idle idle
    refused : {calls : Calls S} → Step (start_with calls) (some already_running) active active
    stops :
        {calls : Calls S} (reply : Option EngineError) → Step (stop_with calls) reply active idle
    stops_idle : {calls : Calls S} → Step (stop_with calls) none idle idle

  pub data Run : List (Command S) → List (Option EngineError) → Phase → Phase → Type 0 where
    done : {p : Phase} → Run [] [] p p
    step :
        {command : Command S} {reply : Option EngineError} {commands : List (Command S)}
        {replies : List (Option EngineError)} {p q r : Phase}
        → Step command reply p q
        → Run commands replies q r
        → Run (command ∷ commands) (reply ∷ replies) p r

  -- The engine and the world in a phase, with the servers of the mode or none.
  abbrev pub Represents : Phase → Engine → World S → Type 0
  Represents idle e w = IsStopped e w
  Represents active e w = IsUp e w

module _ {S : Type 0} (x : Externals) where
  unfoldable pub execute : Command S → Engine → World S → Reply S
  execute (start_with calls) e w = start x calls e w
  execute (stop_with calls) e w = stop calls e w

  -- The commands one after the other: the replies, and the engine and the world at the end.
  unfoldable pub execute_all :
      List (Command S) → Engine → World S → List (Option EngineError) × Engine × World S
  execute_all [] e w = ([], e, w)
  execute_all (command ∷ commands) e w =
      let (reply, next, later) = execute command e w in
      let (replies, last, end) = execute_all commands next later in (reply ∷ replies, last, end)

  -- The reply is one that the contract allows, and the phase behind it is represented.
  abbrev Refines : Command S → AppConfig → Phase → Reply S → Type 0
  Refines command cfg p (reply, next, w) =
      (q : Phase) × Step command reply p q × Represents q next w × (next.cfg ≡ cfg)

  started :
      (calls : Calls S) (e : Engine) (r : Reply S)
      → e.running ≡ false
      → e.servers ≡ no_servers
      → IsStarted e.cfg e r
      → Refines (start_with calls) e.cfg idle r
  started calls e (reply, next, w) off held (inl (cause, same, kept, down)) = (
    idle,
    subst (λ r. Step (start_with calls) r idle idle) (sym same) (fails cause),
    (ap (λ e. e.running) kept ∙ off, ap (λ e. e.servers) kept ∙ held, down),
    ap (λ e. e.cfg) kept,
  )
  started calls e (reply, next, w) off held (inr (same, cfg, up)) =
      (active, subst (λ r. Step (start_with calls) r idle active) (sym same) starts, up, cfg)

  execute-Refines :
      (command : Command S) (p : Phase) (e : Engine) (w : World S)
      → Represents p e w
      → Refines command e.cfg p (execute command e w)
  unfolding execute
  execute-Refines (start_with calls) idle e w h =
      started calls e (start x calls e w) h.0 h.1 (start-IsStarted x calls e w h)
  execute-Refines (start_with calls) active e w h =
      subst (Refines (start_with calls) e.cfg active) (sym (start_running x calls e w h.0))
        (active, refused, h, refl)
  execute-Refines (stop_with calls) idle e w h =
      let (after, cfg) = stop-IsStopped x calls e w (inl h) in
      (
        idle,
        subst (λ r. Step (stop_with calls) r idle idle)
            (sym (ap (λ r. r.0) (stop_idle x calls e w h.1))) stops_idle,
        after,
        cfg,
      )
  execute-Refines (stop_with calls) active e w h =
      let (after, cfg) = stop-IsStopped x calls e w (inr h) in
      (idle, stops (stop calls e w).0, after, cfg)

  execute_all-Run :
      (commands : List (Command S)) (p : Phase) (e : Engine) (w : World S)
      → Represents p e w
      → (q : Phase) × Run commands (execute_all commands e w).0 p q
        × Represents q (execute_all commands e w).1 (execute_all commands e w).2
        × ((execute_all commands e w).1.cfg ≡ e.cfg)
  unfolding execute_all
  execute_all-Run [] p e w h = (p, done, h, refl)
  execute_all-Run (command ∷ commands) p e w h =
      let (q, first, between, cfg) = execute-Refines command p e w h in
      let (r, later, end, same) =
        execute_all-Run commands q (execute command e w).1 (execute command e w).2 between in
      (r, step first later, end, same ∙ cfg)

  -- Refinement: from a new engine, whatever is called in whatever order and whatever the calls
  -- under it report, the errors returned are those of a run of the two-phase machine, and at the
  -- end the servers that are up are those of the configured mode, all of them, if the machine is
  -- active and the engine says that it runs, and none if it is idle.
  pub execute_all-refines :
      (commands : List (Command S)) (cfg : AppConfig) (system : S)
      → (q : Phase) × Run commands
          (execute_all commands (fresh cfg) (with_up no_servers system)).0
          idle
          q
        × Represents q
            (execute_all commands (fresh cfg) (with_up no_servers system)).1
            (execute_all commands (fresh cfg) (with_up no_servers system)).2
        × ((execute_all commands (fresh cfg) (with_up no_servers system)).1.cfg ≡ cfg)
  execute_all-refines commands cfg system =
      execute_all-Run commands idle (fresh cfg) (with_up no_servers system) (refl, refl, refl)
