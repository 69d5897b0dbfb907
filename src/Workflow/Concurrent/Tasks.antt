-- ===== src/Workflow/Concurrent/Tasks.antt =====
-- Requests that are processed at the same time: their coroutines are tasks of one event loop, which
-- take their steps in any order.
use infra_steward_gateway.Core.{ℕ, ◌≡◌, List, [], ◌∷◌, map, All}
use infra_steward_gateway.Coroutine.{Coroutine}
use infra_steward_gateway.Coroutine.Pool.{Turn, taken, passed, Turns, here, next}
use infra_steward_gateway.Runtime.{Host}
use infra_steward_gateway.World.{World}
use infra_steward_gateway.Workflow.RequestMetadata.{Request}
use infra_steward_gateway.Workflow.Setup.{WorkflowEngine}
use infra_steward_gateway.Workflow.Messages.{Response}
use infra_steward_gateway.Workflow.Concurrent.{process_report_steps}
use infra_steward_gateway.Workflow.Concurrent.Stages.{
  Stage, unborn, Apart, Apart-sym, Holds, Keeps, Apart-Keeps, Holds-Keeps,
}
use infra_steward_gateway.Workflow.Concurrent.Ensures.{Ensures}
use infra_steward_gateway.Workflow.Concurrent.Settled.{IsSettled, process_report_settles}

pub Apart-unborn :
    (o : Stage) (requests : List Request)
    → All (Apart o) (map (λ (request : Request). unborn) requests)
Apart-unborn o [] = tt
Apart-unborn o (request ∷ requests) =
    (record { numbers = λ n i j. absurd j; refs = λ k i j. absurd j }, Apart-unborn o requests)

module _ (host : Host) where
  -- The tasks of some requests, and what each has of the shared state: nothing in common, and enough
  -- for what is left of it to settle its request.
  pub data Sound (w : World)
      : List Request → List (Coroutine World Response) → List Stage → Type 0 where
    no_task : Sound w [] [] []
    one_task :
        {requests : List Request} {cs : List (Coroutine World Response)} {os : List Stage}
        (request : Request) (c : Coroutine World Response) (o : Stage)
        → Holds host o w
        → Ensures host o c (IsSettled host request)
        → All (Apart o) os
        → Sound w requests cs os
        → Sound w (request ∷ requests) (c ∷ cs) (o ∷ os)

  module _ (injective : (m n : ℕ) → host.uuid4 m ≡ host.uuid4 n → m ≡ n) where
    -- A step of another task.
    Sound-Keeps :
        {o p : Stage} {v w : World} {requests : List Request} {cs : List (Coroutine World Response)}
        {os : List Stage}
        → Keeps host o p v w
        → Sound v requests cs os
        → All (Apart o) os
        → Sound w requests cs os × All (Apart p) os
    Sound-Keeps kept no_task apart = (no_task, tt)
    Sound-Keeps kept (one_task request c q held ensures others sound) (far, apart) =
        let (sound', apart') = Sound-Keeps kept sound apart in
        (
          one_task request c q (Holds-Keeps host kept injective q held (Apart-sym far)) ensures
              others sound',
          (Apart-sym (Apart-Keeps host kept held (Apart-sym far)), apart'),
        )

    -- What the tasks have after a step of one of them, and what any other request keeps.
    pub record Moved (requests : List Request) (os : List Stage) (v : World)
        (ds : List (Coroutine World Response)) (w : World) : Type 0 where
      pub stages : List Stage
      pub sound : Sound w requests ds stages
      pub outside :
          (q : Stage) → Holds host q v → All (Apart q) os → Holds host q w × All (Apart q) stages

    Sound-Turn :
        {requests : List Request} {cs ds : List (Coroutine World Response)} {os : List Stage}
        {v w : World}
        → Turn cs v ds w
        → Sound v requests cs os
        → Moved requests os v ds w
    Sound-Turn (taken f k cs v) (one_task {os = os} request _ o held ensures apart sound) =
        let (p, held', kept, told) = ensures.told v held in
        let (sound', apart') = Sound-Keeps kept sound apart in
        record {
          stages = p ∷ os;
          sound = one_task request (k v) p held' (record { told = told }) apart' sound';
          outside = λ q h a.
              (Holds-Keeps host kept injective q h a.0, (Apart-Keeps host kept h a.0, a.1));
        }
    Sound-Turn (passed c turn) (one_task request _ o held ensures apart sound) =
        let moved = Sound-Turn turn sound in
        let (held', apart') = moved.outside o held apart in
        record {
          stages = o ∷ moved.stages;
          sound = one_task request c o held' ensures apart' moved.sound;
          outside = λ q h a. let (i, b) = moved.outside q h a.1 in (i, (a.0, b));
        }

    pub Sound-Turns :
        {requests : List Request} {cs ds : List (Coroutine World Response)} {os : List Stage}
        {v w : World}
        → Turns cs v ds w
        → Sound v requests cs os
        → Moved requests os v ds w
    Sound-Turns here sound = record { stages = _; sound = sound; outside = λ q h a. (h, a) }
    Sound-Turns (next turns turn) sound =
        let before = Sound-Turns turns sound in
        let after = Sound-Turn turn before.sound in
        record {
          stages = after.stages;
          sound = after.sound;
          outside = λ q h a. let (i, b) = before.outside q h a in after.outside q i b;
        }

    module _ (engine : WorkflowEngine) where
      pub Sound-start :
          (requests : List Request) (w : World)
          → Sound w requests
              (map (process_report_steps host engine) requests)
              (map (λ _. unborn) requests)
      Sound-start [] w = no_task
      Sound-start (request ∷ requests) w =
          one_task request _ unborn tt (process_report_settles host engine request)
            (Apart-unborn unborn requests) (Sound-start requests w)
