-- ===== src/Workflow/Concurrent/Distinct.antt =====
-- The identifiers that the answers of overlapping requests show.
use infra_steward_gateway.Core.{ℕ, String, ◌≡◌, ◌≢◌, refl, some, List, [], ◌∷◌, map, All, arith}
use infra_steward_gateway.Dict.{lookup}
use infra_steward_gateway.Value.{text}
use infra_steward_gateway.Exec.{ok, err}
use infra_steward_gateway.Coroutine.{Coroutine, finished, step}
use infra_steward_gateway.Coroutine.Pool.{Turns}
use infra_steward_gateway.Runtime.{Host}
use infra_steward_gateway.World.{World}
use infra_steward_gateway.Workflow.RequestMetadata.{Request}
use infra_steward_gateway.Workflow.Setup.{WorkflowEngine}
use infra_steward_gateway.Workflow.Messages.{Response}
use infra_steward_gateway.Workflow.Concurrent.{process_report_steps}
use infra_steward_gateway.Workflow.Concurrent.Stages.{Stage, Numbered, Apart}
use infra_steward_gateway.Workflow.Concurrent.Records.{has_record}
use infra_steward_gateway.Workflow.Concurrent.Requests.{IsAnswered, is_answered}
use infra_steward_gateway.Workflow.Concurrent.Settled.{IsSettled, is_settled}
use infra_steward_gateway.Workflow.Concurrent.Tasks.{
  Sound, no_task, one_task, Sound-start, Sound-Turns,
}

-- The responses of the tasks that have returned.
unfoldable pub answers : List (Coroutine World Response) → List Response
answers [] = []
answers (finished (ok response) ∷ cs) = response ∷ answers cs
answers (finished (err e) ∷ cs) = answers cs
answers (step f k ∷ cs) = answers cs

abbrev pub Pairwise : {A : Type 0} → (A → A → Type 0) → List A → Type 0
Pairwise R [] = Unit
Pairwise R (x ∷ xs) = All (R x) xs × Pairwise R xs

module _ (host : Host) where
  -- The response shows the identifier that its request drew.
  abbrev Identified : Stage → Response → Type 0
  Identified o response =
      (n : ℕ) × Numbered o n × (lookup "request_id" response ≡ some (text (host.uuid4 n)))

  answered-Identified :
      {tenant : String} {response : Response} {o : Stage}
      → IsAnswered host tenant response o
      → Identified o response
  answered-Identified (is_answered final (has_record {n} e own t st story) status id tenant) =
      (n, refl, rw e id)

  settled-Identified :
      {request : Request} {response : Response} {o : Stage}
      → IsSettled host request (ok response) o
      → Identified o response
  settled-Identified (is_settled asked answered) = answered-Identified answered

  module _ (injective : (m n : ℕ) → host.uuid4 m ≡ host.uuid4 n → m ≡ n) where
    Numbered-same : (p : Stage) {m n : ℕ} → m ≡ n → Numbered p m → Numbered p n
    Numbered-same p e h = rw (← e) h

    Apart-different :
        {o p : Stage} (a b : Response)
        → Apart o p
        → Identified o a
        → Identified p b
        → lookup "request_id" a ≢ lookup "request_id" b
    Apart-different {p = p} a b apart (n, i, shown_a) (m, j, shown_b) same =
        let texts : host.uuid4 m ≡ host.uuid4 n = ground (arith, shown_a, shown_b, same) in
        apart.numbers n i (Numbered-same p (injective m n texts) j)

    Sound-different :
        (w : World) (o : Stage) (a : Response)
        → Identified o a
        → {requests : List Request} {cs : List (Coroutine World Response)} {os : List Stage}
        → Sound host w requests cs os
        → All (Apart o) os
        → All (λ b. lookup "request_id" a ≢ lookup "request_id" b) (answers cs)
    unfolding answers
    Sound-different w o a i no_task apart = tt
    Sound-different w o a i (one_task request (step f k) q held ensures others sound) (far, apart) =
        Sound-different w o a i sound apart
    Sound-different w o a i (one_task request (finished (err e)) q held ensures others sound)
          (far, apart) =
        Sound-different w o a i sound apart
    Sound-different w o a i (one_task request (finished (ok b)) q held ensures others sound)
          (far, apart) =
        (
          Apart-different a b far i (settled-Identified ensures.told),
          Sound-different w o a i sound apart,
        )

    Sound-distinct :
        (w : World) {requests : List Request} {cs : List (Coroutine World Response)}
        {os : List Stage}
        → Sound host w requests cs os
        → Pairwise (λ a b. lookup "request_id" a ≢ lookup "request_id" b) (answers cs)
    unfolding answers
    Sound-distinct w no_task = tt
    Sound-distinct w (one_task request (step f k) q held ensures others sound) =
        Sound-distinct w sound
    Sound-distinct w (one_task request (finished (err e)) q held ensures others sound) =
        Sound-distinct w sound
    Sound-distinct w (one_task request (finished (ok b)) q held ensures others sound) = (
      Sound-different w q b (settled-Identified ensures.told) sound others,
      Sound-distinct w sound,
    )

  module _ (injective : (m n : ℕ) → host.uuid4 m ≡ host.uuid4 n → m ≡ n)
      (engine : WorkflowEngine) where
    -- However the steps of any requests alternate, and where no identifier is drawn twice: no two of
    -- them that have returned a response show the same identifier.
    pub process_reports_distinct :
        (requests : List Request) (w : World) (ds : List (Coroutine World Response)) (v : World)
        → Turns (map (process_report_steps host engine) requests) w ds v
        → Pairwise (λ a b. lookup "request_id" a ≢ lookup "request_id" b) (answers ds)
    process_reports_distinct requests w ds v turns =
        Sound-distinct injective v
          (Sound-Turns host injective turns (Sound-start host injective engine requests w)).sound
