-- ===== src/Workflow/Engine/Completed.antt =====
-- An allowed request whose attempt returns: the end that it comes to.
use infra_steward_gateway.Core.{[], ◌∷◌, String, ◌≡◌, inl, refl, true, some, arith}
use infra_steward_gateway.Dict.{lookup, update, keys}
use infra_steward_gateway.Exec.{ok}
use infra_steward_gateway.Runtime.{Host}
use infra_steward_gateway.Metrics.{is_misplaced}
use infra_steward_gateway.World.{World}
use infra_steward_gateway.Tenants.{TenantContext, resolve}
use infra_steward_gateway.Providers.Base.{Provider}
use infra_steward_gateway.Providers.Registry.{get}
use infra_steward_gateway.Evidence.Service.Story.{notes, ends}
use infra_steward_gateway.Workflow.RequestMetadata.{Request}
use infra_steward_gateway.Workflow.Setup.{WorkflowEngine}
use infra_steward_gateway.Workflow.Messages.{required_tenant}
use infra_steward_gateway.Workflow.Engine.{sha256_hash, process_report}
use infra_steward_gateway.Workflow.Endings.{provider_final}
use infra_steward_gateway.Workflow.Engine.Judged.{new_run, new_decision}
use infra_steward_gateway.Workflow.Engine.Outcome.{Routing, AttemptReturns}
use infra_steward_gateway.Workflow.Engine.Processed.{process_completed, routing}
use infra_steward_gateway.Workflow.Engine.Account.{
  tally, is_enrichment, policy_outcome, provider_outcome, tally-sends, Account, answered,
  Account-of, judged_Story, response_keys,
}

module _ (host : Host) (w₀ : World) where
  module _ (engine : WorkflowEngine) (request : Request) where
    module _ (context : TenantContext) (name : String) (provider : Provider) (hash : String)
        (named : required_tenant request ≡ ok name) (resolved : resolve host name ≡ ok context)
        (allowed : (new_decision host engine request w₀ context).allowed ≡ true)
        (hashed : sha256_hash host (new_run host engine request w₀ context).payload ≡ ok hash)
        (registered : get host engine.provider_registry
            (new_decision host engine request w₀ context).selected_provider
          ≡ ok provider) where
      abbrev c : Routing
      c = routing host engine request w₀ context name provider hash

      pub completed-Account :
          AttemptReturns c
          → Account host w₀ engine.producer
              (process_report host engine request w₀).0
              (process_report host engine request w₀).1
      unfolding lookup update tally is_misplaced keys response_keys
      completed-Account a =
          Account-of host w₀ engine.producer (process_report host engine request)
            (process_completed host engine request w₀ context name provider hash a named resolved
              allowed hashed registered)
            λ w h. answered _ w (record {
              status = "completed";
              left = _;
              time = _;
              made = _;
              at = h;
              request = refl;
              shown = refl;
              closed = refl;
              final = inl refl;
              named = refl;
              identified = refl;
              owned = refl;
              policy_counted = rw (tally-sends policy_outcome engine.producer _ _ refl);
              provider_counted = rw (tally-sends provider_outcome engine.producer _ _ refl);
              provider_called =
                  rw (tally-sends is_enrichment engine.producer _ _ refl) (omega arith);
              well_placed = rw (tally-sends is_misplaced engine.producer _ _ refl);
              later = _ ∷ _ ∷ [];
              earlier = _;
              sent_off = refl;
              sent_last = refl;
              story = _;
              told =
                  ends (provider_final "completed" "approved" hash (some a.output_hash) c.name) _
                    (notes _ _ _ (judged_Story host engine request w₀ context));
            })
