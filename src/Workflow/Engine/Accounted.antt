-- ===== src/Workflow/Engine/Accounted.antt =====
-- The end that each request comes to.
use infra_steward_gateway.Core.{
  [], ◌∷◌, String, ◌≡◌, inl, inr, refl, true, false, arith, Bool-cases,
}
use infra_steward_gateway.Dict.{lookup, update, keys}
use infra_steward_gateway.Exec.{ok}
use infra_steward_gateway.Runtime.{Host}
use infra_steward_gateway.World.{World}
use infra_steward_gateway.Tenants.{TenantContext, resolve}
use infra_steward_gateway.Providers.Registry.{get}
use infra_steward_gateway.Workflow.RequestMetadata.{Request}
use infra_steward_gateway.Workflow.Setup.{WorkflowEngine}
use infra_steward_gateway.Workflow.Messages.{required_tenant}
use infra_steward_gateway.Workflow.Engine.{sha256_hash, process_report}
use infra_steward_gateway.Workflow.Engine.Judged.{new_run, new_decision}
use infra_steward_gateway.Workflow.Engine.Processed.{
  process_unresolved, process_denied, process_unrouted, routing,
}
use infra_steward_gateway.Metrics.{is_misplaced}
use infra_steward_gateway.Workflow.Endings.{denied_final}
use infra_steward_gateway.Evidence.Service.Story.{ends}
use infra_steward_gateway.Workflow.Engine.Account.{
  tally, is_enrichment, policy_outcome, provider_outcome, tally-sends, Account, untouched,
  abandoned, answered, Account-of, judged_Story, response_keys,
}
use infra_steward_gateway.Workflow.Engine.Attempts.{Result-cases, attempt_cases}
use infra_steward_gateway.Workflow.Engine.Completed.{completed-Account}
use infra_steward_gateway.Workflow.Engine.Ended.{fallen-Account}

module _ (host : Host) (w₀ : World) where
  module _ (engine : WorkflowEngine) (request : Request) where
    denied-Account :
        (context : TenantContext) (name : String)
        → required_tenant request ≡ ok name
        → resolve host name ≡ ok context
        → (new_decision host engine request w₀ context).allowed ≡ false
        → Account host w₀ engine.producer
            (process_report host engine request w₀).0
            (process_report host engine request w₀).1
    unfolding lookup update tally is_misplaced keys response_keys
    denied-Account context name named resolved denied =
        Account-of host w₀ engine.producer (process_report host engine request)
          (process_denied host engine request w₀ context name named resolved denied)
          λ w h. answered _ w (record {
            status = "blocked";
            left = _;
            time = _;
            made = _;
            at = h;
            request = refl;
            shown = refl;
            closed = refl;
            final = inr (inl refl);
            named = refl;
            identified = refl;
            owned = refl;
            policy_counted = rw (tally-sends policy_outcome engine.producer _ _ refl);
            provider_counted = rw (tally-sends provider_outcome engine.producer _ _ refl);
            provider_called = rw (tally-sends is_enrichment engine.producer _ _ refl) (omega arith);
            well_placed = rw (tally-sends is_misplaced engine.producer _ _ refl);
            later = _ ∷ [];
            earlier = _;
            sent_off = refl;
            sent_last = refl;
            story = _;
            told = ends denied_final _ (judged_Story host engine request w₀ context);
          })

    allowed-Account :
        (context : TenantContext) (name : String)
        → required_tenant request ≡ ok name
        → resolve host name ≡ ok context
        → (new_decision host engine request w₀ context).allowed ≡ true
        → Account host w₀ engine.producer
            (process_report host engine request w₀).0
            (process_report host engine request w₀).1
    unfolding tally is_misplaced
    allowed-Account context name named resolved allowed =
        elim (Result-cases (sha256_hash host (new_run host engine request w₀ context).payload)) [
          | inr (x, e) ↦
              Account-of host w₀ engine.producer (process_report host engine request)
                (process_unrouted host engine request w₀ context name x named resolved allowed
                  (inl e))
                λ w h.
                  abandoned x _ _ _ w h refl refl refl refl _
                    (judged_Story host engine request w₀ context)
          | inl (hash, hashed) ↦
              elim (Result-cases (
                get host engine.provider_registry
                  (new_decision host engine request w₀ context).selected_provider)) [
                    | inr (x, e) ↦
                        Account-of host w₀ engine.producer (process_report host engine request)
                          (process_unrouted host engine request w₀ context name x named resolved
                            allowed (inr (hash, hashed, e)))
                          λ w h.
                            abandoned x _ _ _ w h refl refl refl refl _
                              (judged_Story host engine request w₀ context)
                    | inl (provider, registered) ↦
                        elim (attempt_cases
                          (routing host engine request w₀ context name provider hash)) [
                            | inl a ↦
                                completed-Account host w₀ engine request context name provider hash
                                  named resolved allowed hashed registered a
                            | inr (x, a) ↦
                                fallen-Account host w₀ engine request context name provider hash
                                  named resolved allowed hashed registered a
                          ]
                  ]
        ]

    -- Every request, in every state, comes to one of the three ends.
    pub process-Account :
        Account host w₀ engine.producer
          (process_report host engine request w₀).0
          (process_report host engine request w₀).1
    unfolding tally is_misplaced
    process-Account = elim (Result-cases (required_tenant request)) [
      | inr (x, e) ↦
          Account-of host w₀ engine.producer (process_report host engine request)
            (process_unresolved host engine request w₀ x (inl e)) (untouched x)
      | inl (name, named) ↦ elim (Result-cases (resolve host name)) [
        | inr (x, e) ↦
            Account-of host w₀ engine.producer (process_report host engine request)
              (process_unresolved host engine request w₀ x (inr (name, named, e))) (untouched x)
        | inl (context, resolved) ↦
            elim (Bool-cases (new_decision host engine request w₀ context).allowed) [
              | inr denied ↦ denied-Account context name named resolved denied
              | inl allowed ↦ allowed-Account context name named resolved allowed
            ]
      ]
    ]
