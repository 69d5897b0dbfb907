-- ===== src/Workflow/Engine/Ended.antt =====
-- An allowed request whose attempt raises: the end that it comes to.
use infra_steward_gateway.Core.{
  [], ◌∷◌, ℕ, ◌+◌, String, ◌≡◌, inl, inr, refl, true, none, List, arith,
}
use infra_steward_gateway.Dict.{lookup, update, keys}
use infra_steward_gateway.Exec.{Exc, ok}
use infra_steward_gateway.Runtime.{Host}
use infra_steward_gateway.Metrics.{is_misplaced}
use infra_steward_gateway.World.{World, Call}
use infra_steward_gateway.Tenants.{TenantContext, resolve}
use infra_steward_gateway.Providers.Base.{Provider, FallbackStrategy, fail_closed, drop_and_signal}
use infra_steward_gateway.Providers.Registry.{get}
use infra_steward_gateway.Evidence.Models.{EvidenceRecord}
use infra_steward_gateway.Evidence.Service.Journal.{Command}
use infra_steward_gateway.Evidence.Service.Story.{Story, notes, ends, open_record}
use infra_steward_gateway.Workflow.RequestMetadata.{Request}
use infra_steward_gateway.Workflow.Setup.{WorkflowEngine}
use infra_steward_gateway.Workflow.Messages.{required_tenant}
use infra_steward_gateway.Workflow.Engine.{sha256_hash, strategy_of, process_report}
use infra_steward_gateway.Workflow.Endings.{provider_final}
use infra_steward_gateway.Workflow.Engine.Steps.{At}
use infra_steward_gateway.Workflow.Engine.Judged.{new_run, new_decision, judged_record, judged_time}
use infra_steward_gateway.Workflow.Engine.Outcome.{
  Routing, AttemptFails, raised, unhashable, keyless, left_record, left_time, left_calls,
  failed_record, fallen_record, fallen_calls, fallen_response,
}
use infra_steward_gateway.Workflow.Engine.Processed.{process_fallen, routing, routed_calls}
use infra_steward_gateway.Workflow.Engine.Account.{
  tally, is_enrichment, policy_outcome, provider_outcome, tally-sends, Answer, Account, answered,
  Account-of, judged_Story, response_keys,
}

module _ (host : Host) (w₀ : World) where
  module _ (engine : WorkflowEngine) (request : Request) where
    module _ (context : TenantContext) (name : String) (provider : Provider) (hash : String)
        (named : required_tenant request ≡ ok name) (resolved : resolve host name ≡ ok context)
        (allowed : (new_decision host engine request w₀ context).allowed ≡ true)
        (hashed : sha256_hash host (new_run host engine request w₀ context).payload ≡ ok hash)
        (registered : get host engine.provider_registry
            (new_decision host engine request w₀ context).selected_provider
          ≡ ok provider) where
      abbrev c : Routing
      c = routing host engine request w₀ context name provider hash

      fallen-Answer :
          (x : Exc) (r : EvidenceRecord) (t : ℕ) (made : List Call)
          → r.request_id ≡ host.uuid4 w₀.draws
          → r.tenant_id ≡ context.tenant_id
          → tally policy_outcome made ≡ 1
          → tally provider_outcome made ≡ 0
          → tally is_enrichment made ≡ 1
          → tally is_misplaced made ≡ 0
          → {cs : List Command} → Story host (host.uuid4 w₀.draws) cs open_record r
          → (s : FallbackStrategy) (w : World)
          → At w₀ w₀.evidence.next
              (fallen_record c r t made x s)
              (t + 1 + 1)
              (fallen_calls c r t made x s)
              w
          → Answer host w₀ engine.producer
              (update (new_run host engine request w₀ context).response (fallen_response c x s))
              w
      unfolding lookup update tally is_misplaced keys response_keys
      fallen-Answer x r t made id own p q n z told fail_closed w h = record {
        status = "blocked_provider_failure";
        left = _;
        time = _;
        made = _;
        at = h;
        request = id;
        shown = refl;
        closed = refl;
        final = inr (inr (inr refl));
        named = refl;
        identified = refl;
        owned = rw own;
        policy_counted = rw (tally-sends policy_outcome engine.producer _ made refl) p;
        provider_counted = rw (tally-sends provider_outcome engine.producer _ made refl, q) refl;
        provider_called =
            rw (tally-sends is_enrichment engine.producer _ made refl, n) (omega arith);
        well_placed = rw (tally-sends is_misplaced engine.producer _ made refl) z;
        later = _ ∷ _ ∷ [];
        earlier = _;
        sent_off = refl;
        sent_last = refl;
        story = _;
        told =
            ends
              (provider_final "blocked_provider_failure" "provider_failure_blocked" hash none
                c.name)
              _ (notes _ _ _ told);
      }
      fallen-Answer x r t made id own p q n z told drop_and_signal w h = record {
        status = "fallback";
        left = _;
        time = _;
        made = _;
        at = h;
        request = id;
        shown = refl;
        closed = refl;
        final = inr (inr (inl refl));
        named = refl;
        identified = refl;
        owned = rw own;
        policy_counted = rw (tally-sends policy_outcome engine.producer _ made refl) p;
        provider_counted = rw (tally-sends provider_outcome engine.producer _ made refl, q) refl;
        provider_called =
            rw (tally-sends is_enrichment engine.producer _ made refl, n) (omega arith);
        well_placed = rw (tally-sends is_misplaced engine.producer _ made refl) z;
        later = _ ∷ _ ∷ [];
        earlier = _;
        sent_off = refl;
        sent_last = refl;
        story = _;
        told =
            ends (provider_final "fallback" "provider_failure" hash none c.name) _
              (notes _ _ _ told);
      }

      -- What a failed attempt left, with the failure noted.
      abbrev left_at : {x : Exc} → AttemptFails c x → ℕ
      left_at =
          left_time c (judged_record host engine request w₀ context)
            (judged_time host engine request w₀ context)
            (routed_calls host engine request w₀ context name provider hash)

      abbrev made_by : {x : Exc} → AttemptFails c x → List Call
      made_by =
          left_calls c (judged_record host engine request w₀ context)
            (judged_time host engine request w₀ context)
            (routed_calls host engine request w₀ context name provider hash)

      abbrev noted : {x : Exc} → AttemptFails c x → EvidenceRecord
      noted {x} a =
          failed_record c
            (left_record c (judged_record host engine request w₀ context)
              (judged_time host engine request w₀ context)
              (routed_calls host engine request w₀ context name provider hash) a)
            (left_at a) (made_by a) x (strategy_of host engine provider)

      pub fallen-Account :
          {x : Exc}
          → AttemptFails c x
          → Account host w₀ engine.producer
              (process_report host engine request w₀).0
              (process_report host engine request w₀).1
      unfolding tally is_misplaced
      fallen-Account {x} a =
          Account-of host w₀ engine.producer (process_report host engine request)
            (process_fallen host engine request w₀ context name provider hash a named resolved
              allowed hashed registered)
            (by_failure a)
        where
          by_failure :
              (a : AttemptFails c x) (w : World)
              → At w₀ w₀.evidence.next
                  (fallen_record c
                    (noted a)
                    (left_at a + 1)
                    (made_by a)
                    x
                    (strategy_of host engine provider))
                  (left_at a + 1 + 1 + 1)
                  (fallen_calls c
                    (noted a)
                    (left_at a + 1)
                    (made_by a)
                    x
                    (strategy_of host engine provider))
                  w
              → Account host w₀ engine.producer
                  (ok (
                    update
                      (new_run host engine request w₀ context).response
                      (fallen_response c x (strategy_of host engine provider))))
                  w
          by_failure (raised e) w h = answered _ w (
              fallen-Answer x (noted (raised e)) (left_at (raised e) + 1) (made_by (raised e)) refl
                refl refl refl refl refl (notes _ _ _ (judged_Story host engine request w₀ context))
                _ w h)
          by_failure (unhashable v e f) w h = answered _ w (
              fallen-Answer x (noted (unhashable v e f)) (left_at (unhashable v e f) + 1)
                (made_by (unhashable v e f)) refl refl refl refl refl refl
                (notes _ _ _ (notes _ _ _ (judged_Story host engine request w₀ context))) _ w h)
          by_failure (keyless v o e f g) w h = answered _ w (
              fallen-Answer x (noted (keyless v o e f g)) (left_at (keyless v o e f g) + 1)
                (made_by (keyless v o e f g)) refl refl refl refl refl refl
                (notes _ _ _ (notes _ _ _ (judged_Story host engine request w₀ context))) _ w h)
