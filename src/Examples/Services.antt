-- ===== src/Examples/Services.antt =====
-- The theorems on the policy, the tenants, the registry and the event bus, at concrete values.
use infra_steward_gateway.Core.{◌≡◌, ◌≢◌, ◌↔◌, ◌⊎◌, refl, String, true, none, some, [], ◌∷◌}
use infra_steward_gateway.PyStr.{normalise, member, truthy}
use infra_steward_gateway.Dict.{lookup, insert}
use infra_steward_gateway.Exec.{ok, runtime_error}
use infra_steward_gateway.World.{initial}
use infra_steward_gateway.Tenants.{resolve, bank_beta}
use infra_steward_gateway.Tenants.Laws.{IsTenant, resolve-eq-ok_iff}
use infra_steward_gateway.Policy.{
  evaluate, policy_service, tenant_verdict, jurisdiction_verdict, jurisdiction_allowed,
  tenant_allowed_jurisdictions, PolicyService,
}
use infra_steward_gateway.Policy.Rules.{rules, beta_rule}
use infra_steward_gateway.Policy.Laws.{Decided, evaluate-Decided, evaluate_narrows}
use infra_steward_gateway.Providers.Registry.{get, find, register, new_registry}
use infra_steward_gateway.Providers.Registry.Laws.{get-register}
use infra_steward_gateway.Providers.Stubs.{stub_ai_provider_b}
use infra_steward_gateway.Workflow.Events.{
  EventHandler, EventBus, new_bus, subscribe, publish, handlers_of,
}
use infra_steward_gateway.Workflow.Events.Laws.{deliveries, deliveries-publish}
use infra_steward_gateway.Examples.{sample_host}

abbrev sample_service : PolicyService
sample_service = policy_service "v1"

beta_row : lookup (normalise "BANK_BETA") rules ≡ some beta_rule
unfolding lookup rules normalise
beta_row = refl

alpha_from_home : (evaluate sample_service "bank_alpha" none none (some "EU") 5).allowed ≡ true
unfolding evaluate tenant_verdict jurisdiction_verdict jurisdiction_allowed normalise lookup member
    tenant_allowed_jurisdictions
alpha_from_home = refl

evaluate-Decided_example :
    Decided sample_service "BANK_BETA" (some "analysis") (some "sensitive") (some "EU") 5 beta_rule
evaluate-Decided_example =
    evaluate-Decided sample_service "BANK_BETA" (some "analysis") (some "sensitive") (some "EU") 5
      beta_row

evaluate_narrows_example :
    evaluate sample_service "bank_alpha" none none (some "EU") 5
    ≡ evaluate sample_service "bank_alpha" none none none 5
evaluate_narrows_example =
    evaluate_narrows sample_service "bank_alpha" none none (some "EU") 5 alpha_from_home

resolve-eq-ok_iff_example : (resolve sample_host " Bank_Beta " ≡ ok bank_beta) ↔ (
    (truthy " Bank_Beta " ≡ true)
    × IsTenant bank_beta
    × (bank_beta.tenant_id ≡ normalise " Bank_Beta "))
resolve-eq-ok_iff_example = resolve-eq-ok_iff sample_host " Bank_Beta " bank_beta

registers_b :
    register "stub_b" (stub_ai_provider_b sample_host) (new_registry none)
    ≡ ok (record {
      providers = ("stub_b", stub_ai_provider_b sample_host) ∷ [];
      default_name = some "stub_b";
    })
unfolding register new_registry insert
registers_b = refl

abbrev name_b : String
name_b = "stub_b"

get-register_example :
    (some name_b ≡ some name_b)
    × ((get sample_host
            (record {
              providers = ("stub_b", stub_ai_provider_b sample_host) ∷ [];
              default_name = some "stub_b";
            })
            none
          ≡ ok (stub_ai_provider_b sample_host))
        ↔ (((name_b ≡ name_b) × (stub_ai_provider_b sample_host ≡ stub_ai_provider_b sample_host))
            ⊎ ((name_b ≢ name_b)
                × (find [] (some name_b) ≡ some (stub_ai_provider_b sample_host)))))
unfolding new_registry
get-register_example =
    get-register sample_host "stub_b" (stub_ai_provider_b sample_host) (new_registry none) _ none
      (stub_ai_provider_b sample_host) registers_b

-- A subscriber that raises, and one that returns.
abbrev failing : EventHandler
failing = record {
  name = "failing";
  reaction = λ p. some (record { class = runtime_error; message = "down" });
}

abbrev listening : EventHandler
listening = record { name = "listening"; reaction = λ p. none }

abbrev pub busy_bus : EventBus
busy_bus = subscribe "workflow.completed" listening (subscribe "workflow.completed" failing new_bus)

deliveries-publish_example :
    deliveries (publish busy_bus "workflow.completed" [] initial).trace
    ≡ ("listening", "workflow.completed", []) ∷ ("failing", "workflow.completed", []) ∷ []
unfolding handlers_of subscribe new_bus insert lookup deliveries
deliveries-publish_example = deliveries-publish busy_bus "workflow.completed" [] initial
