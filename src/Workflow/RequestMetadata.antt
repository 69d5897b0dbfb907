-- ===== src/Workflow/RequestMetadata.antt =====
-- app/workflow/request_metadata.py
use infra_steward_gateway.Core.{String, Option, none, some}
use infra_steward_gateway.Value.{Value}

pub record RequestMetadata : Type 0 where
  pub request_id : String
  pub tenant_id : String
  pub scenario : Option String
  pub report_id : Option String
  pub report_type : Option String
  pub jurisdiction : Option String
  pub regime : Option String
  pub user_id : Option String

-- The body of a POST to /reports, after validation; the payload defaults to an empty dict there.
pub record ReportRequest : Type 0 where
  pub tenant_id : String
  pub scenario : Option String
  pub report_id : Option String
  pub report_type : Option String
  pub jurisdiction : Option String
  pub regime : Option String
  pub payload : Value

-- The dict that `process_report` reads. A key that is missing is `none`. `tenant_id` is read by `[]`;
-- the other texts by `.get`, for which a missing key and None are one; and the payload by `.get` with
-- an empty dict as its default, so that a payload of None is `some null`.
pub record Request : Type 0 where
  pub tenant_id : Option String
  pub scenario : Option String
  pub report_id : Option String
  pub report_type : Option String
  pub jurisdiction : Option String
  pub regime : Option String
  pub user_id : Option String
  pub payload : Option Value

-- `report_request.dict()`: the model has no `user_id`
unfoldable pub dict : ReportRequest → Request
dict r = record {
  tenant_id = some r.tenant_id;
  scenario = r.scenario;
  report_id = r.report_id;
  report_type = r.report_type;
  jurisdiction = r.jurisdiction;
  regime = r.regime;
  user_id = none;
  payload = some r.payload;
}
