-- ===== src/Gateway/Tests.antt =====
-- Requests of an agent, and the theorems of the gateway at them.
use xoc_api_aws.Base.{
  ℕ, String, ◌≡◌, refl, Bool, true, if◌then◌else◌, false, Option, none, some, List, [], ◌∷◌, arith,
}
use xoc_api_aws.Base.Tests.{eqb, leb}
use xoc_api_aws.Base.Text.{strip, upper}
use xoc_api_aws.Base.Value.{Value, dict_or_empty, dict, list, nil, text, num, field, end}
use xoc_api_aws.Base.Outcome.{ok}
use xoc_api_aws.Gateway.Schemas.{
  low, ToolContext, ToolRequest, ToolDefinition, allowed, read_only, normalize_role,
}
use xoc_api_aws.Gateway.Registry.{
  Registry, tool_registry, get_tool_definition, tenant_read_roles, lookup,
}
use xoc_api_aws.Gateway.Policy.{
  evaluate_tool_request, or_registered, has_ownership_argument, judge_arguments, judge_tool,
  judge_context, judge_access, judge_role,
}
use xoc_api_aws.Gateway.Executor.{execute, proceed, call, answer}
use xoc_api_aws.Gateway.Tools.{
  Stores, default_handlers, notifications_unread_count, allowed_arguments,
}
use xoc_api_aws.Gateway.Authorized.{IsAuthorized, allowed-IsAuthorized, authorized-allowed}
use xoc_api_aws.Gateway.Execution.{HasRun, found, execute-allowed, execute-quiet}
use xoc_api_aws.Gateway.Isolation.{SameReads, execute-isolated}
use xoc_api_aws.Gateway.Pages.{
  Page, pages_from, pages, IsScan, last, more, after_page, IsRun, pages_from-IsRun, scan-pages_from,
  unread_count, unread_count-IsScan, total_of,
}

abbrev operator : ToolContext
operator = record {
  tenant_id = some 1;
  effective_tenant_id = some 4;
  user_id = some 9;
  role = some "admin_xoc";
  delegation_active = true;
  request_id = none;
  source = "internal";
}

abbrev count_request : ToolRequest
count_request = record {
  tool_name = some "xoc.notifications.unread_count";
  arguments = dict end;
  request_id = some "r1";
}

-- A world that holds the unread notifications of tenant 4 and those of the other tenants.
abbrev stores : Stores (ℕ × ℕ)
stores = record {
  list_tenant_tickets = λ w tenant_id status limit. ok (list nil);
  get_ticket = λ w tenant_id ticket_id. ok (dict end);
  list_tenant_document_jobs = λ w tenant_id status limit. ok [];
  unread_count_for_user = λ w tenant_id user_id. ok (if eqb tenant_id 4 then w.0 else w.1);
  repr = λ v. "";
}

abbrev digest : String → String
digest s = s

abbrev definition : ToolDefinition
definition = record {
  name = "xoc.notifications.unread_count";
  description = "Read the authenticated user's unread notification count.";
  access_level = read_only;
  risk_level = low;
  allowed_roles = tenant_read_roles;
  requires_delegation_for_admin_xoc = true;
  handler_name = some "notifications.unread_count";
  enabled = true;
}

allowed_here : (evaluate_tool_request operator count_request none).decision ≡ allowed
unfolding evaluate_tool_request judge_arguments judge_tool judge_context judge_access judge_role
    get_tool_definition lookup normalize_role has_ownership_argument strip upper
allowed_here = refl

allowed-IsAuthorized_example :
    (d : ToolDefinition) × (or_registered none count_request.tool_name ≡ some d)
    × IsAuthorized operator count_request d
allowed-IsAuthorized_example = allowed-IsAuthorized operator count_request none allowed_here

authorized : IsAuthorized operator count_request definition
unfolding has_ownership_argument normalize_role strip upper
authorized = record {
  arguments = end;
  is_object = refl;
  owns_nothing = refl;
  known = refl;
  has_tenant = refl;
  has_user = refl;
  no_superadmin = refl;
  reads = refl;
  is_enabled = refl;
  may = refl;
  delegated = λ is_operator requires. refl;
}

authorized-allowed_example :
    (evaluate_tool_request operator count_request (some definition)).decision ≡ allowed
authorized-allowed_example =
    authorized-allowed operator count_request (some definition) definition refl authorized

registered : get_tool_definition (some " xoc.notifications.unread_count ") ≡ some definition
unfolding get_tool_definition lookup strip
registered = refl

runs :
    (execute digest tool_registry (default_handlers stores) operator count_request (3, 1)).0.status
    ≡ allowed
unfolding execute proceed call answer notifications_unread_count allowed_arguments
    evaluate_tool_request judge_arguments judge_tool judge_context judge_access judge_role
    get_tool_definition lookup normalize_role has_ownership_argument strip upper dict_or_empty
runs = refl

execute-allowed_example :
    (run : HasRun digest tool_registry
      (default_handlers stores)
      operator
      count_request
      (found digest tool_registry (default_handlers stores) operator count_request)
      (execute digest tool_registry (default_handlers stores) operator count_request (3, 1)).0
      (3, 1))
    × IsAuthorized operator count_request run.definition
execute-allowed_example =
    execute-allowed digest tool_registry (default_handlers stores) operator count_request (3, 1)
      runs

-- A registry whose only tool is switched off.
abbrev disabled : ToolDefinition
disabled = record definition { enabled = false }

abbrev disabled_registry : Registry
disabled_registry = (disabled.name, disabled) ∷ []

finds_disabled :
    found digest disabled_registry (default_handlers stores) operator count_request ≡ some disabled
unfolding lookup strip
finds_disabled = refl

switched_off :
    (o : Option ToolDefinition) (d : ToolDefinition)
    → o ≡ some disabled
    → or_registered o count_request.tool_name ≡ some d
    → d.enabled ≡ true
    → ⊥
switched_off none d e h k = cc
switched_off (some f) d e h k = cc

unauthorized :
    (d : ToolDefinition)
    → or_registered
        (found digest disabled_registry (default_handlers stores) operator count_request)
        count_request.tool_name
      ≡ some d
    → ¬ IsAuthorized operator count_request d
unauthorized d h a = switched_off _ d finds_disabled h a.is_enabled

execute-quiet_example :
    (execute digest disabled_registry (default_handlers stores) operator count_request (3, 1)).1
    ≡ (3, 1)
execute-quiet_example =
    execute-quiet digest disabled_registry (default_handlers stores) operator count_request (3, 1)
      unauthorized

same_unread :
    (tenant_id user_id : ℕ)
    → some 4 ≡ some tenant_id
    → stores.unread_count_for_user (3, 1) tenant_id user_id
      ≡ stores.unread_count_for_user (3, 8) tenant_id user_id
same_unread tenant_id user_id h = ground arith

same_reads : SameReads stores operator (3, 1) (3, 8)
same_reads = record {
  tickets = λ tenant_id status limit is_tenant high. refl;
  ticket = λ tenant_id ticket_id is_tenant. refl;
  documents = λ tenant_id status limit is_tenant high. refl;
  unread = λ tenant_id user_id is_tenant is_user. same_unread tenant_id user_id is_tenant;
}

execute-isolated_example :
    (execute digest tool_registry (default_handlers stores) operator count_request (3, 1)).0
    ≡ (execute digest tool_registry (default_handlers stores) operator count_request (3, 8)).0
execute-isolated_example =
    execute-isolated stores operator (3, 1) (3, 8) same_reads digest tool_registry count_request

-- Two pages: the first leads to the second.
abbrev first_page : Page
first_page = record { items = []; count = 2; last_evaluated_key = some (text "k") }

abbrev second_page : Page
second_page = record { items = []; count = 3; last_evaluated_key = none }

abbrev query : Option Value → Page
query none = first_page
query (some key) = second_page

abbrev never : ℕ → Bool
never i = false

two_pages : IsScan query never none (first_page ∷ second_page ∷ [])
two_pages = more refl refl (last refl refl)

scan-pages_from_example :
    pages_from query never 20 0 none ≡ record { pages = first_page ∷ second_page ∷ []; ends = true }
scan-pages_from_example =
    scan-pages_from query never 20 0 none (first_page ∷ second_page ∷ []) two_pages (omega arith)
      (λ i. refl)

-- The deadline passes before the second page.
abbrev from_third : ℕ → Bool
from_third i = leb 2 i

pages_from-IsRun_example : IsRun query from_third 20 0 none (first_page ∷ []) false
unfolding pages_from after_page
pages_from-IsRun_example = pages_from-IsRun query from_third 20 0 none

unread_count-IsScan_example :
    (ps : List Page) × IsScan query never none ps
    × (dict (field "count" (num 5) end) ≡ dict (field "count" (num (total_of query never ps)) end))
unfolding unread_count pages pages_from after_page allowed_arguments
unread_count-IsScan_example =
    unread_count-IsScan query never end (dict (field "count" (num 5) end)) refl
