-- ===== src/Queue/Resource/Tests.antt =====
-- The theorems on resources, at one that counts codes such as 5xx.
use call_center.Prelude.{◌≡◌, refl, none, some, [], ◌∷◌, Bool, true, false, arith}
use call_center.Prelude.Int.{ℤ, pos, int_key}
use call_center.Lru.{new_lru_with_params}
use call_center.Lru.Invariant.{Inv}
use call_center.Lru.Access.{run, run-new_lru-Inv}
use call_center.Lru.{Cache}
use call_center.Model.Resource.{Runes, SipGateway, OutboundResource}
use call_center.Queue.Resource.{Resource, Desk, check_code_error, new_resource, set_resource_error}
use call_center.Queue.Resource.Errors.{
  any_counts, Handled, check_code_error_lem, set_resource_error_lem,
}

-- "5XX", "503" and "487".
abbrev mask_5xx : Runes
mask_5xx = 53 ∷ 88 ∷ 88 ∷ []

abbrev code_503 : Runes
code_503 = 53 ∷ 48 ∷ 51 ∷ []

abbrev code_487 : Runes
code_487 = 52 ∷ 56 ∷ 55 ∷ []

abbrev gateway : SipGateway
gateway = record {
  id = pos 1;
  name = "gw";
  updated_at = pos 0;
  register = false;
  proxy = "proxy";
  host_name = some "host";
  user_name = none;
  account = none;
  password = none;
  domain_id = pos 1;
  use_bridge_answer_timeout = false;
  sip_cid_type = "";
  ignore_early_media = "";
}

abbrev config : OutboundResource
config = record {
  id = pos 7;
  name = "trunk";
  rps = 0;
  updated_at = pos 10;
  variables = [];
  display_numbers = "100" ∷ [];
  successively_errors = 1;
  max_successively_errors = 3;
  error_ids = some (mask_5xx ∷ []);
  gateway_id = pos 1;
  parameters = record { sip_cid_type = "pid"; ignore_early_media = "" };
}

resource : Resource
unfolding new_resource
resource = new_resource config gateway

check_code_error_example :
    check_code_error resource code_503 ≡ some (any_counts (mask_5xx ∷ []) code_503)
unfolding resource
check_code_error_example =
    check_code_error_lem resource (mask_5xx ∷ []) code_503 (omega arith) refl
      ((omega arith, (omega arith, (omega arith, tt))), tt)

-- "503" counts and "487" does not; a code of another length counts as well.
counts_503 : any_counts (mask_5xx ∷ []) code_503 ≡ true
counts_503 = refl

counts_487 : any_counts (mask_5xx ∷ []) code_487 ≡ false
counts_487 = refl

counts_48 : any_counts (mask_5xx ∷ []) (52 ∷ 56 ∷ []) ≡ true
counts_48 = refl

desk : Desk
desk = record { resource = resource; cache = new_lru_with_params 10 (pos 60); store = [] }

desk-Inv : Inv desk.cache
unfolding desk new_lru_with_params run
desk-Inv = run-new_lru-Inv 10 (pos 60) [] (omega arith)

set_resource_error_example :
    (u : Desk) × (counted : Bool) × (set_resource_error none code_503 desk ≡ some u)
    × (check_code_error desk.resource code_503 ≡ some counted)
    × Handled (pos 20) none counted code_503 desk u
set_resource_error_example = set_resource_error_lem (pos 20) none code_503 desk desk-Inv

-- An empty cache whose entries live for a minute.
empty_cache : Cache ℤ Resource
empty_cache = new_lru_with_params 10 (pos 60)
