-- ===== src/Queue/Resource.antt =====
-- queue/resource.go, `SetResourceError` and `SetResourceSuccessful` of queue/queue_manager.go, and
-- `RemoveFromCacheById` of queue/resource_manager.go. The rate limiter of `Take` is package
-- golang.org/x/time, and the random choice of `GetDisplay` is an argument.
pub mod Mask
pub mod Errors
pub mod Manager
pub mod Cached
mod Tests
use call_center.Prelude.{
  ℕ, suc, ◌+◌, String, Option, none, some, List, [], ◌∷◌, Bool, true, false, not, ◌||◌, ltb, ◌==◌,
  length, get_elem?, if◌then◌else◌,
}
use call_center.Prelude.Int.{ℤ, pos, ◌==ℤ◌, int_key}
use call_center.Model.{AppError, new_app_error}
use call_center.Model.Maps.{StringMap, union_string_maps}
use call_center.Model.Resource.{
  Runes, OutboundResource, SipGateway, ResourceErrorResult, gateway_variables,
}
use call_center.Lru.{Cache, remove}

abbrev pub mask_char_upper : ℕ
mask_char_upper = 88

abbrev pub mask_char_lower : ℕ
mask_char_lower = 120

-- The rate limiter is there if `rps` is not 0; the logger and the mutex are left out.
pub record Resource : Type 0 where
  pub id : ℤ
  pub updated_at : ℤ
  pub name : String
  pub rps : ℕ
  pub limited : Bool
  pub variables : StringMap
  pub display_numbers : List String
  pub error_ids : Option (List Runes)
  pub successively_errors : ℕ
  pub max_successively_errors : ℕ
  pub gateway : SipGateway

unfoldable pub new_resource : OutboundResource → SipGateway → Resource
new_resource config gw = record {
  id = config.id;
  updated_at = config.updated_at;
  name = config.name;
  rps = config.rps;
  limited = ltb 0 config.rps;
  variables = config.variables;
  display_numbers = config.display_numbers;
  error_ids = config.error_ids;
  successively_errors = config.successively_errors;
  max_successively_errors = config.max_successively_errors;
  gateway = record gw {
    ignore_early_media = config.parameters.ignore_early_media;
    sip_cid_type = config.parameters.sip_cid_type;
  };
}

-- `pick` is what `rand.Intn` gives, less than the number of the display numbers.
unfoldable pub get_display : ℕ → Resource → String
get_display pick r = elim (get_elem? r.display_numbers pick) [ some d ↦ d | none ↦ "" ]

unfoldable pub is_expire : ℤ → Resource → Bool
is_expire updated_at r = not (r.updated_at ==ℤ updated_at)

unfoldable pub set_successively_errors : ℕ → Resource → Resource
set_successively_errors se r = record r { successively_errors = se }

unfoldable pub resource_variables : Resource → StringMap
unfolding union_string_maps gateway_variables
resource_variables r = union_string_maps (r.variables ∷ gateway_variables r.gateway ∷ [])

-- `Take`: `wait` is how the rate limiter's `Wait` ends, with the text of its error.
unfoldable pub take : Option String → Resource → Option AppError
unfolding new_app_error
take wait r = elim r.limited [
  | false ↦ none
  | true ↦ elim wait [
    | none ↦ none
    | some e ↦ some (new_app_error "queue" "queue.take.cancelled" e (pos 503))
  ]
]

-- How many bytes UTF-8 takes for a rune; `len` of a text counts bytes, `range` steps by them.
unfoldable pub rune_bytes : ℕ → ℕ
rune_bytes c = if ltb c 128 then 1 else if ltb c 2048 then 2 else if ltb c 65536 then 3 else 4

unfoldable pub byte_length : Runes → ℕ
unfolding rune_bytes
byte_length [] = 0
byte_length (c ∷ cs) = rune_bytes c + byte_length cs

-- The loop of `checkCodeMask` from the byte i on; none is a panic of the index out of range.
unfoldable pub mask_loop : ℕ → Runes → Runes → Option Bool
unfolding rune_bytes
mask_loop i [] code = some false
mask_loop i (v ∷ vs) code =
    let rest = mask_loop (i + rune_bytes v) vs code in
    if v == mask_char_upper || v == mask_char_lower
    then rest
    else elim (get_elem? code i) [ none ↦ none | some c ↦ if v == c then rest else some true ]

unfoldable pub check_code_mask : Runes → Runes → Option Bool
unfolding byte_length mask_loop
check_code_mask mask code =
    if byte_length mask == length code then mask_loop 0 mask code else some false

-- The loop over the masks.
unfoldable pub check_masks : List Runes → Runes → Option Bool
check_masks [] code = some false
check_masks (m ∷ ms) code =
    let rest = check_masks ms code in
    elim (check_code_mask m code) [ none ↦ none | some b ↦ if not b then some true else rest ]

unfoldable pub check_code_error : Resource → Runes → Option Bool
unfolding check_masks
check_code_error r code =
    if ltb r.max_successively_errors 1
    then some false
    else elim r.error_ids [ none ↦ some false | some ms ↦ check_masks ms code ]

-- The table of resources in the store, as far as it is written here.
pub data StoreCall : Type 0 where
  set_error : ℤ → Runes → StoreCall
  set_successively_errors_by_id : ℤ → StoreCall

-- The resource, the manager's cache, which holds the addresses of resources, and what was sent to the
-- store, the latest first.
pub record Desk : Type 0 where
  pub resource : Resource
  pub cache : Cache ℤ ℕ
  pub store : List StoreCall

unfoldable pub set_resource_successful : Desk → Desk
unfolding set_successively_errors
set_resource_successful d =
    if ltb 0 d.resource.successively_errors
    then record d {
      resource = set_successively_errors 0 d.resource;
      store = StoreCall.set_successively_errors_by_id d.resource.id ∷ d.store;
    }
    else d

-- `answer` is what the store gives for the error, none if it fails; none of the result is a panic.
unfoldable pub set_resource_error : Option ResourceErrorResult → Runes → Desk → Option Desk
unfolding set_resource_successful check_code_error remove
set_resource_error answer error_id d = elim (check_code_error d.resource error_id) [
  | none ↦ none
  | some false ↦ some (set_resource_successful d)
  | some true ↦
      let told = record d { store = StoreCall.set_error d.resource.id error_id ∷ d.store } in
      elim answer [
        | none ↦ some told
        | some r ↦ some (record told { cache = remove d.cache d.resource.id })
      ]
]
