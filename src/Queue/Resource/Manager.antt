-- ===== src/Queue/Resource/Manager.antt =====
-- `Get` of queue/resource_manager.go: a resource from the cache, if it is of the wanted version, or
-- else from the store. Nothing here changes a resource, so the cache holds them by value. Concurrent
-- loads share one request of package golang.org/x/sync/singleflight: `shared` is what it tells.
use call_center.Prelude.{ℕ, String, Option, none, some, Bool, if◌then◌else◌, ◌⊎◌, inl, inr}
use call_center.Prelude.Int.{ℤ, pos, int_key}
use call_center.Model.{AppError, new_app_error}
use call_center.Model.Resource.{OutboundResource, SipGateway}
use call_center.Lru.{Cache, get, add_with_default_expires, new_lru_with_params}
use call_center.Queue.Resource.{Resource, new_resource, is_expire}

-- How the load ends: the configuration and its gateway, the store's error, or another one.
pub data Load : Type 0 where
  loads : OutboundResource → SipGateway → Load
  store_error : AppError → Load
  other_error : String → Load

abbrev pub size_resources_cache : ℕ
size_resources_cache = 10000

abbrev pub expire_cache_item : ℤ
expire_cache_item = pos 86400

unfoldable pub new_resource_manager : Cache ℤ Resource
unfolding new_lru_with_params
new_resource_manager = new_lru_with_params size_resources_cache expire_cache_item

abbrev pub fresh : ℤ → Option Resource → Option Resource
fresh updated_at none = none
fresh updated_at (some r) = if is_expire updated_at r then none else some r

unfoldable pub load_resource :
    ℤ → Bool → Load → ℤ → Cache ℤ Resource → Cache ℤ Resource × (AppError ⊎ Resource)
unfolding new_resource new_app_error add_with_default_expires
load_resource now shared (loads config gw) id c =
    let r = new_resource config gw in
    (if shared then c else add_with_default_expires now c id r, inr r)
load_resource now shared (store_error e) id c = (c, inl e)
load_resource now shared (other_error e) id c =
    (c, inl (new_app_error "Queue" "queue.manager.resource.get" e (pos 500)))

unfoldable pub get_resource :
    ℤ → Bool → Load → ℤ → ℤ → Cache ℤ Resource → Cache ℤ Resource × (AppError ⊎ Resource)
unfolding get is_expire load_resource
get_resource now shared load id updated_at c =
    let (read, hit) = get now c id in
    elim (fresh updated_at hit) [
      | some r ↦ (read, inr r)
      | none ↦ load_resource now shared load id read
    ]
