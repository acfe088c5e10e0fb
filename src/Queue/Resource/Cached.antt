-- ===== src/Queue/Resource/Cached.antt =====
-- When `Get` of queue/resource_manager.go asks the store.
use call_center.Prelude.Int.{int_key}
use call_center.Queue.Resource.{Resource}
