-- ===== src/Model/Maps.antt =====
-- model/utils.go, `UnionStringMaps`: a union of maps in which a later entry wins, and entries with
-- an empty key or value are left out.
use call_center.Prelude.{
  String, ◌||◌, Option, none, some, List, [], ◌∷◌, if◌then◌else◌, ◌==s◌, ==s_iff, string_key, ◌≡◌,
  refl, arith,
}
use call_center.Prelude.StringMap.{lookup, insert, lookup-insert}

abbrev pub StringMap : Type 0
StringMap = List (String × String)

-- The inner loop, over one map.
unfoldable pub add_all : StringMap → StringMap → StringMap
add_all res [] = res
add_all res ((k, v) ∷ m) = add_all (if k ==s "" || v ==s "" then res else insert k v res) m

unfoldable pub union_from : StringMap → List StringMap → StringMap
union_from res [] = res
union_from res (m ∷ ms) = union_from (add_all res m) ms

unfoldable pub union_string_maps : List StringMap → StringMap
unfolding union_from add_all
union_string_maps src = union_from [] src

-- A map as Go has it: each key once.
abbrev pub IsMap : StringMap → Type 0
IsMap [] = Unit
IsMap ((k, v) ∷ m) = (lookup k m ≡ none) × IsMap m

-- What an entry gives, if it is not left out.
abbrev pub kept : String → Option String → Option String
kept k none = none
kept k (some v) = if k ==s "" || v ==s "" then none else some v

abbrev pub or_else {ℓ} : {A : Type ℓ} → Option A → Option A → Option A
or_else (some a) o = some a
or_else none o = o

lookup-add_all :
    (j : String) (res m : StringMap)
    → IsMap m
    → lookup j (add_all res m) ≡ or_else (kept j (lookup j m)) (lookup j res)
unfolding add_all lookup
lookup-add_all j res [] d = refl
lookup-add_all j res ((k, v) ∷ m) d = ground (
  arith,
  ==s_iff k j,
  lookup-add_all j (if k ==s "" || v ==s "" then res else insert k v res) m d.1,
  lookup-insert k j v res,
)

-- The value of a key by the last map that has one that is kept.
abbrev pub last_kept : String → Option String → List StringMap → Option String
last_kept j before [] = before
last_kept j before (m ∷ ms) = last_kept j (or_else (kept j (lookup j m)) before) ms

abbrev pub AllMaps : List StringMap → Type 0
AllMaps [] = Unit
AllMaps (m ∷ ms) = IsMap m × AllMaps ms

lookup-union_from :
    (j : String) (res : StringMap) (ms : List StringMap)
    → AllMaps ms
    → lookup j (union_from res ms) ≡ last_kept j (lookup j res) ms
unfolding union_from
lookup-union_from j res [] d = refl
lookup-union_from j res (m ∷ ms) d =
    rw (← lookup-add_all j res m d.0) (lookup-union_from j (add_all res m) ms d.1)

-- A key of the union has the value of the last of the maps that gives it one that is kept, where
-- each map holds a key once.
pub lookup-union_string_maps :
    (j : String) (ms : List StringMap)
    → AllMaps ms
    → lookup j (union_string_maps ms) ≡ last_kept j none ms
unfolding union_string_maps lookup
lookup-union_string_maps j ms d = lookup-union_from j [] ms d
