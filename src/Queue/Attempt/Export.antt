-- ===== src/Queue/Attempt/Export.antt =====
-- What queue/attempt.go tells of an attempt: the variables of the member, and the map for a flow.
use call_center.Prelude.{
  String, Option, none, some, Option-cases, inl, inr, [], ◌∷◌, Bool, true, false, ◌≡◌, refl, ◌∙◌,
  arith, if◌then◌else◌, ◌==s◌, ==s_iff, string_key,
}
use call_center.Prelude.Int.{ℤ}
use call_center.Prelude.Fmt.{show_int}
use call_center.Prelude.StringMap.{lookup, insert, lookup-insert, lookup-delete}
use call_center.Model.Maps.{StringMap, IsMap, or_else}
use call_center.AgentManager.Agent.{insert_some}
use call_center.Model.Agent.{Agent}
use call_center.Queue.State.{Attempt, BaseQueue}
use call_center.Queue.Attempt.{result}
use call_center.Queue.Attempt.Variables.{
  copy_into, or_empty, get_variable, add_variables, remove_variable, insert_int, insert_if,
  insert_text, with_member, with_objects, with_agent, with_queue, schema_maps,
  export_schema_variables,
}

lookup-copy_into :
    (j : String) (dst src : StringMap)
    → IsMap src
    → lookup j (copy_into dst src) ≡ or_else (lookup j src) (lookup j dst)
unfolding copy_into lookup
lookup-copy_into j dst [] d = refl
lookup-copy_into j dst ((k, v) ∷ src) d =
    ground
      (arith, ==s_iff k j, lookup-copy_into j (insert k v dst) src d.1, lookup-insert k j v dst)

-- Variables that are added are read back and win over the old ones, which are read as before, where
-- the added ones hold each key once.
pub get_variable-add_variables :
    (name : String) (vars : StringMap) (a : Attempt)
    → IsMap vars
    → get_variable name (add_variables vars a) ≡ or_else (lookup name vars) (get_variable name a)
unfolding get_variable add_variables
get_variable-add_variables name vars a d =
    lookup-copy_into name (or_empty a.member.variables) vars d

-- A variable that is removed is not read any more, and every other is read as before.
pub get_variable-remove_variable :
    (name other : String) (a : Attempt)
    → get_variable other (remove_variable name a)
      ≡ (if name ==s other then none else get_variable other a)
unfolding get_variable remove_variable lookup
get_variable-remove_variable name other a = elim (Option-cases a.member.variables) [
  | inl e ↦ ground arith
  | inr (m, e) ↦ ground (arith, lookup-delete name other m)
]

insert-other :
    (k j v : String) (m : StringMap) → (k ==s j) ≡ false → lookup j (insert k v m) ≡ lookup j m
insert-other k j v m h = ground (arith, lookup-insert k j v m)

insert-same : (k v : String) (m : StringMap) → lookup k (insert k v m) ≡ some v
insert-same k v m = ground (arith, lookup-insert k k v m, ==s_iff k k)

insert_some-other :
    (k j : String) (o : Option String) (m : StringMap)
    → (k ==s j) ≡ false
    → lookup j (insert_some k o m) ≡ lookup j m
insert_some-other k j none m h = refl
insert_some-other k j (some v) m h = insert-other k j v m h

insert_int-other :
    (k j : String) (o : Option ℤ) (m : StringMap)
    → (k ==s j) ≡ false
    → lookup j (insert_int k o m) ≡ lookup j m
insert_int-other k j none m h = refl
insert_int-other k j (some v) m h = insert-other k j (show_int v) m h

insert_if-other :
    (c : Bool) (k j v : String) (m : StringMap)
    → (k ==s j) ≡ false
    → lookup j (insert_if c k v m) ≡ lookup j m
insert_if-other true k j v m h = insert-other k j v m h
insert_if-other false k j v m h = refl

insert_text-other :
    (k j v : String) (m : StringMap) → (k ==s j) ≡ false → lookup j (insert_text k v m) ≡ lookup j m
insert_text-other k j v m h = ground (arith, insert-other k j v m h)

insert_text-same :
    (k v : String) (m : StringMap)
    → lookup k (insert_text k v m) ≡ (if v ==s "" then lookup k m else some v)
insert_text-same k v m = ground (arith, insert-same k v m)

ruleset others = (
  arith, insert-other, insert-same, insert_some-other, insert_int-other, insert_if-other,
  insert_text-other,
)

lookup-with_member :
    (now : ℤ) (a : Attempt) (m : StringMap)
    → (lookup "attempt_id" (with_member now a m) ≡ some (show_int a.member.id))
      × (lookup "destination" (with_member now a m) ≡ some a.communication.destination)
      × (lookup "timestamp" (with_member now a m) ≡ some (show_int now))
unfolding with_member
lookup-with_member now a m = (simp others, simp others, simp others)

with_agent-other :
    (j : String) (o : Option Agent) (m : StringMap)
    → ("agent_name" ==s j) ≡ false
    → ("agent_id" ==s j) ≡ false
    → ("user_id" ==s j) ≡ false
    → ("agent_extension" ==s j) ≡ false
    → lookup j (with_agent o m) ≡ lookup j m
with_agent-other j none m n i u e = refl
with_agent-other j (some g) m n i u e = simp (others, n, i, u, e)

with_queue-other :
    (j : String) (o : Option BaseQueue) (m : StringMap)
    → ("queue_id" ==s j) ≡ false
    → ("use_processing" ==s j) ≡ false
    → ("queue_name" ==s j) ≡ false
    → lookup j (with_queue o m) ≡ lookup j m
with_queue-other j none m i p n = refl
with_queue-other j (some q) m i p n = simp (others, i, p, n)

ruleset objects = (others, with_agent-other, with_queue-other)

-- The names that only the member's channel could overwrite.
lookup-with_objects :
    (a : Attempt) (m : StringMap)
    → a.member_channel ≡ none
    → (lookup "attempt_id" (with_objects a m) ≡ lookup "attempt_id" m)
      × (lookup "destination" (with_objects a m) ≡ lookup "destination" m)
      × (lookup "timestamp" (with_objects a m) ≡ lookup "timestamp" m)
      × (lookup "cc_result" (with_objects a m)
          ≡ (if result a ==s "" then lookup "cc_result" m else some (result a)))
unfolding with_objects
lookup-with_objects a m c =
    rw c (simp objects, simp objects, simp objects, simp (objects, insert_text-same))

-- The map for a flow, of an attempt that has no channel of the member, tells the attempt's own id,
-- the number that is dialled and the time, whatever the variables of the member, of the callback and
-- of the form say under these names; and the result, once the attempt has one.
pub lookup-export_schema_variables :
    (now : ℤ) (a : Attempt)
    → a.member_channel ≡ none
    → let m = export_schema_variables now a in
      (lookup "attempt_id" m ≡ some (show_int a.member.id))
      × (lookup "destination" m ≡ some a.communication.destination)
      × (lookup "timestamp" m ≡ some (show_int now))
      × ((result a ==s "") ≡ false → lookup "cc_result" m ≡ some (result a))
unfolding export_schema_variables
lookup-export_schema_variables now a c =
    let (i, d, t) = lookup-with_member now a (schema_maps a) in
    let (i2, d2, t2, r) = lookup-with_objects a (with_member now a (schema_maps a)) c in
    (i2 ∙ i, d2 ∙ d, t2 ∙ t, λ h. r ∙ ground arith)
