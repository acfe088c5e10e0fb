-- ===== src/Queue/Attempt/Rules.antt =====
-- What the flow after a distribution is told, and what its answer changes (queue/attempt.go and
-- queue/schema.go).
use call_center.Prelude.{
  String, Option, none, some, List, [], ◌∷◌, Bool, true, false, ◌≡◌, refl, sym, subst, arith,
  if◌then◌else◌, ◌==s◌, ==s_iff, string_key, ◌||◌,
}
use call_center.Prelude.Int.{ℤ}
use call_center.Prelude.Fmt.{show_int}
use call_center.Prelude.StringMap.{lookup, insert, lookup-insert}
use call_center.Model.Maps.{
  StringMap, IsMap, add_all, union_from, union_string_maps, lookup-union_string_maps,
}
use call_center.Model.Agent.{Agent}
use call_center.Model.Member.{SchemaResult}
use call_center.AgentManager.Agent.{insert_some}
use call_center.Queue.State.{Attempt, BaseQueue, Channel, Effect, World}
use call_center.Queue.Attempt.{result}
use call_center.Queue.Attempt.Variables.{
  copy_into, insert_int, insert_if, insert_text, with_member, with_objects, with_agent, with_queue,
  with_member_channel, schema_maps, export_schema_variables,
}
use call_center.Queue.Attempt.Schema.{
  after_request, channel_variables, channel_result, scope, ask_flow, apply_answer,
  after_distribute_schema, FlowResult,
}

-- Every map that is built by writes holds each key once.
insert-IsMap : (k v : String) (m : StringMap) → IsMap m → IsMap (insert k v m)
unfolding insert lookup
insert-IsMap k v [] d = (refl, tt)
insert-IsMap k v ((j, w) ∷ m) d =
    ground (arith, ==s_iff j k, ==s_iff k j, lookup-insert k j v m, insert-IsMap k v m d.1)

insert_some-IsMap :
    (k : String) (o : Option String) (m : StringMap) → IsMap m → IsMap (insert_some k o m)
insert_some-IsMap k none m d = d
insert_some-IsMap k (some v) m d = insert-IsMap k v m d

insert_int-IsMap : (k : String) (o : Option ℤ) (m : StringMap) → IsMap m → IsMap (insert_int k o m)
insert_int-IsMap k none m d = d
insert_int-IsMap k (some v) m d = insert-IsMap k (show_int v) m d

insert_if-IsMap : (c : Bool) (k v : String) (m : StringMap) → IsMap m → IsMap (insert_if c k v m)
insert_if-IsMap true k v m d = insert-IsMap k v m d
insert_if-IsMap false k v m d = d

insert_text-IsMap : (k v : String) (m : StringMap) → IsMap m → IsMap (insert_text k v m)
insert_text-IsMap k v m d = ground (arith, insert-IsMap k v m d)

copy_into-IsMap : (dst src : StringMap) → IsMap dst → IsMap (copy_into dst src)
unfolding copy_into
copy_into-IsMap dst [] d = d
copy_into-IsMap dst ((k, v) ∷ src) d = copy_into-IsMap (insert k v dst) src (insert-IsMap k v dst d)

add_all-IsMap : (res m : StringMap) → IsMap res → IsMap (add_all res m)
unfolding add_all
add_all-IsMap res [] d = d
add_all-IsMap res ((k, v) ∷ m) d =
    add_all-IsMap (if k ==s "" || v ==s "" then res else insert k v res) m
      (ground (arith, insert-IsMap k v res d))

union_from-IsMap : (res : StringMap) (ms : List StringMap) → IsMap res → IsMap (union_from res ms)
unfolding union_from
union_from-IsMap res [] d = d
union_from-IsMap res (m ∷ ms) d = union_from-IsMap (add_all res m) ms (add_all-IsMap res m d)

union_string_maps-IsMap : (ms : List StringMap) → IsMap (union_string_maps ms)
unfolding union_string_maps
union_string_maps-IsMap ms = union_from-IsMap [] ms tt

with_agent-IsMap : (o : Option Agent) (m : StringMap) → IsMap m → IsMap (with_agent o m)
with_agent-IsMap none m d = d
with_agent-IsMap (some g) m d = search insert-IsMap

with_queue-IsMap : (o : Option BaseQueue) (m : StringMap) → IsMap m → IsMap (with_queue o m)
with_queue-IsMap none m d = d
with_queue-IsMap (some q) m d = search (insert-IsMap, insert_if-IsMap)

with_member_channel-IsMap :
    (o : Option Channel) (m : StringMap) → IsMap m → IsMap (with_member_channel o m)
with_member_channel-IsMap none m d = d
with_member_channel-IsMap (some c) m d = union_string_maps-IsMap _

schema_maps-IsMap : (a : Attempt) → IsMap (schema_maps a)
unfolding schema_maps
schema_maps-IsMap a = search (copy_into-IsMap)

with_member-IsMap : (now : ℤ) (a : Attempt) (m : StringMap) → IsMap m → IsMap (with_member now a m)
unfolding with_member
with_member-IsMap now a m d =
    search (insert-IsMap, insert_some-IsMap, insert_int-IsMap, insert_if-IsMap, insert_text-IsMap)
      depth 30

with_objects-IsMap : (a : Attempt) (m : StringMap) → IsMap m → IsMap (with_objects a m)
unfolding with_objects
with_objects-IsMap a m d =
    search
      (
        insert_some-IsMap, insert_int-IsMap, insert_text-IsMap, with_agent-IsMap, with_queue-IsMap,
        with_member_channel-IsMap,
      )
      depth 30

export_schema_variables-IsMap : (now : ℤ) (a : Attempt) → IsMap (export_schema_variables now a)
unfolding export_schema_variables
export_schema_variables-IsMap now a =
    with_objects-IsMap a _ (with_member-IsMap now a _ (schema_maps-IsMap a))

-- An attempt without a result that had a channel of its member.
pub record IsOpen (q : BaseQueue) (schema : ℤ) (m : Channel) (a : Attempt) : Type 0 where
  pub asked : q.after_schema_id ≡ some schema
  pub there : a.member_channel ≡ some m
  pub no_result : result a ≡ ""
  pub queue_map : IsMap q.variables
  pub stats_map : IsMap m.stats

channel_variables-result :
    (q : BaseQueue) (schema : ℤ) (m : Channel) (a : Attempt)
    → IsOpen q schema m a
    → channel_variables a ≡ insert "cc_result" (channel_result a.agent_channel m) m.stats
unfolding channel_variables
channel_variables-result q schema m a o = ground (arith, ==s_iff (result a) "")

-- What the flow is told as the result, by who answered.
abbrev pub told_result : Option Channel → Channel → String
told_result none m = if m.answered then "abandoned" else "failed"
told_result (some g) m =
    if m.answered then if g.answered then "success" else "abandoned" else "failed"

channel_result-told_result :
    (g : Option Channel) (m : Channel) → channel_result g m ≡ told_result g m
unfolding channel_result
channel_result-told_result none m = refl
channel_result-told_result (some g) m = ground arith

filled :
    (m g : Bool) → ((if m then if g then "success" else "abandoned" else "failed") ==s "") ≡ false
filled true true = refl
filled true false = refl
filled false g = refl

told_result-filled : (g : Option Channel) (m : Channel) → (told_result g m ==s "") ≡ false
told_result-filled none m = filled m.answered false
told_result-filled (some g) m = filled m.answered g.answered

union-last :
    (x e m : StringMap) (v : String)
    → IsMap x
    → IsMap e
    → IsMap m
    → (v ==s "") ≡ false
    → lookup "cc_result" (union_string_maps (x ∷ e ∷ insert "cc_result" v m ∷ [])) ≡ some v
union-last x e m v dx de dm h = ground (
  arith,
  lookup-union_string_maps "cc_result" (x ∷ e ∷ insert "cc_result" v m ∷ [])
      (dx, (de, (insert-IsMap "cc_result" v m dm, tt))),
  lookup-insert "cc_result" "cc_result" v m,
  ==s_iff "cc_result" "cc_result",
)

after_request_lem :
    (now : ℤ) (q : BaseQueue) (schema : ℤ) (m : Channel) (a : Attempt)
    → IsOpen q schema m a
    → (scope : Option (String × String)) × (vars : StringMap) × (after_request now q a
        ≡ some (Effect.result_schema schema scope vars))
      × (lookup "cc_result" vars ≡ some (told_result a.agent_channel m))
unfolding after_request
after_request_lem now q schema m a o = (
  scope a,
  union_string_maps (
      q.variables
      ∷ export_schema_variables now a
      ∷ insert "cc_result" (told_result a.agent_channel m) m.stats
      ∷ []),
  ground (
    arith,
    o.asked,
    channel_variables-result q schema m a o,
    channel_result-told_result a.agent_channel m,
  ),
  union-last q.variables (export_schema_variables now a) m.stats (told_result a.agent_channel m)
      o.queue_map (export_schema_variables-IsMap now a) o.stats_map
      (told_result-filled a.agent_channel m),
)

ask_flow-effects :
    (flow : Effect → Option FlowResult) (req : Effect) (w : World)
    → (ask_flow flow req w).0.effects ≡ req ∷ w.effects
unfolding ask_flow apply_answer
ask_flow-effects flow req w = ground arith

asks :
    (flow : Effect → Option FlowResult) (now : ℤ) (q : BaseQueue) (req : Effect) (w : World)
    → w.attempt.queue ≡ some q
    → after_request now q w.attempt ≡ some req
    → (after_distribute_schema flow now w).0.effects ≡ req ∷ w.effects
unfolding after_distribute_schema
asks flow now q req w h k =
    subst
      (λ o.
        (elim o as (λ _. World × Option SchemaResult) [
          | none ↦ (w, none)
          | some p ↦ elim (after_request now p w.attempt) as (λ _. World × Option SchemaResult) [
            | none ↦ (w, none)
            | some r ↦ ask_flow flow r w
          ]
        ]).0.effects
        ≡ req ∷ w.effects)
      (sym h)
      (subst
        (λ o.
          (elim o as (λ _. World × Option SchemaResult) [
            | none ↦ (w, none)
            | some r ↦ ask_flow flow r w
          ]).0.effects
          ≡ req ∷ w.effects)
        (sym k) (ask_flow-effects flow req w))

-- `AfterDistributeSchema` of an attempt without a result that had a channel of its member, and whose
-- queue has a schema: the flow is asked once, whatever it answers, and is told as the result: a success
-- exactly if the member's channel and the agent's were both answered, an abandonment if only the
-- member's was, else a failure. No variable of the queue, of the attempt or of the channel hides
-- this, where the variables of the queue and of the channel hold each key once.
pub after_distribute_schema-told_result :
    (flow : Effect → Option FlowResult) (now : ℤ) (q : BaseQueue) (schema : ℤ) (m : Channel)
    (w : World)
    → w.attempt.queue ≡ some q
    → IsOpen q schema m w.attempt
    → (scope : Option (String × String)) × (vars : StringMap) × ((after_distribute_schema flow now
          w).0.effects
        ≡ Effect.result_schema schema scope vars ∷ w.effects)
      × (lookup "cc_result" vars ≡ some (told_result w.attempt.agent_channel m))
after_distribute_schema-told_result flow now q schema m w h o =
    let (at, vars, req, told) = after_request_lem now q schema m w.attempt o in
    (at, vars, asks flow now q (Effect.result_schema schema at vars) w h req, told)
