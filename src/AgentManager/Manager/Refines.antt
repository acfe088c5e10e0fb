-- ===== src/AgentManager/Manager/Refines.antt =====
-- The changes of a status in agent_manager/agent_manager.go, against a table of statuses.
use call_center.Prelude.{
  ℕ, ◌≡◌, refl, ap, ◌∙◌, String, Option, none, some, Option-cases, List, [], ◌∷◌, Bool, inl, inr,
  arith, ◌==◌, ==_iff, true, false, if◌then◌else◌, nat_key,
}
use mathlib.Core.Path.{fun_ext}
use call_center.Prelude.Int.{ℤ}
use call_center.Prelude.StringMap.{lookup, lookup-insert}
use call_center.Model.Agent.{Agent, AgentStatus, agent_status_online, create_agent_status}
use call_center.AgentManager.Agent.{store_status, set_on_demand}
use call_center.AgentManager.Manager.{
  Manager, Services, put_agent, set_agent_status, set_online, offline_status, pause_status,
  break_out_status,
}

-- The changes that the application asks for, of the agent at an address.
pub data Change : Type 0 where
  goes_online : ℕ → Bool → Change
  goes_offline : ℕ → Option String → Change
  pauses : ℕ → Option String → Option String → Change
  breaks_out : ℕ → Change

-- An address without an agent changes nothing.
abbrev on_agent : ℕ → (Agent → Manager → Manager) → Manager → Manager
on_agent p f s = elim (lookup p s.heap) [ none ↦ s | some a ↦ f a s ]

abbrev address : Change → ℕ
address (goes_online p on_demand) = p
address (goes_offline p sys) = p
address (pauses p payload comment) = p
address (breaks_out p) = p

unfoldable pub act : Services → ℤ → Change → Agent → Manager → Manager
unfolding set_online set_agent_status
act sv now (goes_online p on_demand) a s = (set_online sv on_demand p a s).0
act sv now (goes_offline p sys) a s = (set_agent_status sv now (offline_status sys) p a s).0
act sv now (pauses p payload comment) a s =
    (set_agent_status sv now (pause_status payload comment) p a s).0
act sv now (breaks_out p) a s = (set_agent_status sv now break_out_status p a s).0

unfoldable pub step : Services → ℤ → Change → Manager → Manager
unfolding lookup act
step sv now c s = on_agent (address c) (act sv now c) s

unfoldable pub run : Services → ℤ → List Change → Manager → Manager
unfolding step
run sv now [] s = s
run sv now (c ∷ cs) s = run sv now cs (step sv now c s)

-- The table: what each address has for an id, a status and its payload.
pub record Card : Type 0 where
  pub id : ℤ
  pub status : String
  pub payload : Option String

abbrev card_of : Option Agent → Option Card
card_of none = none
card_of (some a) =
    some (record {
      id = a.id;
      status = a.agent_status.status;
      payload = a.agent_status.status_payload;
    })

unfoldable pub view : Manager → ℕ → Option Card
unfolding lookup
view s q = card_of (lookup q s.heap)

abbrev accepts_status : Services → AgentStatus → ℤ → Bool
accepts_status sv status id = elim (sv.set_status id status) [ none ↦ true | some e ↦ false ]

abbrev accepts_online : Services → Bool → ℤ → Bool
accepts_online sv on_demand id = elim (sv.set_online id on_demand) [ inl e ↦ false | inr d ↦ true ]

-- A write to one row of the table, if the store accepts it for the row's id.
abbrev set_card : (ℤ → Bool) → String → Option String → Option Card → Option Card
set_card accepts status payload none = none
set_card accepts status payload (some c) =
    if accepts c.id then some (record c { status = status; payload = payload }) else some c

abbrev set_row : ℕ → (Option Card → Option Card) → (ℕ → Option Card) → ℕ → Option Card
set_row p f m q = if p == q then f (m q) else m q

unfoldable pub row : Services → Change → Option Card → Option Card
row sv (goes_online p on_demand) = set_card (accepts_online sv on_demand) "online" none
row sv (goes_offline p sys) = set_card (accepts_status sv (offline_status sys)) "offline" sys
row sv (pauses p payload comment) =
    set_card (accepts_status sv (pause_status payload comment)) "pause" payload
row sv (breaks_out p) = set_card (accepts_status sv break_out_status) "break_out" none

unfoldable pub spec_step : Services → Change → (ℕ → Option Card) → ℕ → Option Card
unfolding row
spec_step sv c m = set_row (address c) (row sv c) m

unfoldable pub spec_run : Services → List Change → (ℕ → Option Card) → ℕ → Option Card
unfolding spec_step
spec_run sv [] m = m
spec_run sv (c ∷ cs) m = spec_run sv cs (spec_step sv c m)

status-view :
    (sv : Services) (now : ℤ) (status : AgentStatus) (p : ℕ) (a : Agent) (s : Manager) (q : ℕ)
    → lookup p s.heap ≡ some a
    → view (set_agent_status sv now status p a s).0 q
      ≡ set_row p
          (set_card (accepts_status sv status) status.status status.status_payload)
          (view s)
          q
unfolding view set_agent_status put_agent store_status
status-view sv now status p a s q h =
    ground (arith, lookup-insert p q (store_status status a) s.heap, ==_iff p q)

online-view :
    (sv : Services) (on_demand : Bool) (p : ℕ) (a : Agent) (s : Manager) (q : ℕ)
    → lookup p s.heap ≡ some a
    → view (set_online sv on_demand p a s).0 q
      ≡ set_row p (set_card (accepts_online sv on_demand) "online" none) (view s) q
unfolding view set_online put_agent store_status set_on_demand create_agent_status
online-view sv on_demand p a s q h =
    let online =
      store_status (create_agent_status agent_status_online []) (set_on_demand on_demand a) in
    ground (arith, lookup-insert p q online s.heap, ==_iff p q)

unchanged :
    (p : ℕ) (g : Option Card → Option Card) (s : Manager) (q : ℕ)
    → g none ≡ none
    → lookup p s.heap ≡ none
    → view s q ≡ set_row p g (view s) q
unfolding view
unchanged p g s q z k = ground (arith, ==_iff p q, z)

-- A change of an agent that is there, or of none.
changed :
    (p : ℕ) (f : Agent → Manager → Manager) (g : Option Card → Option Card) (s : Manager) (q : ℕ)
    → g none ≡ none
    → ((a : Agent) → lookup p s.heap ≡ some a → view (f a s) q ≡ set_row p g (view s) q)
    → view (on_agent p f s) q ≡ set_row p g (view s) q
unfolding view
changed p f g s q z h = elim (Option-cases (lookup p s.heap)) [
  | inl k ↦ rw (k, on_agent) (unchanged p g s q z k)
  | inr (a, k) ↦ rw (k, on_agent) (h a k)
]

act-view :
    (sv : Services) (now : ℤ) (c : Change) (s : Manager) (q : ℕ) (a : Agent)
    → lookup (address c) s.heap ≡ some a
    → view (act sv now c a s) q ≡ set_row (address c) (row sv c) (view s) q
unfolding act row
act-view sv now (goes_online p on_demand) s q a h = online-view sv on_demand p a s q h
act-view sv now (goes_offline p sys) s q a h = status-view sv now (offline_status sys) p a s q h
act-view sv now (pauses p payload comment) s q a h =
    status-view sv now (pause_status payload comment) p a s q h
act-view sv now (breaks_out p) s q a h = status-view sv now break_out_status p a s q h

row-none : (sv : Services) (c : Change) → row sv c none ≡ none
unfolding row
row-none sv (goes_online p on_demand) = refl
row-none sv (goes_offline p sys) = refl
row-none sv (pauses p payload comment) = refl
row-none sv (breaks_out p) = refl

step-view :
    (sv : Services) (now : ℤ) (c : Change) (s : Manager) (q : ℕ)
    → view (step sv now c s) q ≡ spec_step sv c (view s) q
unfolding step spec_step
step-view sv now c s q =
    changed (address c) (act sv now c) (row sv c) s q (row-none sv c) (act-view sv now c s q)

-- Every sequence of changes, each accepted or refused by the store, does to the agents what it does to
-- a table of ids, statuses and payloads in which each accepted change writes its one row.
pub run-view :
    (sv : Services) (now : ℤ) (cs : List Change) (s : Manager)
    → view (run sv now cs s) ≡ spec_run sv cs (view s)
unfolding run spec_run
run-view sv now [] s = refl
run-view sv now (c ∷ cs) s =
    run-view sv now cs (step sv now c s) ∙ ap (spec_run sv cs) (fun_ext λ q. step-view sv now c s q)
