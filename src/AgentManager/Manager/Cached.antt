-- ===== src/AgentManager/Manager/Cached.antt =====
-- `PutAgentCache`, `GetAgent` and `SetOnline` of agent_manager/agent_manager.go.
use call_center.Prelude.{
  ℕ, ◌≡◌, refl, Option, none, some, Option-cases, List, Bool, Bool-cases, true, false,
  if◌then◌else◌, ◌⊎◌, inl, inr, arith, ==_iff, nat_key, [], ◌∷◌,
}
use call_center.Prelude.Int.{ℤ, ltb_ℤ, ==ℤ_iff, int_key}
use call_center.Prelude.StringMap.{lookup, lookup-insert}
use call_center.Model.{AppError}
use call_center.Model.Agent.{Agent, create_agent_status, with_status_preset, agent_status_online}
use call_center.Lru.{get}
use call_center.AgentManager.Agent.{is_expire, store_status, set_on_demand}
use call_center.AgentManager.Manager.{
  AgentOnlineData, Services, Manager, not_older, is_fresh, kept, cached, add_agent, put_agent_cache,
  load_agent, get_agent, put_agent, set_online, event_of, online_changed, online_written,
}

-- The agent at an address, and what holds of it.
abbrev Gives : (Agent → Type 0) → Manager → ℕ → Type 0
Gives P s p = (b : Agent) × (lookup p s.heap ≡ some b) × P b

kept-Gives :
    (test : Agent → Bool) (heap : List (ℕ × Agent)) (o : Option ℕ) (p : ℕ)
    → kept test heap o ≡ some p
    → (b : Agent) × (lookup p heap ≡ some b) × (test b ≡ true)
unfolding kept
kept-Gives test heap none p h = ground arith
kept-Gives test heap (some q) p h = elim (Option-cases (lookup q heap)) [
  | inl k ↦ ground arith
  | inr (c, k) ↦ elim (Bool-cases (test c)) [ inl t ↦ (c, ground arith, t) | inr t ↦ ground arith ]
]

add_agent-Gives :
    (now id : ℤ) (a : Agent) (s : Manager)
    → lookup (add_agent now id a s).1 (add_agent now id a s).0.heap ≡ some a
unfolding add_agent
add_agent-Gives now id a s =
    ground (arith, lookup-insert s.next s.next a s.heap, ==_iff s.next s.next)

cached-Gives :
    (now id : ℤ) (test : Agent → Bool) (s : Manager) (p : ℕ)
    → (cached now id test s).1 ≡ some p
    → Gives (λ b. test b ≡ true) (cached now id test s).0 p
unfolding cached
cached-Gives now id test s p h = kept-Gives test s.heap _ p h

Gives-map :
    (P Q : Agent → Type 0) (s : Manager) (p : ℕ)
    → ((b : Agent) → P b → Q b)
    → Gives P s p
    → Gives Q s p
Gives-map P Q s p f (b, at, h) = (b, at, f b h)

newer : (a b : Agent) → not_older a b ≡ true → ltb_ℤ b.updated_at a.updated_at ≡ false
newer a b h = ground arith

fresh : (at : ℤ) (b : Agent) → is_fresh at b ≡ true → b.updated_at ≡ at
unfolding is_expire
fresh at b h = ground (arith, ==ℤ_iff b.updated_at at)

-- The agent that the cache has for an id.
pub record Has (now id : ℤ) (s : Manager) (c : Agent) : Type 0 where
  pub address : ℕ
  pub hit : (get now s.agents id).1 ≡ some address
  pub agent : lookup address s.heap ≡ some c

-- What the test says of the agent that the cache has.
hit-kept :
    (now id : ℤ) (test : Agent → Bool) (s : Manager) (c : Agent) (h : Has now id s c)
    → (cached now id test s).1 ≡ (if test c then some h.address else none)
unfolding cached kept
hit-kept now id test s c h = rw (h.hit) (rw (h.agent, kept) refl)

-- Of the agent's id, and not older than it nor than the agent that the cache had.
pub record Latest (now : ℤ) (a : Agent) (s : Manager) (b : Agent) : Type 0 where
  pub same_id : b.id ≡ a.id
  pub not_older_put : ltb_ℤ b.updated_at a.updated_at ≡ false
  pub not_older_had : (c : Agent) → Has now a.id s c → ltb_ℤ b.updated_at c.updated_at ≡ false

missed-older :
    (now : ℤ) (a : Agent) (s : Manager)
    → (cached now a.id (not_older a) s).1 ≡ none
    → (c : Agent) → Has now a.id s c
    → ltb_ℤ a.updated_at c.updated_at ≡ false
missed-older now a s m c h = ground (arith, m, hit-kept now a.id (not_older a) s c h)

-- The cache has one agent for an id.
same_age :
    (now id : ℤ) (s : Manager) (c d : Agent)
    → Has now id s c
    → Has now id s d
    → ltb_ℤ c.updated_at d.updated_at ≡ false
same_age now id s c d h k = ground (arith, h.hit, h.agent, k.hit, k.agent)

kept-Latest :
    (now : ℤ) (a : Agent) (s : Manager) (p : ℕ)
    → ((c : Agent) → Has now a.id s c → c.id ≡ a.id)
    → (cached now a.id (not_older a) s).1 ≡ some p
    → Gives (Latest now a s) (cached now a.id (not_older a) s).0 p
unfolding cached kept
kept-Latest now a s p own h = elim (Option-cases (get now s.agents a.id).1) [
  | inl m ↦ ground (arith, m)
  | inr (q, m) ↦ elim (Option-cases (lookup q s.heap)) [
    | inl k ↦ ground (arith, m, k)
    | inr (c, k) ↦
        let has : Has now a.id s c = record { address = q; hit = m; agent = k } in
        let test = hit-kept now a.id (not_older a) s c has in
        elim (Bool-cases (not_older a c)) [
          | inl t ↦ (
            c,
            ground (arith, test, h, t, k),
            record {
              same_id = own c has;
              not_older_put = newer a c t;
              not_older_had = λ d e. same_age now a.id s c d has e;
            },
          )
          | inr t ↦ ground (arith, test, h, t)
        ]
  ]
]

-- The agent that `PutAgentCache` answers, where the cache has under this id only agents of the id: it is of
-- the id, and it is neither older than the one that was put nor than the one that the cache had.
pub put_agent_cache_lem :
    (now : ℤ) (a : Agent) (s : Manager)
    → ((c : Agent) → Has now a.id s c → c.id ≡ a.id)
    → let (u, p) = put_agent_cache now a s in Gives (Latest now a s) u p
unfolding put_agent_cache
put_agent_cache_lem now a s own = elim (Option-cases (cached now a.id (not_older a) s).1) [
  | inl h ↦
      rw (h, put_agent_cache)
        (
          a,
          add_agent-Gives now a.id a (cached now a.id (not_older a) s).0,
          record {
            same_id = refl;
            not_older_put = ground arith;
            not_older_had = λ c k. missed-older now a s h c k;
          },
        )
  | inr (p, h) ↦ rw (h, put_agent_cache) (kept-Latest now a s p own h)
]

-- What `GetAgent` may answer: the store's error, or an agent of the wanted version, or the store's.
abbrev pub Answers : Services → ℤ → ℤ → Manager → AppError ⊎ ℕ → Type 0
Answers sv id at s (inl e) = sv.load id ≡ inl e
Answers sv id at s (inr p) = Gives (λ b. (b.updated_at ≡ at) ⊎ (sv.load id ≡ inr b)) s p

loaded-Answers :
    (sv : Services) (now id at : ℤ) (s : Manager) (r : AppError ⊎ Agent)
    → sv.load id ≡ r
    → let (u, found) = load_agent sv now id s in Answers sv id at u found
unfolding load_agent
loaded-Answers sv now id at s (inl e) h = rw (h, load_agent) h
loaded-Answers sv now id at s (inr a) h = rw (h, load_agent) (a, add_agent-Gives now id a s, inr h)

load_agent-Answers :
    (sv : Services) (now id at : ℤ) (s : Manager)
    → let (u, r) = load_agent sv now id s in Answers sv id at u r
load_agent-Answers sv now id at s = loaded-Answers sv now id at s (sv.load id) refl

again-Answers :
    (sv : Services) (now id at : ℤ) (s : Manager) (p : ℕ)
    → (cached now id (is_fresh at) s).1 ≡ some p
    → Answers sv id at (cached now id (is_fresh at) s).0 (inr p)
again-Answers sv now id at s p h =
    Gives-map _ _ (cached now id (is_fresh at) s).0 p (λ b t. inl (fresh at b t))
      (cached-Gives now id (is_fresh at) s p h)

-- `GetAgent` gives the error of the store, or an agent that has the wanted version or that the store
-- has just given.
pub get_agent_lem :
    (sv : Services) (now id at : ℤ) (s : Manager)
    → let (u, r) = get_agent sv now id at s in Answers sv id at u r
unfolding get_agent
get_agent_lem sv now id at s =
    let read = (cached now id (is_fresh at) s).0 in
    elim (Option-cases (cached now id (is_fresh at) s).1) [
      | inr (p, h) ↦ rw (h, get_agent) (again-Answers sv now id at s p h)
      | inl h ↦ elim (Option-cases (cached now id (is_fresh at) read).1) [
        | inr (p, k) ↦ rw (h, get_agent) (rw k (again-Answers sv now id at read p k))
        | inl k ↦
            rw (h, get_agent)
              (rw k (load_agent-Answers sv now id at (cached now id (is_fresh at) read).0))
      ]
    ]

-- `SetOnline` of an agent, where the store accepts it: the event has the preset that the store gave, but
-- the agent is online without a preset.
pub set_online_lem :
    (sv : Services) (on_demand : Bool) (p : ℕ) (a : Agent) (d : AgentOnlineData) (s : Manager)
    → sv.set_online a.id on_demand ≡ inr d
    → let u = (set_online sv on_demand p a s).0 in
      Gives
        (λ b.
          (b.agent_status.status ≡ "online")
          × (b.agent_status.status_preset ≡ none)
          × (b.on_demand ≡ on_demand)
          × (b.id ≡ a.id))
        u
        p
      × (u.sent
          ≡ online_changed
              (event_of d.timestamp a)
              (create_agent_status agent_status_online (with_status_preset d.status_preset ∷ []))
              d.channel
              on_demand
            ∷ online_written a.id on_demand
            ∷ s.sent)
unfolding set_online put_agent store_status set_on_demand create_agent_status
set_online_lem sv on_demand p a d s h =
    let online =
      store_status (create_agent_status agent_status_online []) (set_on_demand on_demand a) in
    rw (h, set_online)
      (
        (
          online,
          ground (arith, lookup-insert p p online s.heap, ==_iff p p),
          (refl, refl, refl, refl),
        ),
        refl,
      )
