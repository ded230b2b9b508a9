-- ===== src/Sdk/Pool.antt =====
-- src/app/sdk/http_client.py: the pool of clients of `LLMHttpClient`, with the tasks that call `_get_client` at the
-- same time. A client is the number of its creation. A task gives way to the others only where it awaits: at the
-- lock, and before it starts; the code under the lock runs in one step.
pub mod Progress
pub mod Sharing
use makoto_lite_llm.Base.{
  ℕ, suc, String, ◌≡◌, Bool, ◌&&◌, Option, none, some, List, [], ◌∷◌, ◌++◌, map, ◌==◌, nat_eq,
  string_eq, if◌then◌else◌,
}

-- an entry of `self._clients`
pub record Entry : Type 0 where
  pub api_base : String
  pub api_key : String
  pub client : ℕ

-- where a call of `_get_client` is
pub data Task : Type 0 where
  idle : Task
  looking waiting holding : String → String → Task
  returned : String → String → ℕ → Task

-- `created` counts the clients, `holder` is the task that has the lock
pub record Pool : Type 0 where
  pub clients : List Entry
  pub created : ℕ
  pub closed : List ℕ
  pub holder : Option ℕ
  pub tasks : ℕ → Task

abbrev pub new_pool : Pool
new_pool = record { clients = []; created = 0; closed = []; holder = none; tasks = λ i. idle }

-- `self._clients.get((api_base, api_key))`
unfoldable pub find_client : String → String → List Entry → Option ℕ
find_client api_base api_key [] = none
find_client api_base api_key (e ∷ clients) =
    if e.api_base == api_base && e.api_key == api_key
    then some e.client
    else find_client api_base api_key clients

abbrev pub set_task : ℕ → Task → (ℕ → Task) → ℕ → Task
set_task i task tasks j = if j == i then task else tasks j

-- the second look under the lock, and the new client if it finds none
abbrev pub client_or_new : String → String → Option ℕ → Pool → ℕ × Pool
client_or_new api_base api_key (some client) p = (client, p)
client_or_new api_base api_key none p = (
  p.created,
  record p {
    clients =
        p.clients ++ record { api_base = api_base; api_key = api_key; client = p.created } ∷ [];
    created = suc p.created;
  },
)

unfoldable pub get_or_create : String → String → Pool → ℕ × Pool
get_or_create api_base api_key p =
    client_or_new api_base api_key (find_client api_base api_key p.clients) p

-- what a task does from the lock to its return
abbrev pub release : ℕ → String → String → Pool → Pool
release i api_base api_key p =
    let (client, p') = get_or_create api_base api_key p in
    record p' { holder = none; tasks = set_task i (returned api_base api_key client) p'.tasks }

-- what a task does before its next await
pub data Step (p : Pool) : Pool → Type 0 where
  begins :
      (i : ℕ) (api_base api_key : String)
      → p.tasks i ≡ idle
      → Step p (record p { tasks = set_task i (looking api_base api_key) p.tasks })
  -- the first look finds a client
  finds :
      (i : ℕ) (api_base api_key : String) (client : ℕ)
      → p.tasks i ≡ looking api_base api_key
      → find_client api_base api_key p.clients ≡ some client
      → Step p (record p { tasks = set_task i (returned api_base api_key client) p.tasks })
  misses :
      (i : ℕ) (api_base api_key : String)
      → p.tasks i ≡ looking api_base api_key
      → find_client api_base api_key p.clients ≡ none
      → Step p (record p { tasks = set_task i (waiting api_base api_key) p.tasks })
  acquires :
      (i : ℕ) (api_base api_key : String)
      → p.tasks i ≡ waiting api_base api_key
      → p.holder ≡ none
      → Step p (record p { holder = some i; tasks = set_task i (holding api_base api_key) p.tasks })
  releases :
      (i : ℕ) (api_base api_key : String)
      → p.tasks i ≡ holding api_base api_key
      → p.holder ≡ some i
      → Step p (release i api_base api_key p)

pub data Reach (p : Pool) : Pool → Type 0 where
  here : Reach p p
  next : {q r : Pool} → Reach p q → Step q r → Reach p r

-- no task runs beside it, at the shutdown
unfoldable pub aclose_all : Pool → Pool
aclose_all p = record p { clients = []; closed = p.closed ++ map (λ e. e.client) p.clients }
