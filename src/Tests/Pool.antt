-- ===== src/Tests/Pool.antt =====
-- The pool of HTTP clients, with two tasks that race for the first client.
use makoto_lite_llm.Base.{ℕ, String, ◌≡◌, ◌↔◌, refl, inl, inr, some, [], ◌∷◌}
use makoto_lite_llm.Sdk.Pool as Pool
use makoto_lite_llm.Sdk.Pool.{
  Task, looking, waiting, holding, new_pool, set_task, find_client, get_or_create, release,
  aclose_all,
}
use makoto_lite_llm.Sdk.Pool.Progress.{CanReturn, get_client_returns}
use makoto_lite_llm.Sdk.Pool.Sharing.{count_up, get_client_shared}

abbrev base : String
base = "https://api.openai.com"

abbrev secret : String
secret = "sk"

abbrev first_client : ℕ
first_client = 0

abbrev place : ℕ → Task → Pool.Pool → Pool.Pool
place i task p = record p { tasks = set_task i task p.tasks }

-- both tasks miss at the first look, before either of them has the lock
abbrev both_waiting : Pool.Pool
both_waiting = place 1 (waiting base secret) (
    place 0 (waiting base secret)
      (place 1 (looking base secret) (place 0 (looking base secret) new_pool)))

abbrev one_holding : Pool.Pool
one_holding = record (place 0 (holding base secret) both_waiting) { holder = some 0 }

abbrev first_done : Pool.Pool
first_done = release 0 base secret one_holding

abbrev both_done : Pool.Pool
both_done =
    release 1 base secret (record (place 1 (holding base secret) first_done) { holder = some 1 })

both_waiting-Reach : Pool.Reach new_pool both_waiting
unfolding find_client
both_waiting-Reach =
    Pool.next
      (Pool.next
        (Pool.next (Pool.next Pool.here (Pool.begins 0 base secret refl))
          (Pool.begins 1 base secret refl))
        (Pool.misses 0 base secret refl refl))
      (Pool.misses 1 base secret refl refl)

one_holding-Reach : Pool.Reach new_pool one_holding
one_holding-Reach = Pool.next both_waiting-Reach (Pool.acquires 0 base secret refl refl)

both_done-Reach : Pool.Reach new_pool both_done
unfolding get_or_create find_client
both_done-Reach =
    Pool.next
      (Pool.next (Pool.next one_holding-Reach (Pool.releases 0 base secret refl refl))
        (Pool.acquires 1 base secret refl refl))
      (Pool.releases 1 base secret refl refl)

get_client_shared_example :
    ((first_client ≡ first_client) ↔ ((base ≡ base) × (secret ≡ secret)))
    × ((aclose_all both_done).closed ≡ 0 ∷ [])
    × ((aclose_all both_done).clients ≡ [])
unfolding get_or_create find_client count_up
get_client_shared_example =
    get_client_shared both_done 0 1 base secret base secret first_client first_client
      both_done-Reach refl refl

-- the other task has the lock
get_client_returns_example : CanReturn 1 base secret one_holding
get_client_returns_example =
    get_client_returns one_holding 1 base secret one_holding-Reach (inr (inl refl))
