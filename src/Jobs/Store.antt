-- ===== src/Jobs/Store.antt =====
-- Job state and coordination in Redis (langgraph-python/app/platform/redis.py). The server is outside:
-- its commands are a parameter, with what their documentation says of them as laws.
pub mod Holding
pub mod Keys
pub mod History
pub mod Timings
mod Tests
use agents_at_scale.Prelude.{
  ℕ, String, ◌≡◌, ◌≢◌, ◌≤◌, ◌+◌, ◌*◌, Bool, true, false, not, Option, none, some, ltb,
  if◌then◌else◌,
}
use agents_at_scale.Prelude.Eq.{◌==◌, string_eq}
use agents_at_scale.Jobs.Store.Keys.{
  status_key, metadata_key, timing_key, idempotency_key, lock_key,
}

-- The commands, each with the time in milliseconds at which the server runs it.
pub record Redis : Type 1 where
  pub Data : Type 0
  -- EXISTS, GET, HGET
  pub exists : ℕ → String → Data → Bool
  pub get : ℕ → String → Data → Option String
  pub hget : ℕ → String → String → Data → Option ℕ
  -- SET key value PX, and with NX: whether it was done
  pub set : ℕ → String → String → ℕ → Data → Data
  pub set_nx : ℕ → String → String → ℕ → Data → Data × Bool
  pub delete : String → Data → Data
  pub hset : ℕ → String → String → ℕ → Data → Data
  pub hsetnx : ℕ → String → String → ℕ → Data → Data
  pub expire : ℕ → String → ℕ → Data → Data
  -- SET and DEL, as GET shows them
  pub get-set :
      (now t : ℕ) (k v : String) (ttl : ℕ) (j : String) (d : Data)
      → now ≤ t
      → get t j (set now k v ttl d)
        ≡ (if j == k then if ltb t (now + ttl) then some v else none else get t j d)
  pub get-delete :
      (t : ℕ) (k j : String) (d : Data)
      → get t j (delete k d) ≡ (if j == k then none else get t j d)
  -- NX: only if the key does not exist
  pub set_nx_granted :
      (now : ℕ) (k v : String) (ttl : ℕ) (d : Data)
      → exists now k d ≡ false
      → set_nx now k v ttl d ≡ (set now k v ttl d, true)
  pub set_nx_refused :
      (now : ℕ) (k v : String) (ttl : ℕ) (d : Data)
      → exists now k d ≡ true
      → set_nx now k v ttl d ≡ (d, false)
  pub exists_of_get :
      (now : ℕ) (k : String) (d : Data) {v : String} → get now k d ≡ some v → exists now k d ≡ true
  -- the commands on hashes leave the other keys
  pub get-hset :
      (now t : ℕ) (k f : String) (n : ℕ) (j : String) (d : Data)
      → j ≢ k
      → get t j (hset now k f n d) ≡ get t j d
  pub get-hsetnx :
      (now t : ℕ) (k f : String) (n : ℕ) (j : String) (d : Data)
      → j ≢ k
      → get t j (hsetnx now k f n d) ≡ get t j d
  pub get-expire :
      (now t : ℕ) (k : String) (ttl : ℕ) (j : String) (d : Data)
      → j ≢ k
      → get t j (expire now k ttl d) ≡ get t j d
  -- HSETNX writes a field that is not there
  pub hsetnx_held :
      (now : ℕ) (k f : String) (n : ℕ) (d : Data) {m : ℕ}
      → hget now k f d ≡ some m
      → hget now k f (hsetnx now k f n d) ≡ some m
  pub hsetnx_free :
      (now : ℕ) (k f : String) (n : ℕ) (d : Data)
      → hget now k f d ≡ none
      → hget now k f (hsetnx now k f n d) ≡ some n
  -- the other commands leave a hash, and those on its other fields leave a field
  pub hget-set :
      (now t : ℕ) (k v : String) (ttl : ℕ) (j f : String) (d : Data)
      → j ≢ k
      → hget t j f (set now k v ttl d) ≡ hget t j f d
  pub hget-delete :
      (t : ℕ) (k j f : String) (d : Data) → j ≢ k → hget t j f (delete k d) ≡ hget t j f d
  pub hget-hset :
      (now t : ℕ) (k f : String) (n : ℕ) (j g : String) (d : Data)
      → j ≢ k
      → hget t j g (hset now k f n d) ≡ hget t j g d
  pub hset_field :
      (now : ℕ) (k f : String) (n : ℕ) (g : String) (d : Data)
      → g ≢ f
      → hget now k g (hset now k f n d) ≡ hget now k g d
  pub hget-hsetnx :
      (now t : ℕ) (k f : String) (n : ℕ) (j g : String) (d : Data)
      → j ≢ k
      → hget t j g (hsetnx now k f n d) ≡ hget t j g d
  pub hsetnx_field :
      (now : ℕ) (k f : String) (n : ℕ) (g : String) (d : Data)
      → g ≢ f
      → hget now k g (hsetnx now k f n d) ≡ hget now k g d
  pub expire_elsewhere :
      (now t : ℕ) (k : String) (ttl : ℕ) (j f : String) (d : Data)
      → j ≢ k
      → hget t j f (expire now k ttl d) ≡ hget t j f d
  pub hget-expire :
      (now t : ℕ) (k : String) (ttl : ℕ) (f : String) (d : Data)
      → now ≤ t
      → hget t k f (expire now k ttl d) ≡ (if ltb t (now + ttl) then hget now k f d else none)

-- `STATUS_TTL_SECONDS`, in milliseconds
abbrev pub status_ttl : ℕ
status_ttl = 24 * 60 * 60 * 1000

module _ (redis : Redis) where
  open redis use {Data, get, set, set_nx, delete, hset, hsetnx, expire}

  pub set_job_status : ℕ → String → String → Data → Data
  set_job_status now job_id status = set now (status_key job_id) status status_ttl

  abbrev or_empty : Option String → String
  or_empty none = ""
  or_empty (some status) = status

  pub get_job_status : ℕ → String → Data → String
  get_job_status now job_id d = or_empty (get now (status_key job_id) d)

  -- `metadata` is the text that orjson makes of it.
  pub set_job_metadata : ℕ → String → String → Data → Data
  set_job_metadata now job_id metadata = set now (metadata_key job_id) metadata status_ttl

  -- `at` in milliseconds; the two commands are one transaction.
  pub mark_job_timing : ℕ → String → String → ℕ → Data → Data
  mark_job_timing now job_id field at d =
      expire now (timing_key job_id) status_ttl (hsetnx now (timing_key job_id) field at d)

  pub set_job_timing : ℕ → String → String → ℕ → Data → Data
  set_job_timing now job_id field value d =
      expire now (timing_key job_id) status_ttl (hset now (timing_key job_id) field value d)

  -- The first of the two commands of a claim, and the only one that writes.
  pub claim : ℕ → String → String → Data → Data × Bool
  claim now key job_id = set_nx now (idempotency_key key) job_id status_ttl

  abbrev pub owner_of : ℕ → String → String → (Data → Data) → Data × Bool → Option String × Bool
  owner_of now key job_id between (d, true) = (some job_id, true)
  owner_of now key job_id between (d, false) = (get now (idempotency_key key) (between d), false)

  -- The answer of a claim whose read runs at `read_at`, after what others did `between` the two.
  pub claim_idempotency_key : ℕ → ℕ → String → String → (Data → Data) → Data → Option String × Bool
  claim_idempotency_key now read_at key job_id between d =
      owner_of read_at key job_id between (claim now key job_id d)

  pub release_idempotency_key : String → Data → Data
  release_idempotency_key key = delete (idempotency_key key)

  pub acquire_conversation_lock : ℕ → String → String → ℕ → Data → Data × Bool
  acquire_conversation_lock now conversation token ttl_ms =
      set_nx now (lock_key conversation) token ttl_ms

  abbrev holds : Option String → String → Bool
  holds none token = false
  holds (some value) token = value == token

  -- `_RELEASE_LOCK`, which the server runs as one command
  pub release_lock : ℕ → String → String → Data → Data
  release_lock now key token d = if holds (get now key d) token then delete key d else d

  pub release_conversation_lock : ℕ → String → String → Data → Data
  release_conversation_lock now conversation token = release_lock now (lock_key conversation) token
