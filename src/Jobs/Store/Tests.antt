-- ===== src/Jobs/Store/Tests.antt =====
-- A store in memory, which meets the laws of the commands, and runs on it.
use text.Mathlib.TextEquality.{eq_iff}
use text.Mathlib.TextPositions.{eq_refl}
use agents_at_scale.Prelude.{
  ℕ, String, ◌≡◌, ◌≢◌, refl, ap, ◌∙◌, ◌≤◌, ◌+◌, Bool, true, false, ◌&&◌, Option, none, some, List,
  [], ◌∷◌, arith, ltb, if◌then◌else◌, Option-cases, inl, inr,
}
use agents_at_scale.Prelude.Eq.{◌==◌, string_eq}
use agents_at_scale.Jobs.Store.{
  Redis, mark_job_timing, claim, claim_idempotency_key, acquire_conversation_lock,
}
use agents_at_scale.Jobs.Store.Keys.{timing_key}
use agents_at_scale.Jobs.Store.History.{acquire_excludes, claim_owns}
use agents_at_scale.Jobs.Store.Holding.{
  claim_key, release_key, acquire, release, mark_timing, set_timing, set_status,
}
use agents_at_scale.Jobs.Store.Timings.{mark_job_timing_first}
use agents_at_scale.Jobs.Store.Holding.{run}
use agents_at_scale.Jobs.Store.Holding.{Command}

-- The texts with their times of expiry; the fields of the hashes, and when a hash expires.
record Memory : Type 0 where
  text : String → Option (String × ℕ)
  number : String → String → Option ℕ
  until : String → Option ℕ

abbrev alive : ℕ → Option ℕ → Bool
alive now none = true
alive now (some end) = ltb now end

abbrev live : ℕ → Option (String × ℕ) → Option String
live now none = none
live now (some (v, end)) = if ltb now end then some v else none

abbrev is_some : Option String → Bool
is_some none = false
is_some (some _) = true

abbrev read_text : ℕ → String → Memory → Option String
read_text now k m = live now (m.text k)

abbrev read_number : ℕ → String → String → Memory → Option ℕ
read_number now k f m = if alive now (m.until k) then m.number k f else none

abbrev write_text : ℕ → String → String → ℕ → Memory → Memory
write_text now k v ttl m = record m { text = λ j. if j == k then some (v, now + ttl) else m.text j }

abbrev write_number : ℕ → String → String → ℕ → Memory → Memory
write_number now k f n m = record m {
  number = λ j g.
      if j == k && g == f then some n else if j == k then read_number now k g m else m.number j g;
  until = λ j. if j == k then (if alive now (m.until k) then m.until k else none) else m.until j;
}

abbrev write_missing : ℕ → String → String → ℕ → Memory → Memory
write_missing now k f n m = elim (read_number now k f m) [
  | none ↦ write_number now k f n m
  | some _ ↦ m
]

abbrev expire_at : ℕ → String → ℕ → Memory → Memory
expire_at now k ttl m = record m {
  until = λ j.
      if j == k then (if alive now (m.until k) then some (now + ttl) else m.until k) else m.until j;
}

abbrev forget : String → Memory → Memory
forget k m = record m { text = λ j. if j == k then none else m.text j }

abbrev write_new : ℕ → String → String → ℕ → Memory → Memory × Bool
write_new now k v ttl m =
    if is_some (read_text now k m) then (m, false) else (write_text now k v ttl m, true)

module _ (now t : ℕ) (k v : String) (ttl : ℕ) (j : String) (m : Memory) where
  read-write :
      now ≤ t
      → read_text t j (write_text now k v ttl m)
        ≡ (if j == k then if ltb t (now + ttl) then some v else none else read_text t j m)
  read-write le = ground (arith, eq_iff j k)

  read-forget : read_text t j (forget k m) ≡ (if j == k then none else read_text t j m)
  read-forget = ground (arith, eq_iff j k)

alive_fresh : (now : ℕ) (o : Option ℕ) → alive now (if alive now o then o else none) ≡ true
alive_fresh now none = refl
alive_fresh now (some end) = ground arith

expired :
    (now t ttl : ℕ) (o c : Option ℕ)
    → now ≤ t
    → (if alive t (if alive now o then some (now + ttl) else o) then c else none)
      ≡ (if ltb t (now + ttl) then if alive now o then c else none else none)
expired now t ttl none c le = refl
expired now t ttl (some end) c le = ground arith

module _ (now t : ℕ) (k f : String) (n : ℕ) (m : Memory) where
  missing_held :
      {old : ℕ}
      → read_number now k f m ≡ some old
      → read_number now k f (write_missing now k f n m) ≡ some old
  missing_held h = ground (arith, eq_iff k k, eq_iff f f)

  written_missing :
      read_number now k f m ≡ none → write_missing now k f n m ≡ write_number now k f n m
  written_missing h = rw (h, write_missing)

  missing_free :
      read_number now k f m ≡ none → read_number now k f (write_missing now k f n m) ≡ some n
  missing_free h =
      ap (λ (x : Memory). read_number now k f x) (written_missing h)
      ∙ rw (eq_refl k, eq_refl f, alive_fresh now (m.until k)) refl

  number-expire :
      (ttl : ℕ)
      → now ≤ t
      → read_number t k f (expire_at now k ttl m)
        ≡ (if ltb t (now + ttl) then read_number now k f m else none)
  number-expire ttl le = rw (eq_refl k) (expired now t ttl (m.until k) (m.number k f) le)

module _ (now t : ℕ) (k f : String) (n : ℕ) (j g : String) (m : Memory) (apart : j ≢ k) where
  number_elsewhere : read_number t j g (write_number now k f n m) ≡ read_number t j g m
  number_elsewhere = ground (arith, eq_iff j k)

  missing_elsewhere : read_number t j g (write_missing now k f n m) ≡ read_number t j g m
  missing_elsewhere = elim (Option-cases (read_number now k f m)) [
    | inl e ↦ ap (read_number t j g) (written_missing now now k f n m e) ∙ number_elsewhere
    | inr (old, e) ↦ rw (e, write_missing) refl
  ]

expire_other :
    (now t : ℕ) (k : String) (ttl : ℕ) (j f : String) (m : Memory)
    → j ≢ k
    → read_number t j f (expire_at now k ttl m) ≡ read_number t j f m
expire_other now t k ttl j f m apart = ground (arith, eq_iff j k)

module _ (now : ℕ) (k f : String) (n : ℕ) (g : String) (m : Memory) (apart : g ≢ f) where
  number_field : read_number now k g (write_number now k f n m) ≡ read_number now k g m
  number_field = rw (eq_refl k, alive_fresh now (m.until k)) (ground (arith, eq_iff g f))

  missing_field : read_number now k g (write_missing now k f n m) ≡ read_number now k g m
  missing_field = elim (Option-cases (read_number now k f m)) [
    | inl e ↦ ap (read_number now k g) (written_missing now now k f n m e) ∙ number_field
    | inr (old, e) ↦ rw (e, write_missing) refl
  ]

text-missing :
    (now t : ℕ) (k f : String) (n : ℕ) (j : String) (m : Memory)
    → read_text t j (write_missing now k f n m) ≡ read_text t j m
text-missing now t k f n j m = ground arith

new_granted :
    (now : ℕ) (k v : String) (ttl : ℕ) (m : Memory)
    → is_some (read_text now k m) ≡ false
    → write_new now k v ttl m ≡ (write_text now k v ttl m, true)
new_granted now k v ttl m h = rw h

new_refused :
    (now : ℕ) (k v : String) (ttl : ℕ) (m : Memory)
    → is_some (read_text now k m) ≡ true
    → write_new now k v ttl m ≡ (m, false)
new_refused now k v ttl m h = rw h

some_read :
    (now : ℕ) (k : String) (m : Memory) {v : String}
    → read_text now k m ≡ some v
    → is_some (read_text now k m) ≡ true
some_read now k m h = rw h

abbrev memory : Redis
memory = record {
  Data = Memory;
  exists = λ now k m. is_some (read_text now k m);
  get = read_text;
  hget = read_number;
  set = write_text;
  set_nx = write_new;
  delete = forget;
  hset = write_number;
  hsetnx = write_missing;
  expire = expire_at;
  get-set = read-write;
  get-delete = λ t k j m. read-forget 0 t k "" 0 j m;
  set_nx_granted = new_granted;
  set_nx_refused = new_refused;
  exists_of_get = some_read;
  get-hset = λ now t k f n j m apart. refl;
  get-hsetnx = λ now t k f n j m apart. text-missing now t k f n j m;
  get-expire = λ now t k ttl j m apart. refl;
  hsetnx_held = λ now k f n m h. missing_held now now k f n m h;
  hsetnx_free = λ now k f n m h. missing_free now now k f n m h;
  hget-set = λ now t k v ttl j f m apart. refl;
  hget-delete = λ t k j f m apart. refl;
  hget-hset = number_elsewhere;
  hset_field = number_field;
  hget-hsetnx = missing_elsewhere;
  hsetnx_field = missing_field;
  expire_elsewhere = expire_other;
  hget-expire = λ now t k ttl f m le. number-expire now t k f 0 m ttl le;
}

abbrev empty : Memory
empty = record { text = λ _. none; number = λ _ _. none; until = λ _. none }

-- Two jobs of one conversation, the first of which takes the lock for five minutes.
abbrev locked : Memory
locked = (acquire_conversation_lock memory 1000 "1:s" "job-1" 300_000 empty).0

abbrev busy : List (ℕ × Command)
busy =
    (1500, acquire "1:s" "job-2" 300_000)
    ∷ (2000, release "1:s" "job-2")
    ∷ (3000, claim_key "k" "job-3")
    ∷ []

abbrev token_of : Command → String
token_of (release conversation token) = token
token_of _ = ""

differ : (s t : String) → (s == t) ≡ false → s ≢ t
differ s t h same = absurd (cc (h, (eq_iff s t).1 same))

spared : (c : Command) → (token_of c == "job-1") ≡ false → c ≢ release "1:s" "job-1"
spared c h same = differ (token_of c) "job-1" h (ap token_of same)

acquire_excludes_example :
    (acquire_conversation_lock memory 200_000 "1:s" "job-4" 300_000 (run memory busy locked)).1
    ≡ false
unfolding acquire_conversation_lock
acquire_excludes_example =
    acquire_excludes memory 1000 200_000 300_000 300_000 "1:s" "job-1" "job-4" empty busy refl
      (omega arith) (omega arith)
      (
        spared (acquire "1:s" "job-2" 300_000) refl,
        (spared (release "1:s" "job-2") refl, (spared (claim_key "k" "job-3") refl, tt)),
      )

abbrev key_of : Command → String
key_of (release_key key) = key
key_of _ = ""

unreleased : (c : Command) → (key_of c == "k") ≡ false → c ≢ release_key "k"
unreleased c h same = differ (key_of c) "k" h (ap key_of same)

claim_owns_example :
    claim_idempotency_key memory 5000 6000 "k" "job-2"
      (run memory ((5500, acquire "1:s" "job-1" 300_000) ∷ []))
      (run memory ((3000, claim_key "k" "job-3") ∷ []) (claim memory 1000 "k" "job-1" empty).0)
    ≡ (some "job-1", false)
unfolding claim
claim_owns_example =
    claim_owns memory 1000 5000 6000 "k" "job-1" "job-2" empty ((3000, claim_key "k" "job-3") ∷ [])
      ((5500, acquire "1:s" "job-1" 300_000) ∷ []) refl (omega arith) (omega arith) (omega arith)
      (unreleased (claim_key "k" "job-3") refl, tt)
      (unreleased (acquire "1:s" "job-1" 300_000) refl, tt)

-- A second try: it marks the same timing, writes a status of the job and another timing.
abbrev tried : List (ℕ × Command)
tried =
    (7000, mark_timing "job-1" "started_ms" 7001)
    ∷ (7500, set_status "job-1" "processing")
    ∷ (8000, set_timing "job-1" "finished_ms" 8001)
    ∷ []

abbrev set_of : Command → String
set_of (set_timing job_id field value) = field
set_of _ = ""

unset :
    (c : Command)
    → (set_of c == "started_ms") ≡ false
    → (n : ℕ) → c ≢ set_timing "job-1" "started_ms" n
unset c h n same = differ (set_of c) "started_ms" h (ap set_of same)

mark_job_timing_first_example :
    memory.hget 9000
      (timing_key "job-1")
      "started_ms"
      (run memory tried (mark_job_timing memory 1000 "job-1" "started_ms" 1001 empty))
    ≡ some 1001
mark_job_timing_first_example =
    mark_job_timing_first memory "job-1" "started_ms" 1000 1001 9000 tried empty (omega arith)
      (omega arith)
      (
        unset (mark_timing "job-1" "started_ms" 7001) refl,
        (
          unset (set_status "job-1" "processing") refl,
          (unset (set_timing "job-1" "finished_ms" 8001) refl, tt),
        ),
      )
