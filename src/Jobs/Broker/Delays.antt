-- ===== src/Jobs/Broker/Delays.antt =====
-- The delays of retries.
use agents_at_scale.Prelude.{
  ℕ, String, ◌≡◌, ◌⊎◌, ◌<◌, ◌≤◌, ◌∙◌, sym, ap, subst, refl, ◌+◌, ◌*◌, ◌^◌, zero, suc, arith, some,
  List, [], ◌∷◌, length,
}
use agents_at_scale.Config.{Settings, backoff, retry_levels, retry_delays_ms}
use agents_at_scale.Jobs.Broker.{
  Queue, get_elem?, retry_index, retry_queue, declare_retries, retry_queues, retry_target,
}

length-backoff : (base level levels : ℕ) → length (backoff base level levels) ≡ levels
unfolding backoff
length-backoff base level zero = refl
length-backoff base level (suc levels) = ap suc (length-backoff base (level + 1) levels)

get_elem?-backoff :
    (base level levels i : ℕ)
    → i < levels
    → get_elem? (backoff base level levels) i ≡ some (base * 2 ^ (level + i))
unfolding backoff get_elem?
get_elem?-backoff base level zero i h = absurd (omega (arith, h))
get_elem?-backoff base level (suc levels) zero h =
    let e : level ≡ level + 0 = omega arith in ap (λ k. some (base * 2 ^ k)) e
get_elem?-backoff base level (suc levels) (suc i) h =
    let e : level + 1 + i ≡ level + suc i = omega arith in
    get_elem?-backoff base (level + 1) levels i (omega (arith, h)) ∙ ap (λ k. some (base * 2 ^ k)) e

module _ (decimal : ℕ → String) where
  abbrev pub as_queue : String → ℕ → ℕ → Queue
  as_queue queue level delay_ms = record {
    name = retry_queue decimal queue level;
    message_ttl = some delay_ms;
    dead_letter_routing_key = some queue;
  }

  length-declare_retries :
      (queue : String) (level : ℕ) (delays : List ℕ)
      → length (declare_retries decimal queue level delays) ≡ length delays
  unfolding declare_retries
  length-declare_retries queue level [] = refl
  length-declare_retries queue level (d ∷ delays) =
      ap suc (length-declare_retries queue (level + 1) delays)

  get_elem?-declare_retries :
      (queue : String) (level : ℕ) (delays : List ℕ) (i : ℕ) {delay_ms : ℕ}
      → get_elem? delays i ≡ some delay_ms
      → get_elem? (declare_retries decimal queue level delays) i
        ≡ some (as_queue queue (level + i) delay_ms)
  unfolding declare_retries get_elem?
  get_elem?-declare_retries queue level [] i h = absurd (cc)
  get_elem?-declare_retries queue level (d ∷ delays) zero {delay_ms} h =
      let e : level ≡ level + 0 = omega arith in
      let same : d ≡ delay_ms = cc h in
      ap (λ k. some (as_queue queue k d)) e ∙ ap (λ t. some (as_queue queue (level + 0) t)) same
  get_elem?-declare_retries queue level (d ∷ delays) (suc i) {delay_ms} h =
      let e : level + 1 + i ≡ level + suc i = omega arith in
      get_elem?-declare_retries queue (level + 1) delays i h
      ∙ ap (λ k. some (as_queue queue k delay_ms)) e

  target_of :
      (queues : List Queue) (level : ℕ)
      → 1 ≤ length queues
      → retry_target queues level ≡ get_elem? queues (retry_index level (length queues))
  unfolding retry_target
  target_of [] level h = absurd (omega (arith, h))
  target_of (q ∷ queues) level h = refl

  retry_levels_positive : (settings : Settings) → 1 ≤ retry_levels settings
  unfolding retry_levels
  retry_levels_positive settings = ground arith

  retry_index_lt : (level count : ℕ) → 1 ≤ count → retry_index level count < count
  unfolding retry_index
  retry_index_lt level count h = ground arith

  retry_index_level :
      (level count : ℕ)
      → 1 ≤ count
      → (retry_index level count + 1 ≡ level) ⊎ (level < 1) ⊎ (count < level)
  unfolding retry_index
  retry_index_level level count h = ground arith

  -- A job of any level goes to a declared queue: that of its level, where there is one, from which it returns to
  -- the main queue after the base delay, doubled for each level below.
  pub retry_target-retry_queues :
      (settings : Settings) (level : ℕ)
      → let i = retry_index level (retry_levels settings) in
        (retry_target (retry_queues decimal settings) level
          ≡ some (as_queue settings.rabbitmq_queue (i + 1) (settings.job_retry_base_ms * 2 ^ i)))
        × (i < retry_levels settings)
        × ((i + 1 ≡ level) ⊎ (level < 1) ⊎ (retry_levels settings < level))
  unfolding retry_queues retry_delays_ms
  retry_target-retry_queues settings level =
      let n = retry_levels settings in
      let delays = backoff settings.job_retry_base_ms 0 n in
      let queues = declare_retries decimal settings.rabbitmq_queue 1 delays in
      let count : length queues ≡ n =
        length-declare_retries settings.rabbitmq_queue 1 delays
        ∙ length-backoff settings.job_retry_base_ms 0 n in
      let positive = retry_levels_positive settings in
      let i = retry_index level n in
      let below = retry_index_lt level n positive in
      let first : 0 + i ≡ i = omega arith in
      let next : 1 + i ≡ i + 1 = omega arith in
      let delay = get_elem?-backoff settings.job_retry_base_ms 0 n i below in
      (
        target_of queues level (subst (λ m. 1 ≤ m) (sym count) positive)
            ∙ ap (λ m. get_elem? queues (retry_index level m)) count
            ∙ get_elem?-declare_retries settings.rabbitmq_queue 1 delays i delay
            ∙ ap
                (λ k.
                  some
                    (as_queue settings.rabbitmq_queue (1 + i) (settings.job_retry_base_ms * 2 ^ k)))
                first
            ∙ ap
                (λ k.
                  some (as_queue settings.rabbitmq_queue k (settings.job_retry_base_ms * 2 ^ i)))
                next,
        below,
        retry_index_level level n positive,
      )
