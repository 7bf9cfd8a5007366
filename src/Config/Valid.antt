-- ===== src/Config/Valid.antt =====
-- The settings that the pool divides by, waits for and counts to are positive.
use agile_pool.Prelude.{◌≡◌, refl, Bool, true, false, ◌&&◌, arith, List, [], ◌∷◌, if◌then◌else◌}
use agile_pool.Prelude.Int.{positive}
use agile_pool.Config.{
  Floats, Config, Setting, default_config, in_unit, apply, apply_all, new_config,
}
use agile_pool.Config.{
  with_clean_period, with_task_queue_size, with_worker_num_capacity, with_stats_sample_period,
  with_stats_window_size, with_scaler_period, with_zero_consume_scale_interval,
  with_max_zero_consume_scale_step, with_backlog_decay_factor, with_task_queue_shards,
  with_block_mode, with_idle_container_type, with_lock_type, with_panic_handler,
}

module _ {Float Handler : Type 0} (fl : Floats Float) where
  abbrev pub valid : Config Float Handler → Bool
  valid c =
      positive c.clean_period
      && positive c.task_queue_size
      && positive c.worker_num_capacity
      && positive c.stats_sample_period
      && positive c.stats_window_size
      && positive c.scaler_period
      && in_unit fl c.backlog_decay_factor
      && positive c.zero_consume_scale_interval
      && positive c.max_zero_consume_scale_step

  valid-if :
      (b : Bool) (c d : Config Float Handler)
      → (b ≡ true → valid d ≡ true)
      → valid c ≡ true
      → valid (if b then d else c) ≡ true
  valid-if true c d h v = h refl
  valid-if false c d h v = v

  -- An option keeps a valid configuration valid, whatever its argument is.
  valid-apply :
      (s : Setting Float Handler) (c : Config Float Handler)
      → valid c ≡ true
      → valid (apply fl s c) ≡ true
  unfolding apply
  valid-apply (with_clean_period d) c v =
      valid-if (positive d) c (record c { clean_period = d }) (λ ok. ground arith) v
  valid-apply (with_task_queue_size d) c v =
      valid-if (positive d) c (record c { task_queue_size = d }) (λ ok. ground arith) v
  valid-apply (with_worker_num_capacity d) c v =
      valid-if (positive d) c (record c { worker_num_capacity = d }) (λ ok. ground arith) v
  valid-apply (with_stats_sample_period d) c v =
      valid-if (positive d) c (record c { stats_sample_period = d }) (λ ok. ground arith) v
  valid-apply (with_stats_window_size d) c v =
      valid-if (positive d) c (record c { stats_window_size = d }) (λ ok. ground arith) v
  valid-apply (with_scaler_period d) c v =
      valid-if (positive d) c (record c { scaler_period = d }) (λ ok. ground arith) v
  valid-apply (with_zero_consume_scale_interval d) c v =
      valid-if (positive d) c (record c { zero_consume_scale_interval = d }) (λ ok. ground arith) v
  valid-apply (with_max_zero_consume_scale_step d) c v =
      valid-if (positive d) c (record c { max_zero_consume_scale_step = d }) (λ ok. ground arith) v
  valid-apply (with_backlog_decay_factor x) c v =
      valid-if (in_unit fl x) c (record c { backlog_decay_factor = x }) (λ ok. ground arith) v
  valid-apply (with_task_queue_shards a) c v = v
  valid-apply (with_block_mode a) c v = v
  valid-apply (with_idle_container_type a) c v = v
  valid-apply (with_lock_type a) c v = v
  valid-apply (with_panic_handler a) c v = v

  valid-apply_all :
      (ss : List (Setting Float Handler)) (c : Config Float Handler)
      → valid c ≡ true
      → valid (apply_all fl ss c) ≡ true
  unfolding apply_all
  valid-apply_all [] c v = v
  valid-apply_all (s ∷ ss) c v = valid-apply_all ss (apply fl s c) (valid-apply s c v)

  -- Every configuration that `NewConfig` builds from options has positive periods, sizes, capacity
  -- and step, and a decay factor between 0 and 1, when the default factor is.
  pub valid-new_config :
      in_unit fl fl.default_backlog_decay_factor ≡ true
      → (ss : List (Setting Float Handler)) → valid (new_config fl ss) ≡ true
  unfolding new_config
  valid-new_config ok ss = valid-apply_all ss (default_config fl) (ground arith)
