-- ===== src/Config/Tests.antt =====
-- Options at concrete values. Decay factors are thousandths here, and handlers numbers.
use agile_pool.Prelude.{ℕ, ◌≡◌, refl, List, [], ◌∷◌, leb}
use agile_pool.Prelude.Int.{pos, negsuc}
use agile_pool.Config.{
  Floats, Setting, with_task_queue_size, with_clean_period, with_backlog_decay_factor, apply,
  apply_all, new_config,
}

abbrev thousandths : Floats ℕ
thousandths = record { le = leb; zero = 0; one = 1000; default_backlog_decay_factor = 300 }

abbrev settings : List (Setting ℕ ℕ)
settings =
    with_task_queue_size (pos 64)
    ∷ with_task_queue_size (negsuc 2)
    ∷ with_clean_period (pos 0)
    ∷ with_backlog_decay_factor 1001
    ∷ []

negative_ignored : (new_config thousandths settings).task_queue_size ≡ pos 64
unfolding new_config apply_all apply
negative_ignored = refl

too_great_ignored : (new_config thousandths settings).backlog_decay_factor ≡ 300
unfolding new_config apply_all apply
too_great_ignored = refl
