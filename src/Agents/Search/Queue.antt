-- ===== src/Agents/Search/Queue.antt =====
-- src/rex/agents/search_policy.py: DEFAULT_QUEUE.
use tiktok_techjam_recsys_ag.Prelude.{none, some, List, [], ◌∷◌}
use tiktok_techjam_recsys_ag.Prelude.Int.{pos}
use tiktok_techjam_recsys_ag.Agents.Search.{ExperimentCard, initialized}

unfoldable pub default_queue : List ExperimentCard
default_queue =
    initialized (record {
      card_id = "E00";
      prerequisite = none;
      stage = "baseline";
      family = "baseline_fm";
      expected_gain = record { mantissa = pos 0; places = 0 };
      estimated_cost_seconds = 600;
      memory_mb = 1024;
      dependencies = [];
      parent = none;
    })
    ∷ initialized (record {
      card_id = "E15";
      prerequisite = none;
      stage = "search";
      family = "context_fm_ensemble";
      expected_gain = record { mantissa = pos 15; places = 4 };
      estimated_cost_seconds = 900;
      memory_mb = 1536;
      dependencies = [];
      parent = some "baseline";
    })
    ∷ initialized (record {
      card_id = "E16";
      prerequisite = none;
      stage = "search";
      family = "ensemble_isolation";
      expected_gain = record { mantissa = pos 6; places = 4 };
      estimated_cost_seconds = 750;
      memory_mb = 1536;
      dependencies = [];
      parent = some "E15";
    })
    ∷ initialized (record {
      card_id = "E17";
      prerequisite = none;
      stage = "search";
      family = "context_cross";
      expected_gain = record { mantissa = pos 3; places = 4 };
      estimated_cost_seconds = 600;
      memory_mb = 1536;
      dependencies = [];
      parent = some "E16";
    })
    ∷ initialized (record {
      card_id = "E18";
      prerequisite = none;
      stage = "search";
      family = "context_cross";
      expected_gain = record { mantissa = pos 1; places = 4 };
      estimated_cost_seconds = 600;
      memory_mb = 1536;
      dependencies = [];
      parent = some "E17";
    })
    ∷ initialized (record {
      card_id = "E19";
      prerequisite = none;
      stage = "search";
      family = "static_metadata";
      expected_gain = record { mantissa = pos 3; places = 3 };
      estimated_cost_seconds = 750;
      memory_mb = 1536;
      dependencies = [];
      parent = some "E15";
    })
    ∷ initialized (record {
      card_id = "E20";
      prerequisite = none;
      stage = "search";
      family = "static_metadata";
      expected_gain = record { mantissa = pos 1; places = 4 };
      estimated_cost_seconds = 750;
      memory_mb = 1536;
      dependencies = [];
      parent = some "E19";
    })
    ∷ initialized (record {
      card_id = "E21";
      prerequisite = none;
      stage = "search";
      family = "field_weighted_fm";
      expected_gain = record { mantissa = pos 1; places = 4 };
      estimated_cost_seconds = 900;
      memory_mb = 1792;
      dependencies = [];
      parent = some "best_supported_fields";
    })
    ∷ initialized (record {
      card_id = "E22";
      prerequisite = none;
      stage = "search";
      family = "temporal_history";
      expected_gain = record { mantissa = pos 1; places = 4 };
      estimated_cost_seconds = 900;
      memory_mb = 1792;
      dependencies = [];
      parent = some "best_supported_fields";
    })
    ∷ initialized (record {
      card_id = "E23";
      prerequisite = some "candidate_recency_supported";
      stage = "search";
      family = "temporal_multifeedback";
      expected_gain = record { mantissa = pos 1; places = 4 };
      estimated_cost_seconds = 1100;
      memory_mb = 1792;
      dependencies = "candidate_recency_supported" ∷ [];
      parent = some "E22";
    })
    ∷ initialized (record {
      card_id = "E24";
      prerequisite = none;
      stage = "search";
      family = "boosted_tree";
      expected_gain = record { mantissa = pos 15; places = 4 };
      estimated_cost_seconds = 900;
      memory_mb = 2048;
      dependencies = [];
      parent = some "baseline";
    })
    ∷ initialized (record {
      card_id = "E25";
      prerequisite = some "two_diverse_families_supported";
      stage = "search";
      family = "oof_blend";
      expected_gain = record { mantissa = pos 2; places = 3 };
      estimated_cost_seconds = 450;
      memory_mb = 1024;
      dependencies = "two_diverse_families_supported" ∷ [];
      parent = some "two_supported_branches";
    })
    ∷ initialized (record {
      card_id = "E26";
      prerequisite = none;
      stage = "search";
      family = "boosted_tree_pointwise";
      expected_gain = record { mantissa = pos 25; places = 4 };
      estimated_cost_seconds = 800;
      memory_mb = 2048;
      dependencies = [];
      parent = some "baseline";
    })
    ∷ initialized (record {
      card_id = "E27";
      prerequisite = none;
      stage = "search";
      family = "boosted_tree_pointwise";
      expected_gain = record { mantissa = pos 6; places = 4 };
      estimated_cost_seconds = 850;
      memory_mb = 2048;
      dependencies = [];
      parent = some "pointwise_core";
    })
    ∷ initialized (record {
      card_id = "E28";
      prerequisite = some "metadata_supported";
      stage = "search";
      family = "temporal_bucket_fm";
      expected_gain = record { mantissa = pos 1; places = 4 };
      estimated_cost_seconds = 1050;
      memory_mb = 1792;
      dependencies = "metadata_supported" ∷ [];
      parent = some "E19";
    })
    ∷ initialized (record {
      card_id = "E29";
      prerequisite = none;
      stage = "search";
      family = "boosted_tree_pointwise_user";
      expected_gain = record { mantissa = pos 12; places = 4 };
      estimated_cost_seconds = 850;
      memory_mb = 2048;
      dependencies = [];
      parent = some "pointwise_core";
    })
    ∷ initialized (record {
      card_id = "E30";
      prerequisite = some "metadata_supported";
      stage = "search";
      family = "fm_capacity";
      expected_gain = record { mantissa = pos 15; places = 4 };
      estimated_cost_seconds = 1200;
      memory_mb = 2048;
      dependencies = "metadata_supported" ∷ [];
      parent = some "E19";
    })
    ∷ initialized (record {
      card_id = "E03";
      prerequisite = none;
      stage = "search";
      family = "history_tree";
      expected_gain = record { mantissa = pos 1; places = 3 };
      estimated_cost_seconds = 750;
      memory_mb = 1536;
      dependencies = [];
      parent = none;
    })
    ∷ initialized (record {
      card_id = "E02";
      prerequisite = none;
      stage = "search";
      family = "boosted_tree_statistics";
      expected_gain = record { mantissa = pos 5; places = 4 };
      estimated_cost_seconds = 900;
      memory_mb = 2048;
      dependencies = [];
      parent = none;
    })
    ∷ initialized (record {
      card_id = "E01";
      prerequisite = none;
      stage = "search";
      family = "pairwise_fm";
      expected_gain = record { mantissa = pos 1; places = 4 };
      estimated_cost_seconds = 900;
      memory_mb = 1536;
      dependencies = [];
      parent = none;
    })
    ∷ initialized (record {
      card_id = "E04";
      prerequisite = some "E01_supported";
      stage = "search";
      family = "legacy";
      expected_gain = record { mantissa = pos 0; places = 0 };
      estimated_cost_seconds = 600;
      memory_mb = 1024;
      dependencies = [];
      parent = none;
    })
    ∷ initialized (record {
      card_id = "E05";
      prerequisite = some "E01_supported";
      stage = "search";
      family = "legacy";
      expected_gain = record { mantissa = pos 0; places = 0 };
      estimated_cost_seconds = 600;
      memory_mb = 1024;
      dependencies = [];
      parent = none;
    })
    ∷ initialized (record {
      card_id = "E06";
      prerequisite = some "tree_supported";
      stage = "search";
      family = "legacy";
      expected_gain = record { mantissa = pos 0; places = 0 };
      estimated_cost_seconds = 600;
      memory_mb = 1024;
      dependencies = [];
      parent = none;
    })
    ∷ initialized (record {
      card_id = "E07";
      prerequisite = some "tree_supported";
      stage = "search";
      family = "legacy";
      expected_gain = record { mantissa = pos 0; places = 0 };
      estimated_cost_seconds = 600;
      memory_mb = 1024;
      dependencies = [];
      parent = none;
    })
    ∷ initialized (record {
      card_id = "E08";
      prerequisite = some "history_supported";
      stage = "search";
      family = "legacy";
      expected_gain = record { mantissa = pos 0; places = 0 };
      estimated_cost_seconds = 600;
      memory_mb = 1024;
      dependencies = [];
      parent = none;
    })
    ∷ initialized (record {
      card_id = "E09";
      prerequisite = some "history_supported";
      stage = "search";
      family = "legacy";
      expected_gain = record { mantissa = pos 0; places = 0 };
      estimated_cost_seconds = 600;
      memory_mb = 1024;
      dependencies = [];
      parent = none;
    })
    ∷ initialized (record {
      card_id = "E10";
      prerequisite = some "two_branches_supported";
      stage = "search";
      family = "legacy";
      expected_gain = record { mantissa = pos 0; places = 0 };
      estimated_cost_seconds = 600;
      memory_mb = 1024;
      dependencies = [];
      parent = none;
    })
    ∷ initialized (record {
      card_id = "E11";
      prerequisite = some "E09_supported";
      stage = "search";
      family = "legacy";
      expected_gain = record { mantissa = pos 0; places = 0 };
      estimated_cost_seconds = 600;
      memory_mb = 1024;
      dependencies = [];
      parent = none;
    })
    ∷ initialized (record {
      card_id = "E12";
      prerequisite = some "E11_supported";
      stage = "search";
      family = "legacy";
      expected_gain = record { mantissa = pos 0; places = 0 };
      estimated_cost_seconds = 600;
      memory_mb = 1024;
      dependencies = [];
      parent = none;
    })
    ∷ initialized (record {
      card_id = "E13";
      prerequisite = some "E12_decided";
      stage = "search";
      family = "legacy";
      expected_gain = record { mantissa = pos 0; places = 0 };
      estimated_cost_seconds = 600;
      memory_mb = 1024;
      dependencies = [];
      parent = none;
    })
    ∷ initialized (record {
      card_id = "E14";
      prerequisite = some "finalist_ready";
      stage = "deferred_confirmation";
      family = "legacy";
      expected_gain = record { mantissa = pos 0; places = 0 };
      estimated_cost_seconds = 600;
      memory_mb = 1024;
      dependencies = [];
      parent = none;
    })
    ∷ []
