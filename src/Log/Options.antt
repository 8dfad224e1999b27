-- ===== src/Log/Options.antt =====
-- pkg/log/options.go: the options of a log, with their defaults. The delay of a writer's buffer is the
-- time after which its timer fires, which may be any.
use alog.Common.{ℕ, ◌*◌, Bool, false}
use alog.Segment.Header.{Int64, pos}

pub record PoolOptions : Type 0 where
  pub default_size : ℕ
  pub max_size : ℕ

pub record StorageOptions : Type 0 where
  pub start_sequence : ℕ
  pub max_disk_size : Int64
  pub max_segments : Int64
  pub max_segment_size : Int64
  pub sync_on_append : Bool

pub record Options : Type 0 where
  pub storage : StorageOptions
  pub pool : PoolOptions

unfoldable pub default_options : Options
default_options = record {
  storage = record {
    start_sequence = 0;
    max_disk_size = pos (10 * 1024 * 1024 * 1024);
    max_segments = pos 0;
    max_segment_size = pos (128 * 1024 * 1024);
    sync_on_append = false;
  };
  pool = record { default_size = 4 * 1024; max_size = 1 * 1024 * 1024 };
}

-- StorageOptions{} and PoolOptions{}
unfoldable pub zero_storage : StorageOptions
zero_storage = record {
  start_sequence = 0;
  max_disk_size = pos 0;
  max_segments = pos 0;
  max_segment_size = pos 0;
  sync_on_append = false;
}

unfoldable pub zero_pool : PoolOptions
zero_pool = record { default_size = 0; max_size = 0 }
