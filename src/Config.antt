-- ===== src/Config.antt =====
-- pkg/config/config.go: the configuration and Validate. Durations are counted in nanoseconds. The
-- parsing of YAML and the reading of the file are parameters of `load_from_file`.
pub mod PowerOfTwo
pub mod Valid
use Prim.Native.Nat.{bit_and}
use golinker.Base.{ℕ, ◌-◌, ◌*◌, Bool, true, false, not, ◌||◌, Option, none, some, List, ◌==◌}
use golinker.Api.{PollMode, smart}
use golinker.Go.Int.{ℤ, pos, negsuc, le_int, lt_int}

pub record Config : Type 0 where
  pub endpoint : List ℕ
  pub port : ℤ
  pub device_postfix : List ℕ
  pub cq_number : ℤ
  pub poll_mode : PollMode
  pub initial_cq_size : ℤ
  pub max_cq_size : ℤ
  pub buffer_size : ℤ
  pub buffer_send_threshold : ℤ
  pub queue_depth : ℤ
  pub numa_node : ℤ
  pub enable_aggregate : Bool
  pub buffer_memory_threshold : ℤ
  pub max_large_buffer_cap : ℤ
  pub connect_timeout : ℤ
  pub heartbeat_interval : ℤ
  pub connection_idle_heartbeat : ℤ
  pub connection_idle_expire : ℤ
  pub large_buffer_max_live : ℤ
  pub buffer_monitor_cycle : ℤ

-- `n * time.Second`
abbrev pub seconds : ℕ → ℤ
seconds n = pos (n * 1000000000)

unfoldable pub default_config : Config
default_config = record {
  endpoint = List.[];
  port = pos 8629;
  device_postfix = List.[];
  cq_number = pos 2;
  poll_mode = smart;
  initial_cq_size = pos 4096;
  max_cq_size = pos 16384;
  buffer_size = pos 12288;
  buffer_send_threshold = pos 9216;
  queue_depth = pos 128;
  numa_node = pos 0;
  enable_aggregate = true;
  buffer_memory_threshold = pos 3072;
  max_large_buffer_cap = pos 1024;
  connect_timeout = seconds 10;
  heartbeat_interval = seconds 5;
  connection_idle_heartbeat = seconds 290;
  connection_idle_expire = seconds 300;
  large_buffer_max_live = seconds 5;
  buffer_monitor_cycle = seconds 3;
}

-- The error of each check.
pub data Check : Type 0 where
  bad_port bad_cq_number bad_initial_cq_size bad_max_cq_size bad_buffer_size : Check
  bad_send_threshold threshold_not_below_buffer bad_queue_depth not_power_of_two : Check
  bad_connect_timeout bad_heartbeat bad_idle_heartbeat bad_idle_expire : Check
  expire_not_above_heartbeat bad_large_buffer_live bad_monitor_cycle : Check

abbrev pub not_positive : ℤ → Bool
not_positive n = le_int n (pos 0)

-- `n&(n-1) != 0`, asked only of a positive n; a negative one has been refused before.
abbrev pub not_power : ℤ → Bool
not_power (pos n) = not (bit_and n (n - 1) == 0)
not_power (negsuc n) = true

-- `if test { return err }`, and the checks behind it.
infixr 20 ◌or_else◌
abbrev pub ◌or_else◌ : Option Check → Option Check → Option Check
none or_else rest = rest
some e or_else rest = some e

abbrev pub refuse_if : Bool → Check → Option Check
refuse_if true e = some e
refuse_if false e = none

unfoldable pub check_sizes : Config → Option Check
check_sizes c =
    refuse_if (le_int c.port (pos 0) || le_int (pos 65536) c.port) bad_port
    or_else refuse_if (not_positive c.cq_number) bad_cq_number
    or_else refuse_if (not_positive c.initial_cq_size) bad_initial_cq_size
    or_else refuse_if (lt_int c.max_cq_size c.initial_cq_size) bad_max_cq_size
    or_else refuse_if (not_positive c.buffer_size) bad_buffer_size
    or_else refuse_if (not_positive c.buffer_send_threshold) bad_send_threshold
    or_else refuse_if (le_int c.buffer_size c.buffer_send_threshold) threshold_not_below_buffer
    or_else refuse_if (not_positive c.queue_depth) bad_queue_depth
    or_else refuse_if (not_power c.queue_depth) not_power_of_two

unfoldable pub check_times : Config → Option Check
check_times c =
    refuse_if (not_positive c.connect_timeout) bad_connect_timeout
    or_else refuse_if (not_positive c.heartbeat_interval) bad_heartbeat
    or_else refuse_if (not_positive c.connection_idle_heartbeat) bad_idle_heartbeat
    or_else refuse_if (not_positive c.connection_idle_expire) bad_idle_expire
    or_else refuse_if (le_int c.connection_idle_expire c.connection_idle_heartbeat)
        expire_not_above_heartbeat
    or_else refuse_if (not_positive c.large_buffer_max_live) bad_large_buffer_live
    or_else refuse_if (not_positive c.buffer_monitor_cycle) bad_monitor_cycle

-- The first check that fails.
unfoldable pub validate : Config → Option Check
validate c = check_sizes c or_else check_times c

pub data LoadError : Type 0 where
  read_failed parse_failed : LoadError
  refused : Check → LoadError

pub data Loaded : Type 0 where
  loaded : Config → Loaded
  failed : LoadError → Loaded

checked : Config → Option Check → Loaded
checked c none = loaded c
checked c (some e) = failed (refused e)

parsed : Option Config → Loaded
unfolding checked
parsed none = failed parse_failed
parsed (some c) = checked c (validate c)

-- `os.ReadFile` gave the file's bytes or failed; `yaml.Unmarshal` fills the default configuration.
unfoldable pub load_from_file : (List ℕ → Config → Option Config) → Option (List ℕ) → Loaded
unfolding parsed default_config
load_from_file unmarshal none = failed read_failed
load_from_file unmarshal (some bytes) = parsed (unmarshal bytes default_config)
