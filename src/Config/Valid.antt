-- ===== src/Config/Valid.antt =====
-- pkg/config/config.go: what Validate accepts.
use Prim.Native.Nat.{bit_and}
use golinker.Base.{
  ℕ, ◌-◌, ◌^◌, ◌<◌, ◌≤◌, ◌≡◌, ◌↔◌, refl, ap, Bool, true, false, ◌||◌, Option, none, some, List,
  arith,
}
use golinker.Config.{
  Config, Check, not_positive, not_power, check_sizes, check_times, validate, default_config,
  refuse_if, ◌or_else◌, load_from_file, loaded,
}
use golinker.Config.PowerOfTwo.{power_of_two_iff, pow-pos}
use golinker.Go.Int.{ℤ, pos, negsuc, le_int, lt_int}

-- The orders on signed numbers.
abbrev pub LtInt : ℤ → ℤ → Type 0
LtInt (pos a) (pos b) = a < b
LtInt (pos a) (negsuc b) = ⊥
LtInt (negsuc a) (pos b) = Unit
LtInt (negsuc a) (negsuc b) = b < a

abbrev pub LeInt : ℤ → ℤ → Type 0
LeInt (pos a) (pos b) = a ≤ b
LeInt (pos a) (negsuc b) = ⊥
LeInt (negsuc a) (pos b) = Unit
LeInt (negsuc a) (negsuc b) = b ≤ a

abbrev pub IsPowerOfTwo : ℤ → Type 0
IsPowerOfTwo n = (k : ℕ) × (n ≡ pos (2 ^ k))

-- The ranges that the error messages of Validate name.
pub record SizesValid (c : Config) : Type 0 where
  pub port_positive : LtInt (pos 0) c.port
  pub port_small : LtInt c.port (pos 65536)
  pub cq_number : LtInt (pos 0) c.cq_number
  pub initial_cq_size : LtInt (pos 0) c.initial_cq_size
  pub max_cq_size : LeInt c.initial_cq_size c.max_cq_size
  pub buffer_size : LtInt (pos 0) c.buffer_size
  pub threshold_positive : LtInt (pos 0) c.buffer_send_threshold
  pub threshold_below : LtInt c.buffer_send_threshold c.buffer_size
  pub queue_depth : IsPowerOfTwo c.queue_depth

pub record TimesValid (c : Config) : Type 0 where
  pub connect_timeout : LtInt (pos 0) c.connect_timeout
  pub heartbeat : LtInt (pos 0) c.heartbeat_interval
  pub idle_heartbeat : LtInt (pos 0) c.connection_idle_heartbeat
  pub idle_expire : LtInt c.connection_idle_heartbeat c.connection_idle_expire
  pub large_live : LtInt (pos 0) c.large_buffer_max_live
  pub monitor_cycle : LtInt (pos 0) c.buffer_monitor_cycle

le_int-false : (a b : ℤ) → le_int a b ≡ false → LtInt b a
le_int-false (pos a) (pos b) h = ground arith
le_int-false (pos a) (negsuc b) h = tt
le_int-false (negsuc a) (pos b) h = cc
le_int-false (negsuc a) (negsuc b) h = ground arith

lt-le_int : (a b : ℤ) → LtInt b a → le_int a b ≡ false
lt-le_int (pos a) (pos b) h = ground arith
lt-le_int (pos a) (negsuc b) h = refl
lt-le_int (negsuc a) (pos b) h = absurd h
lt-le_int (negsuc a) (negsuc b) h = ground arith

lt_int-false : (a b : ℤ) → lt_int a b ≡ false → LeInt b a
lt_int-false (pos a) (pos b) h = ground arith
lt_int-false (pos a) (negsuc b) h = tt
lt_int-false (negsuc a) (pos b) h = cc
lt_int-false (negsuc a) (negsuc b) h = ground arith

le-lt_int : (a b : ℤ) → LeInt b a → lt_int a b ≡ false
le-lt_int (pos a) (pos b) h = ground arith
le-lt_int (pos a) (negsuc b) h = refl
le-lt_int (negsuc a) (pos b) h = absurd h
le-lt_int (negsuc a) (negsuc b) h = ground arith

-- A chain of checks passes when each does.
passed :
    (b : Bool) (e : Check) (rest : Option Check)
    → ((refuse_if b e or_else rest) ≡ none)
    → (b ≡ false) × (rest ≡ none)
passed true e rest h = cc
passed false e rest h = (refl, h)

passes :
    (b : Bool) (e : Check) (rest : Option Check)
    → b ≡ false
    → rest ≡ none
    → (refuse_if b e or_else rest) ≡ none
passes true e rest p h = cc
passes false e rest p h = h

passed_last : (b : Bool) (e : Check) → refuse_if b e ≡ none → b ≡ false
passed_last true e h = cc
passed_last false e h = refl

passes_last : (b : Bool) (e : Check) → b ≡ false → refuse_if b e ≡ none
passes_last true e p = cc
passes_last false e p = refl

passed_or : (a b : Bool) → (a || b) ≡ false → (a ≡ false) × (b ≡ false)
passed_or a b h = ground arith

passes_or : (a b : Bool) → a ≡ false → b ≡ false → (a || b) ≡ false
passes_or a b p q = ground arith

not_power_iff : (n : ℕ) → (not_power (pos n) ≡ false) ↔ (bit_and n (n - 1) ≡ 0)
not_power_iff n = ground arith

depth_power : (n : ℤ) → not_positive n ≡ false → not_power n ≡ false → IsPowerOfTwo n
depth_power (pos n) p q =
    let (k, e) = (power_of_two_iff n (le_int-false (pos n) (pos 0) p)).0 ((not_power_iff n).0 q) in
    (k, ap pos e)
depth_power (negsuc n) p q = cc

power_depth : (n : ℤ) → IsPowerOfTwo n → (not_positive n ≡ false) × (not_power n ≡ false)
power_depth n (k, e) = rw e (
  lt-le_int (pos (2 ^ k)) (pos 0) (pow-pos k),
  (not_power_iff (2 ^ k)).1 ((power_of_two_iff (2 ^ k) (pow-pos k)).1 (k, refl)),
)

sizes_valid : (c : Config) → check_sizes c ≡ none → SizesValid c
unfolding check_sizes
sizes_valid c h =
    let (p1, h1) = passed _ _ _ h in
    let (p2, h2) = passed _ _ _ h1 in
    let (p3, h3) = passed _ _ _ h2 in
    let (p4, h4) = passed _ _ _ h3 in
    let (p5, h5) = passed _ _ _ h4 in
    let (p6, h6) = passed _ _ _ h5 in
    let (p7, h7) = passed _ _ _ h6 in
    let (p8, h8) = passed _ _ _ h7 in
    let ports = passed_or (le_int c.port (pos 0)) (le_int (pos 65536) c.port) p1 in
    record {
      port_positive = le_int-false c.port (pos 0) ports.0;
      port_small = le_int-false (pos 65536) c.port ports.1;
      cq_number = le_int-false c.cq_number (pos 0) p2;
      initial_cq_size = le_int-false c.initial_cq_size (pos 0) p3;
      max_cq_size = lt_int-false c.max_cq_size c.initial_cq_size p4;
      buffer_size = le_int-false c.buffer_size (pos 0) p5;
      threshold_positive = le_int-false c.buffer_send_threshold (pos 0) p6;
      threshold_below = le_int-false c.buffer_size c.buffer_send_threshold p7;
      queue_depth = depth_power c.queue_depth p8 (passed_last _ _ h8);
    }

valid_sizes : (c : Config) → SizesValid c → check_sizes c ≡ none
unfolding check_sizes
valid_sizes c v =
    let depth = power_depth c.queue_depth v.queue_depth in
    passes _ _ _
      (passes_or (le_int c.port (pos 0)) (le_int (pos 65536) c.port)
        (lt-le_int c.port (pos 0) v.port_positive) (lt-le_int (pos 65536) c.port v.port_small))
      (passes _ _ _ (lt-le_int c.cq_number (pos 0) v.cq_number) (
        passes _ _ _ (lt-le_int c.initial_cq_size (pos 0) v.initial_cq_size) (
          passes _ _ _ (le-lt_int c.max_cq_size c.initial_cq_size v.max_cq_size) (
            passes _ _ _ (lt-le_int c.buffer_size (pos 0) v.buffer_size) (
              passes _ _ _ (lt-le_int c.buffer_send_threshold (pos 0) v.threshold_positive) (
                passes _ _ _ (lt-le_int c.buffer_size c.buffer_send_threshold v.threshold_below)
                  (passes _ _ _ depth.0 (passes_last _ _ depth.1))))))))

-- The bound of idle_expire by 0 follows from the one by idle_heartbeat.
lt_trans_int : (a b : ℤ) → LtInt (pos 0) a → LtInt a b → LtInt (pos 0) b
lt_trans_int (pos a) (pos b) h k = omega arith
lt_trans_int (pos a) (negsuc b) h k = k
lt_trans_int (negsuc a) b h k = absurd h

times_valid : (c : Config) → check_times c ≡ none → TimesValid c
unfolding check_times
times_valid c h =
    let (p1, h1) = passed _ _ _ h in
    let (p2, h2) = passed _ _ _ h1 in
    let (p3, h3) = passed _ _ _ h2 in
    let (p4, h4) = passed _ _ _ h3 in
    let (p5, h5) = passed _ _ _ h4 in
    let (p6, h6) = passed _ _ _ h5 in
    record {
      connect_timeout = le_int-false c.connect_timeout (pos 0) p1;
      heartbeat = le_int-false c.heartbeat_interval (pos 0) p2;
      idle_heartbeat = le_int-false c.connection_idle_heartbeat (pos 0) p3;
      idle_expire = le_int-false c.connection_idle_expire c.connection_idle_heartbeat p5;
      large_live = le_int-false c.large_buffer_max_live (pos 0) p6;
      monitor_cycle = le_int-false c.buffer_monitor_cycle (pos 0) (passed_last _ _ h6);
    }

valid_times : (c : Config) → TimesValid c → check_times c ≡ none
unfolding check_times
valid_times c v =
    let expire =
      lt_trans_int c.connection_idle_heartbeat c.connection_idle_expire v.idle_heartbeat
        v.idle_expire in
    passes _ _ _ (lt-le_int c.connect_timeout (pos 0) v.connect_timeout) (
      passes _ _ _ (lt-le_int c.heartbeat_interval (pos 0) v.heartbeat) (
        passes _ _ _ (lt-le_int c.connection_idle_heartbeat (pos 0) v.idle_heartbeat) (
          passes _ _ _ (lt-le_int c.connection_idle_expire (pos 0) expire) (
            passes _ _ _
              (lt-le_int c.connection_idle_expire c.connection_idle_heartbeat v.idle_expire)
              (passes _ _ _ (lt-le_int c.large_buffer_max_live (pos 0) v.large_live)
                (passes_last _ _ (lt-le_int c.buffer_monitor_cycle (pos 0) v.monitor_cycle)))))))

or_else-none : (a b : Option Check) → (a or_else b) ≡ none → (a ≡ none) × (b ≡ none)
or_else-none none b h = (refl, h)
or_else-none (some e) b h = cc

-- Validate accepts a configuration exactly when the port is a positive 16-bit number, the sizes and
-- durations are positive, max_cq_size is not below initial_cq_size, the send threshold is below the
-- buffer size, the queue depth is a power of two, and idle_expire is above idle_heartbeat.
pub validate_iff : (c : Config) → (validate c ≡ none) ↔ (SizesValid c × TimesValid c)
unfolding validate
validate_iff c = (
  λ h.
      let (a, b) = or_else-none (check_sizes c) (check_times c) h in
      (sizes_valid c a, times_valid c b),
  λ v. rw (valid_sizes c v.0) (valid_times c v.1),
)

default-valid : validate default_config ≡ none
unfolding validate check_sizes check_times default_config
default-valid = refl

-- LoadFromFile hands out valid configurations only, whatever the file and the YAML parser say.
pub load_from_file-valid :
    (unmarshal : List ℕ → Config → Option Config) (file : Option (List ℕ)) (c : Config)
    → load_from_file unmarshal file ≡ loaded c
    → SizesValid c × TimesValid c
unfolding load_from_file
load_from_file-valid unmarshal file c h = ground (arith, (validate_iff c).0)
