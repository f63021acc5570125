-- ===== src/Execution/Health.antt =====
-- tako_vm/execution/health.py: the circuit breaker of Docker operations and the startup cleanup.
-- A time is a number of clock ticks.
use tako_vm.Prelude.{
  ℕ, zero, suc, ◌+◌, String, Option, none, some, Bool, true, false, not, ◌&&◌, ◌||◌, List, [], ◌∷◌,
  ltb, leb, if◌then◌else◌, str_eq,
}
pub mod Breaker
pub mod Circuit

-- CircuitState
pub data CircuitState : Type 0 where
  closed open_ half_open : CircuitState

pub record CircuitBreakerConfig : Type 0 where
  pub failure_threshold : ℕ
  pub recovery_timeout : ℕ
  pub success_threshold : ℕ

pub record DockerCircuitBreaker : Type 0 where
  pub state : CircuitState
  pub failure_count : ℕ
  pub success_count : ℕ
  pub last_failure_time : Option ℕ

unfoldable pub new_breaker : DockerCircuitBreaker
new_breaker = record {
  state = closed;
  failure_count = 0;
  success_count = 0;
  last_failure_time = none;
}

-- `elapsed >= recovery_timeout` of a failure time that is present.
abbrev pub has_recovered : CircuitBreakerConfig → Option ℕ → ℕ → Bool
has_recovered config none now = false
has_recovered config (some t) now = leb (t + config.recovery_timeout) now

module _ (config : CircuitBreakerConfig) where
  -- A read of is_available at a time, with what it does to the breaker.
  unfoldable pub is_available : ℕ → DockerCircuitBreaker → Bool × DockerCircuitBreaker
  is_available now b = elim b.state [
    | closed ↦ (true, b)
    | open_ ↦
        if has_recovered config b.last_failure_time now
        then (true, record b { state = half_open; success_count = 0 })
        else (false, b)
    | half_open ↦ (true, b)
  ]

  unfoldable pub record_success : DockerCircuitBreaker → DockerCircuitBreaker
  record_success b = elim b.state [
    | half_open ↦
        let count = suc b.success_count in
        if leb config.success_threshold count
        then record b { success_count = count; state = closed; failure_count = 0 }
        else record b { success_count = count }
    | closed ↦ record b { failure_count = 0 }
    | open_ ↦ b
  ]

  unfoldable pub record_failure : ℕ → DockerCircuitBreaker → DockerCircuitBreaker
  record_failure now b =
      let count = suc b.failure_count in
      let c = record b { failure_count = count; last_failure_time = some now } in
      elim b.state [
        | half_open ↦ record c { state = open_ }
        | closed ↦ if leb config.failure_threshold count then record c { state = open_ } else c
        | open_ ↦ c
      ]

-- What `docker info` gives: a return code, or an exception (TimeoutExpired, FileNotFoundError and
-- the others are handled alike).
pub data DockerInfo : Type 0 where
  returned : ℕ → DockerInfo
  raised : DockerInfo

unfoldable pub check_docker_health :
    CircuitBreakerConfig → DockerInfo → ℕ → DockerCircuitBreaker → Bool × DockerCircuitBreaker
unfolding record_success record_failure
check_docker_health config (returned zero) now b = (true, record_success config b)
check_docker_health config (returned (suc code)) now b = (false, record_failure config now b)
check_docker_health config raised now b = (false, record_failure config now b)

-- A line of `docker ps`, parsed: its creation time is `none` where it does not parse.
pub record Container : Type 0 where
  pub id : String
  pub created_at : Option ℕ
  pub state : String

abbrev pub is_live_state : String → Bool
is_live_state s = str_eq s "running" || str_eq s "restarting" || str_eq s "paused"

-- `age < max_age_seconds` fails.
abbrev pub is_old : Option ℕ → ℕ → ℕ → Bool
is_old none max_age now = false
is_old (some created) max_age now = leb (created + max_age) now

unfoldable pub is_orphan : ℕ → ℕ → Container → Bool
is_orphan max_age now c = if is_live_state c.state then is_old c.created_at max_age now else true

unfoldable pub containers_to_remove : ℕ → ℕ → List Container → List String
unfolding is_orphan
containers_to_remove max_age now [] = []
containers_to_remove max_age now (c ∷ cs) =
    let rest = containers_to_remove max_age now cs in
    if is_orphan max_age now c then c.id ∷ rest else rest

-- The removals, over what `docker rm -f` gives for each: true for a return code of 0.
unfoldable pub remove_all : (String → Bool) → List String → ℕ
remove_all rm [] = 0
remove_all rm (id ∷ ids) = let rest = remove_all rm ids in if rm id then suc rest else rest

-- The listing is `none` where `docker ps` fails, times out or raises.
unfoldable pub cleanup_orphaned_containers : (String → Bool) → ℕ → ℕ → Option (List Container) → ℕ
unfolding containers_to_remove remove_all
cleanup_orphaned_containers rm max_age now none = 0
cleanup_orphaned_containers rm max_age now (some cs) =
    remove_all rm (containers_to_remove max_age now cs)

pub record StartupResults : Type 0 where
  pub docker_healthy : Bool
  pub containers_removed : ℕ

-- `hour` is 3600 seconds in ticks, the default of max_age_seconds.
unfoldable pub startup_cleanup :
    (hour : ℕ)
    → CircuitBreakerConfig
    → DockerInfo
    → (String → Bool)
    → Option (List Container)
    → ℕ
    → DockerCircuitBreaker
    → StartupResults × DockerCircuitBreaker
unfolding check_docker_health cleanup_orphaned_containers
startup_cleanup hour config info rm listing now b =
    let checked = check_docker_health config info now b in
    (
      record {
        docker_healthy = checked.0;
        containers_removed =
            if checked.0 then cleanup_orphaned_containers rm hour now listing else 0;
      },
      checked.1,
    )
