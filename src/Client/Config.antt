-- ===== src/Client/Config.antt =====
-- config.go: the configuration of a client, its defaults and its validation. Durations are in
-- nanoseconds. What the environment variable ANTHROPIC_API_KEY holds, the name of the host, `none`
-- where it is not known, and a new UUID are arguments. The fields that validation does not look at,
-- the logger and the configurations of its parts, are left out.
pub mod Valid
use agentpg.Base.{
  ℕ, ◌*◌, ◌/◌, Bool, true, false, List, [], ◌∷◌, codes, Option, none, some, ltb, if◌then◌else◌,
}
use agentpg.Base.Int.{ℤ, pos, negsuc}
use agentpg.Driver.{Bytes}
use agentpg.Worker.Tools.{second}

pub record ClientConfig : Type 0 where
  pub api_key : Bytes
  pub name : Bytes
  pub id : Bytes
  pub max_concurrent_runs : ℤ
  pub max_concurrent_streaming_runs : ℤ
  pub max_concurrent_tools : ℤ
  pub batch_poll_interval : ℤ
  pub run_poll_interval : ℤ
  pub tool_poll_interval : ℤ
  pub heartbeat_interval : ℤ
  pub leader_ttl : ℤ
  pub stuck_run_timeout : ℤ
  pub instance_ttl : ℤ
  pub cleanup_interval : ℤ

-- The default for a number that is not positive.
abbrev pub positive_or : ℕ → ℤ → ℤ
positive_or default (pos n) = if ltb 0 n then pos n else pos default
positive_or default (negsuc n) = pos default

abbrev pub text_or : Bytes → Bytes → Bytes
text_or default [] = default
text_or default (b ∷ bs) = b ∷ bs

abbrev pub host_or : Option Bytes → Bytes
host_or none = codes "unknown"
host_or (some host) = host

abbrev milliseconds : ℕ → ℕ
milliseconds n = n * 1000000

abbrev pub with_defaults : Option Bytes → Bytes → ClientConfig → ClientConfig
with_defaults hostname uuid config = record config {
  name = text_or (host_or hostname) config.name;
  id = text_or uuid config.id;
  max_concurrent_runs = positive_or 10 config.max_concurrent_runs;
  max_concurrent_streaming_runs = positive_or 5 config.max_concurrent_streaming_runs;
  max_concurrent_tools = positive_or 50 config.max_concurrent_tools;
  batch_poll_interval = positive_or (30 * second) config.batch_poll_interval;
  run_poll_interval = positive_or second config.run_poll_interval;
  tool_poll_interval = positive_or (milliseconds 500) config.tool_poll_interval;
  heartbeat_interval = positive_or (15 * second) config.heartbeat_interval;
  leader_ttl = positive_or (30 * second) config.leader_ttl;
  stuck_run_timeout = positive_or (300 * second) config.stuck_run_timeout;
  instance_ttl = positive_or (120 * second) config.instance_ttl;
  cleanup_interval = positive_or (60 * second) config.cleanup_interval;
}

abbrev pub if_key : Bytes → Option Bytes → Bytes → ClientConfig → Option ClientConfig
if_key [] hostname uuid config = none
if_key (b ∷ bs) hostname uuid config =
    some (with_defaults hostname uuid (record config { api_key = b ∷ bs }))

-- `validate`, `none` where it returns an error.
unfoldable pub validate : Bytes → Option Bytes → Bytes → ClientConfig → Option ClientConfig
validate env_key hostname uuid config = if_key (text_or env_key config.api_key) hostname uuid config

unfoldable pub default_config : ClientConfig
default_config = record {
  api_key = [];
  name = [];
  id = [];
  max_concurrent_runs = pos 10;
  max_concurrent_streaming_runs = pos 5;
  max_concurrent_tools = pos 50;
  batch_poll_interval = pos (30 * second);
  run_poll_interval = pos second;
  tool_poll_interval = pos (milliseconds 500);
  heartbeat_interval = pos (15 * second);
  leader_ttl = pos (30 * second);
  stuck_run_timeout = pos (300 * second);
  instance_ttl = pos (120 * second);
  cleanup_interval = pos (60 * second);
}
