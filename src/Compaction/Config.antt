-- ===== src/Compaction/Config.antt =====
-- compaction/config.go: the settings of the compactor. An `int` may be negative; a `float64` is
-- its 64-bit IEEE 754 pattern, and the product in `TriggerThreshold` is a parameter.
use agentpg.Base.{
  ℕ, ◌+◌, Bool, true, false, not, ◌&&◌, ◌||◌, [], Option, none, some, ltb, leb, ◌==◌, if◌then◌else◌,
  codes,
}
use agentpg.Base.Int.{ℤ, pos, leb_ℤ, ltb_ℤ}
use agentpg.Driver.{Bytes}

pub data Strategy : Type 0 where
  summarization hybrid unset : Strategy
  other : Bytes → Strategy

pub record Config : Type 0 where
  pub strategy : Strategy
  pub trigger : ℕ  -- float64
  pub target_tokens : ℤ
  pub preserve_last_n : ℤ
  pub protected_tokens : ℤ
  pub summarizer_model : Bytes
  pub summarizer_max_tokens : ℤ
  pub max_tokens_for_model : ℤ
  pub preserve_tool_outputs : Bool
  pub use_token_counting_api : Bool

-- The patterns of -0.0, 0.85, 1.0 and infinity.
abbrev pub negative_zero : ℕ
negative_zero = 0x8000000000000000

abbrev pub default_trigger : ℕ
default_trigger = 0x3feb333333333333

abbrev pub float_one : ℕ
float_one = 0x3ff0000000000000

abbrev pub float_infinity : ℕ
float_infinity = 0x7ff0000000000000

-- `x == 0`, `x <= 0` and `x > 1.0`; a NaN fails every comparison.
abbrev pub float_eq_zero : ℕ → Bool
float_eq_zero x = x == 0 || x == negative_zero

abbrev pub float_le_zero : ℕ → Bool
float_le_zero x = x == 0 || leb negative_zero x && leb x (negative_zero + float_infinity)

abbrev pub float_gt_one : ℕ → Bool
float_gt_one x = ltb float_one x && leb x float_infinity

-- "claude-3-5-haiku-20241022"
abbrev pub default_summarizer_model : Bytes
default_summarizer_model = codes "claude-3-5-haiku-20241022"

unfoldable pub default_config : Config
default_config = record {
  strategy = hybrid;
  trigger = default_trigger;
  target_tokens = pos 80000;
  preserve_last_n = pos 10;
  protected_tokens = pos 40000;
  summarizer_model = default_summarizer_model;
  summarizer_max_tokens = pos 4096;
  max_tokens_for_model = pos 200000;
  preserve_tool_outputs = false;
  use_token_counting_api = true;
}

-- Why `Validate` refuses; every case is an `ErrInvalidConfig`.
pub data ConfigError : Type 0 where
  unknown_strategy trigger_out_of_range target_tokens_not_positive preserve_last_n_negative
        protected_tokens_negative summarizer_model_missing max_tokens_for_model_not_positive
        summarizer_max_tokens_not_positive target_tokens_too_large :
      ConfigError

abbrev pub is_known_strategy : Strategy → Bool
is_known_strategy summarization = true
is_known_strategy hybrid = true
is_known_strategy _ = false

abbrev pub is_empty : Bytes → Bool
is_empty [] = true
is_empty _ = false

unfoldable pub validate : Config → Option ConfigError
validate c =
    if not (is_known_strategy c.strategy)
    then some unknown_strategy
    else if float_le_zero c.trigger || float_gt_one c.trigger
    then some trigger_out_of_range
    else if leb_ℤ c.target_tokens (pos 0)
    then some target_tokens_not_positive
    else if ltb_ℤ c.preserve_last_n (pos 0)
    then some preserve_last_n_negative
    else if ltb_ℤ c.protected_tokens (pos 0)
    then some protected_tokens_negative
    else if is_empty c.summarizer_model
    then some summarizer_model_missing
    else if leb_ℤ c.max_tokens_for_model (pos 0)
    then some max_tokens_for_model_not_positive
    else if leb_ℤ c.summarizer_max_tokens (pos 0)
    then some summarizer_max_tokens_not_positive
    else if leb_ℤ c.max_tokens_for_model c.target_tokens
    then some target_tokens_too_large
    else none

abbrev pub is_zero : ℤ → Bool
is_zero n = leb_ℤ n (pos 0) && leb_ℤ (pos 0) n

abbrev pub is_unset : Strategy → Bool
is_unset unset = true
is_unset _ = false

-- Zero values are replaced; the two Booleans stay as they are.
unfoldable pub apply_defaults : Config → Config
apply_defaults c = record c {
  strategy = if is_unset c.strategy then hybrid else c.strategy;
  trigger = if float_eq_zero c.trigger then default_trigger else c.trigger;
  target_tokens = if is_zero c.target_tokens then pos 80000 else c.target_tokens;
  preserve_last_n = if is_zero c.preserve_last_n then pos 10 else c.preserve_last_n;
  protected_tokens = if is_zero c.protected_tokens then pos 40000 else c.protected_tokens;
  summarizer_model =
      if is_empty c.summarizer_model then default_summarizer_model else c.summarizer_model;
  summarizer_max_tokens =
      if is_zero c.summarizer_max_tokens then pos 4096 else c.summarizer_max_tokens;
  max_tokens_for_model =
      if is_zero c.max_tokens_for_model then pos 200000 else c.max_tokens_for_model;
}

-- `int(float64(c.MaxTokensForModel) * c.Trigger)`, where `scale` is that product and conversion.
unfoldable pub trigger_threshold : (ℤ → ℕ → ℤ) → Config → ℤ
trigger_threshold scale c = scale c.max_tokens_for_model c.trigger
