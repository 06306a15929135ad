-- ===== src/Client/Config/Valid.antt =====
-- What a validated configuration is.
use mathlib.Core.Option
use agentpg.Base.{
  ℕ, ◌*◌, ◌≡◌, refl, ap, subst, length, true, List, [], ◌∷◌, All, Option, some, ltb, arith,
}
use agentpg.Base.Int.{ℤ, pos, negsuc, ltb_ℤ}
use agentpg.Driver.{Bytes}
use agentpg.Worker.Tools.{second}
use agentpg.Client.Config.{
  ClientConfig, host_or, if_key, positive_or, text_or, with_defaults, validate,
}

-- The limits, intervals and lifetimes of a configuration.
abbrev pub numbers : ClientConfig → List ℤ
numbers config =
    config.max_concurrent_runs ∷ config.max_concurrent_streaming_runs ∷ config.max_concurrent_tools
    ∷ config.batch_poll_interval ∷ config.run_poll_interval ∷ config.tool_poll_interval
    ∷ config.heartbeat_interval ∷ config.leader_ttl ∷ config.stuck_run_timeout ∷ config.instance_ttl
    ∷ config.cleanup_interval ∷ []

abbrev pub IsPositive : ℤ → Type 0
IsPositive n = ltb_ℤ (pos 0) n ≡ true

IsPositive-or : (default : ℕ) (n : ℤ) → ltb 0 default ≡ true → IsPositive (positive_or default n)
IsPositive-or default (pos n) h = ground arith
IsPositive-or default (negsuc n) h = ground arith

positive-fixed : (default : ℕ) (n : ℤ) → IsPositive n → positive_or default n ≡ n
positive-fixed default (pos n) h = ground arith
positive-fixed default (negsuc n) h = absurd ground arith

positive-again :
    (default : ℕ) (n : ℤ)
    → ltb 0 default ≡ true
    → positive_or default (positive_or default n) ≡ positive_or default n
positive-again default n h =
    positive-fixed default (positive_or default n) (IsPositive-or default n h)

text-again : (default : Bytes) (t : Bytes) → text_or default (text_or default t) ≡ text_or default t
text-again [] [] = refl
text-again (b ∷ bs) [] = refl
text-again default (b ∷ bs) = refl

id-again : (u : ℕ) (us again t : Bytes) → text_or again (text_or (u ∷ us) t) ≡ text_or (u ∷ us) t
id-again u us again [] = refl
id-again u us again (b ∷ bs) = refl

module _ (hostname : Option Bytes) (u : ℕ) (us : Bytes) where
  defaults-IsPositive :
      (config : ClientConfig) → All IsPositive (numbers (with_defaults hostname (u ∷ us) config))
  defaults-IsPositive config = (
    IsPositive-or 10 config.max_concurrent_runs refl,
    (
      IsPositive-or 5 config.max_concurrent_streaming_runs refl,
      (
        IsPositive-or 50 config.max_concurrent_tools refl,
        (
          IsPositive-or (30 * second) config.batch_poll_interval refl,
          (
            IsPositive-or second config.run_poll_interval refl,
            (
              IsPositive-or (500 * 1000000) config.tool_poll_interval refl,
              (
                IsPositive-or (15 * second) config.heartbeat_interval refl,
                (
                  IsPositive-or (30 * second) config.leader_ttl refl,
                  (
                    IsPositive-or (300 * second) config.stuck_run_timeout refl,
                    (
                      IsPositive-or (120 * second) config.instance_ttl refl,
                      (IsPositive-or (60 * second) config.cleanup_interval refl, tt),
                    ),
                  ),
                ),
              ),
            ),
          ),
        ),
      ),
    ),
  )

  defaults-again :
      (again : Bytes) (config : ClientConfig)
      → with_defaults hostname again (with_defaults hostname (u ∷ us) config)
        ≡ with_defaults hostname (u ∷ us) config
  defaults-again again config =
      rw
        (
          text-again (host_or hostname) config.name,
          id-again u us again config.id,
          positive-again 10 config.max_concurrent_runs refl,
          positive-again 5 config.max_concurrent_streaming_runs refl,
          positive-again 50 config.max_concurrent_tools refl,
          positive-again (30 * second) config.batch_poll_interval refl,
          positive-again second config.run_poll_interval refl,
          positive-again (500 * 1000000) config.tool_poll_interval refl,
          positive-again (15 * second) config.heartbeat_interval refl,
          positive-again (30 * second) config.leader_ttl refl,
          positive-again (300 * second) config.stuck_run_timeout refl,
          positive-again (120 * second) config.instance_ttl refl,
          positive-again (60 * second) config.cleanup_interval refl,
        )
        refl

  abbrev pub IsValid : ClientConfig → Type 0
  IsValid c =
      All IsPositive (numbers c)
      × (ltb 0 (length c.api_key) ≡ true)
      × ((env again : Bytes) → validate env hostname again c ≡ some c)

  IsValid-keyed :
      (config : ClientConfig) (key : Bytes) (c : ClientConfig)
      → if_key key hostname (u ∷ us) config ≡ some c
      → IsValid c
  unfolding validate
  IsValid-keyed config [] c h = absurd cc
  IsValid-keyed config (k ∷ ks) c h =
      let keyed = record config { api_key = k ∷ ks } in
      subst IsValid (Option.some-injective (with_defaults hostname (u ∷ us) keyed) c h) (
        defaults-IsPositive keyed,
        ground arith,
        (λ env again. ap some (defaults-again again keyed)),
      )

  -- A configuration that validation accepts has a key, and its limits, intervals and lifetimes are all
  -- positive; validating it again changes nothing, whatever the environment holds by then. The new
  -- UUID is not empty, and the host has kept its name.
  pub validate-IsValid :
      (env : Bytes) (config c : ClientConfig)
      → validate env hostname (u ∷ us) config ≡ some c
      → IsValid c
  unfolding validate
  validate-IsValid env config c h = IsValid-keyed config (text_or env config.api_key) c h
