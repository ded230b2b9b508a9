-- ===== src/Tests/Proxy.antt =====
-- The guard of the proxy and the names of models, on concrete inputs.
use makoto_lite_llm.Base.{ℕ, some, [], ◌∷◌, string_eq}
use makoto_lite_llm.Base.Int.{pos}
use makoto_lite_llm.Models.{ApiKey}
use makoto_lite_llm.RateLimiter as Limiter
use makoto_lite_llm.Tests.Values.{ann_key}

abbrev limited : ApiKey ℕ
limited = record ann_key { rpm_limit = some (pos 1); tpm_limit = some (pos 100) }

-- one request was counted
abbrev busy : Limiter.Windows
busy = ("rpm:sk-1", (pos 70000000, 1) ∷ []) ∷ []
