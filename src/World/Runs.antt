-- ===== src/World/Runs.antt =====
-- A run of a provider that answers.
use memory_agent.Prelude.{suc, ◌≡◌, ap, some, List}
use memory_agent.Action.{or_throw, provider_error, done}
use memory_agent.Env.{Env}
use memory_agent.Text.{Text}
use memory_agent.World.{ask, embed, World}

module _ {F : Type 0} (env : Env F) where
  pub embed-run :
      (s : Text) (w : World F) (v : List F)
      → env.embed w.calls s ≡ some v
      → embed env s w ≡ done v (record w { calls = suc w.calls })
  unfolding ask or_throw
  embed-run s w v e = ap (λ o. or_throw provider_error o (record w { calls = suc w.calls })) e
