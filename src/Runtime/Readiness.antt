-- ===== src/Runtime/Readiness.antt =====
-- When the snapshot says ready (deriveReadiness in cmd/nana-runtime/main.go).
use nana.Prelude.{String, ◌≡◌, refl, List, [], ◌∷◌, false, arith, is_some, if◌then◌else◌}
use nana.Runtime.State.{new_runtime_engine}
use nana.Runtime.Command.{Codec, Command}
use nana.Runtime.Snapshot.{derive_readiness, not_acquired}
use nana.Runtime.Holding.{run, stale-run}

-- Behind any commands on a new engine, readiness is that the lease has an owner: no command makes
-- it stale, so the only reason ever given is that it was not acquired.
pub derive_readiness-run :
    (codec : Codec) (commands : List (String × Command))
    → let e = run codec commands new_runtime_engine in
      ((derive_readiness e).ready ≡ is_some e.authority.owner)
      × ((derive_readiness e).reasons
          ≡ (if is_some e.authority.owner then [] else not_acquired ∷ []))
unfolding derive_readiness
derive_readiness-run codec commands =
    let fresh : (run codec commands new_runtime_engine).authority.stale ≡ false =
      stale-run codec commands new_runtime_engine (unfold new_runtime_engine in refl) in
    ground arith
