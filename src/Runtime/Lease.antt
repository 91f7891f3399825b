-- ===== src/Runtime/Lease.antt =====
-- cmd/nana-runtime/main.go: acquireAuthority and renewAuthority. A method that changes the engine
-- returns it with the error, if there is one.
use nana.Prelude.{String, false, Option, none, some, ◌==◌, if◌then◌else◌}
use nana.Runtime.State.{
  Authority, Engine, RuntimeError, lease_already_held, no_lease_held, owner_mismatch,
}

abbrev granted : String → String → String → Authority
granted owner lease_id leased_until = record {
  owner = some owner;
  lease_id = some lease_id;
  leased_until = some leased_until;
  stale = false;
  stale_reason = none;
}

unfoldable pub acquire_authority : String → String → String → Engine → Engine × Option RuntimeError
acquire_authority owner lease_id leased_until e =
    let won : Engine = record e { authority = granted owner lease_id leased_until } in
    elim e.authority.owner [
      | none ↦ (won, none)
      | some held ↦ if held == owner then (won, none) else (e, some (lease_already_held held))
    ]

unfoldable pub renew_authority : String → String → String → Engine → Engine × Option RuntimeError
renew_authority owner lease_id leased_until e = elim e.authority.owner [
  | none ↦ (e, some no_lease_held)
  | some held ↦
      if held == owner
      then (
        record e {
          authority = record e.authority {
            lease_id = some lease_id;
            leased_until = some leased_until;
            stale = false;
            stale_reason = none;
          };
        },
        none,
      )
      else (e, some (owner_mismatch held))
]
