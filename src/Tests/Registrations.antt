-- ===== src/Tests/Registrations.antt =====
-- A registration through its handler, over one-row tables.
use o2ul_portal.Common.{
  String, ◌≡◌, ◌≢◌, refl, lookup, ok, trim_space, is_space_code, to_lower, lower_rune,
}
use o2ul_portal.Domain.Role.{role_registered, normalize_role, is_valid_role, parse_role}
use o2ul_portal.Accounts.Users.{create}
use o2ul_portal.Auth.{new_auth_service, validate_smtp_config, missing_settings}
use o2ul_portal.Auth.Sessions
use o2ul_portal.Auth.Sessions.{finish_registration, finish_session, new_player}
use o2ul_portal.Http.{json}
use o2ul_portal.Http.Auth.{RegisterReq, Session, requested_role, register, login}
use o2ul_portal.Http.Auth.Registration.{register-registered}
use o2ul_portal.Tests.OneRow.{one_set}
use o2ul_portal.Tests.Sessions.{env, at, service, ann, empty, registered, env-IsBcrypt, repo_law}

abbrev req : RegisterReq
req = record { email = " Ann@O2ul "; username = "Ann"; password = "pw"; role = " Registered" }

abbrev given : Session
given = record { token = "u1"; player = ann }

registers : register env service (at 5) (ok req) empty ≡ (json 201 given, registered)
unfolding register requested_role parse_role Sessions.register finish_registration finish_session
    new_player new_auth_service validate_smtp_config missing_settings create one_set trim_space
    is_space_code to_lower lower_rune normalize_role is_valid_role lookup
registers = refl

register-registered_example :
    (ann.role ≡ role_registered)
    × (service.repo.by_id registered.users (at 5).uuid ≡ ok ann)
    × ((id : String)
        → (at 5).uuid ≢ id
        → service.repo.by_id registered.users id ≡ service.repo.by_id empty.users id)
    × ((login env service
          (at 9)
          (ok (record { email = " Ann@O2ul "; password = "pw" }))
          registered).0
        ≡ json 200 (record { token = "u1"; player = ann }))
register-registered_example =
    register-registered env service repo_law env-IsBcrypt (at 5) (at 9) req empty registered given
      "u1" registers refl
