-- ===== src/Tests/Programs.antt =====
-- The program's parts together: a sweep over two devices, credentials from a file, and a driver's
-- commands.
use go_xidized.Prelude.{
  some, if◌then◌else◌, ◌*◌, ◌≡◌, refl, true, false, Text, codes, is_empty, text_eq, List, [], ◌∷◌,
  All, Option, none,
}
use go_xidized.Prelude.Strings.{trim_space, has_prefix}
use go_xidized.Prelude.Strings.Parts.{cut, trim, trim_prefix, to_upper}
use go_xidized.Types.{Target, hour}
use go_xidized.Types.Errors.{ok, plain, GoError}
use go_xidized.Types.Secrets.{is_zero, new_secret}
use go_xidized.Tests.Jobs.{request}
use go_xidized.Tests.Planning.{mondays, planner}
use go_xidized.App.{sweep_each}
use go_xidized.App.Sweeps.{IsScheduled, sweep_each-IsScheduled}
use go_xidized.Credentials.Dotenv.{
  System, DotenvProvider, Credentials, dotenv_resolve, dotenv_load, with_values, named, complete,
  environment, file_values, key_of, normalize_key, auth_type_of,
}
use go_xidized.Credentials.Usable.{dotenv_resolve-auth_methods}
use go_xidized.Transport.Ssh.{AuthMethod, auth_methods}

abbrev nowhere : Text → Option (Unit {0})
nowhere t = none

abbrev devices : List Target
devices = request.target ∷ record (request.target) { enabled = false } ∷ []

sweep_each-IsScheduled_example :
    All
      (IsScheduled mondays nowhere planner (2 * hour))
      (sweep_each mondays nowhere planner (2 * hour) devices)
sweep_each-IsScheduled_example = sweep_each-IsScheduled mondays nowhere planner (2 * hour) devices

abbrev system : System
system = record {
  is_windows = false;
  environ = codes "CORE_USERNAME=root" ∷ codes "CORE_PASSWORD=old" ∷ [];
  stat = ok 384;
  scan = ok (
    codes "# core routers" ∷ codes "CORE_USERNAME = ana" ∷ codes "CORE_PASSWORD='p=w'" ∷ [],
    none,
  );
}

abbrev dotenv : DotenvProvider
dotenv = record { path = codes ".env"; require_chmod_600 = true; values = none }

-- The file comes after the environment, and `env://` may stand before the name.
abbrev core : Credentials
core = record {
  username = codes "ana";
  password = new_secret (codes "p=w");
  private_key_pem = new_secret [];
  enable_secret = new_secret [];
  source = codes "dotenv";
  auth_type = codes "password";
}

abbrev gone : GoError
gone = plain (codes "context canceled")

core_resolved : (dotenv_resolve gone system false dotenv (codes "env://core")).0 ≡ ok core
unfolding dotenv_resolve with_values named complete dotenv_load environment file_values key_of
    normalize_key cut trim trim_prefix trim_space to_upper has_prefix text_eq new_secret
    auth_type_of
core_resolved = refl

-- The parser has an error for an empty text, as for any that has no key.
abbrev any_key : Text → Option GoError
any_key t = if is_empty t then some (plain (codes "ssh: no key found")) else none

dotenv_resolve-auth_methods_example :
    (is_empty core.username ≡ false)
    × ((m : AuthMethod) × (ms : List AuthMethod) × (auth_methods any_key core.private_key_pem
            core.password
          ≡ ok (m ∷ ms)))
unfolding is_zero new_secret
dotenv_resolve-auth_methods_example =
    dotenv_resolve-auth_methods gone system false dotenv (codes "env://core") core any_key
      core_resolved (λ key. cc)
