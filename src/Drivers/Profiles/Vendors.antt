-- ===== src/Drivers/Profiles/Vendors.antt =====
-- profiles.go and registry.go: the profiles of the vendors and their registration.
use go_xidized.Prelude.{Text, codes, List, [], ◌∷◌, ◌++◌}
use go_xidized.Types.Errors.{command, privilege, timeout}
use go_xidized.Pipeline.Redaction.{Rule}
use go_xidized.Drivers.Transcript.{CommandProfile}
use go_xidized.Drivers.Profiles.{
  Regexp, commands, prompts, removals, rule, marker, common_paging_patterns, common_cisco_markers,
  common_cisco_normalize_rules,
}
use go_xidized.Drivers.{default_max_config_bytes, Registry, register_each}

module _ (compile : Text → Regexp) where
  abbrev pub cisco_iosxe_profile : CommandProfile
  cisco_iosxe_profile = record {
    vendor = codes "cisco_iosxe";
    prepare = commands (codes "terminal length 0" ∷ codes "terminal width 0" ∷ []);
    fetch_command = codes "show running-config";
    prompt_patterns = prompts compile (codes "^[A-Za-z0-9_.:/-]+(?:\\([^)]+\\))?[#>]" ∷ []);
    paging_patterns = common_paging_patterns compile;
    markers =
        common_cisco_markers compile
        ++ (marker compile (codes "cisco privilege") privilege (
              codes
                "(?im)^% ?(?:Authorization failed|Access denied|Permission denied|Privilege level insufficient).*$")
            ∷ marker compile (codes "cisco timeout") timeout
                (codes "(?im)^% ?(?:Timed out|Command timed out).*$")
            ∷ marker compile (codes "cisco oversized") command (
                codes
                  "(?im)^% ?(?:Output truncated|Configuration too large|Exceeded maximum output).*$")
            ∷ []);
    normalize_rules = common_cisco_normalize_rules compile;
    redaction_rules = [];
    max_bytes = default_max_config_bytes;
  }

  abbrev pub huawei_vrp_profile : CommandProfile
  huawei_vrp_profile = record {
    vendor = codes "huawei_vrp";
    prepare = commands (codes "screen-length 0 temporary" ∷ []);
    fetch_command = codes "display current-configuration";
    prompt_patterns = prompts compile (codes "^(?:<[^>\\n]+>|\\[[^\\]\\n]+\\])" ∷ []);
    paging_patterns = common_paging_patterns compile;
    markers =
        marker compile (codes "huawei privilege") privilege (
          codes
            "(?im)^Error: (?:Permission denied|The user does not have permission|Insufficient permission).*$")
        ∷ marker compile (codes "huawei timeout") timeout
            (codes "(?im)^(?:Error|Info): .*timed? ?out.*$")
        ∷ marker compile (codes "huawei oversized") command
            (codes "(?im)^Error: .*output.*(?:too large|exceed|truncated).*$")
        ∷ marker compile (codes "huawei command") command (
            codes
              "(?im)^Error: .*(?:Unrecognized command|The command is not found|Too many parameters|Incomplete command|Wrong parameter).*$")
        ∷ [];
    normalize_rules = removals compile (
        codes "(?im)^Info: Current configuration.*$"
        ∷ codes "(?im)^#\\s*display current-configuration.*$"
        ∷ []);
    redaction_rules =
        rule compile (codes "huawei-local-user-password") (codes "local_user_password")
          (codes
            "(?im)^(\\s*local-user\\s+\\S+\\s+password\\s+(?:(?:irreversible-cipher|cipher|simple)\\s+)?)(\\S+)(.*)$")
          (codes "${1}<redacted:local_user_password>${3}")
        ∷ [];
    max_bytes = default_max_config_bytes;
  }

  abbrev pub cisco_iosxr_profile : CommandProfile
  cisco_iosxr_profile = record {
    vendor = codes "cisco_iosxr";
    prepare = commands (codes "terminal length 0" ∷ codes "terminal width 0" ∷ []);
    fetch_command = codes "show running-config";
    prompt_patterns = prompts compile (codes "^[A-Za-z0-9_.:/-]+(?:\\([^)]+\\))?[#>]" ∷ []);
    paging_patterns = common_paging_patterns compile;
    markers =
        common_cisco_markers compile
        ++ (marker compile (codes "iosxr privilege") privilege (
              codes
                "(?im)^% ?(?:Authorization failed|Access denied|Permission denied|Insufficient privileges).*$")
            ∷ marker compile (codes "iosxr timeout") timeout
                (codes "(?im)^% ?(?:Timed out|Command timed out).*$")
            ∷ marker compile (codes "iosxr oversized") command (
                codes
                  "(?im)^% ?(?:Output truncated|Configuration too large|Exceeded maximum output).*$")
            ∷ []);
    normalize_rules = removals compile (
        codes "(?im)^Building configuration\\.\\.\\..*$"
        ∷ codes "(?im)^!! IOS XR Configuration.*$"
        ∷ codes "(?im)^!! Last configuration change.*$"
        ∷ codes "(?im)^Current configuration\\s*:.*$"
        ∷ []);
    redaction_rules =
        rule compile (codes "iosxr-nested-user-secret") (codes "local_user_password")
          (codes "(?im)^(\\s*secret\\s+(?:\\d+\\s+)?)(\\S+)(.*)$")
          (codes "${1}<redacted:local_user_password>${3}")
        ∷ [];
    max_bytes = default_max_config_bytes;
  }

  abbrev pub juniper_junos_profile : CommandProfile
  juniper_junos_profile = record {
    vendor = codes "juniper_junos";
    prepare = commands (codes "set cli screen-length 0" ∷ codes "set cli screen-width 0" ∷ []);
    fetch_command = codes "show configuration | display set | no-more";
    prompt_patterns = prompts compile (codes "^[A-Za-z0-9_.@:/-]+[>%#]" ∷ []);
    paging_patterns = common_paging_patterns compile;
    markers =
        marker compile (codes "junos privilege") privilege (
          codes
            "(?im)^(?:error: )?(?:permission denied|authorization failed|insufficient privileges).*$")
        ∷ marker compile (codes "junos timeout") timeout
            (codes "(?im)^(?:error: )?.*timed? ?out.*$")
        ∷ marker compile (codes "junos oversized") command (
            codes "(?im)^(?:error: )?.*(?:output too large|output truncated|response too large).*$")
        ∷ marker compile (codes "junos command") command
            (codes "(?im)^(?:error: )?(?:syntax error|unknown command|invalid command).*$")
        ∷ [];
    normalize_rules =
        removals compile (codes "(?im)^## Last commit:.*$" ∷ codes "(?im)^# Last commit:.*$" ∷ []);
    redaction_rules =
        rule compile (codes "junos-login-password") (codes "local_user_password")
          (codes
            "(?im)^(\\s*set\\s+system\\s+login\\s+user\\s+\\S+\\s+authentication\\s+(?:encrypted-password|plain-text-password)\\s+)(\"[^\"\\r\\n]+\"|\\S+)(.*)$")
          (codes "${1}<redacted:local_user_password>${3}")
        ∷ rule compile (codes "junos-root-password") (codes "local_user_password")
            (codes
              "(?im)^(\\s*set\\s+system\\s+root-authentication\\s+(?:encrypted-password|plain-text-password)\\s+)(\"[^\"\\r\\n]+\"|\\S+)(.*)$")
            (codes "${1}<redacted:local_user_password>${3}")
        ∷ rule compile (codes "junos-snmp-community") (codes "snmp_community")
            (codes "(?im)^(\\s*set\\s+snmp\\s+community\\s+)(\"[^\"\\r\\n]+\"|\\S+)(.*)$")
            (codes "${1}<redacted:snmp_community>${3}")
        ∷ rule compile (codes "junos-aaa-secret") (codes "aaa_shared_secret")
            (codes
              "(?im)^(\\s*set\\s+system\\s+(?:radius-server|tacplus-server)\\s+\\S+\\s+(?:secret|password)\\s+)(\"[^\"\\r\\n]+\"|\\S+)(.*)$")
            (codes "${1}<redacted:aaa_shared_secret>${3}")
        ∷ rule compile (codes "junos-routing-auth-key") (codes "routing_auth_key")
            (codes
              "(?im)^(\\s*set\\s+protocols\\s+.+\\s+authentication-key\\s+)(\"[^\"\\r\\n]+\"|\\S+)(.*)$")
            (codes "${1}<redacted:routing_auth_key>${3}")
        ∷ [];
    max_bytes = default_max_config_bytes;
  }

  abbrev pub zte_zxr10_profile : CommandProfile
  zte_zxr10_profile = record {
    vendor = codes "zte_zxr10";
    prepare = commands (codes "terminal length 0" ∷ []);
    fetch_command = codes "show running-config";
    prompt_patterns = prompts compile (codes "^[A-Za-z0-9_.:/-]+(?:\\([^)]+\\))?[#>]" ∷ []);
    paging_patterns = common_paging_patterns compile;
    markers =
        marker compile (codes "zte privilege") privilege (
          codes
            "(?im)^(?:% ?)?(?:No privilege|Permission denied|Authorization failed|Insufficient privilege).*$")
        ∷ marker compile (codes "zte timeout") timeout
            (codes "(?im)^(?:% ?)?(?:Command timed out|Timed out).*$")
        ∷ marker compile (codes "zte oversized") command
            (codes "(?im)^(?:% ?)?(?:Output too large|Output truncated|Exceeded maximum output).*$")
        ∷ marker compile (codes "zte command") command (
            codes
              "(?im)^(?:% ?)?(?:Invalid command|Incomplete command|Ambiguous command|Command execution failed|Code 202).*$")
        ∷ [];
    normalize_rules = removals compile (
        codes "(?im)^Building configuration\\.\\.\\..*$"
        ∷ codes "(?im)^Current configuration\\s*:.*$"
        ∷ []);
    redaction_rules = [];
    max_bytes = default_max_config_bytes;
  }

  abbrev pub ericsson_ipos_profile : CommandProfile
  ericsson_ipos_profile = record {
    vendor = codes "ericsson_ipos";
    prepare = commands (codes "terminal length 0" ∷ codes "terminal width 0" ∷ []);
    fetch_command = codes "show configuration";
    prompt_patterns = prompts compile (codes "^[A-Za-z0-9_.:@/-]+(?:\\([^)]+\\))?[#>]" ∷ []);
    paging_patterns = common_paging_patterns compile;
    markers =
        marker compile (codes "ipos privilege") privilege (
          codes
            "(?im)^(?:ERROR: )?(?:Permission denied|Authorization failed|Insufficient privileges).*$")
        ∷ marker compile (codes "ipos timeout") timeout (codes "(?im)^(?:ERROR: )?.*timed? ?out.*$")
        ∷ marker compile (codes "ipos oversized") command (
            codes "(?im)^(?:ERROR: )?.*(?:output too large|output truncated|response too large).*$")
        ∷ marker compile (codes "ipos command") command
            (codes "(?im)^(?:ERROR: )?(?:Invalid command|Unknown command|Command failed).*$")
        ∷ [];
    normalize_rules = removals compile (
        codes "(?im)^Current configuration\\s*:.*$"
        ∷ codes "(?im)^Building configuration\\.\\.\\..*$"
        ∷ []);
    redaction_rules =
        rule compile (codes "ipos-user-password") (codes "local_user_password")
          (codes
            "(?im)^(\\s*(?:system\\s+)?user\\s+\\S+\\s+(?:encrypted-password|password)\\s+)(\\S+)(.*)$")
          (codes "${1}<redacted:local_user_password>${3}")
        ∷ [];
    max_bytes = default_max_config_bytes;
  }

  -- In the order of their registration, each under its own name.
  abbrev pub profiles : List CommandProfile
  profiles =
      cisco_iosxe_profile ∷ huawei_vrp_profile ∷ cisco_iosxr_profile ∷ juniper_junos_profile
      ∷ ericsson_ipos_profile ∷ zte_zxr10_profile ∷ []

  unfoldable pub register_defaults : List (Text → Text) → List Rule → Registry → Registry
  unfolding register_each
  register_defaults normalize_rules redaction_rules r =
      register_each normalize_rules redaction_rules profiles r
