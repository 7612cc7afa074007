-- ===== src/Config/Platform.antt =====
-- The cloud platform of config/config.go, and its spelling in the configuration file.
use mackerel_agent.Prelude.{String, Bool, true, false, ◌≡◌, refl, str_eq, ◌||◌, if◌then◌else◌}
use mackerel_agent.Config.{CloudPlatform, auto, no_platform, ec2, gce, azure_vm}

-- (c CloudPlatform) String()
unfoldable pub platform_string : CloudPlatform → String
platform_string auto = "auto"
platform_string no_platform = "none"
platform_string ec2 = "ec2"
platform_string gce = "gce"
platform_string azure_vm = "azurevm"

-- (c *CloudPlatform) UnmarshalText: the value that is stored, and whether it returns an error.
unfoldable pub unmarshal_platform : String → CloudPlatform × Bool
unmarshal_platform text =
    if str_eq text "auto" || str_eq text ""
    then (auto, false)
    else if str_eq text "none"
    then (no_platform, false)
    else if str_eq text "ec2"
    then (ec2, false)
    else if str_eq text "gce"
    then (gce, false)
    else if str_eq text "azurevm"
    then (azure_vm, false)
    else (no_platform, true)

-- A platform that is printed is read back.
pub unmarshal-platform_string :
    (c : CloudPlatform) → unmarshal_platform (platform_string c) ≡ (c, false)
unfolding unmarshal_platform platform_string
unmarshal-platform_string auto = refl
unmarshal-platform_string no_platform = refl
unmarshal-platform_string ec2 = refl
unmarshal-platform_string gce = refl
unmarshal-platform_string azure_vm = refl
