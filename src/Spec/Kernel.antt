-- ===== src/Spec/Kernel.antt =====
-- The generator of the kernel spec (spec/linux/kernel.go): the output of uname, and the name of the
-- distribution.
use mackerel_agent.Prelude.{
  String, ◌≡◌, Option, none, some, [], ◌∷◌, Dict, lookup, insert, IsMap, lookup-insert, eq_iff,
  Option-cases, inl, inr, arith, trim_space, is_nil, if◌then◌else◌,
}

-- The switch of normalizePlatform
abbrev pub platform_names : Dict String
platform_names =
    ("debian", "Debian")
    ∷ ("ubuntu", "Ubuntu")
    ∷ ("linuxmint", "Linux Mint")
    ∷ ("raspbian", "Raspbian")
    ∷ ("fedora", "Fedora")
    ∷ ("oracle", "Oracle Linux")
    ∷ ("enterpriseenterprise", "Oracle Enterprise Linux")
    ∷ ("centos", "CentOS")
    ∷ ("redhat", "Red Hat Enterprise Linux")
    ∷ ("scientific", "Scientific Linux")
    ∷ ("amazon", "Amazon Linux")
    ∷ ("xenserver", "XenServer")
    ∷ ("cloudlinux", "CloudLinux")
    ∷ ("ibm_powerkvm", "IBM PowerKVM")
    ∷ ("suse", "SUSE Linux Enterprise Server")
    ∷ ("opensuse", "openSUSE")
    ∷ ("gentoo", "Gentoo Linux")
    ∷ ("slackware", "Slackware")
    ∷ ("arch", "Arch Linux")
    ∷ ("exherbo", "Exherbo")
    ∷ ("alpine", "Alpine Linux")
    ∷ ("coreos", "CoreOS")
    ∷ []

-- normalizePlatform
unfoldable pub normalize_platform : String → String
normalize_platform platform = elim (lookup platform platform_names) [
  | none ↦ platform
  | some normalized ↦ normalized
]

-- The options of uname, by the keys of their results.
abbrev pub uname_commands : Dict String
uname_commands = ("name", "-s") ∷ ("release", "-r") ∷ ("version", "-v") ∷ ("machine", "-m") ∷ []

-- The loop over the commands, in the order of a `range`: `uname` gives the output for an option,
-- unless it fails.
unfoldable pub run_unames :
    (String → Option String) → Dict String → Dict String → Option (Dict String)
run_unames uname results [] = some results
run_unames uname results ((key, option) ∷ commands) = elim (uname option) [
  | none ↦ none
  | some out ↦ run_unames uname (insert key (trim_space out) results) commands
]

-- results["os"]: where there is no `uname -o`, the output of `uname -s`.
unfoldable pub os_name : (String → Option String) → Dict String → String
os_name uname results = elim (uname "-o") [
  | some out ↦ trim_space out
  | none ↦ elim (lookup "name" results) [ none ↦ "" | some name ↦ name ]
]

abbrev insert_unless_nil : String → String → Dict String → Dict String
insert_unless_nil key value results = if is_nil value then results else insert key value results

-- The platform and its version, where host.PlatformInformation gives them.
unfoldable pub add_platform : Option (String × String) → Dict String → Dict String
unfolding normalize_platform
add_platform none results = results
add_platform (some (platform, version)) results =
    insert_unless_nil "platform_version" version
      (insert_unless_nil "platform_name" (normalize_platform platform) results)

-- Generate. `none` is an error.
unfoldable pub generate_kernel :
    Dict String → (String → Option String) → Option (String × String) → Option (Dict String)
unfolding run_unames os_name add_platform
generate_kernel commands uname platform = elim (run_unames uname [] commands) [
  | none ↦ none
  | some results ↦ some (add_platform platform (insert "os" (os_name uname results) results))
]

-- The results of uname, whatever the order of the range: under each key the output for its option.
pub lookup-run_unames :
    (uname : String → Option String) (key : String) (commands before results : Dict String)
    → IsMap commands
    → run_unames uname before commands ≡ some results
    → lookup key results ≡ elim (lookup key commands) [
      | none ↦ lookup key before
      | some option ↦ elim (uname option) [ none ↦ none | some out ↦ some (trim_space out) ]
    ]
unfolding run_unames lookup
lookup-run_unames uname key [] before results m h = ground arith
lookup-run_unames uname key ((name, option) ∷ commands) before results m h =
    elim (Option-cases (uname option)) [
      | inl e ↦ ground arith
      | inr (out, e) ↦ ground (
        arith,
        eq_iff name key,
        lookup-insert name key (trim_space out) before,
        lookup-run_unames uname key commands (insert name (trim_space out) before) results m.1,
      )
    ]
