-- ===== src/Spec/BlockDevice.antt =====
-- The generator of the block device spec (spec/linux/block_device.go): the files of /sys/block.
use mackerel_agent.Prelude.{
  String, append, Option, none, some, List, [], ◌∷◌, Dict, insert, trim_space, Result, ok, err,
  ◌>>=◌,
}

-- What ioutil.ReadDir does with /sys/block.
pub data Listing : Type 0 where
  not_exist unreadable : Listing
  names : List String → Listing

-- A file that os.Stat finds: it can be read, or not.
pub data File : Type 0 where
  broken : File
  content : String → File

-- What is under /sys/block: its listing, and the file of a path, if there is one.
pub record SysBlock : Type 0 where
  pub listing : Listing
  pub file : String → Option File

-- ioutil.ReadDir and ioutil.ReadFile have failed.
pub data BlockDeviceError : Type 0 where
  dir_unreadable file_unreadable : BlockDeviceError

-- One of the two loops over the keys of a device, below the directory `dir`.
unfoldable pub add_keys :
    SysBlock → String → Dict String → List String → Result BlockDeviceError (Dict String)
add_keys sys dir result [] = ok result
add_keys sys dir result (key ∷ keys) = elim (sys.file (append dir (append "/" key))) [
  | none ↦ add_keys sys dir result keys
  | some broken ↦ err file_unreadable
  | some (content text) ↦ add_keys sys dir (insert key (trim_space text) result) keys
]

-- The body of the loop over the devices.
unfoldable pub device_spec : SysBlock → String → Result BlockDeviceError (Dict String)
unfolding add_keys
device_spec sys device_name =
    let dir = append "/sys/block/" device_name in
    add_keys sys dir [] ("size" ∷ "removable" ∷ []) >>= λ result.
    add_keys sys (append dir "/device") result
      ("model" ∷ "rev" ∷ "state" ∷ "timeout" ∷ "vendor" ∷ [])

unfoldable pub add_devices :
    SysBlock → Dict (Dict String) → List String → Result BlockDeviceError (Dict (Dict String))
unfolding device_spec
add_devices sys results [] = ok results
add_devices sys results (device_name ∷ device_names) = device_spec sys device_name >>= λ result.
    add_devices sys (insert device_name result results) device_names

-- Generate: no block devices where /sys/block does not exist.
unfoldable pub generate_block_device :
    SysBlock → Result BlockDeviceError (Option (Dict (Dict String)))
unfolding add_devices
generate_block_device sys = elim sys.listing [
  | not_exist ↦ ok none
  | unreadable ↦ err dir_unreadable
  | names device_names ↦ add_devices sys [] device_names >>= λ results. ok (some results)
]
