-- ===== src/Config/Device.antt =====
-- Devices and their validation: `Device` of internal/config/config.go. An `int` is kept as its bit
-- pattern. `errors.Join` is the list of the errors that it joins, in order; the empty list is nil.
use mikrotik_exporter.Prelude.{
  ℕ, Bool, not, Option, none, some, List, [], ◌∷◌, ◌++◌, if◌then◌else◌, Bytes, codes, is_empty,
  Dict, lookup,
}
use mikrotik_exporter.Config.Features.{Features}
use mikrotik_exporter.Config.Version.{FirmwareVersion}

pub record DnsServer : Type 0 where
  pub address : Bytes
  pub port : ℕ

pub record SrvRecord : Type 0 where
  pub dns : Option DnsServer
  pub record_name : Bytes

pub record Device : Type 0 where
  pub srv : Option SrvRecord
  pub profile : Bytes
  pub user : Bytes
  pub password : Bytes
  pub port : Bytes
  pub name : Bytes
  pub address : Bytes
  pub timeout : ℕ
  pub collect_timeout : ℕ
  pub ipv6_disabled : Bool
  pub tls : Bool
  pub insecure : Bool
  pub disabled : Bool
  pub firmware_version : FirmwareVersion
  pub timezone : Bytes

-- `MissingFieldError`, `UnknownProfileError` and `UnknownFeatureError`.
pub data ConfigError : Type 0 where
  missing_field unknown_profile unknown_feature : Bytes → ConfigError

abbrev pub require : Bytes → Bytes → List ConfigError
require value field = if is_empty value then missing_field field ∷ [] else []

-- The tests on how the device is found.
abbrev pub address_errors : Option SrvRecord → Bytes → Bytes → List ConfigError
address_errors none name address = require name (codes "name") ++ require address (codes "address")
address_errors (some srv) name address = require srv.record_name (codes "srv.record")

unfoldable pub validate_conn_conf : Device → List ConfigError
validate_conn_conf d =
    address_errors d.srv d.name d.address
    ++ (require d.user (codes "user") ++ require d.password (codes "password"))

unfoldable pub validate_profile : Device → Dict Features → List ConfigError
validate_profile d profiles =
    if is_empty d.profile
    then []
    else elim (lookup d.profile profiles) [ some _ ↦ [] | none ↦ unknown_profile d.profile ∷ [] ]

unfoldable pub validate_device : Device → Dict Features → List ConfigError
validate_device d profiles = validate_conn_conf d ++ validate_profile d profiles

-- `filterDevices`.
unfoldable pub filter_devices : List Device → List Device
filter_devices [] = []
filter_devices (d ∷ ds) = if not d.disabled then d ∷ filter_devices ds else filter_devices ds
