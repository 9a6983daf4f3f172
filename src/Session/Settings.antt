-- ===== src/Session/Settings.antt =====
-- client/client.go and client/uri_helper.go: the configuration, and what is computed from it.
use go_psrp.Common.{ℕ, ◌+◌, Bool, ◌&&◌, ◌||◌, not, ◌++◌, if◌then◌else◌}
use go_psrp.Common.Int.{ℤ, pos, is_zero_ℤ, ltb_ℤ, leb_ℤ}
use go_psrp.Common.Text.{Text, codes, is_empty, contains}

pub data TransportType : Type 0 where
  wsman hv_socket : TransportType

pub record Config : Type 0 where
  pub transport : TransportType
  pub max_runspaces : ℤ
  pub max_concurrent_commands : ℤ
  pub max_queue_size : ℤ
  pub timeout : ℤ
  pub resource_uri : Text
  pub configuration_name : Text
  pub idle_timeout : Text
  pub keep_alive_interval : ℤ
  pub reconnect_enabled : Bool

abbrev pub base_uri : Text
base_uri = codes "http://schemas.microsoft.com/powershell/"

unfoldable pub build_resource_uri : Config → Text
build_resource_uri c =
    if not (is_empty c.resource_uri)
    then c.resource_uri
    else if not (is_empty c.configuration_name)
    then (if contains c.configuration_name (codes "/") || contains c.configuration_name (codes "\\")
        then base_uri ++ codes "Microsoft.PowerShell"
        else base_uri ++ c.configuration_name)
    else base_uri ++ codes "Microsoft.PowerShell"

-- The size of the pool on Connect, and of the semaphore.
unfoldable pub connect_runspaces : Config → ℤ
connect_runspaces c =
    let asked =
      if is_zero_ℤ c.max_runspaces && ltb_ℤ (pos 0) c.max_concurrent_commands
      then c.max_concurrent_commands
      else c.max_runspaces in
    if leb_ℤ asked (pos 0) then pos 1 else asked

-- The size of the pool on Reconnect.
unfoldable pub reconnect_runspaces : Config → ℤ
reconnect_runspaces c = if leb_ℤ c.max_runspaces (pos 0) then pos 1 else c.max_runspaces

-- callIDManager, whose counter an int64 holds.
unfoldable pub next_call_id : ℕ → ℕ
next_call_id id = id + 1
