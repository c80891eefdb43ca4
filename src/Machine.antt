-- ===== src/Machine.antt =====
-- utils/machine.go: the address that an agent registers with.
use rediver_sdk_go.Prelude.{
  Bool, String, Option, none, some, List, [], ◌∷◌, not, ◌&&◌, if◌then◌else◌,
}

-- An interface's address: `is_ip_net` is the type assertion to *net.IPNet.
pub record Address : Type 0 where
  pub is_ip_net : Bool
  pub is_loopback : Bool
  pub is_ipv4 : Bool
  pub text : String

unfoldable pub first_address : List Address → String
first_address [] = "unknown"
first_address (a ∷ as') =
    if a.is_ip_net && not a.is_loopback && a.is_ipv4 then a.text else first_address as'

-- `GetIPAddress`; `none` is an error of net.InterfaceAddrs.
unfoldable pub get_ip_address : Option (List Address) → String
unfolding first_address
get_ip_address none = "unknown"
get_ip_address (some addresses) = first_address addresses
