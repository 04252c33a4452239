-- ===== src/Capsule/CapsuleType.antt =====
-- crates/skimasque-core/src/capsule.rs: the registered codes of `CapsuleType`, a `u64` in a public
-- field, and their names.
use skimasque.Prelude.{ℕ, Option, none, some, ◌==◌, if◌then◌else◌}
use skimasque.Prelude.Text.{Text, codes}

abbrev pub datagram : ℕ
datagram = 0x00

abbrev pub address_assign : ℕ
address_assign = 0x01

abbrev pub address_request : ℕ
address_request = 0x02

abbrev pub route_advertisement : ℕ
route_advertisement = 0x03

unfoldable pub name : ℕ → Option Text
name kind =
    if kind == datagram
    then some (codes "DATAGRAM")
    else if kind == address_assign
    then some (codes "ADDRESS_ASSIGN")
    else if kind == address_request
    then some (codes "ADDRESS_REQUEST")
    else if kind == route_advertisement
    then some (codes "ROUTE_ADVERTISEMENT")
    else none
