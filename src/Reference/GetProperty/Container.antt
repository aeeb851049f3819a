-- ===== src/Reference/GetProperty/Container.antt =====
-- examples/vdc-reference.c: the properties of the container.
use libdsvdc.Base.{false, ◌++◌, [], ◌∷◌, bytes_eq, if◌then◌else◌, codes}
use libdsvdc.Memory.{pure}
use libdsvdc.Reference.GetProperty.Reply.{Answering, set_bool, set_string, reply_with}
use libdsvdc.Reference.Site.{Site, get_network_interface}

-- The ladder of `getprop_cb` for the container.
unfoldable pub answer_container : Site → Answering
unfolding reply_with
answer_container site name =
    if bytes_eq name (codes "hardwareGuid")
    then set_string name (codes "macaddress:" ++ get_network_interface site)
    else if bytes_eq name (codes "modelGuid")
    then set_string name (codes "[modelGuid]")
    else if bytes_eq name (codes "vendorId")
    then set_string name (codes "digitalSTROM")
    else if bytes_eq name (codes "name")
    then set_string name (codes "libdSvDC reference application vDC")
    else if bytes_eq name (codes "model")
    then set_string name (codes "libdSvDC vDC")
    else if bytes_eq name (codes "type")
    then set_string name (codes "vDC")
    else if bytes_eq name (codes "capabilities")
    then reply_with (set_bool (codes "metering") false ∷ []) name
    else if bytes_eq name (codes "configURL")
    then set_string name (codes "/add-ons/libdsvdc")
    else pure
