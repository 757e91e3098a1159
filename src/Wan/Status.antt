-- ===== src/Wan/Status.antt =====
-- `retrieve_wan_context`, `append_wan_status` and `append_contexts` of src/wan_service.c.
use webos_connman_adapter.Base.{Bool, true, false, ◌||◌, List, [], ◌∷◌, String, if◌then◌else◌, ltb}
use webos_connman_adapter.Platform.{Json, Fields, member, items_of}
use webos_connman_adapter.Service.Info.{ℤ, pos, negsuc, Ipv4Info, Ipv6Info}
use webos_connman_adapter.Service.State.{
  Service, connman_service_is_connected, connman_service_is_online,
}
use webos_connman_adapter.Service.Details.{connman_service_get_ipinfo}
use webos_connman_adapter.Connection.State.{Remote, put_text, text_or, utf8_of}
use webos_connman_adapter.Connection.Message.{texts_of, strv}

-- `jobject_put` of an object that is not empty.
abbrev put_object : String → Fields → Fields → Fields
put_object key Fields.end fs = fs
put_object key (Fields.field k v gs) fs = member key (Json.obj (Fields.field k v gs)) fs

abbrev put_prefix : ℤ → Fields → Fields
put_prefix (pos n) fs = if ltb 0 n then member "prefixLength" (Json.number n) fs else fs
put_prefix (negsuc n) fs = fs

abbrev wan_ipv4 : Ipv4Info → Fields
wan_ipv4 i =
    put_text "gateway" i.gateway
      (put_text "subnet" i.netmask (put_text "address" i.address Fields.end))

abbrev wan_ipv6 : Ipv6Info → Fields
wan_ipv6 i =
    put_text "gateway" i.gateway
      (put_prefix i.prefix_length (put_text "address" i.address Fields.end))

-- The object of one service, put into `fs`.
unfoldable pub retrieve_wan_context : Remote → Service → Fields → Fields
retrieve_wan_context r s fs =
    let named = member "name" (text_or r.jstring_null (utf8_of r s.name)) fs in
    let states =
      member "onInternet" (Json.boolean (connman_service_is_online s))
        (member "connected" (Json.boolean (connman_service_is_connected s)) named) in
    let addressed =
      put_object "ipv6" (wan_ipv6 s.ipinfo.ipv6)
        (put_object "ipv4" (wan_ipv4 s.ipinfo.ipv4) (put_text "interface" s.ipinfo.iface states)) in
    member "hosts" (texts_of (strv s.hostroutes))
      (member "dns" (texts_of (strv s.ipinfo.dns)) addressed)

abbrev pub context_of : Remote → Service → Json
context_of r s = Json.obj (retrieve_wan_context r s Fields.end)

-- The loop of `append_wan_status`: the services with the addresses that connman reports, the
-- contexts of the connected ones, whether there is one, and whether one is online.
pub record WanStatus : Type 0 where
  pub services : List Service
  pub contexts : List Json
  pub connected : Bool
  pub online : Bool

unfoldable pub wan_status : Remote → List Service → WanStatus
wan_status r [] = record { services = []; contexts = []; connected = false; online = false }
wan_status r (s ∷ ss) =
    let rest = wan_status r ss in
    let located = (connman_service_get_ipinfo r.char_value (r.ip_reply s) s).1 in
    if connman_service_is_connected s
    then record {
      services = located ∷ rest.services;
      contexts = context_of r located ∷ rest.contexts;
      connected = true;
      online = connman_service_is_online s || rest.online;
    }
    else record rest { services = s ∷ rest.services }

unfoldable pub append_wan_status : Remote → List Service → Fields → List Service × Fields
unfolding wan_status
append_wan_status r ss fs =
    let status = wan_status r ss in
    (
      status.services,
      member "connectedContexts" (Json.arr (items_of status.contexts)) (
          member "connected" (Json.boolean status.connected)
            (member "onInternet" (Json.boolean status.online) fs)),
    )

-- The loop of `append_contexts`, over all services.
unfoldable pub wan_contexts : Remote → List Service → List Service × List Json
wan_contexts r [] = ([], [])
wan_contexts r (s ∷ ss) =
    let rest = wan_contexts r ss in
    let located = (connman_service_get_ipinfo r.char_value (r.ip_reply s) s).1 in
    (located ∷ rest.0, context_of r located ∷ rest.1)

unfoldable pub append_contexts : Remote → List Service → Fields → List Service × Fields
unfolding wan_contexts
append_contexts r ss fs =
    let listed = wan_contexts r ss in
    (listed.0, member "contexts" (Json.arr (items_of listed.1)) fs)
