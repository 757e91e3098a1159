-- ===== src/Service/Marks.antt =====
-- The name, state, strength and online flag of a service do not change unmarked.
use webos_connman_adapter.Base.{
  ◌≡◌, refl, Bool, true, false, List, [], ◌∷◌, Option, none, some, String, str_eq, str_eq_iff,
  str_eq0, ◌||◌, ◌↔◌, arith,
}
use webos_connman_adapter.Service.Kind.{
  ServiceState, no_state, idle, association, configuration, ready, online, disconnect, failure,
  connman_service_get_webos_state, connman_service_get_state, is_online_state, is_ready_state,
}
use webos_connman_adapter.Service.State.{
  Service, connman_service_advance_state, connman_service_advance_online_state,
  connman_service_is_connected,
}
use webos_connman_adapter.Service.Update.{
  Texts, Property, update_property, connman_service_update_properties,
}

-- No mark is taken back; without the mark "findnetworks" the name, the state and the strength are
-- the old ones, and without the mark "getstatus" the name, the state and the online flag.
pub record Marked (s t : Service) : Type 0 where
  pub kept_findnetworks : s.change_mask.findnetworks ≡ true → t.change_mask.findnetworks ≡ true
  pub kept_getstatus : s.change_mask.getstatus ≡ true → t.change_mask.getstatus ≡ true
  pub findnetworks :
      t.change_mask.findnetworks ≡ false
      → (t.name ≡ s.name) × (t.state ≡ s.state) × (t.strength ≡ s.strength)
  pub getstatus :
      t.change_mask.getstatus ≡ false
      → (t.name ≡ s.name) × (t.state ≡ s.state) × (t.online ≡ s.online)

str_eq0_eq : (a b : Option String) → str_eq0 a b ≡ true → a ≡ b
str_eq0_eq none none h = refl
str_eq0_eq none (some b) h = cc
str_eq0_eq (some a) none h = cc
str_eq0_eq (some a) (some b) h = ground (arith, str_eq_iff a b)

Marked-refl : (s : Service) → Marked s s
Marked-refl s = ground arith

Marked-trans : {s t u : Service} → Marked s t → Marked t u → Marked s u
Marked-trans m n = ground arith

advance_state-Marked : (v : String) (s : Service) → Marked s (connman_service_advance_state v s)
unfolding connman_service_advance_state
advance_state-Marked v s = ground arith

advance_online_state-Marked :
    (b : Bool) (s : Service) → Marked s (connman_service_advance_online_state b s)
unfolding connman_service_advance_online_state
advance_online_state-Marked b s = ground arith

update_property-Marked :
    (texts : Texts) (q : Property) (s : Service) → Marked s (update_property texts q s)
unfolding update_property
update_property-Marked texts (Property.name n) s = ground (arith, str_eq0_eq (some n) s.name)
update_property-Marked texts (Property.state v) s = ground (arith, advance_state-Marked v s)
update_property-Marked texts (Property.online b) s = advance_online_state-Marked b s
update_property-Marked texts _ s = ground arith

-- However many properties connman reports for a service in one message, its name, state, strength
-- and online flag do not change without the mark by which the next status message is sent, and no
-- mark is taken back. Nothing is said of the online check and of what else subscribers see, which
-- the function changes without a mark.
pub update_properties-Marked :
    (texts : Texts) (qs : List Property) (s : Service)
    → Marked s (connman_service_update_properties texts qs s)
unfolding connman_service_update_properties
update_properties-Marked texts [] s = Marked-refl s
update_properties-Marked texts (q ∷ qs) s =
    Marked-trans (update_property-Marked texts q s)
      (update_properties-Marked texts qs (update_property texts q s))

-- `Marked`, and what the status shows of whether the service is online changes with the mark
-- "getstatus" alone; the display name, the security types, the address and the BSS list stay.
pub record MarkedAll (s t : Service) : Type 0 where
  pub marked : Marked s t
  pub online_checking : t.change_mask.getstatus ≡ false → t.online_checking ≡ s.online_checking
  pub kept :
      (t.display_name ≡ s.display_name)
      × (t.security ≡ s.security)
      × (t.address ≡ s.address)
      × (t.bss ≡ s.bss)

ip_configured :
    (state : ServiceState)
    → str_eq (connman_service_get_webos_state state) "ipConfigured"
      ≡ (is_online_state state || is_ready_state state)
unfolding connman_service_get_webos_state
ip_configured no_state = refl
ip_configured idle = refl
ip_configured association = refl
ip_configured configuration = refl
ip_configured ready = refl
ip_configured online = refl
ip_configured disconnect = refl
ip_configured failure = refl

-- A service is connected exactly if its webOS state is "ipConfigured".
pub is_connected_iff :
    (s : Service)
    → (connman_service_is_connected s ≡ true)
      ↔ (connman_service_get_webos_state (connman_service_get_state s.state) ≡ "ipConfigured")
unfolding connman_service_is_connected
is_connected_iff s =
    let state = connman_service_get_state s.state in
    ground (
      arith,
      ip_configured state,
      str_eq_iff (connman_service_get_webos_state state) "ipConfigured",
    )
