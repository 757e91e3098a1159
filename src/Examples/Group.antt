-- ===== src/Examples/Group.antt =====
-- A run of src/connman_group.c.
use webos_connman_adapter.Base.{◌≡◌, refl, true, List, [], ◌∷◌, Option, some}
use webos_connman_adapter.Group.{GroupProperty, Group, blank_group, connman_group_get_local_address}

abbrev reported : Group → Option (List GroupProperty)
reported g = some (GroupProperty.freq 2412 ∷ GroupProperty.local_address "192.168.49.1" ∷ [])

abbrev group : Group
group = blank_group "/group/0"

group_run :
    connman_group_get_local_address reported group
    ≡ (true, record group { local_address = some "192.168.49.1" })
unfolding connman_group_get_local_address
group_run = refl
