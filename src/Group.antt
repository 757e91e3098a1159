-- ===== src/Group.antt =====
-- `connman_group_t` of src/connman_group.h under the properties that connman reports, from
-- src/connman_group.c. `peer_list` has the paths of the peers; the manager fills it.
use webos_connman_adapter.Base.{
  ℕ, ◌≡◌, refl, Bool, true, false, List, [], ◌∷◌, Option, none, some, String, if◌then◌else◌, arith,
}

-- A property with its value; each is named for the field that it sets, `other` is any other one.
pub data GroupProperty : Type 0 where
  name passphrase group_owner local_address : String → GroupProperty
  is_group_owner is_persistent tethering : Bool → GroupProperty
  freq : ℕ → GroupProperty
  other : GroupProperty

-- `handle_property_change_fn` is whether a handler is registered; `told` has the properties that it
-- was called with, newest first.
pub record Group : Type 0 where
  pub path : String
  pub name : Option String
  pub passphrase : Option String
  pub group_owner : Option String
  pub local_address : Option String
  pub is_group_owner : Bool
  pub is_persistent : Bool
  pub tethering : Bool
  pub freq : ℕ
  pub peer_list : List String
  pub handle_property_change_fn : Bool
  pub told : List GroupProperty

abbrev pub blank_group : String → Group
blank_group path = record {
  path = path;
  name = none;
  passphrase = none;
  group_owner = none;
  local_address = none;
  is_group_owner = false;
  is_persistent = false;
  tethering = false;
  freq = 0;
  peer_list = [];
  handle_property_change_fn = false;
  told = [];
}

-- `__connman_group_update_property`.
unfoldable pub update_group_property : GroupProperty → Group → Group
update_group_property (name v) g = record g { name = some v }
update_group_property (passphrase v) g = record g { passphrase = some v }
update_group_property (group_owner v) g = record g { group_owner = some v }
update_group_property (local_address v) g = record g { local_address = some v }
update_group_property (is_group_owner v) g = record g { is_group_owner = v }
update_group_property (is_persistent v) g = record g { is_persistent = v }
update_group_property (tethering v) g = record g { tethering = v }
update_group_property (freq v) g = record g { freq = v }
update_group_property other g = g

-- `property_changed_cb`; the second result is whether the manager's handler is called, which gets
-- no property.
unfoldable pub group_property_changed_cb : Bool → GroupProperty → Group → Group × Bool
unfolding update_group_property
group_property_changed_cb handle_groups_change_fn q g =
    let g' = update_group_property q g in
    (
      if g'.handle_property_change_fn then record g' { told = q ∷ g'.told } else g',
      handle_groups_change_fn,
    )

-- `ok` is whether the remote call works.
unfoldable pub connman_group_set_tethering : Bool → Bool → Group → Bool × Group
connman_group_set_tethering ok enable g =
    if ok then (true, record g { tethering = enable }) else (false, g)

-- The loop of `connman_group_get_local_address`.
unfoldable pub update_local_address : List GroupProperty → Group → Group
unfolding update_group_property
update_local_address [] g = g
update_local_address (local_address v ∷ qs) g =
    update_local_address qs (update_group_property (local_address v) g)
update_local_address (_ ∷ qs) g = update_local_address qs g

-- `fetch` is the remote call, NULL if it fails.
unfoldable pub connman_group_get_local_address :
    (Group → Option (List GroupProperty)) → Group → Bool × Group
unfolding update_local_address
connman_group_get_local_address fetch g = elim (fetch g) [
  | none ↦ (false, g)
  | some qs ↦ (true, update_local_address qs g)
]

unfoldable pub update_group_properties : List GroupProperty → Group → Group
unfolding update_group_property
update_group_properties [] g = g
update_group_properties (q ∷ qs) g = update_group_properties qs (update_group_property q g)

-- NULL where the proxy cannot be made.
unfoldable pub connman_group_new : (String → Bool) → String → List GroupProperty → Option Group
unfolding update_group_properties
connman_group_new proxy_made path qs =
    if proxy_made path then some (update_group_properties qs (blank_group path)) else none

unfoldable pub connman_group_register_property_changed_cb : Group → Group
connman_group_register_property_changed_cb g = record g { handle_property_change_fn = true }

-- The address of the last "LocalAddress", or an earlier one.
abbrev pub last_address : Option String → List GroupProperty → Option String
last_address old [] = old
last_address old (local_address v ∷ qs) = last_address (some v) qs
last_address old (_ ∷ qs) = last_address old qs

update_local_address_lem :
    (qs : List GroupProperty) (g : Group)
    → update_local_address qs g ≡ record g { local_address = last_address g.local_address qs }
unfolding update_local_address
update_local_address_lem [] g = refl
update_local_address_lem (local_address v ∷ qs) g =
    update_local_address_lem qs (record g { local_address = some v })
update_local_address_lem (name v ∷ qs) g = update_local_address_lem qs g
update_local_address_lem (passphrase v ∷ qs) g = update_local_address_lem qs g
update_local_address_lem (group_owner v ∷ qs) g = update_local_address_lem qs g
update_local_address_lem (is_group_owner v ∷ qs) g = update_local_address_lem qs g
update_local_address_lem (is_persistent v ∷ qs) g = update_local_address_lem qs g
update_local_address_lem (tethering v ∷ qs) g = update_local_address_lem qs g
update_local_address_lem (freq v ∷ qs) g = update_local_address_lem qs g
update_local_address_lem (other ∷ qs) g = update_local_address_lem qs g

-- Of all the properties that the remote call reports, the last local address is taken over and
-- nothing else; where the call fails the group stays as it is, and the result is false.
pub connman_group_get_local_address_lem :
    (fetch : Group → Option (List GroupProperty)) (g : Group)
    → ((qs : List GroupProperty)
        → fetch g ≡ some qs
        → connman_group_get_local_address fetch g
          ≡ (true, record g { local_address = last_address g.local_address qs }))
      × (fetch g ≡ none → connman_group_get_local_address fetch g ≡ (false, g))
unfolding connman_group_get_local_address
connman_group_get_local_address_lem fetch g = (
  λ qs e. rw (e, connman_group_get_local_address) (ground (arith, update_local_address_lem qs g)),
  λ e. rw (e, connman_group_get_local_address) refl,
)
