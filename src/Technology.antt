-- ===== src/Technology.antt =====
-- `connman_technology_t` of src/connman_technology.h under the properties that connman reports:
-- `set_property_value`, `property_changed_cb`, `connman_technology_get_properties` and
-- `connman_technology_new` of src/connman_technology.c.
use webos_connman_adapter.Base.{
  ℕ, ◌≡◌, refl, Bool, true, false, List, [], ◌∷◌, Option, none, some, String, if◌then◌else◌, arith,
  Option-cases, inl, inr,
}

-- A property with its value at the type that connman gives it; each is named for the field that it
-- sets. "P2PPersistent" and "MultiChannelSchedMode" are the ones whose D-Bus names differ. `other`
-- is any other property.
pub data TechnologyProperty : Type 0 where
  type name p2p_identifier diagnostic_info tethering_identifier tethering_passphrase country_code :
      String → TechnologyProperty
  powered connected p2p wfd p2p_listen persistent_mode legacy_scan wfd_sessionavail wfd_cpsupport
        tethering :
      Bool → TechnologyProperty
  wfd_devtype wfd_rtspport multi_channel_mode : ℕ → TechnologyProperty
  other : TechnologyProperty

-- `handle_property_changed_fn` is whether a handler is registered; `told` has the properties that it was called
-- with, newest first. The string fields are NULL at first.
pub record Technology : Type 0 where
  pub path : String
  pub type : Option String
  pub name : Option String
  pub p2p_identifier : Option String
  pub country_code : Option String
  pub diagnostic_info : Option String
  pub tethering_identifier : Option String
  pub tethering_passphrase : Option String
  pub powered : Bool
  pub connected : Bool
  pub tethering : Bool
  pub p2p : Bool
  pub wfd : Bool
  pub p2p_listen : Bool
  pub persistent_mode : Bool
  pub wfd_sessionavail : Bool
  pub wfd_cpsupport : Bool
  pub legacy_scan : Bool
  pub wfd_devtype : ℕ
  pub wfd_rtspport : ℕ
  pub multi_channel_mode : ℕ
  pub handle_property_changed_fn : Bool
  pub told : List TechnologyProperty

-- The zeroed structure with its path.
abbrev pub blank_technology : String → Technology
blank_technology path = record {
  path = path;
  type = none;
  name = none;
  p2p_identifier = none;
  country_code = none;
  diagnostic_info = none;
  tethering_identifier = none;
  tethering_passphrase = none;
  powered = false;
  connected = false;
  tethering = false;
  p2p = false;
  wfd = false;
  p2p_listen = false;
  persistent_mode = false;
  wfd_sessionavail = false;
  wfd_cpsupport = false;
  legacy_scan = false;
  wfd_devtype = 0;
  wfd_rtspport = 0;
  multi_channel_mode = 0;
  handle_property_changed_fn = false;
  told = [];
}

unfoldable pub set_property_value : TechnologyProperty → Technology → Technology
set_property_value (type v) t = record t { type = some v }
set_property_value (name v) t = record t { name = some v }
set_property_value (powered v) t = record t { powered = v }
set_property_value (connected v) t = record t { connected = v }
set_property_value (p2p v) t = record t { p2p = v }
set_property_value (p2p_identifier v) t = record t { p2p_identifier = some v }
set_property_value (wfd v) t = record t { wfd = v }
set_property_value (p2p_listen v) t = record t { p2p_listen = v }
set_property_value (persistent_mode v) t = record t { persistent_mode = v }
set_property_value (legacy_scan v) t = record t { legacy_scan = v }
set_property_value (wfd_devtype v) t = record t { wfd_devtype = v }
set_property_value (wfd_sessionavail v) t = record t { wfd_sessionavail = v }
set_property_value (wfd_cpsupport v) t = record t { wfd_cpsupport = v }
set_property_value (wfd_rtspport v) t = record t { wfd_rtspport = v }
set_property_value (multi_channel_mode v) t = record t { multi_channel_mode = v }
set_property_value (diagnostic_info v) t = record t { diagnostic_info = some v }
set_property_value (tethering v) t = record t { tethering = v }
set_property_value (tethering_identifier v) t = record t { tethering_identifier = some v }
set_property_value (tethering_passphrase v) t = record t { tethering_passphrase = some v }
set_property_value (country_code v) t = record t { country_code = some v }
set_property_value other t = t

-- The callbacks of the vendor change nothing here.
unfoldable pub property_changed_cb : TechnologyProperty → Technology → Technology
unfolding set_property_value
property_changed_cb q t =
    let t' = set_property_value q t in
    if t'.handle_property_changed_fn then record t' { told = q ∷ t'.told } else t'

-- The loop of `connman_technology_get_properties`.
unfoldable pub set_properties : List TechnologyProperty → Technology → Technology
unfolding set_property_value
set_properties [] t = t
set_properties (q ∷ qs) t = set_properties qs (set_property_value q t)

-- `fetch` is the remote call, NULL if it fails; the result tells whether it did not.
unfoldable pub connman_technology_update_properties :
    (Technology → Option (List TechnologyProperty)) → Technology → Bool × Technology
unfolding set_properties
connman_technology_update_properties fetch t = elim (fetch t) [
  | none ↦ (false, t)
  | some qs ↦ (true, set_properties qs t)
]

-- `proxy_made` is whether the D-Bus proxy of a path can be made.
unfoldable pub connman_technology_new :
    (String → Bool) → (Technology → Option (List TechnologyProperty)) → String → Option Technology
unfolding connman_technology_update_properties
connman_technology_new proxy_made fetch path =
    let (ok, t) = connman_technology_update_properties fetch (blank_technology path) in
    if proxy_made path then (if ok then some t else none) else none

unfoldable pub connman_technology_register_property_changed_cb : Technology → Technology
connman_technology_register_property_changed_cb t = record t { handle_property_changed_fn = true }

set_property_value-path :
    (q : TechnologyProperty) (t : Technology) → (set_property_value q t).path ≡ t.path
unfolding set_property_value
set_property_value-path q t = ground arith

set_properties-path :
    (qs : List TechnologyProperty) (t : Technology) → (set_properties qs t).path ≡ t.path
unfolding set_properties
set_properties-path [] t = refl
set_properties-path (q ∷ qs) t =
    ground (arith, set_properties-path qs (set_property_value q t), set_property_value-path q t)

pub connman_technology_new-path :
    (proxy_made : String → Bool) (fetch : Technology → Option (List TechnologyProperty))
    (path : String) (t : Technology)
    → connman_technology_new proxy_made fetch path ≡ some t
    → t.path ≡ path
unfolding connman_technology_new
connman_technology_new-path proxy_made fetch path t e =
    elim (Option-cases (fetch (blank_technology path))) [
      | inl failed ↦ absurd (ground (arith, failed, e))
      | inr (qs, fetched) ↦
          ground (arith, set_properties-path qs (blank_technology path), fetched, e)
    ]
